-- ===== src/WebToken/RoundTrip.antt =====
-- packages/danaus/src/auth/web.ts: which tokens are accepted.
use Prim.Native.Char.{Char, code}
use Prim.Native.String.{[], ◌∷◌, ◌++◌}
use text.Mathlib.TextLemmas.{nil-append, cons-append}
use text.Mathlib.TextEquality.{Char-path}
use mathlib.Core.Option.{some-injective}
use danaus.Prelude.{
  ◌≡◌, refl, sym, ap, ◌∙◌, String, true, false, none, some, arith, ◌==◌, ◌||◌, str_eq, length,
  Bool-cases, Option-cases, inl, inr,
}
use danaus.SeqEvent.{Bytes}
use danaus.WebToken.{
  session, null, split_at_dot, sign_web_session_id, create_web_session_token, compare_signatures,
  verify_web_session_token,
}
use danaus.WebToken.Bytewise.{bytes_eq, bytes_eq_refl, bytes_eq→eq}

module _ (c : Char) (s : String) where
  split-here : (code c == 46) ≡ true → split_at_dot (c ∷ s) ≡ some ("", s)
  unfolding split_at_dot
  split-here d = ground arith

  split-nowhere : (code c == 46) ≡ false → split_at_dot s ≡ none → split_at_dot (c ∷ s) ≡ none
  unfolding split_at_dot
  split-nowhere d e = ground arith

  split-later :
      (before after : String)
      → (code c == 46) ≡ false
      → split_at_dot s ≡ some (before, after)
      → split_at_dot (c ∷ s) ≡ some (c ∷ before, after)
  unfolding split_at_dot
  split-later before after d e = ground arith

dot-append : (s : String) → "." ++ s ≡ "." ∷ s
dot-append s = cons-append "." [] s ∙ ap (λ t. "." ∷ t) (nil-append s)

split_at_dot-joined :
    (id signature : String)
    → split_at_dot id ≡ none
    → split_at_dot (id ++ "." ++ signature) ≡ some (id, signature)
split_at_dot-joined [] signature h =
    ap split_at_dot (nil-append ("." ++ signature) ∙ dot-append signature)
    ∙ split-here "." signature refl
split_at_dot-joined (c ∷ s) signature h = elim (Bool-cases (code c == 46)) [
  | inl d ↦ cc (h, split-here c s d)
  | inr d ↦ elim (Option-cases (split_at_dot s)) [
    | inl e ↦
        ap split_at_dot (cons-append c s ("." ++ signature))
        ∙ split-later c (s ++ "." ++ signature) s signature d (split_at_dot-joined s signature e)
    | inr ((before, after), e) ↦ cc (h, split-later c s before after d e)
  ]
]

split_at_dot-joins :
    (token id signature : String)
    → split_at_dot token ≡ some (id, signature)
    → token ≡ id ++ "." ++ signature
unfolding split_at_dot
split_at_dot-joins [] id signature h = cc
split_at_dot-joins (c ∷ s) id signature h = elim (Bool-cases (code c == 46)) [
  | inl d ↦
      let same = some-injective ("", s) (id, signature) (sym (split-here c s d) ∙ h) in
      ap (λ x. x ∷ s) (Char-path c "." (ground arith))
      ∙ sym (dot-append s)
      ∙ sym (nil-append ("." ++ s))
      ∙ ap (λ (p : String × String). p.0 ++ "." ++ p.1) same
  | inr d ↦ elim (Option-cases (split_at_dot s)) [
    | inl e ↦ cc (h, split-nowhere c s d e)
    | inr ((before, after), e) ↦
        let same =
          some-injective (c ∷ before, after) (id, signature)
            (sym (split-later c s before after d e) ∙ h) in
        ap (λ t. c ∷ t) (split_at_dot-joins s before after e)
        ∙ sym (cons-append c before ("." ++ after))
        ∙ ap (λ (p : String × String). p.0 ++ "." ++ p.1) same
  ]
]

compare-same : (id : String) (b : Bytes) → compare_signatures id b b ≡ session id
unfolding compare_signatures
compare-same id b = ground (arith, bytes_eq_refl b)

compare_sound :
    (id other : String) (expected given : Bytes)
    → compare_signatures id expected given ≡ session other
    → (id ≡ other) × (expected ≡ given)
unfolding compare_signatures
compare_sound id other expected given h = elim (Bool-cases (length expected == length given)) [
  | inr e ↦ absurd (ground arith)
  | inl e ↦ elim (Bool-cases (bytes_eq expected given)) [
    | inl k ↦ (ground arith, bytes_eq→eq expected given k)
    | inr k ↦ absurd (ground arith)
  ]
]

module _ (hmac : String → Bytes) (from_base64url : String → Bytes) where
  verify-split :
      (token id signature : String)
      → split_at_dot token ≡ some (id, signature)
      → (str_eq id "" || str_eq signature "") ≡ false
      → verify_web_session_token hmac from_base64url token
        ≡ compare_signatures id (hmac id) (from_base64url signature)
  unfolding verify_web_session_token
  verify-split token id signature e h = ground arith

  verify-empty :
      (token id signature : String)
      → split_at_dot token ≡ some (id, signature)
      → (str_eq id "" || str_eq signature "") ≡ true
      → verify_web_session_token hmac from_base64url token ≡ null
  unfolding verify_web_session_token
  verify-empty token id signature e h = ground arith

  verify-whole :
      (token : String)
      → split_at_dot token ≡ none
      → verify_web_session_token hmac from_base64url token ≡ null
  unfolding verify_web_session_token
  verify-whole token e = ground arith

  -- A token that is verified as an id is that id, a full stop and a text that stands for the
  -- signature of the id.
  pub verify_web_session_token-signed :
      (token id : String)
      → verify_web_session_token hmac from_base64url token ≡ session id
      → (signature : String) × (token ≡ id ++ "." ++ signature)
        × (hmac id ≡ from_base64url signature)
  verify_web_session_token-signed token id h = elim (Option-cases (split_at_dot token)) [
    | inl e ↦ cc (h, verify-whole token e)
    | inr ((before, after), e) ↦ elim (Bool-cases (str_eq before "" || str_eq after "")) [
      | inl k ↦ cc (h, verify-empty token before after e k)
      | inr k ↦
          let (same, signed) =
            compare_sound before id (hmac before) (from_base64url after)
              (sym (verify-split token before after e k) ∙ h) in
          (
            after,
            split_at_dot-joins token before after e ∙ ap (λ t. t ++ "." ++ after) same,
            ap hmac (sym same) ∙ signed,
          )
    ]
  ]

  -- Where base64url is read back as what was written, the token that is made for a session's id is
  -- verified as that id, if the id is not empty and has no full stop, and its signature not empty.
  pub verify-create_web_session_token :
      (to_base64url : Bytes → String) (id : String)
      → ((bytes : Bytes) → from_base64url (to_base64url bytes) ≡ bytes)
      → split_at_dot id ≡ none
      → str_eq id "" ≡ false
      → str_eq (to_base64url (hmac id)) "" ≡ false
      → verify_web_session_token hmac from_base64url (create_web_session_token hmac to_base64url id)
        ≡ session id
  unfolding create_web_session_token sign_web_session_id
  verify-create_web_session_token to_base64url id back plain named signed =
      verify-split (id ++ "." ++ to_base64url (hmac id)) id (to_base64url (hmac id))
        (split_at_dot-joined id (to_base64url (hmac id)) plain) (ground arith)
      ∙ ap (compare_signatures id (hmac id)) (back (hmac id))
      ∙ compare-same id (hmac id)
