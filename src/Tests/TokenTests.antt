-- ===== src/Tests/TokenTests.antt =====
-- packages/danaus/src/auth/web.ts at concrete inputs: a hash that is always the same three bytes, and
-- an encoding of bytes in unary.
use Prim.Native.Char.{code}
use Prim.Native.String.{[], ◌∷◌, ◌++◌}
use mathlib.Core.List as L
use danaus.Prelude.{ℕ, zero, suc, ◌+◌, ◌≡◌, refl, ap, ◌∙◌, String, arith, if◌then◌else◌, ◌==◌}
use danaus.SeqEvent.{Bytes}
use danaus.WebToken.{session, create_web_session_token, verify_web_session_token, split_at_dot}
use danaus.WebToken.RoundTrip.{verify_web_session_token-signed, verify-create_web_session_token}

abbrev pub toy_hmac : String → Bytes
toy_hmac id = L.◌∷◌ 1 (L.◌∷◌ 0 (L.◌∷◌ 2 L.[]))

abbrev unary : ℕ → String → String
unary zero t = "0" ∷ t
unary (suc n) t = "1" ∷ unary n t

abbrev pub write_bits : Bytes → String
write_bits L.[] = ""
write_bits (L.◌∷◌ b bytes) = unary b (write_bits bytes)

abbrev read_from : ℕ → String → Bytes
read_from n [] = L.[]
read_from n (c ∷ s) =
    let next = read_from 0 s in
    let more = read_from (suc n) s in if code c == 48 then L.◌∷◌ n next else more

abbrev pub read_bits : String → Bytes
read_bits s = read_from 0 s

read-unary : (n b : ℕ) (t : String) → read_from n (unary b t) ≡ L.◌∷◌ (n + b) (read_from 0 t)
read-unary n zero t = ap (λ k. L.◌∷◌ k (read_from 0 t)) (omega arith)
read-unary n (suc b) t = read-unary (suc n) b t ∙ ap (λ k. L.◌∷◌ k (read_from 0 t)) (omega arith)

pub read-write : (bytes : Bytes) → read_bits (write_bits bytes) ≡ bytes
read-write L.[] = refl
read-write (L.◌∷◌ b bytes) =
    let zero_add : 0 + b ≡ b = omega arith in
    read-unary 0 b (write_bits bytes)
    ∙ ap (λ k. L.◌∷◌ k (read_bits (write_bits bytes))) zero_add
    ∙ ap (λ bs. L.◌∷◌ b bs) (read-write bytes)

verify-create_web_session_token_example :
    verify_web_session_token toy_hmac read_bits (create_web_session_token toy_hmac write_bits "s1")
    ≡ session "s1"
unfolding split_at_dot
verify-create_web_session_token_example =
    verify-create_web_session_token toy_hmac read_bits write_bits "s1" read-write refl refl refl

verify_web_session_token-signed_example :
    (signature : String) × ("s1.100110" ≡ "s1" ++ "." ++ signature)
    × (toy_hmac "s1" ≡ read_bits signature)
unfolding verify_web_session_token
verify_web_session_token-signed_example =
    verify_web_session_token-signed toy_hmac read_bits "s1.100110" "s1" refl
