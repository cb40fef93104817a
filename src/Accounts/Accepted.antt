-- ===== src/Accounts/Accepted.antt =====
-- packages/danaus/src/accounts/manager.ts: the handles that `validateHandle` accepts.
use danaus.Prelude.{
  ok-injective, fail-ne-ok, ok, String, ◌≡◌, refl, ap, subst, true, false, Option, some, List,
  arith, ◌≤◌, ◌⊎◌, str_eq, str_eq→eq, ltb, Bool-cases, Option-cases, inl, inr, [], ◌∷◌, All, false,
}
use danaus.Table.{first, any}
use danaus.Accounts.{Texts}
use danaus.Accounts.Handles.{
  ends_with, before_suffix, has_dot, is_service_domain, ends_with_any, is_valid_tld, Resolution,
  resolved, not_found, invalid_resolved, failed, check_front, check_resolved, validate_handle,
}

-- One label before the suffix, of 1 to 63 units.
abbrev pub OneLabel : Texts → String → String → Type 0
OneLabel T handle suffix =
    (has_dot (before_suffix handle suffix) ≡ false)
    × (1 ≤ T.units (before_suffix handle suffix))
    × (T.units (before_suffix handle suffix) ≤ 63)

front-accepted :
    (T : Texts) (handle suffix h : String)
    → check_front T handle suffix ≡ ok h
    → (handle ≡ h) × OneLabel T handle suffix
front-accepted T handle suffix h e = elim (Bool-cases (has_dot (before_suffix handle suffix))) [
  | inl a ↦ absurd (cc (rw a at e))
  | inr a ↦ elim (Bool-cases (ltb (T.units (before_suffix handle suffix)) 1)) [
    | inl b ↦ absurd (cc (rw (a, b) at e))
    | inr b ↦ elim (Bool-cases (ltb 63 (T.units (before_suffix handle suffix)))) [
      | inl c ↦ absurd (cc (rw (a, b, c) at e))
      | inr c ↦
          (ok-injective handle h (rw (a, b, c) at e), (a, ground (arith, b), ground (arith, c)))
    ]
  ]
]

resolved-accepted :
    (handle did h : String) (r : Resolution)
    → check_resolved handle did r ≡ ok h
    → (handle ≡ h) × ((r ≡ resolved did) ⊎ (r ≡ not_found))
resolved-accepted handle did h (resolved other) e = elim (Bool-cases (str_eq other did)) [
  | inl a ↦ (ok-injective handle h (rw a at e), inl (ap (λ d. resolved d) (str_eq→eq other did a)))
  | inr a ↦ absurd (cc (rw a at e))
]
resolved-accepted handle did h not_found e = (ok-injective handle h e, inr refl)
resolved-accepted handle did h invalid_resolved e = absurd (fail-ne-ok _ h e)
resolved-accepted handle did h failed e = absurd (fail-ne-ok _ h e)

-- What is known of a handle that is accepted.
abbrev pub Acceptable :
    Texts → List String → (String → Resolution) → Option String → String → Type 0
Acceptable T domains resolve did h =
    (is_valid_tld h ≡ true)
    × (((suffix : String) × ((first (ends_with h) domains ≡ some suffix) × OneLabel T h suffix))
        ⊎ (All (λ suffix. ends_with h suffix ≡ false) domains
            × ((d : String) × ((did ≡ some d)
                  × ((resolve h ≡ resolved d) ⊎ (resolve h ≡ not_found))))))

no_suffix :
    (h : String) (domains : List String)
    → is_service_domain h domains ≡ false
    → All (λ suffix. ends_with h suffix ≡ false) domains
unfolding is_service_domain ends_with_any any
no_suffix h [] e = tt
no_suffix h (d ∷ ds) e = (ground (arith, e), no_suffix h ds (ground (arith, e)))

-- A handle that is accepted is the given one in lower case and has no disallowed top-level domain;
-- it is one label of 1 to 63 units before a domain of the service, or a handle that ends
-- with no domain of the service, that is given with an account's DID and that resolves to this DID or is not found.
pub validate_handle-accepted :
    (T : Texts) (domains : List String) (resolve : String → Resolution) (raw h : String)
    (did : Option String)
    → validate_handle T domains resolve raw did ≡ ok h
    → (T.to_lower raw ≡ h) × Acceptable T domains resolve did h
unfolding validate_handle
validate_handle-accepted T domains resolve raw h did e =
    elim (Bool-cases (is_valid_tld (T.to_lower raw))) [
      | inr a ↦ absurd (cc (rw a at e))
      | inl a ↦ elim (Bool-cases (is_service_domain (T.to_lower raw) domains)) [
        | inl b ↦ elim (Option-cases (first (ends_with (T.to_lower raw)) domains)) [
          | inl c ↦ absurd (cc (rw (a, b, c) at e))
          | inr c ↦
              let found = front-accepted T (T.to_lower raw) c.0 h (rw (a, b, c.1) at e) in
              (
                found.0,
                subst (Acceptable T domains resolve did) found.0 (a, inl (c.0, (c.1, found.1))),
              )
        ]
        | inr b ↦ elim (Option-cases did) [
          | inl c ↦ absurd (cc (rw (a, b, c) at e))
          | inr c ↦
              let found =
                resolved-accepted (T.to_lower raw) c.0 h (resolve (T.to_lower raw))
                  (rw (a, b, c.1) at e) in
              (
                found.0,
                subst (Acceptable T domains resolve did) found.0
                    (a, inr (no_suffix (T.to_lower raw) domains b, (c.0, (c.1, found.1)))),
              )
        ]
      ]
    ]
