-- ===== src/SignIn/Backed.antt =====
-- What the tables of packages/danaus/src/accounts/web-sessions.ts hold in terms of what was proved by
-- those who signed in.
use danaus.Prelude.{
  ℕ, ◌≡◌, ◌⊎◌, inl, inr, String, true, false, Option, none, some, List, [], ◌∷◌, ◌++◌, All, All-map,
  Has,
}
use danaus.WebSessions.{WebSession, VerifyChallenge, SessionDb}
use danaus.WebSessions.Ids.{UniqueIds, Belongs}
use danaus.SignIn.{totp_code, recovery, webauthn}
use danaus.SignIn.History.{Proof, by_password, by_factor, by_passkey}

-- A second factor of the account was shown.
abbrev pub SecondFactor : List Proof → String → Type 0
SecondFactor log did =
    Has (by_factor totp_code did) log
    ⊎ Has (by_factor recovery did) log
    ⊎ Has (by_factor webauthn did) log

-- The account was signed in to: by a passkey, by its password while it had no second factor, or by
-- its password and a second factor.
abbrev pub SignedIn : List Proof → String → Type 0
SignedIn log did =
    Has (by_passkey did) log
    ⊎ Has (by_password false did) log
    ⊎ (Has (by_password true did) log × SecondFactor log did)

-- The account was confirmed: by a second factor, or by its password while it had none.
abbrev pub Confirmed : List Proof → String → Type 0
Confirmed log did = SecondFactor log did ⊎ Has (by_password false did) log

abbrev pub SessionFits : List Proof → WebSession → Type 0
SessionFits log row = SignedIn log row.did × ((row.sudo_at ≡ none) ⊎ Confirmed log row.did)

-- A challenge for a login follows the right password of an account with a second factor; a challenge
-- for sudo mode is for a session of its account.
abbrev pub ChallengeFor : List Proof → List WebSession → Option String → String → Type 0
ChallengeFor log sessions none did = Has (by_password true did) log
ChallengeFor log sessions (some id) did = All (Belongs id did) sessions

abbrev pub ChallengeFits : List Proof → List WebSession → VerifyChallenge → Type 0
ChallengeFits log sessions row = ChallengeFor log sessions row.session_id row.did

pub record Backed (log : List Proof) (w : SessionDb) : Type 0 where
  pub ids : UniqueIds w.sessions
  pub sessions : All (SessionFits log) w.sessions
  pub challenges : All (ChallengeFits log w.sessions) w.challenges

Has-more : {A : Type 0} (x : A) (new log : List A) → Has x log → Has x (new ++ log)
Has-more x [] log h = h
Has-more x (y ∷ new) log h = inr (Has-more x new log h)

SecondFactor-more :
    (new log : List Proof) (did : String) → SecondFactor log did → SecondFactor (new ++ log) did
SecondFactor-more new log did (inl h) = inl (Has-more _ new log h)
SecondFactor-more new log did (inr (inl h)) = inr (inl (Has-more _ new log h))
SecondFactor-more new log did (inr (inr h)) = inr (inr (Has-more _ new log h))

SignedIn-more : (new log : List Proof) (did : String) → SignedIn log did → SignedIn (new ++ log) did
SignedIn-more new log did (inl h) = inl (Has-more _ new log h)
SignedIn-more new log did (inr (inl h)) = inr (inl (Has-more _ new log h))
SignedIn-more new log did (inr (inr (h, k))) =
    inr (inr (Has-more _ new log h, SecondFactor-more new log did k))

Confirmed-more :
    (new log : List Proof) (did : String) → Confirmed log did → Confirmed (new ++ log) did
Confirmed-more new log did (inl h) = inl (SecondFactor-more new log did h)
Confirmed-more new log did (inr h) = inr (Has-more _ new log h)

raised-more :
    (new log : List Proof) (did : String) (at : Option ℕ)
    → (at ≡ none) ⊎ Confirmed log did
    → (at ≡ none) ⊎ Confirmed (new ++ log) did
raised-more new log did at (inl e) = inl e
raised-more new log did at (inr c) = inr (Confirmed-more new log did c)

ChallengeFor-more :
    (new log : List Proof) (sessions : List WebSession) (id : Option String) (did : String)
    → ChallengeFor log sessions id did
    → ChallengeFor (new ++ log) sessions id did
ChallengeFor-more new log sessions none did h = Has-more _ new log h
ChallengeFor-more new log sessions (some id) did h = h

-- What was proved stays proved.
pub Backed-more : (new log : List Proof) (w : SessionDb) → Backed log w → Backed (new ++ log) w
Backed-more new log w b = record {
  ids = b.ids;
  sessions =
      All-map (SessionFits log) (SessionFits (new ++ log))
        (λ row h. (SignedIn-more new log row.did h.0, raised-more new log row.did row.sudo_at h.1))
        w.sessions b.sessions;
  challenges =
      All-map (ChallengeFits log w.sessions) (ChallengeFits (new ++ log) w.sessions)
        (λ row h. ChallengeFor-more new log w.sessions row.session_id row.did h) w.challenges
        b.challenges;
}
