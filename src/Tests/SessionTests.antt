-- ===== src/Tests/SessionTests.antt =====
-- packages/danaus/src/accounts/web-sessions.ts at concrete inputs.
use danaus.Prelude.{◌*◌, ◌≡◌, refl, false, none, some, [], ◌∷◌, arith}
use danaus.Table.{first, update, select}
use danaus.WebSessions.{
  VerifyChallenge, SessionDb, CreateWebSessionOptions, new_session, new_challenge,
  create_web_session, get_web_session, elevate_session, is_session_elevated,
  get_or_create_sudo_challenge, day,
}
use danaus.WebSessions.Lifetime.{web_session-expires, sudo_mode-ends}
use danaus.WebSessions.Sudo.{OneChallenge, sudo_challenge-OneChallenge, sudo_challenge-stable}
use danaus.Tests.StreamTests.{seconds}
use danaus.Tests.TokenTests.{toy_hmac, write_bits}

abbrev empty : SessionDb
empty = record { sessions = []; challenges = [] }

abbrev options : CreateWebSessionOptions
options = record { did = "did:plc:a"; remember = false; user_agent = none; ip = some "::1" }

abbrev opened : SessionDb
opened = record { sessions = new_session seconds options "s1" 1500 ∷ []; challenges = [] }

web_session-expires_example :
    (get_web_session "s1"
      (8 * day)
      (create_web_session seconds toy_hmac write_bits options "s1" 1500 empty).1).0
    ≡ none
unfolding first
web_session-expires_example =
    web_session-expires seconds toy_hmac write_bits options "s1" 1500 (8 * day) empty refl
      (omega arith)

sudo_mode-ends_example :
    is_session_elevated 1000000 (record {
      id = "s1";
      did = "did:plc:a";
      user_agent = none;
      ip = some "::1";
      created_at = 1000;
      expires_at = 604801000;
      sudo_at = some 2000;
    })
    ≡ false
unfolding get_web_session elevate_session first update
sudo_mode-ends_example =
    sudo_mode-ends seconds "s1" 2500 1000000 opened
      (record {
        id = "s1";
        did = "did:plc:a";
        user_agent = none;
        ip = some "::1";
        created_at = 1000;
        expires_at = 604801000;
        sudo_at = some 2000;
      })
      refl (omega arith)

empty-OneChallenge : OneChallenge empty
unfolding select
empty-OneChallenge id = omega arith

abbrev challenge : VerifyChallenge
challenge = new_challenge seconds "t1" "did:plc:a" (some "s1") false 2500

sudo_challenge-OneChallenge_example :
    OneChallenge (get_or_create_sudo_challenge seconds "t1" "s1" "did:plc:a" 2500 empty).1
sudo_challenge-OneChallenge_example =
    sudo_challenge-OneChallenge seconds "t1" "s1" "did:plc:a" 2500 empty empty-OneChallenge

sudo_challenge-stable_example :
    get_or_create_sudo_challenge seconds "t2" "s1" "did:plc:a" 200000
      (get_or_create_sudo_challenge seconds "t1" "s1" "did:plc:a" 2500 empty).1
    ≡ (some challenge, (get_or_create_sudo_challenge seconds "t1" "s1" "did:plc:a" 2500 empty).1)
unfolding get_or_create_sudo_challenge first
sudo_challenge-stable_example =
    sudo_challenge-stable seconds "t1" "s1" "did:plc:a" 2500 empty challenge "t2" "did:plc:a" 200000
      empty-OneChallenge refl (omega arith)
