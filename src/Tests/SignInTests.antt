-- ===== src/Tests/SignInTests.antt =====
-- packages/danaus/src/web/controllers/login/lib/forms.ts at concrete inputs: an account with a
-- password and a recovery code, and one with a password only.
use danaus.Prelude.{
  ℕ, ◌≡◌, refl, String, true, false, Option, none, some, List, [], ◌∷◌, ◌++◌, arith, str_eq,
  if◌then◌else◌,
}
use danaus.Table.{first, update, delete}
use danaus.Totp.{is_recovery_code}
use danaus.Accounts as Accounts
use danaus.Accounts.Manager.{resolve_account, verify_account_password}
use danaus.Mfa.{RecoveryCode, PreferredMfa, totp, get_mfa_status}
use danaus.Mfa.RecoveryCodes.{consume_recovery_code}
use danaus.WebToken.{split_at_dot}
use danaus.WebSessions.{
  WebSession, create_web_session, cleanup_verify_challenges, create_verify_challenge,
  insert_challenge, get_verify_challenge, delete_verify_challenge,
}
use danaus.SignIn.{
  Server, SignInDb, Visit, recovery, totp_code, LoginData, VerifyData, signs_in, to_login,
  to_verify, after_password, login_form, check_factor, verify_factor, complete, sign_in,
  verify_form,
}
use danaus.SignIn.Pages.{known, try_get_session, Settled, follow, follow-Settled, to_page, to_index}
use danaus.SignIn.History.{Proof, logs_in, verifies, proves, respond}
use danaus.SignIn.Journeys.{first_session, first_token, login_form-known}
use danaus.SignIn.Once.{verify_form-once}
use danaus.Tests.StreamTests.{seconds}
use danaus.Tests.TokenTests.{toy_hmac, write_bits, read_bits, read-write}
use danaus.Tests.AccountTests.{texts}

abbrev server : Server
server = record {
  texts = texts;
  clock = seconds;
  totp_hmac = λ secret counter. counter ++ secret;
  token_hmac = toy_hmac;
  to_base64url = write_bits;
  from_base64url = read_bits;
  authenticate = λ response expected credential.
      if str_eq response.signed expected then some (true, 7) else none;
}

abbrev alice : Accounts.Account
alice = record {
  did = "did:plc:a";
  handle = some "alice.pds.test";
  created_at = 0;
  takedown_ref = none;
  deactivated_at = none;
  delete_at = none;
  password_hash = "long secret";
  email = "alice@pds.test";
  email_confirmed_at = none;
}

abbrev code : RecoveryCode
code = record { id = 1; did = "did:plc:a"; code = "ABCD-EFGH"; used_at = none; created_at = 0 }

abbrev with_preferred : Option PreferredMfa → SignInDb
with_preferred preferred = record {
  accounts = record {
    accounts = alice ∷ [];
    legacy_sessions = [];
    web_sessions = [];
    email_tokens = [];
  };
  mfa = record {
    accounts = record { did = "did:plc:a"; preferred_mfa = preferred } ∷ [];
    totp_credentials = [];
    next_totp_id = 1;
    recovery_codes = code ∷ [];
    next_recovery_id = 2;
    webauthn_credentials = [];
    next_webauthn_id = 1;
    registration_challenges = [];
    passkey_challenges = [];
  };
  web = record { sessions = []; challenges = [] };
}

abbrev login : LoginData
login = record {
  identifier = "did:plc:a";
  password = "long secret";
  remember = false;
  redirect = "/account";
}

abbrev code_form : VerifyData
code_form = record {
  challenge = "t1";
  factor = recovery;
  code = "ABCD-EFGH";
  redirect = "/account";
}

abbrev visit : ℕ → String → String → Visit
visit now fresh_id fresh_token = record {
  user_agent = none;
  ip = some "::1";
  now = now;
  fresh_id = fresh_id;
  fresh_token = fresh_token;
}

abbrev guarded : SignInDb
guarded = with_preferred (some totp)

abbrev asked : SignInDb
asked = respond server (logs_in login) (visit 5500 "s1" "t1") guarded

abbrev alice_session : WebSession
alice_session = record {
  id = "s2";
  did = "did:plc:a";
  user_agent = none;
  ip = some "::1";
  created_at = 9000;
  expires_at = 604809000;
  sudo_at = none;
}

asked_test : (login_form server login (visit 5500 "s1" "t1") guarded).0 ≡ to_verify "t1" "/account"
unfolding login_form resolve_account first verify_account_password after_password get_mfa_status
    cleanup_verify_challenges create_verify_challenge insert_challenge delete
asked_test = refl

abbrev entered : SignInDb
entered = respond server (verifies code_form) (visit 9500 "s2" "t2") asked

-- What the two requests proved.
abbrev proofs : List Proof
proofs =
    proves server (verifies code_form) (visit 9500 "s2" "t2") asked
    ++ (proves server (logs_in login) (visit 5500 "s1" "t1") guarded ++ [])

login_form-known_example :
    ((login_form server login (visit 5500 "s1" "t1") (with_preferred none)).0
      ≡ signs_in
          (first_session server login (visit 5500 "s1" "t1") (with_preferred none) alice)
          (first_token server login (visit 5500 "s1" "t1") (with_preferred none) alice)
          "/account")
    × ((try_get_session server
          (some (first_token server login (visit 5500 "s1" "t1") (with_preferred none) alice))
          (visit 90000 "s2" "t2")
          (login_form server login (visit 5500 "s1" "t1") (with_preferred none)).1).0
        ≡ known (first_session server login (visit 5500 "s1" "t1") (with_preferred none) alice))
unfolding resolve_account first verify_account_password get_mfa_status split_at_dot
login_form-known_example =
    login_form-known server login (visit 5500 "s1" "t1") (with_preferred none) alice
      (visit 90000 "s2" "t2") (refl, refl) refl refl read-write refl refl refl (omega arith)

verify_form-once_example :
    (verify_form server code_form (visit 9600 "s3" "t3") entered).0 ≡ to_login "/account"
unfolding respond login_form resolve_account first verify_account_password after_password
    get_mfa_status cleanup_verify_challenges create_verify_challenge insert_challenge delete
    verify_form get_verify_challenge verify_factor check_factor is_recovery_code
    consume_recovery_code update complete delete_verify_challenge sign_in create_web_session
verify_form-once_example =
    verify_form-once server code_form code_form (visit 9500 "s2" "t2") (visit 9600 "s3" "t3") asked
      tt refl refl

follow-Settled_example :
    Settled (follow 4 true none false (to_page totp_code))
    × Settled (follow 4 true none false to_index)
follow-Settled_example = follow-Settled totp_code true none false
