-- ===== src/Lib.antt =====
-- A model of danaus, a personal data server of the AT protocol, and the theorems that say its parts
-- are correct. The server is TypeScript over SQLite databases. These parts are modelled:
--
-- * The event stream (packages/danaus/src/sequencer). Repository operations hand events to the
--   sequencer, which numbers them, stores them in the table `repo_seq` and emits them. An outbox
--   serves one subscriber: it pages through the stored events behind the subscriber's cursor, and
--   then forwards what the sequencer emits, which an async buffer over a linked queue holds until
--   the subscriber takes it. The handler of subscribeRepos (packages/danaus/src/api) checks the
--   cursor and decides where the outbox starts.
-- * Multi-factor authentication (packages/danaus/src/accounts/mfa.ts and totp.ts): TOTP credentials
--   and their codes, recovery codes, WebAuthn credentials, the challenges for registering one and
--   for logging in with one, and the account's preferred method.
-- * Web sessions (packages/danaus/src/accounts/web-sessions.ts and packages/danaus/src/auth/web.ts):
--   their signed tokens, their lifetime, sudo mode, and the challenges that verify a second factor
--   before a login or before sudo mode.
-- * Repositories (packages/danaus/src/actors/repo, record and blobs). A batch of writes goes through
--   the account's Merkle search tree, is committed and signed, persisted, and recorded in the index
--   of records, in the links between records and blobs, and in the event stream.
-- * Accounts and access (packages/danaus/src/accounts/manager.ts, packages/danaus/src/accounts/legacy-auth.ts
--   and packages/danaus/src/auth/verifier.ts): the accounts, their handles, availability and takedowns,
--   app passwords and the sessions that are opened with them, and whom a request is let in as.
-- * Signing in (packages/danaus/src/web/controllers/login and verify.tsx): the forms compose the
--   managers of accounts, second factors and web sessions. A password opens a session or asks for a
--   second factor; a factor opens the session or raises one to sudo mode.
-- * What all of them stand on: the tables that the query builder reads and writes.
--
-- Where the code is modelled:
--   Prelude, Prelude/*     shared names, Boolean tests, lists, texts; no code of the program
--   Table                  SELECT, UPDATE, DELETE, ORDER BY and timestamp columns; Table/* are laws
--   Text                   `trim`, decimal prints and `padStart` of the language
--   Queue                  utils/queue.ts: class Queue, its nodes on an explicit heap
--   AsyncBuffer            sequencer/async-buffer.ts: class AsyncBuffer
--   SeqEvent               sequencer/types.ts and sequencer/events.ts: formatters and toSeqEvt
--   Sequencer              sequencer/sequencer.ts: class Sequencer; rows of sequencer/db/schema.ts
--   Outbox                 sequencer/outbox.ts: Outbox.events, with `on` of sequencer/async-buffer.ts
--   Totp                   accounts/totp.ts: codes, their check, recovery codes
--   Mfa                    accounts/mfa.ts: class MfaManager, its tables, the preferred method, status
--   Mfa/Names              the generated names; Mfa/Totp, Mfa/RecoveryCodes, Mfa/WebAuthn and
--                          Mfa/Challenges are the regions of the class
--   WebToken               auth/web.ts: the signed token of a session
--   WebSessions            accounts/web-sessions.ts: class WebSessionManager
--   RecordIndex            actors/record: RecordReader and RecordTransactor
--   Repo                   actors/repo: types, tables and the libraries' functions; Repo/Signing is
--                          commit.ts, Repo/Blocks, Repo/Writes and Repo/Apply are transactor.ts, and
--                          Repo/Reader is reader.ts and block-store.ts
--   Repo/Tree              what the tree library is relied on for
--   Blobs                  actors/blobs/reader.ts; Blobs/References is utils.ts, and Blobs/Writer is
--                          transactor.ts
--   Accounts               accounts/types.ts and passwords.ts; Accounts/Manager, Accounts/Credentials
--                          and Accounts/Handles are manager.ts and handle.ts; Accounts/Cursors is
--                          utils/keyset.ts
--   Auth, Auth/Header      auth/verifier.ts: class AuthVerifier; auth/scopes.ts
--   Subscription           api/com.atproto/sync.subscribeRepos.ts: the handler, from its cursor on
--   SignIn                 web/controllers/login/lib/forms.ts: the forms that sign in and verify;
--                          SignIn/Authenticators is those that a passkey or a key fills, SignIn/Pages
--                          the decisions of web/controllers/verify.tsx and login.tsx, and
--                          web/middlewares/session.ts; SignIn/History is a run of requests
--   InviteCodes            accounts/invite-codes.ts: class InviteCodeManager without listInviteCodes
--   LegacyAuth             accounts/legacy-auth.ts: class LegacyAuthManager, and auth/legacy-tokens.ts;
--                          LegacyAuth/AppPasswords is accounts/app-passwords.ts
--   Tests                  the theorems at concrete inputs
-- The paths are below packages/danaus/src. A method `fooBar` of a class is the definition `foo_bar`,
-- which takes the state of the object and answers the result with the new state. The other modules
-- below a part hold its proofs and are named for what they prove.
--
-- How the code is translated. A table is the list of its rows in the order of insertion, with its
-- AUTOINCREMENT counter beside it. The clock is an argument in milliseconds. A timestamp column
-- keeps whole seconds: `Timestamps` states that of the database library. A thrown error is a
-- constructor of the result, or `none` where only its presence matters. The queue's nodes are a
-- heap of addresses, because `head`, `tail` and `next` share them. An async generator is a step: one
-- turn of AsyncBuffer.events is `resume`, and a suspension is the outcome `pending`. The outbox
-- takes what other code does while it is suspended as arguments, one `Moment` for each suspension: the
-- events that it sequences, and whether it aborts the signal. Its tail takes turns of the bounded
-- buffer, so a consumer that is too slow ends it. A set-up of listeners stands for its effect: what the sequencer emits between two
-- states is what the listener is handed.
--
-- A call in a database transaction that fails leaves the database as it was, so its result has no
-- state. `applyWritesInternal` is the loop `apply_all` between the checks and the writes to the
-- database. The handlers of side effects are a record of functions on a state of their own.
--
-- Parameters, for code outside the repository: HMAC-SHA1 and HMAC-SHA256, base64 and base64url, the
-- random generators of codes, ids and tokens, the CID parser and the CAR writer, the rounding of
-- timestamps, the tree library, CBOR, TIDs and the signing key, the store of blob contents, the
-- shapes of blobs in a record, JSON Web Tokens, password hashes, the handle resolver, and the
-- case and length of texts. `MstLaws` says what is relied on of the tree library: a tree stands for a
-- map from paths to CIDs, which `find` reads and `put` and `delete` change at one path; more blocks do not change a tree, and
-- a tree needs none of the blocks that its diff with the previous tree drops.
--
-- Loops and bounds. A loop over the queue takes one node in a round, and is given one round more
-- than the queue's size. The backfill loop of the outbox has fuel, which is used up only if the
-- stored events are not: a round either ends the loop or moves the cursor up, and the sequence
-- numbers end where the last batch ends. The search for a free name has one round more than there
-- are names, and different numbers make different names. A rotation of a refresh token has fuel for
-- its retries, and one attempt is enough. Numbers are natural numbers: the largest
-- is a sequence number or a time in milliseconds, far below 2 ^ 53. The four bytes that make a
-- one-time code are joined without overlap and below 2 ^ 31, so sums and products stand for the
-- shifts and ors. A time before thirty seconds after the epoch is outside the model of the one-time
-- codes.
--
-- Not modelled: the other HTTP handlers and the web pages, the files of blobs and databases, the identity
-- and lexicon caches, the listing of invite codes, configuration, logging and the tests. Foreign
-- keys are not modelled, which the program does not turn on, nor a failure of the database itself.
-- A cursor for a time before 1970 is left out.
pub mod Prelude
pub mod Mfa
pub mod Table
pub mod Totp
pub mod Text
pub mod Queue
pub mod AsyncBuffer
pub mod SeqEvent
pub mod Sequencer
pub mod Outbox
pub mod Tests
pub mod WebSessions
pub mod WebToken
pub mod RecordIndex
pub mod Repo
pub mod Blobs
pub mod Accounts
pub mod Auth
pub mod InviteCodes
pub mod LegacyAuth
pub mod SignIn
pub mod Subscription
