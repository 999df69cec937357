-- ===== src/App/Security.antt =====
-- crates/coding-agent-app/src/security.rs: the one-time launch tokens, the sessions, and the checks of
-- a request. Times are milliseconds. A hash map is the list of its entries in the order in which it
-- is iterated. The decoder of base64 and the parser of cookies are parameters; a secret that is drawn
-- is an argument, `none` when the random source fails.
pub mod Tokens
pub mod Requests
pub mod Access
use text.Mathlib.Text.{◌==◌ as str_eq}
use ngy_coding_agent.Base.{
  ℕ, suc, ◌+◌, ◌%◌, ◌^◌, Bool, true, false, not, ◌&&◌, Option, none, some, String, List, [], ◌∷◌,
  Result, ok, err, ◌>>=◌, ◌>>◌, guard, ltb, ◌==◌, if◌then◌else◌, length,
}
use ngy_coding_agent.Store.Schema.{same_bytes, select_where}

-- The errors that a request can be answered with.
pub data ApiError : Type 0 where
  duplicate_header invalid_host invalid_origin invalid_launch_token invalid_session : ApiError
  invalid_csrf invalid_launcher_secret random_source_error internal_cookie_error : ApiError

abbrev pub secret_bytes : ℕ
secret_bytes = 32

-- Two minutes.
abbrev pub launch_token_lifetime : ℕ
launch_token_lifetime = 120_000

pub record SessionRecord : Type 0 where
  pub session_id : String
  pub csrf_token : String

-- An entry of `launch_tokens` and one of `sessions`, with their keys.
pub record LaunchTokenRecord : Type 0 where
  pub id : ℕ
  pub token : String
  pub issued_at : ℕ
  pub expires_at : ℕ

pub record SessionEntry : Type 0 where
  pub id : ℕ
  pub session : SessionRecord

pub record SecurityState : Type 0 where
  pub public_origin : String
  pub expected_host : String
  pub launcher_secret : String
  pub launch_tokens : List LaunchTokenRecord
  pub next_launch_token_id : ℕ
  pub sessions : List SessionEntry
  pub next_session_id : ℕ

-- The values of a header in a request, `none` for one that is not text.
abbrev pub HeaderValues : Type 0
HeaderValues = List (Option String)

-- The headers of a request that are looked at.
pub record Parts : Type 0 where
  pub host : HeaderValues
  pub origin : HeaderValues
  pub cookie : HeaderValues
  pub launcher_secret : HeaderValues
  pub csrf : HeaderValues

unfoldable pub header_text : Option String → ApiError → Result ApiError String
header_text none e = err e
header_text (some text) e = ok text

unfoldable pub required_header : HeaderValues → ApiError → Result ApiError String
unfolding header_text
required_header [] e = err e
required_header (first ∷ []) e = header_text first e
required_header (first ∷ second ∷ rest) e = err duplicate_header

-- `from_validated_configuration`, with the secrets of the seed.
unfoldable pub from_validated_configuration : String → String → String → String → ℕ → SecurityState
from_validated_configuration token secret origin host now = record {
  public_origin = origin;
  expected_host = host;
  launcher_secret = secret;
  launch_tokens =
      record { id = 0; token = token; issued_at = now; expires_at = now + launch_token_lifetime }
      ∷ [];
  next_launch_token_id = 1;
  sessions = [];
  next_session_id = 0;
}

unfoldable pub validate_host : Parts → SecurityState → Result ApiError (Unit {0})
unfolding required_header
validate_host parts s = do
  host ← required_header parts.host invalid_host
  guard (str_eq host s.expected_host) invalid_host

unfoldable pub validate_origin : Parts → SecurityState → Result ApiError (Unit {0})
unfolding required_header
validate_origin parts s = do
  origin ← required_header parts.origin invalid_origin
  guard (str_eq origin s.public_origin) invalid_origin

-- `HashMap::insert`: an entry under the same key is replaced.
unfoldable pub other_token : ℕ → LaunchTokenRecord → Bool
other_token id r = not (r.id == id)

unfoldable pub other_session : ℕ → SessionEntry → Bool
other_session id r = not (r.id == id)

-- `fetch_add` on an `AtomicU64`
abbrev pub next_id : ℕ → ℕ
next_id id = (id + 1) % 2 ^ 64

unfoldable pub issued_record : ℕ → String → ℕ → LaunchTokenRecord
issued_record id token now = record {
  id = id;
  token = token;
  issued_at = now;
  expires_at = now + launch_token_lifetime;
}

-- `issue_launch_token`, with the secret that is drawn and the time.
unfoldable pub issue_launch_token :
    Option String → ℕ → SecurityState → Option String × SecurityState
unfolding other_token issued_record
issue_launch_token none now s = (none, s)
issue_launch_token (some token) now s = (
  some token,
  record s {
    next_launch_token_id = next_id s.next_launch_token_id;
    launch_tokens =
        issued_record s.next_launch_token_id token now
        ∷ select_where (other_token s.next_launch_token_id) s.launch_tokens;
  },
)

abbrev pub is_live : ℕ → LaunchTokenRecord → Bool
is_live now r = ltb now r.expires_at

unfoldable pub insert_session : SessionRecord → SecurityState → SecurityState
unfolding other_session
insert_session session s = record s {
  next_session_id = next_id s.next_session_id;
  sessions =
      record { id = s.next_session_id; session = session }
      ∷ select_where (other_session s.next_session_id) s.sessions;
}

-- `create_session`, with the two secrets that are drawn.
unfoldable pub create_session :
    Option String → Option String → SecurityState → Result ApiError SessionRecord × SecurityState
unfolding insert_session
create_session none csrf s = (err random_source_error, s)
create_session (some id) none s = (err random_source_error, s)
create_session (some id) (some csrf) s =
    let session : SessionRecord = record { session_id = id; csrf_token = csrf } in
    (ok session, insert_session session s)

-- What a loop that overwrites its variable has found: the later entry, if any.
unfoldable pub last_some {ℓ} : {A : Type ℓ} → Option A → Option A → Option A
last_some (some later) here = some later
last_some none here = here

-- The result of a base64 decoder: a secret has 32 bytes.
unfoldable pub fixed_secret : Option (List ℕ) → Option (List ℕ)
fixed_secret none = none
fixed_secret (some bytes) = if length bytes == secret_bytes then some bytes else none

unfoldable pub same_secret : Option (List ℕ) → Option (List ℕ) → Bool
same_secret (some expected) (some presented) = same_bytes expected presented
same_secret _ _ = false

unfoldable pub or_invalid : Option SessionRecord → Result ApiError SessionRecord
or_invalid none = err invalid_session
or_invalid (some session) = ok session

module _ (decode : String → Option (List ℕ)) where
  -- `decode_secret` and `secret_matches`
  unfoldable pub secret_matches : String → String → Bool
  unfolding fixed_secret same_secret
  secret_matches expected presented =
      same_secret (fixed_secret (decode expected)) (fixed_secret (decode presented))

  abbrev pub token_matches : String → LaunchTokenRecord → Bool
  token_matches presented r = secret_matches r.token presented

  -- The last of the entries that match.
  unfoldable pub matched_id : String → List LaunchTokenRecord → Option ℕ
  matched_id presented [] = none
  matched_id presented (r ∷ rs) =
      last_some (matched_id presented rs) (if token_matches presented r then some r.id else none)

  unfoldable pub remove_matched :
      Option ℕ → SecurityState → Result ApiError (Unit {0}) × SecurityState
  unfolding other_token
  remove_matched none s = (err invalid_launch_token, s)
  remove_matched (some id) s =
      (ok tt, record s { launch_tokens = select_where (other_token id) s.launch_tokens })

  unfoldable pub consume_launch_token :
      String → ℕ → SecurityState → Result ApiError (Unit {0}) × SecurityState
  unfolding matched_id remove_matched last_some
  consume_launch_token presented now s =
      let live = select_where (is_live now) s.launch_tokens in
      remove_matched (matched_id presented live) (record s { launch_tokens = live })

  unfoldable pub find_session : List SessionEntry → String → Option SessionRecord
  find_session [] presented = none
  find_session (e ∷ es) presented =
      last_some (find_session es presented)
        (if secret_matches e.session.session_id presented then some e.session else none)

  -- `session_for`, by the session id of the `AuthContext`.
  unfoldable pub session_for : String → SecurityState → Result ApiError SessionRecord
  unfolding find_session or_invalid last_some
  session_for session_id s = or_invalid (find_session s.sessions session_id)

  unfoldable pub authorize_launcher : Parts → SecurityState → Result ApiError (Unit {0})
  unfolding validate_host required_header
  authorize_launcher parts s = do
    validate_host parts s
    presented ← required_header parts.launcher_secret invalid_launcher_secret
    guard (secret_matches s.launcher_secret presented) invalid_launcher_secret
