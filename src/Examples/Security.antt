-- ===== src/Examples/Security.antt =====
-- The theorems on the security of requests at concrete inputs.
use text.Mathlib.Text.{◌==◌ as str_eq}
use ngy_coding_agent.Base.{
  ℕ, zero, suc, ◌≡◌, refl, ◌⊎◌, Option, some, none, String, List, [], ◌∷◌, ok, err, if◌then◌else◌,
  arith, ◌+◌, ◌&&◌, ltb, All, ◌≢◌,
}
use ngy_coding_agent.Store.Schema.{same_bytes, select_where}
use ngy_coding_agent.App.Security.{
  SecurityState, SessionRecord, Parts, invalid_launch_token, consume_launch_token,
  issue_launch_token, from_validated_configuration, create_session, insert_session, required_header,
  header_text, validate_host, validate_origin, fixed_secret, same_secret, secret_matches, last_some,
  find_session, or_invalid, session_for, launch_token_lifetime, other_session,
}
use ngy_coding_agent.App.Security.Requests.{
  Cookies, session_cookie_name, session_value, session_cookie_value, authorize_session,
  authorize_read, authorize_mutation,
}
use ngy_coding_agent.App.Security.Tokens.{
  usable, ids, consume_launch_token-once, issue_launch_token-usable,
}
use ngy_coding_agent.App.Security.Access.{IsMutation, authorize_mutation-IsMutation}

abbrev repeated : ℕ → ℕ → List ℕ
repeated zero byte = []
repeated (suc n) byte = byte ∷ repeated n byte

-- Three secrets of 32 bytes.
abbrev decode : String → Option (List ℕ)
decode value =
    if str_eq value "token"
    then some (repeated 32 1)
    else if str_eq value "session"
    then some (repeated 32 2)
    else if str_eq value "csrf"
    then some (repeated 32 3)
    else none

abbrev split_parse : String → Cookies
split_parse header = some (session_cookie_name, header) ∷ []

abbrev started : SecurityState
started = from_validated_configuration "token" "launcher" "http://127.0.0.1:80" "127.0.0.1:80" 5

started_ids : ids started.launch_tokens ≡ 0 ∷ []
unfolding from_validated_configuration
started_ids = refl

consume_launch_token-once_example :
    ((usable decode "token" 6 started ≡ 0)
      × ((consume_launch_token decode "token" 6 started).0 ≡ err invalid_launch_token))
    ⊎ (((consume_launch_token decode "token" 6 started).0 ≡ ok tt)
        × (suc (usable decode "token" 6 (consume_launch_token decode "token" 6 started).1)
            ≡ usable decode "token" 6 started))
consume_launch_token-once_example =
    consume_launch_token-once decode "token" 6 started (rw started_ids (tt, tt))

started_fresh : All (λ y. y ≢ started.next_launch_token_id) (ids started.launch_tokens)
unfolding from_validated_configuration
started_fresh = ((λ e. ground arith), tt)

issue_launch_token-usable_example :
    usable decode "csrf" 9 (issue_launch_token (some "csrf") 7 started).1
    ≡ usable decode "csrf" 9 started
      + (if ltb 9 (7 + launch_token_lifetime) && secret_matches decode "csrf" "csrf" then 1 else 0)
issue_launch_token-usable_example =
    issue_launch_token-usable decode "csrf" 7 9 "csrf" started started_fresh

abbrev in_session : SecurityState
in_session = (create_session (some "session") (some "csrf") started).1

abbrev request : Parts
request = record {
  host = some "127.0.0.1:80" ∷ [];
  origin = some "http://127.0.0.1:80" ∷ [];
  cookie = some "session" ∷ [];
  launcher_secret = [];
  csrf = some "csrf" ∷ [];
}

authorized : authorize_mutation decode split_parse request in_session ≡ ok "session"
unfolding authorize_mutation authorize_read authorize_session session_cookie_value session_value
    create_session insert_session other_session select_where from_validated_configuration
    required_header header_text validate_host validate_origin fixed_secret same_secret
    secret_matches last_some find_session or_invalid session_for same_bytes
authorized = refl

authorize_mutation-IsMutation_example :
    (session : SessionRecord) × ("session" ≡ session.session_id)
    × IsMutation decode split_parse request in_session session
authorize_mutation-IsMutation_example =
    authorize_mutation-IsMutation decode split_parse request in_session "session" authorized
