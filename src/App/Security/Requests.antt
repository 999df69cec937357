-- ===== src/App/Security/Requests.antt =====
-- crates/coding-agent-app/src/security.rs: the authorisation of reads and mutations, and the exchange
-- of a launch token for a session. `split_parse` is the parser of cookies, `encode_cookie` makes the
-- header of a session cookie.
use text.Mathlib.Text.{◌==◌ as str_eq}
use ngy_coding_agent.Base.{
  ℕ, not, Option, none, some, String, List, [], ◌∷◌, Result, ok, err, ◌>>=◌, ◌>>◌, guard,
  if◌then◌else◌, is_some,
}
use ngy_coding_agent.App.Security.{
  ApiError, duplicate_header, invalid_session, invalid_csrf, internal_cookie_error, SessionRecord,
  SecurityState, Parts, required_header, validate_host, validate_origin, create_session,
  consume_launch_token, secret_matches, find_session, session_for, or_invalid,
}

abbrev pub session_cookie_name : String
session_cookie_name = "coding_agent_session"

-- A pair of a cookie, or one that cannot be parsed.
abbrev pub Cookies : Type 0
Cookies = List (Option (String × String))

-- The loop over the cookies, with the value that was found before.
unfoldable pub session_value : Option String → Cookies → Result ApiError String
session_value none [] = err invalid_session
session_value (some value) [] = ok value
session_value found (none ∷ cookies) = err invalid_session
session_value found (some (name, value) ∷ cookies) =
    let skipped = session_value found cookies in
    let taken = session_value (some value) cookies in
    if not (str_eq name session_cookie_name)
    then skipped
    else if is_some found
    then err duplicate_header
    else taken

module _ (decode : String → Option (List ℕ)) (split_parse : String → Cookies) where
  unfoldable pub session_cookie_value : String → Result ApiError String
  unfolding session_value
  session_cookie_value header = session_value none (split_parse header)

  unfoldable pub authorize_session : Parts → SecurityState → Result ApiError SessionRecord
  unfolding session_cookie_value
  authorize_session parts s = do
    header ← required_header parts.cookie invalid_session
    presented ← session_cookie_value header
    or_invalid (find_session decode s.sessions presented)

  -- The session id is the `AuthContext`.
  unfoldable pub authorize_read : Parts → SecurityState → Result ApiError String
  unfolding authorize_session
  authorize_read parts s = do
    validate_host parts s
    session ← authorize_session parts s
    ok session.session_id

  unfoldable pub authorize_mutation : Parts → SecurityState → Result ApiError String
  unfolding authorize_read
  authorize_mutation parts s = do
    auth ← authorize_read parts s
    validate_origin parts s
    presented ← required_header parts.csrf invalid_csrf
    session ← session_for decode auth s
    guard (secret_matches decode session.csrf_token presented) invalid_csrf
    ok auth

  module _ (encode_cookie : String → Option String) where
    abbrev pub Exchanged : Type 0
    Exchanged = Result ApiError String × SecurityState

    unfoldable pub session_cookie : Option String → Result ApiError String
    session_cookie none = err internal_cookie_error
    session_cookie (some cookie) = ok cookie

    unfoldable pub exchange_created : Result ApiError SessionRecord × SecurityState → Exchanged
    unfolding session_cookie
    exchange_created (err e, s) = (err e, s)
    exchange_created (ok session, s) = (session_cookie (encode_cookie session.session_id), s)

    unfoldable pub exchange_consumed :
        Option String → Option String → Result ApiError (Unit {0}) × SecurityState → Exchanged
    unfolding exchange_created
    exchange_consumed id csrf (err e, s) = (err e, s)
    exchange_consumed id csrf (ok u, s) = exchange_created (create_session id csrf s)

    unfoldable pub exchange_checked :
        String
        → ℕ
        → Option String
        → Option String
        → Result ApiError (Unit {0})
        → SecurityState
        → Exchanged
    unfolding exchange_consumed
    exchange_checked token now id csrf (err e) s = (err e, s)
    exchange_checked token now id csrf (ok u) s =
        exchange_consumed id csrf (consume_launch_token decode token now s)

    -- `exchange`, with the time and the two secrets that are drawn.
    unfoldable pub exchange :
        Parts → String → ℕ → Option String → Option String → SecurityState → Exchanged
    unfolding exchange_checked
    exchange parts token now id csrf s =
        exchange_checked token now id csrf (validate_host parts s >> validate_origin parts s) s
