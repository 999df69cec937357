-- ===== src/App/Security/Access.antt =====
-- Who is let through by crates/coding-agent-app/src/security.rs.
use text.Mathlib.Text.{◌==◌ as str_eq}
use text.Mathlib.TextEquality.{eq_iff}
use ngy_coding_agent.Base.{
  ℕ, ◌≡◌, refl, sym, ap, subst, ◌∙◌, inl, inr, Bool, true, false, Option, none, some, String, List,
  [], ◌∷◌, Result, ok, ◌>>=◌, guard, if◌then◌else◌, Option-cases, arith, bind-ok, guard-ok,
}
use ngy_coding_agent.Store.Schema.{same_bytes}
use ngy_coding_agent.App.Security.{
  last_some, ApiError, SessionRecord, SessionEntry, SecurityState, HeaderValues, Parts,
  required_header, header_text, validate_host, validate_origin, secret_matches, same_secret,
  fixed_secret, find_session, session_for, or_invalid, invalid_session, invalid_csrf, invalid_host,
  invalid_origin,
}
use ngy_coding_agent.App.Security.Requests.{
  Cookies, session_cookie_value, authorize_session, authorize_read, authorize_mutation,
}

required_header-one :
    (values : HeaderValues) (e : ApiError) {text : String}
    → required_header values e ≡ ok text
    → values ≡ some text ∷ []
unfolding required_header header_text
required_header-one [] e h = ground arith
required_header-one (none ∷ []) e h = ground arith
required_header-one (some text ∷ []) e h = ground arith
required_header-one (first ∷ second ∷ rest) e h = ground arith

some_same : {A : Type 0} {a b : A} → some a ≡ some b → a ≡ b
some_same h = cc

ok_same : {A : Type 0} {a b : A} → Path (Result ApiError A) (ok a) (ok b) → a ≡ b
ok_same h = cc

-- One value, which is the expected one.
exact_header :
    (values : HeaderValues) (expected : String) (e : ApiError) {u : Unit {0}}
    → (required_header values e >>= λ v. guard (str_eq v expected) e) ≡ ok u
    → values ≡ some expected ∷ []
exact_header values expected e h =
    let (v, found, same) = bind-ok (required_header values e) _ h in
    required_header-one values e found
    ∙ ap (λ t. some t ∷ []) ((eq_iff v expected).0 (guard-ok (str_eq v expected) e same))

same_bytes→eq : (xs ys : List ℕ) → same_bytes xs ys ≡ true → xs ≡ ys
unfolding same_bytes
same_bytes→eq [] [] h = refl
same_bytes→eq [] (y ∷ ys) h = ground arith
same_bytes→eq (x ∷ xs) [] h = ground arith
same_bytes→eq (x ∷ xs) (y ∷ ys) h =
    let tails : same_bytes xs ys ≡ true = ground arith in
    let heads : x ≡ y = ground arith in ground (arith, heads, same_bytes→eq xs ys tails)

same_secret→eq : (a b : Option (List ℕ)) → same_secret a b ≡ true → a ≡ b
unfolding same_secret
same_secret→eq none b h = ground arith
same_secret→eq (some x) none h = ground arith
same_secret→eq (some x) (some y) h = ap some (same_bytes→eq x y h)

module _ (decode : String → Option (List ℕ)) where
  -- Two texts that match are matched by the same secrets.
  matches_same :
      (x a b : String)
      → secret_matches decode a b ≡ true
      → secret_matches decode x a ≡ secret_matches decode x b
  unfolding secret_matches
  matches_same x a b h =
      ap (same_secret (fixed_secret (decode x)))
        (same_secret→eq (fixed_secret (decode a)) (fixed_secret (decode b)) h)

  here_matches :
      (presented : String) (b : Bool) (here : SessionRecord) {session : SessionRecord}
      → secret_matches decode here.session_id presented ≡ b
      → last_some none (if b then some here else none) ≡ some session
      → secret_matches decode session.session_id presented ≡ true
  unfolding last_some
  here_matches presented true here {session} e h =
      let same : here ≡ session = ground arith in
      subst (λ s. secret_matches decode s.session_id presented ≡ true) same e
  here_matches presented false here e h = ground arith

  find_session-matches :
      (es : List SessionEntry) (presented : String) {session : SessionRecord}
      → find_session decode es presented ≡ some session
      → secret_matches decode session.session_id presented ≡ true
  unfolding find_session last_some
  find_session-matches [] presented h = ground arith
  find_session-matches (e ∷ es) presented {session} h =
      let b = secret_matches decode e.session.session_id presented in
      let here : Option SessionRecord = if b then some e.session else none in
      elim (Option-cases (find_session decode es presented)) [
        | inl missing ↦
            here_matches presented b e.session refl
              (subst (λ r. last_some r here ≡ some session) missing h)
        | inr (s, found) ↦
            find_session-matches es presented
              (found ∙ subst (λ r. last_some r here ≡ some session) found h)
      ]

  -- Two texts that match find the same session.
  find_session_same :
      (es : List SessionEntry) (a b : String)
      → secret_matches decode a b ≡ true
      → find_session decode es a ≡ find_session decode es b
  unfolding find_session
  find_session_same [] a b h = refl
  find_session_same (e ∷ es) a b h =
      let id = e.session.session_id in
      ap (λ r. last_some r (if secret_matches decode id a then some e.session else none))
        (find_session_same es a b h)
      ∙ ap (λ m. last_some (find_session decode es b) (if m then some e.session else none))
          (matches_same id a b h)

  module _ (split_parse : String → Cookies) (parts : Parts) (s : SecurityState) where
    -- The request comes to the expected host with one cookie header, whose session is there.
    pub record IsSession (session : SessionRecord) : Type 0 where
      pub host : parts.host ≡ some s.expected_host ∷ []
      pub header : String
      pub cookie : parts.cookie ≡ some header ∷ []
      pub presented : String
      pub value : session_cookie_value decode split_parse header ≡ ok presented
      pub found : find_session decode s.sessions presented ≡ some session

    -- And it comes from the page itself, with the CSRF token of that very session.
    pub record IsMutation (session : SessionRecord) : Type 0 where
      pub read : IsSession session
      pub origin : parts.origin ≡ some s.public_origin ∷ []
      pub token : String
      pub csrf : parts.csrf ≡ some token ∷ []
      pub matches : secret_matches decode session.csrf_token token ≡ true

    found_session :
        (o : Option SessionRecord) {session : SessionRecord}
        → or_invalid o ≡ ok session
        → o ≡ some session
    unfolding or_invalid
    found_session none h = ground arith
    found_session (some x) h = ground arith

    pub authorize_read-IsSession :
        (auth : String)
        → authorize_read decode split_parse parts s ≡ ok auth
        → (session : SessionRecord) × (auth ≡ session.session_id) × IsSession session
    unfolding authorize_read authorize_session validate_host
    authorize_read-IsSession auth h =
        let (u, allowed, h1) = bind-ok (validate_host parts s) _ h in
        let (session, there, h2) = bind-ok (authorize_session decode split_parse parts s) _ h1 in
        let (header, one, h3) = bind-ok (required_header parts.cookie invalid_session) _ there in
        let (presented, value, h4) =
          bind-ok (session_cookie_value decode split_parse header) _ h3 in
        (
          session,
          ground arith,
          record {
            host = exact_header parts.host s.expected_host invalid_host allowed;
            header = header;
            cookie = required_header-one parts.cookie invalid_session one;
            presented = presented;
            value = value;
            found = found_session (find_session decode s.sessions presented) h4;
          },
        )

    -- A mutation is authorised only when the request has exactly one Host, Origin, cookie and CSRF
    -- header, the host and the origin are the expected ones, the cookie presents a session that is
    -- there, and the CSRF token is that of the very session whose id is answered.
    pub authorize_mutation-IsMutation :
        (auth : String)
        → authorize_mutation decode split_parse parts s ≡ ok auth
        → (session : SessionRecord) × (auth ≡ session.session_id) × IsMutation session
    unfolding authorize_mutation validate_origin session_for
    authorize_mutation-IsMutation auth h =
        let (a, read, h1) = bind-ok (authorize_read decode split_parse parts s) _ h in
        let (u, allowed, h2) = bind-ok (validate_origin parts s) _ h1 in
        let (token, one, h3) = bind-ok (required_header parts.csrf invalid_csrf) _ h2 in
        let (session, there, h4) = bind-ok (session_for decode a s) _ h3 in
        let (v, same, h5) =
          bind-ok (guard (secret_matches decode session.csrf_token token) invalid_csrf) _ h4 in
        let (known, named, p) = authorize_read-IsSession a read in
        let again =
          find_session_same s.sessions known.session_id p.presented
            (find_session-matches s.sessions p.presented p.found) in
        let found = found_session (find_session decode s.sessions a) there in
        let one_session : session ≡ known =
          some_same (sym found ∙ ap (find_session decode s.sessions) named ∙ again ∙ p.found) in
        (
          known,
          sym (ok_same h5) ∙ named,
          record {
            read = p;
            origin = exact_header parts.origin s.public_origin invalid_origin allowed;
            token = token;
            csrf = required_header-one parts.csrf invalid_csrf one;
            matches =
                subst (λ x. secret_matches decode x.csrf_token token ≡ true) one_session
                  (guard-ok (secret_matches decode session.csrf_token token) invalid_csrf same);
          },
        )
