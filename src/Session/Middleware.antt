-- ===== src/Session/Middleware.antt =====
-- src/middleware/SessionMiddleware.cpp: the cookies of a request, and the session that the middleware
-- gives to it. The text of the cookie in the response is not modelled, only its name's session and its
-- Max-Age.
use http_framework.Prelude.{
  ℕ, ◌+◌, ◌-◌, ◌≡◌, Bool, false, ◌&&◌, Option, none, some, List, [], ◌∷◌, ◌==◌, if◌then◌else◌,
  is_empty, length, take, drop, ◌⊎◌,
}
use http_framework.Prelude.Bytes.{Bytes, codes, find_byte}
use http_framework.Prelude.Maps.{Assoc, lookup, insert, bytes_eq}
use http_framework.Request.Text.{getlines, trim_left, trim_right}
use http_framework.Request.State.{HttpRequest, get_header, set_user_data, get_user_data, or_empty}
use http_framework.Session.{Session, SessionManager, create_session, get_session, remaining_time}

-- `value` without the quotes around it. A value that is one quote has both of its ends in one place,
-- and substr(1, -1) leaves nothing of it.
abbrev pub last_is_quote : Bytes → Bool
last_is_quote [] = false
last_is_quote (c ∷ []) = c == b'"'
last_is_quote (c ∷ d ∷ s) = last_is_quote (d ∷ s)

unfoldable pub unquote : Bytes → Bytes
unquote [] = []
unquote (c ∷ s) = if c == b'"' && last_is_quote (c ∷ s) then take (length (c ∷ s) - 2) s else c ∷ s

unfoldable pub add_cookie : Assoc Bytes Bytes → Bytes → Assoc Bytes Bytes
add_cookie cookies text =
    let cookie = trim_right (trim_left text) in
    elim (find_byte b'=' cookie) [
      | none ↦ cookies
      | some equal_pos ↦
          insert (take equal_pos cookie) (unquote (drop (equal_pos + 1) cookie)) cookies
    ]

unfoldable pub add_cookies : Assoc Bytes Bytes → List Bytes → Assoc Bytes Bytes
add_cookies cookies [] = cookies
add_cookies cookies (text ∷ texts) = add_cookies (add_cookie cookies text) texts

unfoldable pub parse_cookies : Bytes → Assoc Bytes Bytes
parse_cookies cookie_header = add_cookies [] (getlines b';' cookie_header)

unfoldable pub extract_session_id : Bytes → HttpRequest → Bytes
extract_session_id cookie_name request =
    let cookie_header = get_header request (codes "cookie") in
    if is_empty cookie_header
    then []
    else or_empty (lookup cookie_name (parse_cookies cookie_header))

-- What the middleware leaves before it calls the rest of the chain.
pub record Started : Type 0 where
  pub manager : SessionManager
  pub request : HttpRequest
  pub session : Session
  -- The Max-Age of the cookie.
  pub max_age : ℕ

abbrev pub start : SessionManager → HttpRequest → Session → ℕ → Started
start m request s max_age = record {
  manager = m;
  request = set_user_data request (codes "session") s.session_id;
  session = s;
  max_age = max_age;
}

unfoldable pub existing_session : ℕ → Bytes → SessionManager → SessionManager × Option Session
existing_session now session_id m =
    if is_empty session_id then (m, none) else get_session now session_id m

unfoldable pub start_existing : ℕ → SessionManager → HttpRequest → Session → Started
start_existing now m request s =
    let remaining = remaining_time now s in
    start m request s (if remaining == 0 then s.expiration_time else remaining)

abbrev pub start_created : HttpRequest → Option (SessionManager × Session) → Option Started
start_created request none = none
start_created request (some (m, s)) = some (start m request s s.expiration_time)

unfoldable pub start_found :
    ℕ → List Bytes → SessionManager → HttpRequest → Option Session → Option Started
start_found now generated m request none = start_created request (create_session now generated m)
start_found now generated m request (some s) = some (start_existing now m request s)

-- operator(), up to the call of `next`; `none` where every generated name is taken.
unfoldable pub session_middleware :
    ℕ → List Bytes → Bytes → SessionManager → HttpRequest → Option Started
session_middleware now generated cookie_name m request =
    let (m', found) = existing_session now (extract_session_id cookie_name request) m in
    start_found now generated m' request found

-- The session of a started exchange is either what getSession returns under the cookie's name, or a
-- new one whose name was not taken.
abbrev pub IsKnownOrFresh : ℕ → Bytes → SessionManager → Started → Type 0
IsKnownOrFresh now session_id m r =
    ((get_session now session_id m).1 ≡ some r.session)
    ⊎ (lookup r.session.session_id (existing_session now session_id m).0.sessions ≡ none)

-- What holds of a started exchange.
IsStarted : ℕ → Bytes → SessionManager → Option Started → Type 0
IsStarted now session_id m none = Unit
IsStarted now session_id m (some r) =
    IsKnownOrFresh now session_id m r
    × (get_user_data r.request (codes "session") ≡ r.session.session_id)
