-- ===== src/Session/Tests.antt =====
-- Runs of the session manager.
use http_framework.Prelude.{◌*◌, ◌-◌, ◌≡◌, refl, none, some, [], ◌∷◌, leb, if◌then◌else◌, arith}
use http_framework.Prelude.Bytes.{codes, same}
use http_framework.Prelude.Maps.{lookup, insert, bytes_eq}
use http_framework.Session.{
  Session, SessionManager, ticks_per_second, new_session, touch, create_session_as, create_session,
  fresh_id, get_session, is_expired, cleanup_expired_sessions,
}
use http_framework.Prelude.Bytes.{Bytes, find_byte}
use http_framework.Request.Text.{getlines, trim_left, trim_right}
use http_framework.Request.State.{HttpRequest, new_request, get_header}
use http_framework.Session.Middleware.{
  Started, unquote, add_cookie, add_cookies, parse_cookies, extract_session_id, start_existing,
}
use http_framework.Prelude.{true, ◌⊎◌, ◌++◌, ◌≤◌, length, all}
use http_framework.Session.Storage.{
  get_session_file_path, is_name_part, get_session_file_path_lem, save_session, load_session,
  load_session-save_session,
}
use http_framework.Session.Lifetime.{
  get_session-cleanup_expired_sessions, get_session-sliding, create_session_lem,
}

abbrev empty_manager : SessionManager
empty_manager = record { sessions = []; default_expiration = 2 }

abbrev one_session : SessionManager
one_session = (create_session_as 0 (codes "a") empty_manager).0

get_session-cleanup_expired_sessions_example :
    (get_session 3000000000 (codes "a") (cleanup_expired_sessions 2500000000 one_session)).1
    ≡ (get_session 3000000000 (codes "a") one_session).1
unfolding create_session_as insert lookup
get_session-cleanup_expired_sessions_example =
    get_session-cleanup_expired_sessions 2500000000 3000000000 (codes "a") one_session (omega arith)
      (refl, tt)

abbrev first_touch : Session
unfolding touch new_session
first_touch = touch 1000000000 (record (new_session 0 (codes "a")) { expiration_time = 2 })

get_session-sliding_example :
    (get_session 2500000000 (codes "a") (get_session 1000000000 (codes "a") one_session).0).1 ≡ (
      if leb (first_touch.expiration_time * ticks_per_second) (2500000000 - 1000000000)
      then none
      else some (touch 2500000000 first_touch))
unfolding create_session_as insert lookup get_session is_expired new_session touch same
get_session-sliding_example =
    get_session-sliding 1000000000 2500000000 (codes "a") one_session first_touch (omega arith) refl

abbrev second : SessionManager × Session
second = create_session_as 5 (codes "b") one_session

create_session_lem_example :
    (lookup second.1.session_id one_session.sessions ≡ none)
    × (lookup (codes "a") second.0.sessions ≡ (
        if same second.1.session_id (codes "a")
        then some second.1
        else lookup (codes "a") one_session.sessions))
unfolding create_session_as insert lookup create_session fresh_id new_session same
create_session_lem_example =
    create_session_lem 5 (codes "a" ∷ codes "b" ∷ []) one_session second.0 second.1 (codes "a") refl

-- A request that names the live session among two cookies, with quotes.
abbrev with_cookie : HttpRequest
with_cookie = record new_request { headers = (codes "cookie", codes "x=1; session_id=\"a\"") ∷ [] }

cookie_name_found : extract_session_id (codes "session_id") with_cookie ≡ codes "a"
unfolding extract_session_id get_header parse_cookies add_cookies add_cookie unquote getlines
    trim_left trim_right find_byte insert lookup same new_request
cookie_name_found = refl

abbrev started : Started
started =
    start_existing 5 (get_session 5 (codes "a") one_session).0 with_cookie
      (touch 5 (create_session_as 0 (codes "a") empty_manager).1)

abbrev file_name : Bytes
file_name = codes "0123456789abcdef"

get_session_file_path_lem_example :
    (get_session_file_path (codes "/s") file_name ≡ [])
    ⊎ ((get_session_file_path (codes "/s") file_name
          ≡ codes "/s" ++ codes "/" ++ file_name ++ codes ".session")
        × (all is_name_part file_name ≡ true)
        × (16 ≤ length file_name)
        × (length file_name ≤ 64))
get_session_file_path_lem_example = get_session_file_path_lem (codes "/s") file_name

load_session-save_session_example :
    ((load_session 1 first_touch.session_id (save_session (some first_touch) []).0).1
      ≡ (if is_expired 1 first_touch then none else some first_touch))
    × (lookup (codes "b") (save_session (some first_touch) []).0 ≡ (
        if same first_touch.session_id (codes "b")
        then some first_touch
        else lookup (codes "b") []))
unfolding first_touch new_session touch
load_session-save_session_example = load_session-save_session 1 first_touch (codes "b") [] refl
