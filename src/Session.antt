-- ===== src/Session.antt =====
-- src/session/Session.cpp and src/session/SessionManager.cpp: a session with its sliding expiration, and
-- the manager's map of sessions. Time is in nanoseconds and an argument of the calls that read the
-- clock; a session that is changed through a pointer of getSession is changed in the map. Every call of
-- the manager holds its mutex, so each is one step.
pub mod Lifetime
pub mod Middleware
pub mod Storage
mod Tests
use http_framework.Prelude.{
  ℕ, zero, suc, ◌+◌, ◌-◌, ◌*◌, ◌/◌, Bool, true, false, not, Option, none, some, List, [], ◌∷◌, leb,
  if◌then◌else◌, is_empty,
}
use http_framework.Prelude.Bytes.{Bytes}
use http_framework.Prelude.Maps.{Assoc, lookup, insert, erase, contains, bytes_eq}

pub record Session : Type 0 where
  pub session_id : Bytes
  pub values : Assoc Bytes Bytes
  pub last_access_time : ℕ
  -- In seconds.
  pub expiration_time : ℕ

abbrev pub ticks_per_second : ℕ
ticks_per_second = 1000000000

unfoldable pub new_session : ℕ → Bytes → Session
new_session now session_id = record {
  session_id = session_id;
  values = [];
  last_access_time = now;
  expiration_time = 3600;
}

unfoldable pub touch : ℕ → Session → Session
touch now s = record s { last_access_time = now }

unfoldable pub set : ℕ → Bytes → Bytes → Session → Session
set now key value s = touch now (record s { values = insert key value s.values })

unfoldable pub remove : ℕ → Bytes → Session → Session
remove now key s = touch now (record s { values = erase key s.values })

-- The whole seconds since the last access, for a clock that has not gone back.
abbrev pub elapsed : ℕ → Session → ℕ
elapsed now s = (now - s.last_access_time) / ticks_per_second

unfoldable pub is_expired : ℕ → Session → Bool
is_expired now s = leb s.expiration_time (elapsed now s)

unfoldable pub remaining_time : ℕ → Session → ℕ
remaining_time now s = s.expiration_time - elapsed now s

pub record SessionManager : Type 0 where
  pub sessions : Assoc Bytes Session
  pub default_expiration : ℕ

-- createSession(sessionId): a session under that name, in place of the one that had it.
unfoldable pub create_session_as : ℕ → Bytes → SessionManager → SessionManager × Session
create_session_as now session_id m =
    let s = record (new_session now session_id) { expiration_time = m.default_expiration } in
    (record m { sessions = insert session_id s m.sessions }, s)

-- The loop of createSession, over the names that generateSessionId delivers: the first that is not
-- taken; `none` where all of them are.
unfoldable pub fresh_id : List Bytes → SessionManager → Option Bytes
fresh_id [] m = none
fresh_id (session_id ∷ generated) m =
    let later = fresh_id generated m in
    if contains session_id m.sessions then later else some session_id

unfoldable pub create_session : ℕ → List Bytes → SessionManager → Option (SessionManager × Session)
create_session now generated m = elim (fresh_id generated m) [
  | none ↦ none
  | some session_id ↦ some (create_session_as now session_id m)
]

-- getSession: an expired session is erased, another one is touched.
unfoldable pub get_session : ℕ → Bytes → SessionManager → SessionManager × Option Session
get_session now session_id m = elim (lookup session_id m.sessions) [
  | none ↦ (m, none)
  | some s ↦
      if is_expired now s
      then (record m { sessions = erase session_id m.sessions }, none)
      else (record m { sessions = insert session_id (touch now s) m.sessions }, some (touch now s))
]

unfoldable pub has_session : ℕ → Bytes → SessionManager → SessionManager × Bool
has_session now session_id m = elim (lookup session_id m.sessions) [
  | none ↦ (m, false)
  | some s ↦
      if is_expired now s
      then (record m { sessions = erase session_id m.sessions }, false)
      else (m, true)
]

unfoldable pub remove_session : Bytes → SessionManager → SessionManager
remove_session session_id m = record m { sessions = erase session_id m.sessions }

unfoldable pub without_expired : ℕ → Assoc Bytes Session → Assoc Bytes Session
without_expired now [] = []
without_expired now ((session_id, s) ∷ sessions) =
    let rest = without_expired now sessions in
    if is_expired now s then rest else (session_id, s) ∷ rest

unfoldable pub cleanup_expired_sessions : ℕ → SessionManager → SessionManager
cleanup_expired_sessions now m = record m { sessions = without_expired now m.sessions }
