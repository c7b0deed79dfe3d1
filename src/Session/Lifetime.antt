-- ===== src/Session/Lifetime.antt =====
-- src/session/SessionManager.cpp: how long a session lives, and what the clean-up may be seen to do.
use http_framework.Prelude.{
  ℕ, ◌-◌, ◌*◌, ◌≤◌, ◌≡◌, ◌≢◌, refl, ap, sym, subst, ◌∙◌, Bool, true, false, Option, none, some,
  List, [], ◌∷◌, leb, if◌then◌else◌, arith, Bool-cases, Option-cases, inl, inr,
}
use http_framework.Prelude.Bytes.{Bytes, same, same→eq, same_refl}
use http_framework.Prelude.Maps.{Assoc, lookup, bytes_eq, lookup-insert}
use http_framework.Session.{
  Session, ticks_per_second, new_session, touch, is_expired, SessionManager, create_session_as,
  fresh_id, create_session, get_session, without_expired, cleanup_expired_sessions,
}

-- A session that has expired stays so.
is_expired-later :
    (now later : ℕ) (s : Session)
    → now ≤ later
    → is_expired now s ≡ true
    → is_expired later s ≡ true
unfolding is_expired
is_expired-later now later s le h = ground arith

-- One entry for a name.
abbrev pub IsMap : Assoc Bytes Session → Type 0
IsMap [] = Unit
IsMap ((session_id, s) ∷ sessions) = (lookup session_id sessions ≡ none) × IsMap sessions

-- What getSession sees under a name at a time.
abbrev pub live : ℕ → Option Session → Option Session
live now none = none
live now (some s) = if is_expired now s then none else some (touch now s)

get_session-live :
    (now : ℕ) (session_id : Bytes) (m : SessionManager)
    → (get_session now session_id m).1 ≡ live now (lookup session_id m.sessions)
unfolding get_session
get_session-live now session_id m = elim (Option-cases (lookup session_id m.sessions)) [
  | inl absent ↦ rw (get_session, absent) refl
  | inr (s, found) ↦ elim (Bool-cases (is_expired now s)) [
    | inl dead ↦ rw (get_session, found, dead) refl
    | inr alive ↦ rw (get_session, found, alive) refl
  ]
]

lookup-without_expired :
    (now : ℕ) (session_id : Bytes) (sessions : Assoc Bytes Session)
    → IsMap sessions
    → lookup session_id (without_expired now sessions) ≡ elim (lookup session_id sessions) [
      | none ↦ none
      | some s ↦ if is_expired now s then none else some s
    ]
unfolding lookup without_expired
lookup-without_expired now session_id [] ok = refl
lookup-without_expired now session_id ((k, s) ∷ sessions) (alone, ok) =
    let rest = lookup-without_expired now session_id sessions ok in
    elim (Bool-cases (same k session_id)) [
      | inl eq ↦
          let absent : lookup session_id sessions ≡ none =
            subst (λ j. lookup j sessions ≡ none) (same→eq k session_id eq) alone in
          elim (Bool-cases (is_expired now s)) [
            | inl dead ↦ rw (dead, eq, dead) (rest ∙ rw absent refl)
            | inr alive ↦ rw (alive, eq, alive) refl
          ]
      | inr other ↦ elim (Bool-cases (is_expired now s)) [
        | inl dead ↦ rw (dead, other) rest
        | inr alive ↦ rw (alive, other) rest
      ]
    ]

live-without_expired :
    (now later : ℕ) (found : Option Session)
    → now ≤ later
    → live later (elim found [ none ↦ none | some s ↦ if is_expired now s then none else some s ])
      ≡ live later found
live-without_expired now later none le = refl
live-without_expired now later (some s) le = elim (Bool-cases (is_expired now s)) [
  | inl dead ↦ rw (dead, is_expired-later now later s le dead) refl
  | inr alive ↦ rw alive refl
]

-- In a map with one entry for a name, the clean-up is not seen: from then on getSession returns under
-- every name what it would have returned without it.
pub get_session-cleanup_expired_sessions :
    (now later : ℕ) (session_id : Bytes) (m : SessionManager)
    → now ≤ later
    → IsMap m.sessions
    → (get_session later session_id (cleanup_expired_sessions now m)).1
      ≡ (get_session later session_id m).1
unfolding cleanup_expired_sessions
get_session-cleanup_expired_sessions now later session_id m le ok =
    get_session-live later session_id (cleanup_expired_sessions now m)
    ∙ ap (live later) (lookup-without_expired now session_id m.sessions ok)
    ∙ live-without_expired now later (lookup session_id m.sessions) le
    ∙ sym (get_session-live later session_id m)

none-some : {A : Type 0} {x : A} → none ≢ some x
none-some h = ground (arith, h)

abbrev last_access : Option Session → ℕ
last_access none = 0
last_access (some s) = s.last_access_time

get_session-kept :
    (now : ℕ) (session_id : Bytes) (m : SessionManager) (old : Session)
    → lookup session_id m.sessions ≡ some old
    → is_expired now old ≡ false
    → lookup session_id (get_session now session_id m).0.sessions ≡ some (touch now old)
unfolding get_session
get_session-kept now session_id m old found alive =
    rw (get_session, found, alive)
      (lookup-insert session_id session_id (touch now old) m.sessions
        ∙ rw (same_refl session_id) refl)

live-touched :
    (now later : ℕ) (s : Session)
    → now ≤ later
    → s.last_access_time ≡ now
    → live later (some s) ≡ (
        if leb (s.expiration_time * ticks_per_second) (later - now)
        then none
        else some (touch later s))
unfolding is_expired
live-touched now later s le at = ground arith

-- Each successful getSession starts the session's time anew: a second one under the same name, at a
-- time from then on, succeeds just when less than the expiration time has passed since the first,
-- and then it returns the same values.
pub get_session-sliding :
    (now later : ℕ) (session_id : Bytes) (m : SessionManager) (s : Session)
    → now ≤ later
    → (get_session now session_id m).1 ≡ some s
    → (get_session later session_id (get_session now session_id m).0).1 ≡ (
        if leb (s.expiration_time * ticks_per_second) (later - now)
        then none
        else some (touch later s))
unfolding touch
get_session-sliding now later session_id m s le h =
    elim (Option-cases (lookup session_id m.sessions)) [
      | inl absent ↦
          absurd
            (none-some (sym (rw (get_session-live now session_id m) (ap (live now) absent)) ∙ h))
      | inr (old, found) ↦ elim (Bool-cases (is_expired now old)) [
        | inl dead ↦ absurd (
            none-some
              (sym (get_session-live now session_id m ∙ ap (live now) found ∙ rw dead refl) ∙ h))
        | inr alive ↦
            let is_touched : some (touch now old) ≡ some s =
              sym (get_session-live now session_id m ∙ ap (live now) found ∙ rw alive refl) ∙ h in
            let kept : lookup session_id (get_session now session_id m).0.sessions
                ≡ some (touch now old) =
              get_session-kept now session_id m old found alive in
            get_session-live later session_id (get_session now session_id m).0
            ∙ ap (live later) (kept ∙ is_touched)
            ∙ live-touched now later s le (sym (ap last_access is_touched))
      ]
    ]

abbrev is_there : Option Session → Bool
is_there none = false
is_there (some s) = true

fresh_id-taken :
    (k : Bytes) (generated : List Bytes) (m : SessionManager) (s : Session)
    → lookup k m.sessions ≡ some s
    → fresh_id (k ∷ generated) m ≡ fresh_id generated m
unfolding fresh_id
fresh_id-taken k generated m s taken =
    ap (λ b. if b then fresh_id generated m else some k) (ap is_there taken)

fresh_id-free :
    (generated : List Bytes) (m : SessionManager) (session_id : Bytes)
    → fresh_id generated m ≡ some session_id
    → lookup session_id m.sessions ≡ none
unfolding fresh_id
fresh_id-free [] m session_id h = absurd (none-some h)
fresh_id-free (k ∷ generated) m session_id h = elim (Option-cases (lookup k m.sessions)) [
  | inl free ↦
      let here : some k ≡ some session_id =
        sym (ap (λ b. if b then fresh_id generated m else some k) (ap is_there free)) ∙ h in
      subst (λ j. lookup j m.sessions ≡ none) (ground (arith, here)) free
  | inr (s, taken) ↦
      fresh_id-free generated m session_id (sym (fresh_id-taken k generated m s taken) ∙ h)
]

-- What createSession leaves under the new name and under the others.
IsAdded : SessionManager → Bytes → SessionManager × Session → Type 0
IsAdded m other (m', s) =
    (lookup s.session_id m.sessions ≡ none)
    × (lookup other m'.sessions
        ≡ (if same s.session_id other then some s else lookup other m.sessions))

create_session_as-IsAdded :
    (now : ℕ) (session_id other : Bytes) (m : SessionManager)
    → lookup session_id m.sessions ≡ none
    → IsAdded m other (create_session_as now session_id m)
unfolding IsAdded create_session_as new_session
create_session_as-IsAdded now session_id other m free =
    (free, lookup-insert session_id other (create_session_as now session_id m).1 m.sessions)

abbrev or_created :
    SessionManager × Session → Option (SessionManager × Session) → SessionManager × Session
or_created r none = r
or_created r (some created) = created

-- A session that createSession() makes has a name that was not taken; it is found under that name, and
-- under every other name is what was there before.
pub create_session_lem :
    (now : ℕ) (generated : List Bytes) (m m' : SessionManager) (s : Session) (other : Bytes)
    → create_session now generated m ≡ some (m', s)
    → (lookup s.session_id m.sessions ≡ none)
      × (lookup other m'.sessions
          ≡ (if same s.session_id other then some s else lookup other m.sessions))
unfolding create_session IsAdded
create_session_lem now generated m m' s other h = elim (Option-cases (fresh_id generated m)) [
  | inl exhausted ↦ absurd (none-some (sym (rw (create_session, exhausted) refl) ∙ h))
  | inr (session_id, fresh) ↦
      let made : some (create_session_as now session_id m) ≡ some (m', s) =
        sym (rw (create_session, fresh) refl) ∙ h in
      subst (IsAdded m other) (ap (or_created (m', s)) made) (
        create_session_as-IsAdded now session_id other m
          (fresh_id-free generated m session_id fresh))
]
