-- ===== src/Session/Storage.antt =====
-- src/session/SessionStorage.cpp: MemorySessionStorage, and the names of session files. A null pointer
-- is `none`; the storage keeps a session by value.
use http_framework.Prelude.{
  ℕ, ◌≤◌, ◌≡◌, refl, ◌∙◌, Bool, true, false, not, ◌&&◌, ◌||◌, Option, none, some, [], ◌∷◌, ◌++◌,
  ◌==◌, ltb, if◌then◌else◌, is_empty, length, all, arith, Bool-cases, inl, inr, ◌⊎◌,
}
use http_framework.Prelude.Bytes.{Bytes, codes, same, same_refl}
use http_framework.Prelude.Maps.{Assoc, lookup, insert, erase, bytes_eq, lookup-insert}
use http_framework.Request.Text.{is_digit, is_alpha}
use http_framework.Session.{Session, is_expired, without_expired}

abbrev pub Storage : Type 0
Storage = Assoc Bytes Session

unfoldable pub save_session : Option Session → Storage → Storage × Bool
save_session none storage = (storage, false)
save_session (some s) storage =
    if is_empty s.session_id then (storage, false) else (insert s.session_id s storage, true)

unfoldable pub load_session : ℕ → Bytes → Storage → Storage × Option Session
load_session now session_id storage =
    if is_empty session_id then (storage, none) else elim (lookup session_id storage) [
      | none ↦ (storage, none)
      | some s ↦ if is_expired now s then (erase session_id storage, none) else (storage, some s)
    ]

unfoldable pub delete_session : Bytes → Storage → Storage × Bool
delete_session session_id storage =
    if is_empty session_id then (storage, false) else elim (lookup session_id storage) [
      | none ↦ (storage, false)
      | some s ↦ (erase session_id storage, true)
    ]

unfoldable pub storage_has_session : ℕ → Bytes → Storage → Storage × Bool
storage_has_session now session_id storage =
    if is_empty session_id then (storage, false) else elim (lookup session_id storage) [
      | none ↦ (storage, false)
      | some s ↦ if is_expired now s then (erase session_id storage, false) else (storage, true)
    ]

unfoldable pub cleanup_storage : ℕ → Storage → Storage
cleanup_storage now storage = without_expired now storage

abbrev pub is_id_char : ℕ → Bool
is_id_char c = is_digit c || is_alpha c || c == b'_' || c == b'-'

unfoldable pub is_valid_session_id : Bytes → Bool
is_valid_session_id id =
    if ltb (length id) 16 || ltb 64 (length id) then false else all is_id_char id

-- getSessionFilePath: the empty path where the name is refused.
unfoldable pub get_session_file_path : Bytes → Bytes → Bytes
get_session_file_path storage_path session_id =
    if not (is_valid_session_id session_id)
    then []
    else storage_path ++ codes "/" ++ session_id ++ codes ".session"

-- The parts of a path: no slash and no dot stands in a name.
abbrev pub is_name_part : ℕ → Bool
is_name_part c = not (c == b'/') && not (c == b'.')

id_chars-are_parts : (id : Bytes) → all is_id_char id ≡ true → all is_name_part id ≡ true
id_chars-are_parts [] h = refl
id_chars-are_parts (c ∷ id) h = ground (arith, id_chars-are_parts id (ground arith))

-- A session file's path is empty, where the name is refused, or the storage's directory, a slash,
-- the session's name and ".session", and then the name has 16 to 64 characters, none of them a
-- slash or a dot.
pub get_session_file_path_lem :
    (storage_path session_id : Bytes)
    → (get_session_file_path storage_path session_id ≡ [])
      ⊎ ((get_session_file_path storage_path session_id
            ≡ storage_path ++ codes "/" ++ session_id ++ codes ".session")
          × (all is_name_part session_id ≡ true)
          × (16 ≤ length session_id)
          × (length session_id ≤ 64))
unfolding get_session_file_path is_valid_session_id
get_session_file_path_lem storage_path session_id =
    elim (Bool-cases (is_valid_session_id session_id)) [
      | inl valid ↦ inr (
        rw (get_session_file_path, valid) refl,
        id_chars-are_parts session_id (ground arith),
        ground arith,
        ground arith,
      )
      | inr refused ↦ inl (rw (get_session_file_path, refused) refl)
    ]

-- What was saved under a name that is not empty is loaded from under it unless it has expired, and
-- the other names are as they were.
pub load_session-save_session :
    (now : ℕ) (s : Session) (other : Bytes) (storage : Storage)
    → is_empty s.session_id ≡ false
    → ((load_session now s.session_id (save_session (some s) storage).0).1
        ≡ (if is_expired now s then none else some s))
      × (lookup other (save_session (some s) storage).0
          ≡ (if same s.session_id other then some s else lookup other storage))
unfolding load_session save_session
load_session-save_session now s other storage h =
    let held : lookup s.session_id (insert s.session_id s storage) ≡ some s =
      lookup-insert s.session_id s.session_id s storage ∙ rw (same_refl s.session_id) refl in
    rw h (
      rw held (elim (Bool-cases (is_expired now s)) [
        | inl dead ↦ rw dead refl
        | inr alive ↦ rw alive refl
      ]),
      lookup-insert s.session_id other s storage,
    )
