-- ===== src/Prelude/Bytes.antt =====
-- `std::string` as a list of bytes: the members that the sources use.
use Prim.Native.Nat.{ℕ, ◌+◌, ◌-◌, ◌≤◌, ◌<◌}
use Prim.Native.Char.{code}
use Prim.Native.String.{String}
use mathlib.Core.Path.{◌≡◌, refl, ap}
use mathlib.Core.Logic.{◌↔◌}
use mathlib.Core.Bool.{Bool, true, false, ◌&&◌}
use mathlib.Core.Option.{Option, none, some}
use mathlib.Core.List.{List, [], ◌∷◌, ◌++◌}
use native.Mathlib.Omega.{arith}
use http_framework.Prelude.Tests.{◌==◌, if◌then◌else◌}
use http_framework.Prelude.Lists.{length, take, drop, length-drop, drop-append_of_le}

abbrev pub Bytes : Type 0
Bytes = List ℕ

-- The bytes of an ASCII literal.
abbrev pub codes : String → Bytes
codes String.[] = []
codes (String.◌∷◌ c s) = code c ∷ codes s

abbrev pub crlf : Bytes
crlf = 13 ∷ 10 ∷ []

-- `operator==`.
unfoldable pub same : Bytes → Bytes → Bool
same [] [] = true
same [] (y ∷ ys) = false
same (x ∷ xs) [] = false
same (x ∷ xs) (y ∷ ys) = x == y && same xs ys

pub same_refl : (xs : Bytes) → same xs xs ≡ true
unfolding same
same_refl [] = refl
same_refl (x ∷ xs) = ground (arith, same_refl xs)

pub same→eq : (xs ys : Bytes) → same xs ys ≡ true → xs ≡ ys
unfolding same
same→eq [] [] h = refl
same→eq [] (y ∷ ys) h = cc
same→eq (x ∷ xs) [] h = cc
same→eq (x ∷ xs) (y ∷ ys) h = ground (arith, same→eq xs ys)

pub same_iff : (xs ys : Bytes) → (same xs ys ≡ true) ↔ (xs ≡ ys)
same_iff xs ys = (same→eq xs ys, λ e. rw e (same_refl ys))

-- `substr(pos, len)` for a position inside the text.
abbrev pub substr : Bytes → ℕ → ℕ → Bytes
substr s pos len = take len (drop pos s)

unfoldable pub starts_with : Bytes → Bytes → Bool
starts_with [] s = true
starts_with (x ∷ xs) [] = false
starts_with (x ∷ xs) (y ∷ ys) = x == y && starts_with xs ys

abbrev pub shift : ℕ → Option ℕ → Option ℕ
shift n none = none
shift n (some k) = some (n + k)

-- `find` from the start; `none` is `npos`.
unfoldable pub search_for : Bytes → Bytes → Option ℕ
unfolding starts_with
search_for needle [] = if starts_with needle [] then some 0 else none
search_for needle (x ∷ xs) =
    let later = shift 1 (search_for needle xs) in
    if starts_with needle (x ∷ xs) then some 0 else later

-- `find(needle, pos)`.
unfoldable pub find : Bytes → Bytes → ℕ → Option ℕ
find s needle pos = shift pos (search_for needle (drop pos s))

-- `find(c)` for one byte.
unfoldable pub find_byte : ℕ → Bytes → Option ℕ
find_byte c [] = none
find_byte c (x ∷ xs) = let later = shift 1 (find_byte c xs) in if x == c then some 0 else later

pub starts_with-length : (needle s : Bytes) → starts_with needle s ≡ true → length needle ≤ length s
unfolding starts_with
starts_with-length [] s h = omega arith
starts_with-length (x ∷ xs) [] h = cc
starts_with-length (x ∷ xs) (y ∷ ys) h = ground (arith, starts_with-length xs ys)

pub starts_with-append :
    (needle s t : Bytes)
    → length needle ≤ length s
    → starts_with needle (s ++ t) ≡ starts_with needle s
unfolding starts_with
starts_with-append [] s t h = refl
starts_with-append (x ∷ xs) [] t h = absurd (omega arith)
starts_with-append (x ∷ xs) (y ∷ ys) t h =
    ap (λ b. x == y && b) (starts_with-append xs ys t (omega arith))

pub search_for-length :
    (needle s : Bytes) (k : ℕ) → search_for needle s ≡ some k → k + length needle ≤ length s
unfolding search_for
search_for-length needle [] k h = ground (arith, starts_with-length needle [])
search_for-length needle (x ∷ xs) k h =
    ground (arith, starts_with-length needle (x ∷ xs), search_for-length needle xs (k - 1))

-- A match stays the first one when more bytes arrive.
pub search_for-append :
    (needle s t : Bytes) (k : ℕ)
    → search_for needle s ≡ some k
    → search_for needle (s ++ t) ≡ some k
unfolding search_for
search_for-append [] [] [] k h = h
search_for-append [] [] (y ∷ t) k h = ground arith
search_for-append (x ∷ xs) [] t k h = ground arith
search_for-append needle (x ∷ xs) t k h = ground (
  arith,
  search_for-length needle (x ∷ xs) k h,
  starts_with-append needle (x ∷ xs) t,
  search_for-append needle xs t (k - 1),
)

pub find-bounds :
    (s needle : Bytes) (pos k : ℕ)
    → find s needle pos ≡ some k
    → 0 < length needle
    → (pos ≤ k) × (k + length needle ≤ length s)
unfolding find
find-bounds s needle pos k h p =
    ground (arith, search_for-length needle (drop pos s) (k - pos), length-drop pos s)

pub find-append :
    (s t needle : Bytes) (pos k : ℕ)
    → find s needle pos ≡ some k
    → 0 < length needle
    → find (s ++ t) needle pos ≡ some k
unfolding find
find-append s t needle pos k h p = rw (drop-append_of_le pos s t within) later
  where
    within : pos ≤ length s
    within = omega (arith, find-bounds s needle pos k h p)

    later : shift pos (search_for needle (drop pos s ++ t)) ≡ some k
    later = ground (arith, search_for-append needle (drop pos s) t (k - pos))
