-- ===== src/Server/Invariant/Conns.antt =====
-- The map conns_: how many of its entries are connections, and that no descriptor has two.
use http_framework.Prelude.{
  ℕ, ◌+◌, ◌≡◌, refl, subst, ap, false, Option, none, some, [], ◌∷◌, ◌==◌, if◌then◌else◌, arith, inl,
  inr, Bool-cases,
}
use http_framework.Prelude.Maps.{Assoc, lookup, insert, erase, num_eq, lookup-insert, lookup-erase}
use http_framework.Server.{FdBinding}

abbrev pub open_one : FdBinding → ℕ
open_one b = if b.context then 1 else 0

abbrev pub open_in : Option FdBinding → ℕ
open_in none = 0
open_in (some b) = open_one b

-- The entries that are connections.
unfoldable pub open_count : Assoc ℕ FdBinding → ℕ
open_count [] = 0
open_count ((fd, b) ∷ conns) = open_one b + open_count conns

unfoldable pub IsUnique : Assoc ℕ FdBinding → Type 0
IsUnique [] = Unit {0}
IsUnique ((fd, b) ∷ conns) = (lookup fd conns ≡ none) × IsUnique conns

pub open_count-insert :
    (fd : ℕ) (b : FdBinding) (conns : Assoc ℕ FdBinding)
    → open_count (insert fd b conns) + open_in (lookup fd conns) ≡ open_count conns + open_one b
unfolding open_count insert lookup
open_count-insert fd b [] = omega arith
open_count-insert fd b ((k, v) ∷ conns) = elim (Bool-cases (k == fd)) [
  | inl here ↦ rw here (omega arith)
  | inr past ↦ rw past (omega (arith, open_count-insert fd b conns))
]

erase_absent :
    (fd : ℕ) (conns : Assoc ℕ FdBinding) → lookup fd conns ≡ none → erase fd conns ≡ conns
unfolding erase lookup
erase_absent fd [] h = refl
erase_absent fd ((k, v) ∷ conns) h = ground (arith, erase_absent fd conns)

-- The entries of the others stay as they are.
lookup-insert-none :
    (fd k : ℕ) (b : FdBinding) (conns : Assoc ℕ FdBinding)
    → (k == fd) ≡ false
    → lookup k conns ≡ none
    → lookup k (insert fd b conns) ≡ none
lookup-insert-none fd k b conns past h = ground (arith, lookup-insert fd k b conns, h)

lookup-erase-none :
    (fd k : ℕ) (conns : Assoc ℕ FdBinding)
    → lookup k conns ≡ none
    → lookup k (erase fd conns) ≡ none
lookup-erase-none fd k conns h = ground (arith, lookup-erase fd k conns, h)

pub IsUnique-insert :
    (fd : ℕ) (b : FdBinding) (conns : Assoc ℕ FdBinding)
    → IsUnique conns
    → IsUnique (insert fd b conns)
unfolding insert IsUnique lookup
IsUnique-insert fd b [] u = (refl, tt)
IsUnique-insert fd b ((k, v) ∷ conns) u = elim (Bool-cases (k == fd)) [
  | inl here ↦ rw here u
  | inr past ↦ rw past (lookup-insert-none fd k b conns past u.0, IsUnique-insert fd b conns u.1)
]

-- Taking back the entry that was made for a descriptor.
pub erase-insert :
    (fd : ℕ) (b : FdBinding) (conns : Assoc ℕ FdBinding)
    → erase fd (insert fd b conns) ≡ erase fd conns
unfolding insert erase
erase-insert fd b [] = ground arith
erase-insert fd b ((k, v) ∷ conns) = ground (arith, erase-insert fd b conns)

pub open_count-erase :
    (fd : ℕ) (conns : Assoc ℕ FdBinding)
    → IsUnique conns
    → open_count (erase fd conns) + open_in (lookup fd conns) ≡ open_count conns
unfolding open_count erase lookup IsUnique
open_count-erase fd [] u = omega arith
open_count-erase fd ((k, v) ∷ conns) u = elim (Bool-cases (k == fd)) [
  | inl here ↦
      let same_key : k ≡ fd = ground arith in
      let gone : erase fd conns ≡ conns =
        erase_absent fd conns (subst (λ j. lookup j conns ≡ none) same_key u.0) in
      rw here (omega (arith, ap open_count gone))
  | inr past ↦ rw past (omega (arith, open_count-erase fd conns u.1))
]

pub IsUnique-erase :
    (fd : ℕ) (conns : Assoc ℕ FdBinding) → IsUnique conns → IsUnique (erase fd conns)
unfolding erase IsUnique
IsUnique-erase fd [] u = tt
IsUnique-erase fd ((k, v) ∷ conns) u = elim (Bool-cases (k == fd)) [
  | inl here ↦ rw here (IsUnique-erase fd conns u.1)
  | inr past ↦ rw past (lookup-erase-none fd k conns u.0, IsUnique-erase fd conns u.1)
]
