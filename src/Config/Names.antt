-- ===== src/Config/Names.antt =====
-- internal/client/config.go: the names of devices are unique, as the loops over `seen` find out.
use lepg.Base.{
  Bytes, bytes_eq, bytes_eq_iff, false, List, [], ◌∷◌, All, Option, none, some, ◌≡◌, refl, arith,
  if◌then◌else◌, Bool-cases, inl, inr,
}
use lepg.Config.ValidationError.{seen}

-- The loop of `InitClientConfig`, with the names seen so far: the first name that comes again.
unfoldable pub first_duplicate : List Bytes → List Bytes → Option Bytes
first_duplicate names [] = none
first_duplicate names (n ∷ more) =
    let rest = first_duplicate (n ∷ names) more in if seen n names then some n else rest

-- No name stands twice.
abbrev pub IsDistinct : List Bytes → Type 0
IsDistinct [] = Unit {0}
IsDistinct (n ∷ names) = (seen n names ≡ false) × IsDistinct names

abbrev IsNew : List Bytes → Bytes → Type 0
IsNew names n = seen n names ≡ false

not_seen_split :
    (n m : Bytes) (names : List Bytes)
    → seen n (m ∷ names) ≡ false
    → (bytes_eq n m ≡ false) × (seen n names ≡ false)
unfolding seen
not_seen_split n m names h = ground (arith, bytes_eq_iff m n, bytes_eq_iff n m)

-- Names that are new after `n` are not `n`.
not_seen_after :
    (n : Bytes) (names more : List Bytes) → All (IsNew (n ∷ names)) more → seen n more ≡ false
unfolding seen
not_seen_after n names [] h = refl
not_seen_after n names (m ∷ more) (new, h) =
    ground (arith, not_seen_split m n names new, not_seen_after n names more h)

IsNew-weaken :
    (n : Bytes) (names more : List Bytes) → All (IsNew (n ∷ names)) more → All (IsNew names) more
IsNew-weaken n names [] h = tt
IsNew-weaken n names (m ∷ more) (new, h) =
    ((not_seen_split m n names new).1, IsNew-weaken n names more h)

first_duplicate-IsNew :
    (names more : List Bytes)
    → first_duplicate names more ≡ none
    → IsDistinct more × All (IsNew names) more
unfolding first_duplicate
first_duplicate-IsNew names [] h = (tt, tt)
first_duplicate-IsNew names (n ∷ more) h = elim (Bool-cases (seen n names)) [
  | inl old ↦ cc (rw old at h)
  | inr new ↦
      let (distinct, others) = first_duplicate-IsNew (n ∷ names) more (rw new at h) in
      ((not_seen_after n names more others, distinct), (new, IsNew-weaken n names more others))
]

-- A loop that finds no duplicate has walked over distinct names.
pub first_duplicate-IsDistinct :
    (more : List Bytes) → first_duplicate [] more ≡ none → IsDistinct more
first_duplicate-IsDistinct more h = (first_duplicate-IsNew [] more h).0
