-- ===== src/Server/Grouping/Laws.antt =====
-- Both ways of grouping give every device name the readings of that name, in order.
use lepg.Base.{
  ℕ, ◌+◌, ◌≡◌, refl, ap, ◌∙◌, arith, Bool-cases, inl, inr, List, [], ◌∷◌, ◌++◌, append_assoc,
  Option, none, some, Bytes, StringMap, bytes_eq, bytes_eq_iff, find, put, find-put, length,
  if◌then◌else◌,
}
use lepg.Reading.{Reading}
use lepg.Server.Grouping.{
  group_key, entry_or, append_groups, group_readings_by_device_name, count_groups, prealloc,
  group_readings_prealloc, group_readings,
}

-- The readings of a group, in the order of the upload.
abbrev pub group_of : Bytes → List Reading → List Reading
group_of key [] = []
group_of key (r ∷ rs) = if bytes_eq (group_key r) key then r ∷ group_of key rs else group_of key rs

-- An entry with `rs` appended; a missing entry stays missing if there is nothing to append.
abbrev extended : Option (List Reading) → List Reading → Option (List Reading)
extended o [] = o
extended o (r ∷ rs) = some (entry_or [] o ++ (r ∷ rs))

abbrev counted : Option ℕ → List Reading → Option ℕ
counted o [] = o
counted o (r ∷ rs) = some (entry_or 0 o + length (r ∷ rs))

extended-cons :
    (o : Option (List Reading)) (r : Reading) (rs : List Reading)
    → extended (some (entry_or [] o ++ (r ∷ []))) rs ≡ extended o (r ∷ rs)
extended-cons o r [] = refl
extended-cons o r (x ∷ rs) = ap some (append_assoc (entry_or [] o) (r ∷ []) (x ∷ rs))

counted-cons :
    (o : Option ℕ) (r : Reading) (rs : List Reading)
    → counted (some (entry_or 0 o + 1)) rs ≡ counted o (r ∷ rs)
counted-cons o r [] = refl
counted-cons o r (x ∷ rs) = ap some (omega arith)

find-append_groups :
    (key : Bytes) (rs : List Reading) (g : StringMap (List Reading))
    → find key (append_groups rs g) ≡ extended (find key g) (group_of key rs)
unfolding append_groups
find-append_groups key [] g = refl
find-append_groups key (r ∷ rs) g =
    let k : Bytes = group_key r in
    let entry = find-put k key (entry_or [] (find k g) ++ (r ∷ [])) g in
    let next = find-append_groups key rs (put k (entry_or [] (find k g) ++ (r ∷ [])) g) in
    elim (Bool-cases (bytes_eq k key)) [
      | inl same ↦
          let e =
            (rw same at entry)
            ∙ ap (λ x. some (entry_or [] (find x g) ++ (r ∷ []))) ((bytes_eq_iff k key).0 same) in
          rw same (
            next
            ∙ ap (λ o. extended o (group_of key rs)) e
            ∙ extended-cons (find key g) r (group_of key rs))
      | inr other ↦ rw other (next ∙ ap (λ o. extended o (group_of key rs)) (rw other at entry))
    ]

find-count_groups :
    (key : Bytes) (rs : List Reading) (g : StringMap ℕ)
    → find key (count_groups rs g) ≡ counted (find key g) (group_of key rs)
unfolding count_groups
find-count_groups key [] g = refl
find-count_groups key (r ∷ rs) g =
    let k : Bytes = group_key r in
    let entry = find-put k key (entry_or 0 (find k g) + 1) g in
    let next = find-count_groups key rs (put k (entry_or 0 (find k g) + 1) g) in
    elim (Bool-cases (bytes_eq k key)) [
      | inl same ↦
          let e =
            (rw same at entry)
            ∙ ap (λ x. some (entry_or 0 (find x g) + 1)) ((bytes_eq_iff k key).0 same) in
          rw same (
            next
            ∙ ap (λ o. counted o (group_of key rs)) e
            ∙ counted-cons (find key g) r (group_of key rs))
      | inr other ↦ rw other (next ∙ ap (λ o. counted o (group_of key rs)) (rw other at entry))
    ]

-- The groups made beforehand are empty, one for every count.
abbrev emptied : Option ℕ → Option (List Reading)
emptied none = none
emptied (some n) = some []

find-prealloc :
    (key : Bytes) (counts : StringMap ℕ) → find key (prealloc counts) ≡ emptied (find key counts)
unfolding prealloc
find-prealloc key [] = refl
find-prealloc key ((k, n) ∷ counts) =
    find-put k key [] (prealloc counts) ∙ ground (arith, find-prealloc key counts)

-- The group of a name, if the upload has a reading of that name.
abbrev pub group_if_any : List Reading → Option (List Reading)
group_if_any [] = none
group_if_any (r ∷ rs) = some (r ∷ rs)

abbrev pub count_if_any : List Reading → Option ℕ
count_if_any [] = none
count_if_any (r ∷ rs) = some (length (r ∷ rs))

extended-none : (rs : List Reading) → extended none rs ≡ group_if_any rs
extended-none [] = refl
extended-none (r ∷ rs) = refl

counted-none : (rs : List Reading) → counted none rs ≡ count_if_any rs
counted-none [] = refl
counted-none (r ∷ rs) = ap some (omega arith)

extended-emptied : (rs : List Reading) → extended (emptied (count_if_any rs)) rs ≡ group_if_any rs
extended-emptied [] = refl
extended-emptied (r ∷ rs) = refl

find-by_device_name :
    (key : Bytes) (rs : List Reading)
    → find key (group_readings_by_device_name rs) ≡ group_if_any (group_of key rs)
unfolding group_readings_by_device_name
find-by_device_name key rs = find-append_groups key rs [] ∙ extended-none (group_of key rs)

find-counts :
    (key : Bytes) (rs : List Reading)
    → find key (count_groups rs []) ≡ count_if_any (group_of key rs)
find-counts key rs = find-count_groups key rs [] ∙ counted-none (group_of key rs)

find-group_readings_prealloc :
    (key : Bytes) (rs : List Reading)
    → find key (group_readings_prealloc rs) ≡ group_if_any (group_of key rs)
unfolding group_readings_prealloc
find-group_readings_prealloc key rs =
    find-append_groups key rs (prealloc (count_groups rs []))
    ∙ ap (λ o. extended o (group_of key rs))
        (find-prealloc key (count_groups rs []) ∙ ap emptied (find-counts key rs))
    ∙ extended-emptied (group_of key rs)

-- Under every name both ways of grouping hold exactly the readings whose device name it is, or that
-- have none if it is "__unknown__", in the order of the upload, and no entry if there are none; so
-- does the choice between them. The capacity that the second way makes room for is the exact length
-- of the group.
pub group_readings_agree :
    (key : Bytes) (rs : List Reading)
    → (find key (group_readings_by_device_name rs) ≡ group_if_any (group_of key rs))
      × (find key (group_readings_prealloc rs) ≡ group_if_any (group_of key rs))
      × (find key (group_readings rs) ≡ group_if_any (group_of key rs))
      × (find key (count_groups rs []) ≡ count_if_any (group_of key rs))
unfolding group_readings
group_readings_agree key rs = (
  find-by_device_name key rs,
  find-group_readings_prealloc key rs,
  ground (arith, find-by_device_name key rs, find-group_readings_prealloc key rs),
  find-counts key rs,
)
