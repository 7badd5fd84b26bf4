-- ===== src/Server/Graph/Updates.antt =====
-- What a client makes of the updates of the connection graph.
use dora_foxglove.Prelude.{
  ◌≡◌, refl, Bool, true, false, List, [], ◌∷◌, Option, none, some, String, not, if◌then◌else◌,
  Bool-cases, Option-cases, inl, inr,
}
use dora_foxglove.Prelude.Texts.{contains, filter_by, to_set, str_eq, eq_iff, eq_refl}
use dora_foxglove.Prelude.Sets.{
  contains-filter_by_failing, contains-filter_by_passing, contains-to_set, Among, Among-weaken,
  or_true, or_true_left,
}
use dora_foxglove.Server.Types.{MapOfSets}
use dora_foxglove.Server.Graph.{within, same_set, find_set, is_same, changed, names, removed}

-- A name that is still used, be it by another of the maps, is not among the removed ones.
used-removed :
    (known new : List String) (name : String)
    → contains new name ≡ true
    → contains (removed known new) name ≡ false
unfolding removed
used-removed known new name e =
    contains-filter_by_failing (λ t. not (contains new t)) (to_set known) name (rw e refl)

known-removed :
    (known new : List String) (name : String)
    → contains known name ≡ true
    → contains new name ≡ false
    → contains (removed known new) name ≡ true
unfolding removed
known-removed known new name e missing =
    contains-filter_by_passing (λ t. not (contains new t)) (to_set known) name (rw missing refl)
      (contains-to_set known name e)

find_set-filter_by_missing :
    (p : String × List String → Bool) (m : MapOfSets) (name : String)
    → find_set name m ≡ none
    → find_set name (filter_by p m) ≡ none
unfolding find_set filter_by
find_set-filter_by_missing p [] name e = refl
find_set-filter_by_missing p ((n, set) ∷ m) name e = elim (Bool-cases (str_eq n name)) [
  | inl same ↦ cc (rw same at e)
  | inr other ↦ elim (Bool-cases (p (n, set))) [
    | inl kept ↦ rw (kept, other) (find_set-filter_by_missing p m name (rw other at e))
    | inr dropped ↦ rw dropped (find_set-filter_by_missing p m name (rw other at e))
  ]
]

-- The names of the entries are those that are found.
pub names-found :
    (m : MapOfSets) (name : String) (set : List String)
    → find_set name m ≡ some set
    → contains (names m) name ≡ true
unfolding find_set contains
names-found [] name set e = cc
names-found ((n, set') ∷ m) name set e = elim (Bool-cases (str_eq n name)) [
  | inl same ↦ rw same refl
  | inr other ↦ rw other (names-found m name set (rw other at e))
]

names-missing :
    (m : MapOfSets) (name : String) → find_set name m ≡ none → contains (names m) name ≡ false
unfolding find_set contains
names-missing [] name e = refl
names-missing ((n, set) ∷ m) name e = elim (Bool-cases (str_eq n name)) [
  | inl same ↦ cc (rw same at e)
  | inr other ↦ rw other (names-missing m name (rw other at e))
]

-- As in the map of the source, no name has two entries.
abbrev pub Unique : MapOfSets → Type 0
Unique [] = Unit
Unique ((n, set) ∷ m) = (find_set n m ≡ none) × Unique m

-- The entry of a name that passes is behind the filter; one that fails is not.
module _ (p : String × List String → Bool) (name : String) where
  find_set-passing :
      (m : MapOfSets) (set : List String)
      → find_set name m ≡ some set
      → p (name, set) ≡ true
      → find_set name (filter_by p m) ≡ some set
  unfolding find_set filter_by
  find_set-passing [] set e pass = cc
  find_set-passing ((n, set') ∷ m) set e pass = elim (Bool-cases (str_eq n name)) [
    | inl same ↦
        let same_sets : some set' ≡ some set = rw same at e in
        let sets : set' ≡ set = cc in
        let here : p (n, set') ≡ true = rw ((eq_iff n name).0 same, sets) pass in
        rw (here, same) same_sets
    | inr other ↦ elim (Bool-cases (p (n, set'))) [
      | inl kept ↦ rw (kept, other) (find_set-passing m set (rw other at e) pass)
      | inr dropped ↦ rw dropped (find_set-passing m set (rw other at e) pass)
    ]
  ]

  find_set-failing :
      (m : MapOfSets) (set : List String)
      → Unique m
      → find_set name m ≡ some set
      → p (name, set) ≡ false
      → find_set name (filter_by p m) ≡ none
  unfolding find_set filter_by
  find_set-failing [] set u e fail = cc
  find_set-failing ((n, set') ∷ m) set u e fail = elim (Bool-cases (str_eq n name)) [
    | inl same ↦
        let same_sets : some set' ≡ some set = rw same at e in
        let sets : set' ≡ set = cc in
        let here : p (n, set') ≡ false = rw ((eq_iff n name).0 same, sets) fail in
        let other_entries : find_set n m ≡ none = u.0 in
        let gone : find_set name m ≡ none = rw ((eq_iff n name).0 same) at other_entries in
        rw here (find_set-filter_by_missing p m name gone)
    | inr other ↦ elim (Bool-cases (p (n, set'))) [
      | inl kept ↦ rw (kept, other) (find_set-failing m set u.1 (rw other at e) fail)
      | inr dropped ↦ rw dropped (find_set-failing m set u.1 (rw other at e) fail)
    ]
  ]

within-Among : (ts set : List String) → Among (contains set) ts → within ts set ≡ true
unfolding within
within-Among [] set a = refl
within-Among (t ∷ ts) set a = rw (a.0) (within-Among ts set a.1)

pub all_within : (ts : List String) → Among (contains ts) ts
unfolding contains
all_within [] = tt
all_within (t ∷ ts) = (
  or_true_left (str_eq t t) (contains ts t) (eq_refl t),
  Among-weaken ts (λ u e. or_true (str_eq t u) (contains ts u) e) (all_within ts),
)

-- A set is the same as itself.
pub same_set_self : (set : List String) → same_set set set ≡ true
same_set_self set = rw (within-Among set set (all_within set)) refl

-- What a client has of a name behind an update: nothing if it is removed, else the entry of the
-- update, else what it had.
abbrev or_had : Option (List String) → Option (List String) → Option (List String)
or_had none had = had
or_had (some set) had = some set

abbrev pub updated : MapOfSets → MapOfSets → List String → String → Option (List String)
updated had update gone name =
    if contains gone name then none else or_had (find_set name update) (find_set name had)

-- Two entries that are the same as sets, or two that are missing.
abbrev pub Agree : Option (List String) → Option (List String) → Type 0
Agree none none = Unit
Agree none (some b) = ⊥
Agree (some a) none = ⊥
Agree (some a) (some b) = same_set b a ≡ true

same_branches : {A : Type 0} (x : A) (b : Bool) → (if b then x else x) ≡ x
same_branches x true = refl
same_branches x false = refl

known_set :
    (set : List String) (o : Option (List String)) → is_same set o ≡ true → Agree (some set) o
known_set set none e = cc
known_set set (some had) e = e

-- The test of `changed`.
abbrev differs : MapOfSets → String × List String → Bool
differs old entry = not (is_same entry.1 (find_set entry.0 old))

-- The services of the connection graph, where no new name has two entries: a client that had the
-- old ones and applies the update has, under every name, the same set of providers as the new
-- ones, and nothing where they have nothing.
pub services_update_applies :
    (old new : MapOfSets) (name : String)
    → Unique new
    → Agree
        (find_set name new)
        (updated old (changed old new) (removed (names old) (names new)) name)
unfolding changed
services_update_applies old new name unique = elim (Option-cases (find_set name new)) [
  | inl missing ↦ elim (Option-cases (find_set name old)) [
    | inl absent ↦
        rw
          (
            find_set-filter_by_missing (differs old) new name missing,
            missing,
            absent,
            same_branches {A = Option (List String)} none
                (contains (removed (names old) (names new)) name),
          )
          tt
    | inr (had, present) ↦
        rw
          (
            known-removed (names old) (names new) name (names-found old name had present)
                (names-missing new name missing),
            missing,
          )
          tt
  ]
  | inr (set, found) ↦
      rw (used-removed (names old) (names new) name (names-found new name set found))
        (elim (Bool-cases (is_same set (find_set name old))) [
          | inl same ↦
              rw (find_set-failing (differs old) name new set unique found (rw same refl), found)
                (known_set set (find_set name old) same)
          | inr different ↦
              rw (find_set-passing (differs old) name new set found (rw different refl), found)
                (same_set_self set)
        ])
]
