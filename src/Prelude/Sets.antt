-- ===== src/Prelude/Sets.antt =====
-- Sets of texts: what insertion, a filter and to_set contain.
use mathlib.Core.Path.{◌≡◌, refl, ap, sym, ◌∙◌}
use mathlib.Core.Logic.{inl, inr}
use mathlib.Core.Bool.{Bool, true, false, not, ◌||◌}
use mathlib.Core.List.{List, [], ◌∷◌}
use Prim.Native.String.{String}
use dora_foxglove.Prelude.Tests.{Bool-cases}
use dora_foxglove.Prelude.Texts.{
  contains, insert, insert_all, to_set, filter_by, str_eq, eq_iff, eq_refl,
}

pub or_true : (b c : Bool) → c ≡ true → (b || c) ≡ true
or_true true c e = refl
or_true false c e = e

pub or_true_left : (b c : Bool) → b ≡ true → (b || c) ≡ true
or_true_left true c e = refl
or_true_left false c e = cc

pub contains-insert_self : (s : String) (set : List String) → contains (insert s set) s ≡ true
unfolding insert contains
contains-insert_self s set = elim (Bool-cases (contains set s)) [
  | inl e ↦ rw (e, e) refl
  | inr e ↦ rw e (or_true_left (str_eq s s) (contains set s) (eq_refl s))
]

pub contains-insert :
    (s t : String) (set : List String) → contains set t ≡ true → contains (insert s set) t ≡ true
unfolding insert contains
contains-insert s t set h = elim (Bool-cases (contains set s)) [
  | inl e ↦ rw e h
  | inr e ↦ rw e (or_true (str_eq s t) (contains set t) h)
]

-- Every one of the texts is in the set.
abbrev pub Among : (String → Bool) → List String → Type 0
Among p [] = Unit
Among p (t ∷ ts) = (p t ≡ true) × Among p ts

pub Among-weaken :
    {p q : String → Bool} (ts : List String)
    → ((t : String) → p t ≡ true → q t ≡ true)
    → Among p ts
    → Among q ts
Among-weaken [] h a = tt
Among-weaken (t ∷ ts) h a = (h t a.0, Among-weaken ts h a.1)

pub contains-insert_all :
    (ts set : List String) (t : String)
    → contains ts t ≡ true
    → contains (insert_all ts set) t ≡ true
unfolding insert_all contains
contains-insert_all [] set t e = cc
contains-insert_all (x ∷ ts) set t e = elim (Bool-cases (str_eq x t)) [
  | inl same ↦
      ap (contains (insert x (insert_all ts set))) (sym ((eq_iff x t).0 same))
      ∙ contains-insert_self x (insert_all ts set)
  | inr other ↦
      contains-insert x t (insert_all ts set) (contains-insert_all ts set t (rw other at e))
]

-- What a sequence contains is in its set.
pub contains-to_set :
    (ts : List String) (t : String) → contains ts t ≡ true → contains (to_set ts) t ≡ true
unfolding to_set
contains-to_set ts t e = contains-insert_all ts [] t e

-- What fails a test is not behind the filter, and what passes it is if it was before.
pub contains-filter_by_failing :
    (p : String → Bool) (ts : List String) (t : String)
    → p t ≡ false
    → contains (filter_by p ts) t ≡ false
unfolding contains filter_by
contains-filter_by_failing p [] t e = refl
contains-filter_by_failing p (x ∷ ts) t e = elim (Bool-cases (p x)) [
  | inl kept ↦ elim (Bool-cases (str_eq x t)) [
    | inl same ↦ cc (ap p ((eq_iff x t).0 same))
    | inr other ↦ rw (kept, other) (contains-filter_by_failing p ts t e)
  ]
  | inr dropped ↦ rw dropped (contains-filter_by_failing p ts t e)
]

pub contains-filter_by_passing :
    (p : String → Bool) (ts : List String) (t : String)
    → p t ≡ true
    → contains ts t ≡ true
    → contains (filter_by p ts) t ≡ true
unfolding contains filter_by
contains-filter_by_passing p [] t e h = h
contains-filter_by_passing p (x ∷ ts) t e h = elim (Bool-cases (str_eq x t)) [
  | inl same ↦ rw (ap p ((eq_iff x t).0 same) ∙ e, same) refl
  | inr other ↦ elim (Bool-cases (p x)) [
    | inl kept ↦ rw (kept, other) (contains-filter_by_passing p ts t e (rw other at h))
    | inr dropped ↦ rw dropped (contains-filter_by_passing p ts t e (rw other at h))
  ]
]

-- Nothing is left of texts that all pass a test when those that fail it are copied.
pub filter_by-none :
    (p : String → Bool) (ts : List String) → Among p ts → filter_by (λ t. not (p t)) ts ≡ []
unfolding filter_by
filter_by-none p [] a = refl
filter_by-none p (t ∷ ts) a = rw (a.0, filter_by-none p ts a.1) refl

pub Among-to_set : (p : String → Bool) (ts : List String) → Among p ts → Among p (to_set ts)
unfolding to_set insert_all insert
Among-to_set p [] a = tt
Among-to_set p (t ∷ ts) a = elim (Bool-cases (contains (insert_all ts []) t)) [
  | inl there ↦ rw there (Among-to_set p ts a.1)
  | inr new ↦ rw new (a.0, Among-to_set p ts a.1)
]
