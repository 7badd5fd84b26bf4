-- ===== src/Prelude/Maps.antt =====
-- Maps with numbers for keys as association lists: find, emplace, operator[], erase, and the change
-- of an element in place. The order of the bindings stands for that of an iteration.
use Prim.Native.Nat.{ℕ}
use mathlib.Core.Path.{◌≡◌, refl, sym, subst, ◌∙◌}
use mathlib.Core.Bool.{false}
use mathlib.Core.Logic.{inl, inr}
use mathlib.Core.Option.{Option, none, some}
use mathlib.Core.List.{List, [], ◌∷◌}
use native.Mathlib.Omega.{arith}
use dora_foxglove.Prelude.Tests.{◌==◌, if◌then◌else◌, Option-cases, Bool-cases}

abbrev pub Map {ℓ} : Type ℓ → Type ℓ
Map V = List (ℕ × V)

abbrev pub or_else {ℓ} : {V : Type ℓ} → Option V → V → V
or_else none d = d
or_else (some v) d = v

abbrev pub map_some {ℓ κ} : {V : Type ℓ} {W : Type κ} → (V → W) → Option V → Option W
map_some f none = none
map_some f (some v) = some (f v)

module _ {ℓ} {V : Type ℓ} where
  unfoldable pub lookup : ℕ → Map V → Option V
  lookup k [] = none
  lookup k ((j, v) ∷ m) = if j == k then some v else lookup k m

  -- `emplace` and `insert`: a key that is there keeps its value.
  unfoldable pub emplace : ℕ → V → Map V → Map V
  unfolding lookup
  emplace k v m = elim (lookup k m) [ none ↦ (k, v) ∷ m | some w ↦ m ]

  unfoldable pub erase : ℕ → Map V → Map V
  erase k [] = []
  erase k ((j, v) ∷ m) = if j == k then erase k m else (j, v) ∷ erase k m

  -- The element under `k`, if it is there, changed in place.
  unfoldable pub modify : ℕ → (V → V) → Map V → Map V
  modify k f [] = []
  modify k f ((j, v) ∷ m) = if j == k then (j, f v) ∷ m else (j, v) ∷ modify k f m

  -- `m[k] = v`.
  unfoldable pub assign : ℕ → V → Map V → Map V
  assign k v [] = (k, v) ∷ []
  assign k v ((j, w) ∷ m) = if j == k then (j, v) ∷ m else (j, w) ∷ assign k v m

  pub lookup-emplace :
      (k j : ℕ) (v : V) (m : Map V)
      → lookup j (emplace k v m) ≡ (if k == j then some (or_else (lookup j m) v) else lookup j m)
  unfolding emplace
  lookup-emplace k j v m = ground arith

  pub lookup-erase :
      (k j : ℕ) (m : Map V) → lookup j (erase k m) ≡ (if k == j then none else lookup j m)
  unfolding lookup erase
  lookup-erase k j [] = ground arith
  lookup-erase k j ((i, v) ∷ m) = ground (arith, lookup-erase k j m)

  pub lookup-modify :
      (k j : ℕ) (f : V → V) (m : Map V)
      → lookup j (modify k f m) ≡ (if k == j then map_some f (lookup j m) else lookup j m)
  unfolding lookup modify
  lookup-modify k j f [] = ground arith
  lookup-modify k j f ((i, v) ∷ m) = ground (arith, lookup-modify k j f m)

  pub lookup-modify_self :
      (k : ℕ) (f : V → V) (m : Map V) (v : V)
      → lookup k m ≡ some v
      → lookup k (modify k f m) ≡ some (f v)
  lookup-modify_self k f m v e = elim (Bool-cases (k == k)) [
    | inl same ↦ rw (lookup-modify, same, e) refl
    | inr other ↦ ground arith
  ]

  pub lookup-emplace_new :
      (k : ℕ) (v : V) (m : Map V) → lookup k m ≡ none → lookup k (emplace k v m) ≡ some v
  lookup-emplace_new k v m e = elim (Bool-cases (k == k)) [
    | inl same ↦ rw (lookup-emplace, same, e) refl
    | inr other ↦ ground arith
  ]

  pub lookup-erase_self : (k : ℕ) (m : Map V) → lookup k (erase k m) ≡ none
  lookup-erase_self k m = elim (Bool-cases (k == k)) [
    | inl same ↦ rw (lookup-erase, same) refl
    | inr other ↦ ground arith
  ]

  pub lookup-assign :
      (k j : ℕ) (v : V) (m : Map V)
      → lookup j (assign k v m) ≡ (if k == j then some v else lookup j m)
  unfolding lookup assign
  lookup-assign k j v [] = ground arith
  lookup-assign k j v ((i, w) ∷ m) = ground (arith, lookup-assign k j v m)

  -- `for (auto& [key, value] : m)` with a change of every value.
  unfoldable pub map_values : (V → V) → Map V → Map V
  map_values f [] = []
  map_values f ((j, v) ∷ m) = (j, f v) ∷ map_values f m

  pub lookup-map_values :
      (j : ℕ) (f : V → V) (m : Map V) → lookup j (map_values f m) ≡ map_some f (lookup j m)
  unfolding lookup map_values
  lookup-map_values j f [] = refl
  lookup-map_values j f ((i, v) ∷ m) = ground (arith, lookup-map_values j f m)

-- A property of every binding that can be found.
abbrev pub Every {ℓ κ} : {V : Type ℓ} → (ℕ → V → Type κ) → Map V → Type (ℓ ⊔ κ)
Every {V} P m = (k : ℕ) (v : V) → lookup k m ≡ some v → P k v

module _ {ℓ κ} {V : Type ℓ} (P : ℕ → V → Type κ) where
  pub Every-none : Every P []
  unfolding lookup
  Every-none k v e = cc

  pub Every-modify :
      (k : ℕ) (f : V → V) (m : Map V)
      → Every P m
      → ((v : V) → lookup k m ≡ some v → P k (f v))
      → Every P (modify k f m)
  Every-modify k f m h new j w e = elim (Bool-cases (k == j)) [
    | inl same ↦ elim (Option-cases (lookup j m)) [
      | inl e' ↦ cc (rw (lookup-modify, same, e') at e)
      | inr (v, e') ↦
          let k≡j : k ≡ j = ground arith in
          let w≡fv : f v ≡ w = cc (rw (lookup-modify, same, e') at e) in
          subst (P j) w≡fv
            (subst (λ i. P i (f v)) k≡j (new v (subst (λ i. lookup i m ≡ some v) (sym k≡j) e')))
    ]
    | inr other ↦ h j w (rw (lookup-modify, other) at e)
  ]

  -- The change of an element for which the property did not hold before.
  pub Every-modify_but :
      (k : ℕ) (f : V → V) (m : Map V)
      → ((j : ℕ) (v : V) → (k == j) ≡ false → lookup j m ≡ some v → P j v)
      → ((v : V) → lookup k m ≡ some v → P k (f v))
      → Every P (modify k f m)
  Every-modify_but k f m h new j w e = elim (Bool-cases (k == j)) [
    | inl same ↦ elim (Option-cases (lookup j m)) [
      | inl e' ↦ cc (rw (lookup-modify, same, e') at e)
      | inr (v, e') ↦
          let k≡j : k ≡ j = ground arith in
          let w≡fv : f v ≡ w = cc (rw (lookup-modify, same, e') at e) in
          subst (P j) w≡fv
            (subst (λ i. P i (f v)) k≡j (new v (subst (λ i. lookup i m ≡ some v) (sym k≡j) e')))
    ]
    | inr other ↦ h j w other (rw (lookup-modify, other) at e)
  ]

  pub Every-emplace : (k : ℕ) (v : V) (m : Map V) → Every P m → P k v → Every P (emplace k v m)
  Every-emplace k v m h new j w e = elim (Bool-cases (k == j)) [
    | inl same ↦ elim (Option-cases (lookup j m)) [
      | inl e' ↦
          let k≡j : k ≡ j = ground arith in
          let v≡w : v ≡ w = cc (rw (lookup-emplace, same, e') at e) in
          subst (P j) v≡w (subst (λ i. P i v) k≡j new)
      | inr (u, e') ↦ h j w (e' ∙ (rw (lookup-emplace, same, e') at e))
    ]
    | inr other ↦ h j w (rw (lookup-emplace, other) at e)
  ]

  pub Every-erase : (k : ℕ) (m : Map V) → Every P m → Every P (erase k m)
  Every-erase k m h j w e = elim (Bool-cases (k == j)) [
    | inl same ↦ cc (rw (lookup-erase, same) at e)
    | inr other ↦ h j w (rw (lookup-erase, other) at e)
  ]

  pub Every-map_values :
      (f : V → V) (m : Map V)
      → ((k : ℕ) (v : V) → lookup k m ≡ some v → P k (f v))
      → Every P (map_values f m)
  Every-map_values f m h j w e = elim (Option-cases (lookup j m)) [
    | inl e' ↦ cc (rw (lookup-map_values, e') at e)
    | inr (v, e') ↦
        let fv≡w : f v ≡ w = cc (rw (lookup-map_values, e') at e) in subst (P j) fv≡w (h j v e')
  ]
