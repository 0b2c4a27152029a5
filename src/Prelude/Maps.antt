-- ===== src/Prelude/Maps.antt =====
-- Go's `map[string]V` as an association list. `range` over a map visits it in an unspecified
-- order; here that order is the order of the list, which every theorem leaves open.
use Prim.Native.String.{String}
use mathlib.Core.Path.{◌≡◌, refl, subst}
use mathlib.Core.Logic.{inl, inr}
use mathlib.Core.Option.{Option, none, some, none-ne-some}
use mathlib.Core.List.{List, [], ◌∷◌}
use native.Mathlib.Omega.{arith}
use text.Mathlib.Text.{◌==◌ as str_eq}
use text.Mathlib.TextEquality.{eq_iff}
use aion_core.Prelude.Tests.{Bool-cases, if◌then◌else◌}

abbrev pub Dict {ℓ} : Type ℓ → Type ℓ
Dict V = List (String × V)

module _ {ℓ} {V : Type ℓ} where
  -- v, ok := m[key]
  unfoldable pub lookup : String → Dict V → Option V
  lookup key [] = none
  lookup key ((name, value) ∷ rest) = if str_eq name key then some value else lookup key rest

  -- delete(m, key), on a map that may hold the key more than once
  unfoldable pub erase : String → Dict V → Dict V
  erase key [] = []
  erase key ((name, value) ∷ rest) =
      let kept = erase key rest in if str_eq name key then kept else (name, value) ∷ kept

  -- m[key] = value
  unfoldable pub insert : String → V → Dict V → Dict V
  insert key new [] = (key, new) ∷ []
  insert key new ((name, value) ∷ rest) =
      if str_eq name key then (key, new) ∷ rest else (name, value) ∷ insert key new rest

  pub lookup-erase :
      (key other : String) (d : Dict V)
      → lookup other (erase key d) ≡ (if str_eq key other then none else lookup other d)
  unfolding lookup erase
  lookup-erase key other [] = ground arith
  lookup-erase key other ((name, value) ∷ rest) =
      let ih = lookup-erase key other rest in
      ground (arith, ih, eq_iff name key, eq_iff name other, eq_iff key other)

  pub lookup-insert :
      (key other : String) (new : V) (d : Dict V)
      → lookup other (insert key new d) ≡ (if str_eq key other then some new else lookup other d)
  unfolding lookup insert
  lookup-insert key other new [] = refl
  lookup-insert key other new ((name, value) ∷ rest) =
      let ih = lookup-insert key other new rest in
      ground (arith, ih, eq_iff name key, eq_iff name other, eq_iff key other)

-- The values of a map, each changed by `f`: what a loop does that assigns to the pointed-to fields.
module _ {ℓ κ} {V : Type ℓ} {W : Type κ} where
  unfoldable pub map_values : (V → W) → Dict V → Dict W
  map_values f [] = []
  map_values f ((k, v) ∷ m) = (k, f v) ∷ map_values f m

  abbrev pub map_option : (V → W) → Option V → Option W
  map_option f none = none
  map_option f (some v) = some (f v)

  pub lookup-map_values :
      (k : String) (f : V → W) (m : Dict V) → lookup k (map_values f m) ≡ map_option f (lookup k m)
  unfolding lookup map_values
  lookup-map_values k f [] = refl
  lookup-map_values k f ((j, v) ∷ m) = ground (arith, lookup-map_values k f m)

-- A predicate of every value of a map.
abbrev pub AllValues {ℓ κ} : {V : Type ℓ} → (V → Type κ) → Dict V → Type κ
AllValues P [] = Unit
AllValues P ((k, v) ∷ m) = P v × AllValues P m

pub AllValues-map {ℓ κ μ} :
    {V : Type ℓ} {P : V → Type κ} {Q : V → Type μ}
    → ((v : V) → P v → Q v)
    → (m : Dict V) → AllValues P m
    → AllValues Q m
AllValues-map f [] a = tt
AllValues-map f ((k, v) ∷ m) (h, a) = (f v h, AllValues-map f m a)

pub insert-AllValues {ℓ κ} :
    {V : Type ℓ} (P : V → Type κ) (k : String) (v : V) (m : Dict V)
    → P v
    → AllValues P m
    → AllValues P (insert k v m)
unfolding insert
insert-AllValues P k v [] h a = (h, tt)
insert-AllValues P k v ((j, w) ∷ m) h (hw, a) = elim (Bool-cases (str_eq j k)) [
  | inl e ↦ rw e (h, a)
  | inr e ↦ rw e (hw, insert-AllValues P k v m h a)
]

pub lookup-AllValues {ℓ κ} :
    {V : Type ℓ} (P : V → Type κ) (k : String) (m : Dict V) {v : V}
    → AllValues P m
    → lookup k m ≡ some v
    → P v
unfolding lookup
lookup-AllValues P k [] {v = v} a e = absurd (none-ne-some _ e)
lookup-AllValues P k ((j, w) ∷ m) {v = v} (hw, a) e = elim (Bool-cases (str_eq j k)) [
  | inl t ↦ (let q : w ≡ v = ground (arith, t, e) in subst P q hw)
  | inr t ↦ lookup-AllValues P k m a (rw t at e)
]
