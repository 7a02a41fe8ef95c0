-- ===== src/HashMap/Defs.antt =====
-- `std::collections::HashMap`: an association list whose order stands for the unspecified order of
-- iteration. `insert` overwrites in place; `Distinct` says that no key stands twice.
use microwaf.Prelude.{
  ◌≡◌, Bool, true, false, Option, none, some, List, [], ◌∷◌, Eq, ◌==◌, if◌then◌else◌,
}

abbrev pub HashMap {ℓ κ} : Type ℓ → Type κ → Type (ℓ ⊔ κ)
HashMap K V = List (K × V)

module _ {ℓ κ} {K : Type ℓ} {V : Type κ} ⦃e : Eq K⦄ where
  unfoldable pub get : K → HashMap K V → Option V
  get k [] = none
  get k ((j, v) ∷ m) = if j == k then some v else get k m

  unfoldable pub insert : K → V → HashMap K V → HashMap K V
  insert k v [] = (k, v) ∷ []
  insert k v ((j, w) ∷ m) = if j == k then (k, v) ∷ m else (j, w) ∷ insert k v m

  unfoldable pub remove : K → HashMap K V → HashMap K V
  remove k [] = []
  remove k ((j, w) ∷ m) = if j == k then remove k m else (j, w) ∷ remove k m

  abbrev pub contains_key : K → HashMap K V → Bool
  contains_key k m = elim (get k m) [ none ↦ false | some _ ↦ true ]

  -- `get(k).copied().unwrap_or(d)`, and the start of `entry(k).or_insert(d)`
  abbrev pub find_or : V → K → HashMap K V → V
  find_or d k m = elim (get k m) [ none ↦ d | some v ↦ v ]

  -- `HashMap::retain` by a test of the value
  unfoldable pub retain : (V → Bool) → HashMap K V → HashMap K V
  retain p [] = []
  retain p ((j, w) ∷ m) = if p w then (j, w) ∷ retain p m else retain p m

  abbrev pub Distinct : HashMap K V → Type κ
  Distinct [] = Unit
  Distinct ((j, w) ∷ m) = (get j m ≡ none) × Distinct m

abbrev pub keys {ℓ κ} : {K : Type ℓ} {V : Type κ} → HashMap K V → List K
keys [] = []
keys ((j, v) ∷ m) = j ∷ keys m

-- `for v in map.values_mut()`
abbrev pub map_values {ℓ κ} : {K : Type ℓ} {V : Type κ} → (V → V) → HashMap K V → HashMap K V
map_values f [] = []
map_values f ((j, v) ∷ m) = (j, f v) ∷ map_values f m
