-- ===== src/Prelude/Order.antt =====
-- The interface of a total order (`Ord`), with the instances for numbers and, lexicographically,
-- for lists; and sorting, whose result does not depend on the order of the input.
use Prim.Native.Nat.{ℕ}
use mathlib.Core.Path.{◌≡◌, refl, ◌∙◌}
use mathlib.Core.Logic.{◌⊎◌, inl, inr}
use mathlib.Core.Bool.{Bool, true, false}
use mathlib.Core.List.{List, [], ◌∷◌, Permᴰ}
use native.Mathlib.Omega.{arith}
use microwaf.Prelude.Tests.{leb, if◌then◌else◌, Bool-cases}

pub record Order {ℓ} (A : Type ℓ) : Type ℓ where
  pub le : A → A → Bool
  pub total : (a b : A) → (le a b ≡ true) ⊎ (le b a ≡ true)
  pub antisymm : (a b : A) → le a b ≡ true → le b a ≡ true → a ≡ b
  pub transitive : (a b c : A) → le a b ≡ true → le b c ≡ true → le a c ≡ true

pub leb_total : (a b : ℕ) → (leb a b ≡ true) ⊎ (leb b a ≡ true)
leb_total a b = elim (Bool-cases (leb a b)) [ inl h ↦ inl h | inr h ↦ inr (ground (arith, h)) ]

pub leb_antisymm : (a b : ℕ) → leb a b ≡ true → leb b a ≡ true → a ≡ b
leb_antisymm a b p q = ground arith

pub leb_trans : (a b c : ℕ) → leb a b ≡ true → leb b c ≡ true → leb a c ≡ true
leb_trans a b c p q = ground arith

instance abbrev pub nat_order : Order ℕ
nat_order = record { le = leb; total = leb_total; antisymm = leb_antisymm; transitive = leb_trans }

module _ {ℓ} {A : Type ℓ} ⦃o : Order A⦄ where
  -- the lexicographic comparison of slices
  abbrev pub list_le : List A → List A → Bool
  list_le [] ys = true
  list_le (x ∷ xs) [] = false
  list_le (x ∷ xs) (y ∷ ys) =
      let rest = list_le xs ys in if o.le x y then (if o.le y x then rest else true) else false

  pub list_le_total : (xs ys : List A) → (list_le xs ys ≡ true) ⊎ (list_le ys xs ≡ true)
  list_le_total [] ys = inl refl
  list_le_total (x ∷ xs) [] = inr refl
  list_le_total (x ∷ xs) (y ∷ ys) = ground (arith, o.total x y, list_le_total xs ys)

  pub list_le_antisymm : (xs ys : List A) → list_le xs ys ≡ true → list_le ys xs ≡ true → xs ≡ ys
  list_le_antisymm [] [] p q = refl
  list_le_antisymm [] (y ∷ ys) p q = ground arith
  list_le_antisymm (x ∷ xs) [] p q = ground arith
  list_le_antisymm (x ∷ xs) (y ∷ ys) p q = ground (arith, o.antisymm x y, list_le_antisymm xs ys)

  pub list_le_trans :
      (xs ys zs : List A) → list_le xs ys ≡ true → list_le ys zs ≡ true → list_le xs zs ≡ true
  list_le_trans [] ys zs p q = refl
  list_le_trans (x ∷ xs) [] zs p q = ground arith
  list_le_trans (x ∷ xs) (y ∷ ys) [] p q = ground arith
  list_le_trans (x ∷ xs) (y ∷ ys) (z ∷ zs) p q =
      ground
        (arith, o.transitive x y z, o.transitive z x y, o.transitive y z x, list_le_trans xs ys zs)

instance abbrev pub list_order {ℓ} : {A : Type ℓ} ⦃o : Order A⦄ → Order (List A)
list_order = record {
  le = list_le;
  total = list_le_total;
  antisymm = list_le_antisymm;
  transitive = list_le_trans;
}

module _ {ℓ κ} {A : Type ℓ} {K : Type κ} ⦃o : Order K⦄ (key : A → K) where
  unfoldable pub insert_sorted : A → List A → List A
  insert_sorted x [] = x ∷ []
  insert_sorted x (y ∷ ys) = if o.le (key x) (key y) then x ∷ y ∷ ys else y ∷ insert_sorted x ys

  -- `sort` by a key
  unfoldable pub sort : List A → List A
  sort [] = []
  sort (x ∷ xs) = insert_sorted x (sort xs)

  module _ (injective : (a b : A) → key a ≡ key b → a ≡ b) where
    insert_sorted_swap :
        (x y : A) (l : List A)
        → insert_sorted x (insert_sorted y l) ≡ insert_sorted y (insert_sorted x l)
    unfolding insert_sorted
    insert_sorted_swap x y [] =
        ground (arith, o.total (key x) (key y), o.antisymm (key x) (key y), injective x y)
    insert_sorted_swap x y (z ∷ l) = ground (
      arith,
      o.total (key x) (key y),
      o.antisymm (key x) (key y),
      injective x y,
      o.transitive (key x) (key y) (key z),
      o.transitive (key y) (key x) (key z),
      o.total (key x) (key z),
      o.total (key y) (key z),
      o.transitive (key y) (key z) (key x),
      o.transitive (key x) (key z) (key y),
      insert_sorted_swap x y l,
    )

    pub sort-perm : {l m : List A} → Permᴰ l m → sort l ≡ sort m
    unfolding sort
    sort-perm (Permᴰ.nil) = refl
    sort-perm (Permᴰ.cons {a = a} {l₂ = m} e p) = rw (e, sort-perm p) refl
    sort-perm (Permᴰ.swap {a = a} {b = b} {l = l} e f) =
        rw (← e, ← f) (insert_sorted_swap a b (sort l))
    sort-perm (Permᴰ.trans p q) = sort-perm p ∙ sort-perm q
