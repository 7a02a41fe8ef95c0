-- ===== src/HashMap/Laws.antt =====
-- What can be read from a map after each update, and that updates keep keys distinct.
use microwaf.Prelude.{
  ◌≡◌, ◌≢◌, refl, Bool, none, some, [], ◌∷◌, Eq, ◌==◌, if◌then◌else◌, arith, beq_refl, Bool-cases,
  inl, inr,
}
use microwaf.HashMap.Defs.{HashMap, get, insert, remove, retain, map_values, Distinct}

module _ {ℓ κ} {K : Type ℓ} {V : Type κ} ⦃e : Eq K⦄ where
  pub get-insert :
      (k j : K) (v : V) (m : HashMap K V)
      → get j (insert k v m) ≡ (if k == j then some v else get j m)
  unfolding get insert
  get-insert k j v [] = refl
  get-insert k j v ((i, w) ∷ m) =
      ground (arith, e.beq_iff k j, e.beq_iff i k, e.beq_iff i j, get-insert k j v m)

  pub get-insert_self : (k : K) (v : V) (m : HashMap K V) → get k (insert k v m) ≡ some v
  get-insert_self k v m = simp (get-insert, beq_refl)

  pub get-insert_ne : (k j : K) (v : V) (m : HashMap K V) → k ≢ j → get j (insert k v m) ≡ get j m
  get-insert_ne k j v m n = ground (arith, get-insert k j v m, e.beq_iff k j)

  pub get-remove :
      (k j : K) (m : HashMap K V) → get j (remove k m) ≡ (if k == j then none else get j m)
  unfolding get remove
  get-remove k j [] = ground arith
  get-remove k j ((i, w) ∷ m) =
      ground (arith, e.beq_iff k j, e.beq_iff i k, e.beq_iff i j, get-remove k j m)

  pub get-remove_self : (k : K) (m : HashMap K V) → get k (remove k m) ≡ none
  get-remove_self k m = simp (get-remove, beq_refl)

  pub get-retain_none :
      (k : K) (p : V → Bool) (m : HashMap K V) → get k m ≡ none → get k (retain p m) ≡ none
  unfolding get retain
  get-retain_none k p [] h = refl
  get-retain_none k p ((i, w) ∷ m) h = ground (arith, get-retain_none k p m)

  pub get-map_values :
      (k : K) (f : V → V) (m : HashMap K V)
      → get k (map_values f m) ≡ elim (get k m) [ none ↦ none | some v ↦ some (f v) ]
  unfolding get
  get-map_values k f [] = refl
  get-map_values k f ((i, w) ∷ m) = ground (arith, get-map_values k f m)

  pub insert-Distinct : (k : K) (v : V) (m : HashMap K V) → Distinct m → Distinct (insert k v m)
  unfolding insert get
  insert-Distinct k v [] d = (refl, tt)
  insert-Distinct k v ((i, w) ∷ m) d = elim (Bool-cases (i == k)) [
    | inl h ↦ rw (h, insert) (rw (← (e.beq_iff i k).0 h) d)
    | inr h ↦
        rw (h, insert)
          (
            ground (arith, get-insert k i v m, e.beq_iff k i, e.beq_iff i k, d.0),
            insert-Distinct k v m d.1,
          )
  ]
