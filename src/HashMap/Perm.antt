-- ===== src/HashMap/Perm.antt =====
-- The order of the entries of a map with distinct keys does not show in what is read from it.
use microwaf.Prelude.{◌≡◌, refl, ◌∙◌, Eq, arith}
use mathlib.Core.List.{Permᴰ}
use microwaf.HashMap.Defs.{HashMap, get, Distinct}

module _ {ℓ κ} {K : Type ℓ} {V : Type κ} ⦃e : Eq K⦄ where
  pub get-perm :
      {m n : HashMap K V} → Permᴰ m n → Distinct m → ((k : K) → get k m ≡ get k n) × Distinct n
  unfolding get
  get-perm (Permᴰ.nil) d = (λ k. refl, tt)
  get-perm (Permᴰ.cons {a = (j, v)} {b = (i, w)} {l₁ = l₁} {l₂ = l₂} same p) d =
      let (ih, rest) = get-perm p d.1 in
      (λ k. ground (arith, same, ih k), (ground (arith, same, d.0, ih j), rest))
  get-perm (Permᴰ.swap {a = (j, v)} {b = (i, w)} {a' = (i', w')} {b' = (j', v')} {l = l} p q) d = (
    λ k. ground (arith, p, q, d.0, e.beq_iff j k, e.beq_iff i k, e.beq_iff i j),
    (
      ground (arith, p, q, d.0, d.1.0, e.beq_iff j i, e.beq_iff i j),
      (ground (arith, p, q, d.0, e.beq_iff i j), d.1.1),
    ),
  )
  get-perm (Permᴰ.trans p q) d =
      let (first, mid) = get-perm p d in
      let (second, last) = get-perm q mid in (λ k. first k ∙ second k, last)
