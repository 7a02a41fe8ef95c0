-- ===== src/Ipc/Order.antt =====
-- The rows that `top` shows are in order and within the limit.
use mathlib.Core.List.{Permᴰ}
use microwaf.Client.{ClientId}
use microwaf.Ipc.Compare.{scored_total}
use microwaf.Ipc.Ranks.{Before, compare_scored-Before}
use microwaf.Ipc.Rows.{sort_scored-perm, HasRow, HasRow-perm, IsListed, collect_rows-HasRow}
use microwaf.Prelude.{
  ℕ, zero, suc, length-take, ◌≡◌, ◌≤◌, ◌<◌, true, List, [], ◌∷◌, length, take, arith, inl, inr,
  Bool-cases, ltb,
}
use microwaf.State.{DaemonState, rules}
use microwaf.Ipc.Wire.{TopParams}
use microwaf.Ipc.Top.{
  Scored, compare_scored, not_after, insert_sorted, sort_scored, collect_rows, select_rules,
  top_rows,
}

-- Each row is let stand in front of the next.
abbrev Compared : List Scored → Type 0
Compared [] = Unit
Compared (x ∷ []) = Unit
Compared (x ∷ y ∷ ys) = (not_after (compare_scored x y) ≡ true) × Compared (y ∷ ys)

front-Compared :
    (y x z : Scored) (zs : List Scored)
    → not_after (compare_scored y x) ≡ true
    → not_after (compare_scored y z) ≡ true
    → Compared (insert_sorted x (z ∷ zs))
    → Compared (y ∷ insert_sorted x (z ∷ zs))
unfolding insert_sorted
front-Compared y x z zs hx hz = elim (Bool-cases (not_after (compare_scored x z))) [
  | inl early ↦ rw (early, insert_sorted) (λ rest. (hx, rest))
  | inr late ↦ rw (late, insert_sorted) (λ rest. (hz, rest))
]

insert_sorted-Compared :
    (x : Scored) (ys : List Scored) → Compared ys → Compared (insert_sorted x ys)
unfolding insert_sorted
insert_sorted-Compared x [] h = tt
insert_sorted-Compared x (y ∷ []) h = elim (Bool-cases (not_after (compare_scored x y))) [
  | inl le ↦ rw (le, insert_sorted) (le, tt)
  | inr late ↦ rw (late, insert_sorted) (scored_total x y late, tt)
]
insert_sorted-Compared x (y ∷ z ∷ zs) h =
    let rest = insert_sorted-Compared x (z ∷ zs) h.1 in
    elim (Bool-cases (not_after (compare_scored x y))) [
      | inl le ↦ rw (le, insert_sorted) (le, h)
      | inr late ↦
          rw (late, insert_sorted) (front-Compared y x z zs (scored_total x y late) h.0 rest)
    ]

sort_scored-Compared : (xs : List Scored) → Compared (sort_scored xs)
unfolding sort_scored
sort_scored-Compared [] = tt
sort_scored-Compared (x ∷ xs) = insert_sorted-Compared x (sort_scored xs) (sort_scored-Compared xs)

take-Compared : (n : ℕ) (xs : List Scored) → Compared xs → Compared (take n xs)
take-Compared zero xs h = tt
take-Compared (suc n) [] h = tt
take-Compared (suc zero) (x ∷ xs) h = tt
take-Compared (suc (suc n)) (x ∷ []) h = tt
take-Compared (suc (suc n)) (x ∷ y ∷ ys) h = (h.0, take-Compared (suc n) (y ∷ ys) h.1)

-- Each row may stand in front of the next.
abbrev pub InOrder : List Scored → Type 0
InOrder [] = Unit
InOrder (x ∷ []) = Unit
InOrder (x ∷ y ∷ ys) = Before x y × InOrder (y ∷ ys)

Compared-InOrder : (xs : List Scored) → Compared xs → InOrder xs
Compared-InOrder [] h = tt
Compared-InOrder (x ∷ []) h = tt
Compared-InOrder (x ∷ y ∷ ys) h = (compare_scored-Before x y h.0, Compared-InOrder (y ∷ ys) h.1)

-- The rows that `top` shows, of which there are at most as many as a positive limit says, are the
-- first ones, or all without a limit, of a list of rows in order: hot clients first, then by falling
-- score, then by MAC and IP address. That list is a permutation of the rows that are collected, and
-- has a row for every client with windows, a policy or cumulative counters.
pub top_rows-InOrder :
    {P : Type 0} (s : DaemonState P) (p : TopParams)
    → (xs : List Scored) × Permᴰ (collect_rows s (select_rules p (rules s).rules)) xs
      × InOrder xs
      × ((c : ClientId) → IsListed s c → HasRow c xs)
      × (0 < p.limit → top_rows s p ≡ take p.limit xs)
      × (p.limit ≡ 0 → top_rows s p ≡ xs)
      × InOrder (top_rows s p)
      × (0 < p.limit → length (top_rows s p) ≤ p.limit)
unfolding top_rows
top_rows-InOrder s p =
    let rs = select_rules p (rules s).rules in
    let xs = sort_scored (collect_rows s rs) in
    let sorted = sort_scored-Compared (collect_rows s rs) in
    (
      xs,
      sort_scored-perm (collect_rows s rs),
      Compared-InOrder xs sorted,
      λ c h. HasRow-perm c (sort_scored-perm (collect_rows s rs)) (collect_rows-HasRow s rs c h),
      λ h. ground (arith, h),
      λ h. ground (arith, h),
      elim (Bool-cases (ltb 0 p.limit)) [
        | inl e ↦ rw e (Compared-InOrder (take p.limit xs) (take-Compared p.limit xs sorted))
        | inr e ↦ rw e (Compared-InOrder xs sorted)
      ],
      λ h.
          let cut : top_rows s p ≡ take p.limit xs = ground (arith, h) in
          rw cut (omega (arith, length-take p.limit xs)),
    )
