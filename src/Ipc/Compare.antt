-- ===== src/Ipc/Compare.antt =====
-- crates/microwaf/src/ipc.rs: of two rows of `top`, the comparison lets one stand in front of the other.
use Prim.Native.Nat.{compare, Ordering, lt, eq, gt}
use microwaf.Prelude.{ℕ, ◌≡◌, refl, sym, ap₂, ◌∙◌, Bool, true, false, List, [], ◌∷◌, arith}
use microwaf.Client.{IpAddr, v4, v6}
use microwaf.Ipc.Top.{
  Scored, then_with, compare_bytes, compare_ip, compare_bool, compare_scored, not_after,
}

abbrev swap : Ordering → Ordering
swap lt = gt
swap eq = eq
swap gt = lt

compare-swap : (a b : ℕ) → compare b a ≡ swap (compare a b)
compare-swap a b = ground arith

swap-then_with : (o p : Ordering) → swap (then_with o p) ≡ then_with (swap o) (swap p)
swap-then_with lt p = refl
swap-then_with eq p = refl
swap-then_with gt p = refl

compare_bytes-swap : (a b : List ℕ) → compare_bytes b a ≡ swap (compare_bytes a b)
compare_bytes-swap [] [] = refl
compare_bytes-swap [] (y ∷ ys) = refl
compare_bytes-swap (x ∷ xs) [] = refl
compare_bytes-swap (x ∷ xs) (y ∷ ys) =
    ap₂ then_with (compare-swap x y) (compare_bytes-swap xs ys)
    ∙ sym (swap-then_with (compare x y) (compare_bytes xs ys))

compare_ip-swap : (a b : IpAddr) → compare_ip b a ≡ swap (compare_ip a b)
compare_ip-swap (v4 a) (v4 b) = compare_bytes-swap a b
compare_ip-swap (v4 a) (v6 b) = refl
compare_ip-swap (v6 a) (v4 b) = refl
compare_ip-swap (v6 a) (v6 b) = compare_bytes-swap a b

compare_bool-swap : (a b : Bool) → compare_bool b a ≡ swap (compare_bool a b)
compare_bool-swap false false = refl
compare_bool-swap false true = refl
compare_bool-swap true false = refl
compare_bool-swap true true = refl

swap_both :
    (o o' p p' : Ordering) → o' ≡ swap o → p' ≡ swap p → then_with o' p' ≡ swap (then_with o p)
swap_both o o' p p' e f = ap₂ then_with e f ∙ sym (swap-then_with o p)

compare_scored-swap : (a b : Scored) → compare_scored b a ≡ swap (compare_scored a b)
unfolding compare_scored
compare_scored-swap a b = swap_both _ _ _ _ (compare_bool-swap b.hot a.hot) (
    swap_both _ _ _ _ (compare-swap b.best a.best) (
      swap_both _ _ _ _ (compare_bytes-swap a.client.mac b.client.mac)
        (compare_ip-swap a.client.ip b.client.ip)))

-- Of two rows, one may stand in front of the other.
not_after_total : (o : Ordering) → not_after o ≡ false → not_after (swap o) ≡ true
not_after_total lt h = ground arith
not_after_total eq h = ground arith
not_after_total gt h = refl

pub scored_total :
    (x y : Scored) → not_after (compare_scored x y) ≡ false → not_after (compare_scored y x) ≡ true
scored_total x y h = rw (compare_scored-swap x y) (not_after_total (compare_scored x y) h)
