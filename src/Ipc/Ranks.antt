-- ===== src/Ipc/Ranks.antt =====
-- crates/microwaf/src/ipc.rs: which of two rows of `top` may stand in front, apart from the code that
-- compares them, and that the comparison agrees.
use Prim.Native.Nat.{compare, Ordering, lt, eq, gt}
use microwaf.Prelude.{
  ℕ, ◌≡◌, ◌<◌, ◌⊎◌, refl, true, false, List, [], ◌∷◌, arith, inl, inr, ltb, Bool-cases, ◌∙◌, sym,
}
use microwaf.Client.{IpAddr, v4, v6, ClientId}
use microwaf.Ipc.Top.{Scored, then_with, compare_bytes, compare_ip, compare_scored, not_after}

-- bytes in dictionary order, or the same
abbrev pub LexLe : List ℕ → List ℕ → Type 0
LexLe [] ys = Unit
LexLe (x ∷ xs) [] = ⊥
LexLe (x ∷ xs) (y ∷ ys) = (x < y) ⊎ ((x ≡ y) × LexLe xs ys)

-- IPv4 addresses stand before IPv6 addresses
abbrev pub IpLe : IpAddr → IpAddr → Type 0
IpLe (v4 a) (v4 b) = LexLe a b
IpLe (v4 a) (v6 b) = Unit
IpLe (v6 a) (v4 b) = ⊥
IpLe (v6 a) (v6 b) = LexLe a b

-- by MAC address, and by IP address for the same MAC address
abbrev pub ClientLe : ClientId → ClientId → Type 0
ClientLe c d = LexLe c.mac d.mac × (c.mac ≡ d.mac → IpLe c.ip d.ip)

-- A hot row stands before one that is not. Of two that are equally hot, the one with the higher score
-- stands in front, and for the same score the client decides.
abbrev pub Before : Scored → Scored → Type 0
Before x y =
    ((x.hot ≡ true) × (y.hot ≡ false))
    ⊎ ((x.hot ≡ y.hot) × ((y.best < x.best) ⊎ ((x.best ≡ y.best) × ClientLe x.client y.client)))

compare_bytes_self : (a : List ℕ) → compare_bytes a a ≡ eq
compare_bytes_self [] = refl
compare_bytes_self (x ∷ xs) = ground (arith, compare_bytes_self xs)

compare_bytes-LexLe : (a b : List ℕ) → not_after (compare_bytes a b) ≡ true → LexLe a b
compare_bytes-LexLe [] b h = tt
compare_bytes-LexLe (x ∷ xs) [] h = absurd (ground (arith, h))
compare_bytes-LexLe (x ∷ xs) (y ∷ ys) h = elim (Bool-cases (ltb x y)) [
  | inl less ↦ inl (ground (arith, less))
  | inr more ↦
      let same : x ≡ y = ground (arith, more, h) in
      inr (same, compare_bytes-LexLe xs ys (ground (arith, same, h)))
]

compare_ip-IpLe : (a b : IpAddr) → not_after (compare_ip a b) ≡ true → IpLe a b
compare_ip-IpLe (v4 a) (v4 b) h = compare_bytes-LexLe a b h
compare_ip-IpLe (v4 a) (v6 b) h = tt
compare_ip-IpLe (v6 a) (v4 b) h = absurd (ground (arith, h))
compare_ip-IpLe (v6 a) (v6 b) h = compare_bytes-LexLe a b h

-- The first of two comparisons, and the second if the first is a draw.
first_early : (o p : Ordering) → not_after (then_with o p) ≡ true → not_after o ≡ true
first_early lt p h = refl
first_early eq p h = refl
first_early gt p h = h

second_early : (o p : Ordering) → o ≡ eq → not_after (then_with o p) ≡ true → not_after p ≡ true
second_early lt p e h = absurd (ground (arith, e))
second_early eq p e h = h
second_early gt p e h = absurd (ground (arith, e))

clients-ClientLe :
    (c d : ClientId)
    → not_after (then_with (compare_bytes c.mac d.mac) (compare_ip c.ip d.ip)) ≡ true
    → ClientLe c d
clients-ClientLe c d h = (
  compare_bytes-LexLe c.mac d.mac
      (first_early (compare_bytes c.mac d.mac) (compare_ip c.ip d.ip) h),
  λ same. compare_ip-IpLe c.ip d.ip (
      second_early (compare_bytes c.mac d.mac) (compare_ip c.ip d.ip)
        (ground (arith, same, compare_bytes_self c.mac)) h),
)

scores_early :
    (x y : Scored)
    → not_after (
        then_with (compare y.best x.best) (
          then_with (compare_bytes x.client.mac y.client.mac) (compare_ip x.client.ip y.client.ip)))
      ≡ true
    → (y.best < x.best) ⊎ ((x.best ≡ y.best) × ClientLe x.client y.client)
scores_early x y h = elim (Bool-cases (ltb y.best x.best)) [
  | inl less ↦ inl (ground (arith, less))
  | inr more ↦
      let same : x.best ≡ y.best = ground (arith, more, h) in
      inr (same, clients-ClientLe x.client y.client (ground (arith, same, h)))
]

-- Where the comparison lets a row stand in front, it may.
pub compare_scored-Before : (x y : Scored) → not_after (compare_scored x y) ≡ true → Before x y
unfolding compare_scored
compare_scored-Before x y h = elim (Bool-cases x.hot) [
  | inl hot ↦ elim (Bool-cases y.hot) [
    | inl also ↦ inr (hot ∙ sym also, scores_early x y (ground (arith, hot, also, h)))
    | inr cold ↦ inl (hot, cold)
  ]
  | inr cold ↦ elim (Bool-cases y.hot) [
    | inl hot ↦ absurd (ground (arith, cold, hot, h))
    | inr also ↦ inr (cold ∙ sym also, scores_early x y (ground (arith, cold, also, h)))
  ]
]
