-- ===== src/Ipc/Rows.antt =====
-- crates/microwaf/src/ipc.rs: sorting the rows of `top` keeps them, and every client that the daemon
-- knows has one.
use mathlib.Core.List.Permᴰ
use mathlib.Core.List.{Permᴰ}
use microwaf.Prelude.{
  ◌≡◌, ◌⊎◌, refl, Bool, true, false, ◌||◌, ◌==◌, List, [], ◌∷◌, ◌++◌, arith, inl, inr, Bool-cases,
  ap, ◌∙◌,
}
use microwaf.HashMap.{HashMap, contains_key, keys, get}
use microwaf.Client.{ClientId, client_eq, client_beq_iff}
use microwaf.Rule.{Rule}
use microwaf.Window.{RuleWindows}
use microwaf.State.{DaemonState}
use microwaf.Ipc.Wire.{ViolationWire}
use microwaf.Ipc.Top.{
  Scored, compare_scored, not_after, insert_sorted, sort_scored, score_windows, unseen_rows,
  collect_rows, zero_observations,
}

insert_sorted-perm : (x : Scored) (ys : List Scored) → Permᴰ (x ∷ ys) (insert_sorted x ys)
unfolding insert_sorted
insert_sorted-perm x [] = Permᴰ.refl (x ∷ [])
insert_sorted-perm x (y ∷ ys) = elim (Bool-cases (not_after (compare_scored x y))) [
  | inl e ↦ rw (e, insert_sorted) (Permᴰ.refl (x ∷ y ∷ ys))
  | inr e ↦
      rw (e, insert_sorted)
        (Permᴰ.trans (Permᴰ.swap refl refl) (Permᴰ.cons refl (insert_sorted-perm x ys)))
]

pub sort_scored-perm : (xs : List Scored) → Permᴰ xs (sort_scored xs)
unfolding sort_scored
sort_scored-perm [] = Permᴰ.nil
sort_scored-perm (x ∷ xs) =
    Permᴰ.trans (Permᴰ.cons refl (sort_scored-perm xs)) (insert_sorted-perm x (sort_scored xs))

-- One of the rows is of the client.
abbrev pub HasRow : ClientId → List Scored → Type 0
HasRow c [] = ⊥
HasRow c (x ∷ xs) = (x.client ≡ c) ⊎ HasRow c xs

HasRow-left : (c : ClientId) (xs ys : List Scored) → HasRow c xs → HasRow c (xs ++ ys)
HasRow-left c [] ys h = absurd h
HasRow-left c (x ∷ xs) ys (inl e) = inl e
HasRow-left c (x ∷ xs) ys (inr h) = inr (HasRow-left c xs ys h)

HasRow-right : (c : ClientId) (xs ys : List Scored) → HasRow c ys → HasRow c (xs ++ ys)
HasRow-right c [] ys h = h
HasRow-right c (x ∷ xs) ys h = inr (HasRow-right c xs ys h)

pub HasRow-perm : (c : ClientId) {xs ys : List Scored} → Permᴰ xs ys → HasRow c xs → HasRow c ys
HasRow-perm c (Permᴰ.nil) h = h
HasRow-perm c (Permᴰ.cons {a = a} {b = b} e p) (inl same) = inl (ground (arith, e, same))
HasRow-perm c (Permᴰ.cons e p) (inr h) = inr (HasRow-perm c p h)
HasRow-perm c (Permᴰ.swap e f) (inl same) = inr (inl (ground (arith, e, same)))
HasRow-perm c (Permᴰ.swap e f) (inr (inl same)) = inl (ground (arith, f, same))
HasRow-perm c (Permᴰ.swap e f) (inr (inr h)) = inr (inr h)
HasRow-perm c (Permᴰ.trans p q) h = HasRow-perm c q (HasRow-perm c p h)

score_windows-HasRow :
    {P : Type 0} (rs : List (Rule P)) (c : ClientId) (m : HashMap ClientId RuleWindows)
    → contains_key c m ≡ true
    → HasRow c (score_windows rs m)
unfolding score_windows get
score_windows-HasRow rs c [] h = absurd (ground (arith, h))
score_windows-HasRow rs c ((d, win) ∷ m) h = elim (Bool-cases (d == c)) [
  | inl e ↦ inl ((client_beq_iff d c).0 e)
  | inr e ↦ inr (score_windows-HasRow rs c m (ground (arith, e, h)))
]

unseen_rows-HasRow {ℓ} :
    {V : Type ℓ} (seen : ClientId → Bool) (zero_obs : List ViolationWire) (c : ClientId)
    (m : HashMap ClientId V)
    → seen c ≡ false
    → contains_key c m ≡ true
    → HasRow c (unseen_rows seen zero_obs (keys m))
unfolding unseen_rows get
unseen_rows-HasRow seen zero_obs c [] new h = absurd (ground (arith, h))
unseen_rows-HasRow seen zero_obs c ((d, v) ∷ m) new h = elim (Bool-cases (d == c)) [
  | inl e ↦
      let same : d ≡ c = (client_beq_iff d c).0 e in
      let fresh : seen d ≡ false = ap seen same ∙ new in rw (fresh, unseen_rows) (inl same)
  | inr e ↦
      let rest = unseen_rows-HasRow seen zero_obs c m new (ground (arith, e, h)) in
      elim (Bool-cases (seen d)) [
        | inl old ↦ rw (old, unseen_rows) rest
        | inr fresh ↦ rw (fresh, unseen_rows) (inr rest)
      ]
]

module _ {P : Type 0} where
  -- The daemon has windows, a policy or cumulative counters for the client.
  abbrev pub IsListed : DaemonState P → ClientId → Type 0
  IsListed s c =
      (contains_key c s.windows ≡ true)
      ⊎ ((contains_key c s.policies ≡ true) ⊎ (contains_key c s.counters.by_client ≡ true))

  pub collect_rows-HasRow :
      (s : DaemonState P) (rs : List (Rule P)) (c : ClientId)
      → IsListed s c
      → HasRow c (collect_rows s rs)
  unfolding collect_rows
  collect_rows-HasRow s rs c h =
      let by_windows = score_windows rs s.windows in
      let with_policy =
        unseen_rows (λ d. contains_key d s.windows) (zero_observations rs) (keys s.policies) in
      let with_stats =
        unseen_rows (λ d. contains_key d s.windows || contains_key d s.policies)
          (zero_observations rs) (keys s.counters.by_client) in
      elim (Bool-cases (contains_key c s.windows)) [
        | inl e ↦
            HasRow-left c (by_windows ++ with_policy) with_stats
              (HasRow-left c by_windows with_policy (score_windows-HasRow rs c s.windows e))
        | inr e ↦ elim (Bool-cases (contains_key c s.policies)) [
          | inl f ↦ HasRow-left c (by_windows ++ with_policy) with_stats (
              HasRow-right c by_windows with_policy (
                unseen_rows-HasRow (λ d. contains_key d s.windows) (zero_observations rs) c
                  s.policies e f))
          | inr f ↦ HasRow-right c (by_windows ++ with_policy) with_stats (
              unseen_rows-HasRow (λ d. contains_key d s.windows || contains_key d s.policies)
                (zero_observations rs) c s.counters.by_client (ground (arith, e, f))
                (ground (arith, e, f, h)))
        ]
      ]
