-- ===== src/Window/Silent.antt =====
-- Windows that have counted nothing for a minute.
use microwaf.Prelude.{
  ℕ, zero, suc, ◌≡◌, refl, ◌∙◌, sym, ap, min, max, some, take, replicate, arith, inl, inr, nat_eq,
  list_eq, Option-cases,
}
use microwaf.Time.{Instant}
use microwaf.Rule.{RuleId, Metric, requests, bytes, connections}
use microwaf.HashMap.{get, get-map_values}
use microwaf.Policy.{}
use microwaf.Window.Defs.{
  empty_bucket, SlidingWindow, advance, window_sum, RuleWindows, rule_sum, advance_all,
}
use microwaf.Window.Recent.{
  IsValid, recent, after_seconds, elapsed_secs, recent-advance, take-recent_from,
}
use microwaf.Window.Sums.{total_of, window_sum_lem}

-- All that the window holds is, at `now`, more than a minute old.
pub record IsSilent (now : Instant) (w : SlidingWindow) : Type 0 where
  pub valid : IsValid w
  pub empty : after_seconds (elapsed_secs w now) (recent w 60) ≡ replicate 60 empty_bucket

total_of-replicate : (m : Metric) (k n : ℕ) → total_of m (take k (replicate n empty_bucket)) ≡ 0
unfolding total_of
total_of-replicate m zero n = refl
total_of-replicate m (suc k) zero = refl
total_of-replicate requests (suc k) (suc n) = omega (arith, total_of-replicate requests k n)
total_of-replicate bytes (suc k) (suc n) = omega (arith, total_of-replicate bytes k n)
total_of-replicate connections (suc k) (suc n) = omega (arith, total_of-replicate connections k n)

silent_sum :
    (w : SlidingWindow) (m : Metric) (n : ℕ) (now : Instant)
    → IsSilent now w
    → window_sum (advance w now) m n ≡ 0
unfolding recent
silent_sum w m n now s =
    let k = min (max n 1) 60 in
    let cut : take k (recent (advance w now) 60) ≡ recent (advance w now) k =
      take-recent_from (advance w now) 0 k 60 (omega arith) in
    let gone : recent (advance w now) k ≡ take k (replicate 60 empty_bucket) =
      sym cut ∙ ap (take k) (recent-advance w now s.valid ∙ s.empty) in
    let total : total_of m (recent (advance w now) k) ≡ 0 =
      ap (total_of m) gone ∙ total_of-replicate m k 60 in
    omega (arith, window_sum_lem (advance w now) m n, total)

-- every window of the map
abbrev pub AllSilent : Instant → RuleWindows → Type 0
AllSilent now m = (id : RuleId) (w : SlidingWindow) → get id m ≡ some w → IsSilent now w

-- A map of silent windows sums to 0 for every rule once it is moved to `now`.
pub rule_sum-silent :
    (m : RuleWindows) (id : RuleId) (metric : Metric) (n : ℕ) (now : Instant)
    → AllSilent now m
    → rule_sum (advance_all m now) id metric n ≡ 0
unfolding rule_sum advance_all
rule_sum-silent m id metric n now silent = elim (Option-cases (get id m)) [
  | inl e ↦ ground (arith, e, get-map_values id (λ w. advance w now) m)
  | inr (w, e) ↦ ground (
    arith,
    e,
    get-map_values id (λ w. advance w now) m,
    silent_sum w metric n now (silent id w e),
  )
]
