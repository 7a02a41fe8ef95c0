-- ===== src/Window/Defs.antt =====
-- crates/mw-core/src/window.rs: `Bucket`, `SlidingWindow` and `RuleWindows`.
use microwaf.Prelude.{
  ℕ, zero, suc, ◌+◌, ◌-◌, ◌%◌, min, max, none, some, List, get_or, set, replicate, saturating_add,
  list_eq, nat_eq, nat_beq, if◌then◌else◌,
}
use microwaf.Time.{Instant, duration_since, as_secs}
use microwaf.Rule.{Metric, requests, bytes, connections, RuleId}
use microwaf.HashMap.{HashMap, get, insert, find_or, map_values}

pub record Bucket : Type 0 where
  pub requests : ℕ
  pub bytes : ℕ
  pub connections : ℕ

-- `Bucket::default()`
abbrev pub empty_bucket : Bucket
empty_bucket = record { requests = 0; bytes = 0; connections = 0 }

-- `Bucket::get`
abbrev pub bucket_get : Bucket → Metric → ℕ
bucket_get b requests = b.requests
bucket_get b bytes = b.bytes
bucket_get b connections = b.connections

-- `Bucket::add`
abbrev pub bucket_add : Bucket → Metric → ℕ → Bucket
bucket_add b requests delta = record b { requests = saturating_add b.requests delta }
bucket_add b bytes delta = record b { bytes = saturating_add b.bytes delta }
bucket_add b connections delta = record b { connections = saturating_add b.connections delta }

-- The array of 60 buckets is a list; `Recent.IsValid` states its length.
pub record SlidingWindow : Type 0 where
  pub buckets : List Bucket
  pub cursor : ℕ
  pub last_advance : Instant

-- `SlidingWindow::new`
unfoldable pub new_window : Instant → SlidingWindow
new_window now = record { buckets = replicate 60 empty_bucket; cursor = 0; last_advance = now }

-- one round of the loop of `advance`
unfoldable pub turn : SlidingWindow → SlidingWindow
turn w =
    let next = (w.cursor + 1) % 60 in
    record w { buckets = set w.buckets next empty_bucket; cursor = next }

unfoldable pub turns : ℕ → SlidingWindow → SlidingWindow
turns zero w = w
turns (suc n) w = turns n (turn w)

-- `SlidingWindow::advance`
unfoldable pub advance : SlidingWindow → Instant → SlidingWindow
advance w now =
    let elapsed = as_secs (duration_since now w.last_advance) in
    if nat_beq elapsed 0 then w else record (turns (min elapsed 60) w) { last_advance = now }

unfoldable pub add_here : SlidingWindow → Metric → ℕ → SlidingWindow
add_here w metric delta = record w {
  buckets =
      set w.buckets w.cursor (bucket_add (get_or w.buckets w.cursor empty_bucket) metric delta);
}

-- `SlidingWindow::add`
unfoldable pub window_add : SlidingWindow → Metric → ℕ → Instant → SlidingWindow
unfolding add_here
window_add w metric delta now = add_here (advance w now) metric delta

-- the bucket `i` seconds back
abbrev pub bucket_back : SlidingWindow → ℕ → Bucket
bucket_back w i = get_or w.buckets ((w.cursor + 60 - i) % 60) empty_bucket

-- the loop of `sum`: `n` rounds are left, and `i` is the loop's variable
unfoldable pub sum_loop : SlidingWindow → Metric → ℕ → ℕ → ℕ → ℕ
sum_loop w metric zero i total = total
sum_loop w metric (suc n) i total =
    sum_loop w metric n (i + 1) (saturating_add total (bucket_get (bucket_back w i) metric))

-- `SlidingWindow::sum`; `secs.clamp(1, 60)` is the number of rounds
unfoldable pub window_sum : SlidingWindow → Metric → ℕ → ℕ
window_sum w metric secs = sum_loop w metric (min (max secs 1) 60) 0 0

-- `RuleWindows`: its only field is the map `by_rule`
abbrev pub RuleWindows : Type 0
RuleWindows = HashMap RuleId SlidingWindow

-- `RuleWindows::add`
unfoldable pub rule_add : RuleWindows → RuleId → Metric → ℕ → Instant → RuleWindows
rule_add m rule_id metric delta now =
    insert rule_id (window_add (find_or (new_window now) rule_id m) metric delta now) m

-- `RuleWindows::sum`
unfoldable pub rule_sum : RuleWindows → RuleId → Metric → ℕ → ℕ
rule_sum m rule_id metric secs = elim (get rule_id m) [
  | none ↦ 0
  | some w ↦ window_sum w metric secs
]

-- `RuleWindows::advance_all`
unfoldable pub advance_all : RuleWindows → Instant → RuleWindows
advance_all m now = map_values (λ w. advance w now) m
