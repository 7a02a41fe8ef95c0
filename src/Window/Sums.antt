-- ===== src/Window/Sums.antt =====
-- What `add` and `sum` read and write, in terms of the recent buckets.
use microwaf.Prelude.{
  ℕ, zero, suc, ◌+◌, ◌-◌, ◌%◌, ◌≤◌, ◌<◌, ◌≡◌, refl, ap, ap₂, ◌∙◌, min, max, List, [], ◌∷◌, get_or,
  set, length-set, get_or-set_self, get_or-set_ne, arith, sym, saturating_add, u64_max, replicate,
}
use microwaf.Time.{Instant}
use microwaf.Rule.{Metric, requests, bytes, connections}
use microwaf.Window.Defs.{
  Bucket, empty_bucket, bucket_get, bucket_add, bucket_back, SlidingWindow, advance, window_add,
  sum_loop, window_sum, new_window, add_here,
}
use microwaf.Window.Recent.{
  IsValid, recent, recent_from, advance-IsValid, after_seconds, elapsed_secs, recent-advance,
}

-- the exact total of a metric, field by field
unfoldable pub total_of : Metric → List Bucket → ℕ
total_of metric [] = 0
total_of requests (b ∷ bs) = b.requests + total_of requests bs
total_of bytes (b ∷ bs) = b.bytes + total_of bytes bs
total_of connections (b ∷ bs) = b.connections + total_of connections bs

total_of-cons :
    (metric : Metric) (b : Bucket) (bs : List Bucket)
    → total_of metric (b ∷ bs) ≡ bucket_get b metric + total_of metric bs
unfolding total_of
total_of-cons requests b bs = refl
total_of-cons bytes b bs = refl
total_of-cons connections b bs = refl

sum_loop_lem :
    (w : SlidingWindow) (metric : Metric) (n i total : ℕ)
    → total ≤ u64_max
    → sum_loop w metric n i total ≡ min (total + total_of metric (recent_from w i n)) u64_max
unfolding sum_loop total_of recent_from
sum_loop_lem w metric zero i total h = omega arith
sum_loop_lem w metric (suc n) i total h = omega (
  arith,
  total_of-cons metric (bucket_back w i) (recent_from w (i + 1) n),
  sum_loop_lem w metric n (i + 1) (saturating_add total (bucket_get (bucket_back w i) metric))
      (omega arith),
)

-- `sum` is the exact total of the metric over the last `secs` seconds, clamped to between 1 and
-- 60 seconds, and cut at the largest `u64`.
pub window_sum_lem :
    (w : SlidingWindow) (metric : Metric) (secs : ℕ)
    → window_sum w metric secs ≡ min (total_of metric (recent w (min (max secs 1) 60))) u64_max
unfolding window_sum recent
window_sum_lem w metric secs =
    omega (arith, sum_loop_lem w metric (min (max secs 1) 60) 0 0 (omega arith))

-- the field of the metric in the newest bucket grows by the delta, up to the largest `u64`
unfoldable pub add_newest : Metric → ℕ → List Bucket → List Bucket
add_newest metric delta [] = []
add_newest requests delta (b ∷ bs) =
    record {
      requests = min (b.requests + delta) u64_max;
      bytes = b.bytes;
      connections = b.connections;
    }
    ∷ bs
add_newest bytes delta (b ∷ bs) =
    record {
      requests = b.requests;
      bytes = min (b.bytes + delta) u64_max;
      connections = b.connections;
    }
    ∷ bs
add_newest connections delta (b ∷ bs) =
    record {
      requests = b.requests;
      bytes = b.bytes;
      connections = min (b.connections + delta) u64_max;
    }
    ∷ bs

bucket_add-newest :
    (metric : Metric) (delta : ℕ) (b : Bucket) (bs : List Bucket)
    → bucket_add b metric delta ∷ bs ≡ add_newest metric delta (b ∷ bs)
unfolding add_newest
bucket_add-newest requests delta b bs = refl
bucket_add-newest bytes delta b bs = refl
bucket_add-newest connections delta b bs = refl

older_kept :
    (w : SlidingWindow) (b : Bucket) (i n : ℕ)
    → IsValid w
    → 0 < i
    → i + n ≤ 60
    → recent_from (record w { buckets = set w.buckets w.cursor b }) i n ≡ recent_from w i n
unfolding recent_from
older_kept w b i zero v p h = refl
older_kept w b i (suc n) v p h =
    ap₂ ◌∷◌ (get_or-set_ne w.buckets b empty_bucket (omega arith))
      (older_kept w b (i + 1) n v (omega arith) (omega arith))

newest_set :
    (w : SlidingWindow) (b : Bucket)
    → IsValid w
    → bucket_back (record w { buckets = set w.buckets w.cursor b }) 0 ≡ b
newest_set w b v =
    let here : (w.cursor + 60 - 0) % 60 ≡ w.cursor = omega arith in
    rw here (get_or-set_self w.buckets w.cursor b empty_bucket (omega arith))

newest : (w : SlidingWindow) → IsValid w → bucket_back w 0 ≡ get_or w.buckets w.cursor empty_bucket
newest w v = let here : (w.cursor + 60 - 0) % 60 ≡ w.cursor = omega arith in rw here

recent-add_here :
    (w : SlidingWindow) (metric : Metric) (delta n : ℕ)
    → IsValid w
    → n < 60
    → recent (add_here w metric delta) (suc n) ≡ add_newest metric delta (recent w (suc n))
unfolding add_here recent recent_from
recent-add_here w metric delta n v h =
    ap₂ ◌∷◌ (newest_set w _ v ∙ ap (λ b. bucket_add b metric delta) (sym (newest w v)))
      (older_kept w _ 1 n v (omega arith) (omega arith))
    ∙ bucket_add-newest metric delta (bucket_back w 0) (recent_from w 1 n)

-- `add` advances the window to `now`. Then the field of the metric in the newest second grows by the
-- delta, up to the largest `u64`; no other field and no other second changes.
pub recent-window_add :
    (w : SlidingWindow) (metric : Metric) (delta : ℕ) (now : Instant)
    → IsValid w
    → recent (window_add w metric delta now) 60
      ≡ add_newest metric delta (after_seconds (elapsed_secs w now) (recent w 60))
unfolding window_add
recent-window_add w metric delta now v =
    recent-add_here (advance w now) metric delta 59 (advance-IsValid w now v) (omega arith)
    ∙ ap (add_newest metric delta) (recent-advance w now v)

pub window_add-IsValid :
    (w : SlidingWindow) (metric : Metric) (delta : ℕ) (now : Instant)
    → IsValid w
    → IsValid (window_add w metric delta now)
unfolding window_add add_here
window_add-IsValid w metric delta now v =
    let a = advance-IsValid w now v in
    record {
      sixty = length-set (advance w now).buckets (advance w now).cursor _ ∙ a.sixty;
      cursor_in = a.cursor_in;
    }

pub new_window-IsValid : (now : Instant) → IsValid (new_window now)
unfolding new_window
new_window-IsValid now = omega arith

pub recent-new_window : (now : Instant) → recent (new_window now) 60 ≡ replicate 60 empty_bucket
unfolding new_window recent recent_from
recent-new_window now = refl
