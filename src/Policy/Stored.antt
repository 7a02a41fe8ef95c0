-- ===== src/Policy/Stored.antt =====
-- A manual policy that is written to the store and read back after a restart.
use microwaf.Prelude.{ℕ, ◌+◌, ◌-◌, ◌*◌, ◌≤◌, ◌<◌, ◌≡◌, refl, max, some, arith, u64_max}
use microwaf.Time.{from_secs, as_secs, nanos, instant_limit}
use microwaf.Policy.Defs.{ManualPolicy, from_runtime, to_runtime}

-- A policy with a deadline is stored at `now`, with the wall clock at `sys`, and restored at
-- `now'`, with the wall clock at `sys'`. If the clocks and the deadline fit their types, the
-- restored policy has the same throttle and block, and a deadline that is never later, by the wall
-- clock, than the original one, and less than two seconds earlier, or at once if it has passed.
pub to_runtime-from_runtime :
    (p : ManualPolicy) (now now' u sys sys' : ℕ)
    → p.until ≡ some u
    → now ≤ u
    → as_secs sys + as_secs (u - now) ≤ u64_max
    → now' + (sys + (u - now)) < instant_limit
    → (q : ManualPolicy) × (v : ℕ) × (to_runtime (from_runtime p now sys) now' sys' ≡ some q)
      × (q.throttle ≡ p.throttle)
      × (q.blocked ≡ p.blocked)
      × (q.until ≡ some v)
      × (now' ≤ v)
      × (v + sys' ≤ now' + max sys' (sys + (u - now)))
      × (now' + sys + (u - now) < v + sys' + 2 * nanos)
unfolding to_runtime from_runtime
to_runtime-from_runtime p now now' u sys sys' e h f l =
    let left = from_secs (as_secs sys + as_secs (u - now)) - sys' in
    let v : ℕ = now' + left in
    let q : ManualPolicy = record {
      throttle = p.throttle;
      blocked = p.blocked;
      until = some (now' + left);
    } in
    let back : to_runtime (from_runtime p now sys) now' sys' ≡ some q = ground arith in
    (q, v, back, refl, refl, refl, omega arith, omega arith, omega arith)
