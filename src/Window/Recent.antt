-- ===== src/Window/Recent.antt =====
-- The ring of buckets is the list of the last 60 seconds, newest first.
use microwaf.Prelude.{
  ℕ, zero, suc, ◌+◌, ◌-◌, ◌%◌, ◌≤◌, ◌<◌, ◌≡◌, refl, ap, ◌∙◌, min, List, [], ◌∷◌, ◌++◌, length, take,
  replicate, length-set, get_or-set_self, get_or-set_ne, arith, sym, take-append-take, ap₂, ◌≡⟨◌⟩◌,
  replicate_shift, ◌∎, Bool-cases, nat_beq, inl, nat_beq_iff, inr,
}
use microwaf.Time.{Instant, duration_since, as_secs}
use microwaf.Window.Defs.{Bucket, empty_bucket, SlidingWindow, turn, turns, advance, bucket_back}

pub record IsValid (w : SlidingWindow) : Type 0 where
  pub sixty : length w.buckets ≡ 60
  pub cursor_in : w.cursor < 60

-- the `n` buckets from `i` seconds back on
unfoldable pub recent_from : SlidingWindow → ℕ → ℕ → List Bucket
recent_from w i zero = []
recent_from w i (suc n) = bucket_back w i ∷ recent_from w (i + 1) n

-- the buckets of the last `n` seconds, newest first
unfoldable pub recent : SlidingWindow → ℕ → List Bucket
recent w n = recent_from w 0 n

pub turn-IsValid : {w : SlidingWindow} → IsValid w → IsValid (turn w)
unfolding turn
turn-IsValid {w} v = ground (arith, length-set w.buckets ((w.cursor + 1) % 60) empty_bucket)

bucket_back-turn_zero : (w : SlidingWindow) → IsValid w → bucket_back (turn w) 0 ≡ empty_bucket
unfolding turn
bucket_back-turn_zero w v =
    let next = (w.cursor + 1) % 60 in
    let back : (next + 60 - 0) % 60 ≡ next = omega arith in
    rw back (get_or-set_self w.buckets next empty_bucket empty_bucket (omega arith))

bucket_back-turn_suc :
    (w : SlidingWindow) (i : ℕ)
    → IsValid w
    → i < 59
    → bucket_back (turn w) (i + 1) ≡ bucket_back w i
unfolding turn
bucket_back-turn_suc w i v h =
    let next = (w.cursor + 1) % 60 in
    let back : (next + 60 - (i + 1)) % 60 ≡ (w.cursor + 60 - i) % 60 = omega arith in
    rw back (get_or-set_ne w.buckets empty_bucket empty_bucket (omega arith))

recent_from-turn :
    (w : SlidingWindow) (i n : ℕ)
    → IsValid w
    → i + n ≤ 59
    → recent_from (turn w) (i + 1) n ≡ recent_from w i n
unfolding recent_from
recent_from-turn w i zero v h = refl
recent_from-turn w i (suc n) v h =
    ap₂ ◌∷◌ (bucket_back-turn_suc w i v (omega arith))
      (recent_from-turn w (i + 1) n v (omega arith))

-- one second on, an empty bucket comes in front
recent-turn :
    (w : SlidingWindow) (n : ℕ)
    → IsValid w
    → n < 60
    → recent (turn w) (suc n) ≡ empty_bucket ∷ recent w n
unfolding recent recent_from
recent-turn w n v h = ap₂ ◌∷◌ (bucket_back-turn_zero w v) (recent_from-turn w 0 n v (omega arith))

pub take-recent_from :
    (w : SlidingWindow) (i k n : ℕ) → k ≤ n → take k (recent_from w i n) ≡ recent_from w i k
unfolding recent_from
take-recent_from w i zero n h = refl
take-recent_from w i (suc k) zero h = absurd (omega arith)
take-recent_from w i (suc k) (suc n) h =
    ap (◌∷◌ (bucket_back w i)) (take-recent_from w (i + 1) k n (omega arith))

take-recent : (w : SlidingWindow) (n : ℕ) → take n (recent w n) ≡ recent w n
unfolding recent
take-recent w n = take-recent_from w 0 n n (omega arith)

pub turns-IsValid : (k : ℕ) (w : SlidingWindow) → IsValid w → IsValid (turns k w)
unfolding turns
turns-IsValid zero w v = v
turns-IsValid (suc k) w v = turns-IsValid k (turn w) (turn-IsValid v)

recent-turns :
    (k n : ℕ) (w : SlidingWindow)
    → IsValid w
    → n ≤ 60
    → recent (turns k w) n ≡ take n (replicate k empty_bucket ++ recent w n)
unfolding turns recent recent_from
recent-turns zero n w v h = sym (take-recent_from w 0 n n (omega arith))
recent-turns (suc k) zero w v h = refl
recent-turns (suc k) (suc n) w v h =
    recent (turns k (turn w)) (suc n)
    ≡⟨ recent-turns k (suc n) (turn w) (turn-IsValid v) h ⟩
      take (suc n) (replicate k empty_bucket ++ recent (turn w) (suc n))
    ≡⟨ (rw (recent-turn w n v (omega arith), replicate_shift)) ⟩
      empty_bucket ∷ take n (replicate k empty_bucket ++ recent w n)
    ≡⟨ ap (◌∷◌ empty_bucket) (widen k n) ⟩
      take (suc n) (replicate (suc k) empty_bucket ++ recent w (suc n)) ∎
  where
    widen :
        (k n : ℕ)
        → take n (replicate k empty_bucket ++ recent w n)
          ≡ take n (replicate k empty_bucket ++ recent w (suc n))
    widen k n =
        rw (← take-recent_from w 0 n (suc n) (omega arith))
          (take-append-take n n (replicate k empty_bucket) (recent w (suc n)) (omega arith))

-- what the window should hold after `elapsed` seconds: the last minute of what it held, behind
-- empty seconds
abbrev pub after_seconds : ℕ → List Bucket → List Bucket
after_seconds elapsed l = take 60 (replicate elapsed empty_bucket ++ l)

unfoldable pub elapsed_secs : SlidingWindow → Instant → ℕ
elapsed_secs w now = as_secs (duration_since now w.last_advance)

advance_cases {ℓ} :
    (P : SlidingWindow → Type ℓ) (w : SlidingWindow) (now : Instant)
    → (elapsed_secs w now ≡ 0 → P w)
    → P (record (turns (min (elapsed_secs w now) 60) w) { last_advance = now })
    → P (advance w now)
unfolding advance elapsed_secs
advance_cases P w now still moved = elim (Bool-cases (nat_beq (elapsed_secs w now) 0)) [
  | inl e ↦ rw (e, advance) (still ((nat_beq_iff _ _).0 e))
  | inr e ↦ rw (e, advance) moved
]

pub advance-IsValid : (w : SlidingWindow) (now : Instant) → IsValid w → IsValid (advance w now)
advance-IsValid w now v =
    advance_cases IsValid w now (λ _. v)
      (record {
        sixty = (turns-IsValid (min (elapsed_secs w now) 60) w v).sixty;
        cursor_in = (turns-IsValid (min (elapsed_secs w now) 60) w v).cursor_in;
      })

-- more empty seconds than are kept are as many as are kept
take-replicate_cap :
    (m k : ℕ) (l : List Bucket)
    → take m (replicate (min k m) empty_bucket ++ l) ≡ take m (replicate k empty_bucket ++ l)
take-replicate_cap zero k l = refl
take-replicate_cap (suc m) zero l = let e : min 0 (suc m) ≡ 0 = omega arith in rw e
take-replicate_cap (suc m) (suc k) l =
    let e : min (suc k) (suc m) ≡ suc (min k m) = omega arith in
    rw e (ap (◌∷◌ empty_bucket) (take-replicate_cap m k l))

recent-stamp :
    (w : SlidingWindow) (now : Instant) (n : ℕ)
    → recent (record w { last_advance = now }) n ≡ recent w n
unfolding recent recent_from
recent-stamp w now n = go n 0
  where
    go : (n i : ℕ) → recent_from (record w { last_advance = now }) i n ≡ recent_from w i n
    go zero i = refl
    go (suc n) i = ap (◌∷◌ (bucket_back w i)) (go n (i + 1))

-- `advance` moves the window on by the whole seconds since the last advance: the recent buckets
-- are the old ones behind that many empty buckets, cut to a minute.
pub recent-advance :
    (w : SlidingWindow) (now : Instant)
    → IsValid w
    → recent (advance w now) 60 ≡ after_seconds (elapsed_secs w now) (recent w 60)
recent-advance w now v =
    advance_cases (λ u. recent u 60 ≡ after_seconds (elapsed_secs w now) (recent w 60)) w now
      (λ e. rw e (sym (take-recent w 60)))
      (recent-stamp (turns (min (elapsed_secs w now) 60) w) now 60
        ∙ recent-turns (min (elapsed_secs w now) 60) 60 w v (omega arith)
        ∙ take-replicate_cap 60 (elapsed_secs w now) (recent w 60))
