-- ===== src/Cli/Asked.antt =====
-- When a wait of the live view ends in asking to quit, and that it does not panic.
use microwaf.Prelude.{
  ℕ, ◌+◌, ◌<◌, ◌≡◌, ◌≢◌, ◌⊎◌, inl, inr, Bool, true, ◌==◌, Option, some, List, [], ◌∷◌, nat_eq,
  arith, Bool-cases, ltb,
}
use microwaf.Prelude.Result.{Result, ok, err}
use microwaf.Time.{Instant, Duration, instant_limit, duration_since}
use microwaf.Cli.Keys.{HasKey, any_quit_iff}
use microwaf.Cli.Live.{
  LiveError, panicked, Polled, poll_failed, nothing, read_failed, read_bytes, Wait, any_quit,
  wait_loop, wait_quit_or_timeout, LiveRound, after_poll,
}

-- a key that quits, or the end of the input
abbrev pub Asks : Polled → Type 0
Asks (read_bytes []) = Unit
Asks (read_bytes (b ∷ bs)) = HasKey (b ∷ bs)
Asks other = ⊥

abbrev pub AsksAmong : List Wait → Type 0
AsksAmong [] = ⊥
AsksAmong (w ∷ waits) = Asks w.polled ⊎ AsksAmong waits

abbrev pub AsksIn : List LiveRound → Type 0
AsksIn [] = ⊥
AsksIn (r ∷ rounds) = AsksAmong r.waits ⊎ AsksIn rounds

after_poll-Asks :
    (raises : List ℕ → Bool) (p : Polled) (rest : Option (Result LiveError Bool))
    → after_poll raises p rest ≡ some (ok true)
    → Asks p ⊎ (rest ≡ some (ok true))
after_poll-Asks raises (poll_failed e) rest h = absurd (ground (arith, h))
after_poll-Asks raises nothing rest h = absurd (ground (arith, h))
after_poll-Asks raises (read_failed e) rest h = absurd (ground (arith, h))
after_poll-Asks raises (read_bytes []) rest h = inl tt
after_poll-Asks raises (read_bytes (b ∷ bs)) rest h = elim (Bool-cases (any_quit (b ∷ bs))) [
  | inl e ↦ inl ((any_quit_iff (b ∷ bs)).0 e)
  | inr e ↦ inr (ground (arith, e, h))
]

wait_loop-Asks :
    (raises : List ℕ → Bool) (deadline : Instant) (waits : List Wait)
    → wait_loop raises deadline waits ≡ some (ok true)
    → AsksAmong waits
unfolding wait_loop
wait_loop-Asks raises deadline [] h = absurd (ground (arith, h))
wait_loop-Asks raises deadline (w ∷ waits) h =
    elim (Bool-cases (duration_since deadline w.checked_at == 0)) [
      | inl e ↦ absurd (ground (arith, e, h))
      | inr e ↦
          elim (after_poll-Asks raises w.polled (wait_loop raises deadline waits)
            (ground (arith, e, h))) [
              | inl asked ↦ inl asked
              | inr more ↦ inr (wait_loop-Asks raises deadline waits more)
            ]
    ]

pub wait-Asks :
    (raises : List ℕ → Bool) (start : Instant) (interval : Duration) (waits : List Wait)
    → wait_quit_or_timeout raises start interval waits ≡ some (ok true)
    → AsksAmong waits
unfolding wait_quit_or_timeout
wait-Asks raises start interval waits h = elim (Bool-cases (ltb (start + interval) instant_limit)) [
  | inl e ↦ wait_loop-Asks raises (start + interval) waits (ground (arith, e, h))
  | inr e ↦ absurd (ground (arith, e, h))
]

-- What a poll leads to is no panic, if the rest of the loop is none.
after_poll_calm :
    (raises : List ℕ → Bool) (p : Polled) (rest : Option (Result LiveError Bool))
    → rest ≢ some (err panicked)
    → after_poll raises p rest ≢ some (err panicked)
after_poll_calm raises (poll_failed e) rest calm h = absurd (ground (arith, h))
after_poll_calm raises nothing rest calm h = absurd (ground (arith, h))
after_poll_calm raises (read_failed e) rest calm h = absurd (ground (arith, h))
after_poll_calm raises (read_bytes []) rest calm h = absurd (ground (arith, h))
after_poll_calm raises (read_bytes (b ∷ bs)) rest calm h = elim (Bool-cases (any_quit (b ∷ bs))) [
  | inl e ↦ absurd (ground (arith, e, h))
  | inr e ↦ calm (ground (arith, e, h))
]

wait_loop_calm :
    (raises : List ℕ → Bool) (deadline : Instant) (waits : List Wait)
    → wait_loop raises deadline waits ≢ some (err panicked)
unfolding wait_loop
wait_loop_calm raises deadline [] h = absurd (ground (arith, h))
wait_loop_calm raises deadline (w ∷ waits) h =
    elim (Bool-cases (duration_since deadline w.checked_at == 0)) [
      | inl e ↦ absurd (ground (arith, e, h))
      | inr e ↦
          after_poll_calm raises w.polled (wait_loop raises deadline waits)
            (wait_loop_calm raises deadline waits) (ground (arith, e, h))
    ]

pub wait_calm :
    (raises : List ℕ → Bool) (start : Instant) (interval : Duration) (waits : List Wait)
    → start + interval < instant_limit
    → wait_quit_or_timeout raises start interval waits ≢ some (err panicked)
unfolding wait_quit_or_timeout
wait_calm raises start interval waits fits h =
    wait_loop_calm raises (start + interval) waits (ground (arith, fits, h))
