-- ===== src/Cli/Pressed.antt =====
-- The live view of `top` ends at the first key that ends it.
use microwaf.Prelude.{
  ◌+◌, ◌<◌, ◌≡◌, inl, inr, refl, Bool, true, false, some, List, [], ◌∷◌, nat_eq, arith, All, ◌==◌,
  ◌∙◌, ℕ, Option, Option-cases, sym,
}
use microwaf.Prelude.Text.{Text}
use microwaf.Prelude.Result.{Result, ok, err}
use microwaf.Time.{Instant, Duration, instant_limit, duration_since}
use microwaf.Ipc.Wire.{Request, Response, TopParams}
use microwaf.Remote
use microwaf.Remote.{ClientError}
use microwaf.Cli.Live.{
  LiveError, read_bytes, Wait, wait_loop, wait_quit_or_timeout, after_poll, Written, whole,
  Terminal, LiveRound, write_out, live_loop, on_screen, frame_of, Termios, Session, enter_screen,
  on_alternate, part,
}
use microwaf.Cli.Keys.{Presses, Quiet, Pressed, FirstPress, any_quit_iff}
use microwaf.Cli.Ends.{write_out-attrs}

-- the answer of a wait at which the view ends in that way
abbrev answer_of : Result LiveError (Unit {0}) → Result LiveError Bool
answer_of (ok done) = ok true
answer_of (err x) = err x

press_answers :
    (raises : List ℕ → Bool) (bs : List ℕ) (end : Result LiveError (Unit {0}))
    (rest : Option (Result LiveError Bool))
    → Presses raises bs end
    → after_poll raises (read_bytes bs) rest ≡ some (answer_of end)
press_answers raises [] end rest h = absurd h
press_answers raises (b ∷ bs) end rest (inl (e, n, k)) =
    let keyed = (any_quit_iff (b ∷ bs)).1 k in ground (arith, n, keyed, e)
press_answers raises (b ∷ bs) end rest (inr (e, sig)) = ground (arith, sig, e)

wait_loop-Pressed :
    (raises : List ℕ → Bool) (deadline : Instant) (waits : List Wait)
    (end : Result LiveError (Unit {0}))
    → Pressed raises deadline waits end
    → wait_loop raises deadline waits ≡ some (answer_of end)
unfolding wait_loop
wait_loop-Pressed raises deadline [] end h = absurd h
wait_loop-Pressed raises deadline (w ∷ waits) end (early, (bs, is_read, press)) =
    let rest = wait_loop raises deadline waits in
    let open_ : (duration_since deadline w.checked_at == 0) ≡ false = ground (arith, early) in
    rw open_ (rw is_read (press_answers raises bs end rest press))

wait_loop-Quiet :
    (raises : List ℕ → Bool) (deadline : Instant) (waits : List Wait)
    → Quiet deadline waits
    → wait_loop raises deadline waits ≡ some (ok false)
unfolding wait_loop
wait_loop-Quiet raises deadline [] h = absurd h
wait_loop-Quiet raises deadline (w ∷ waits) h = ground (arith, h)

wait-Pressed :
    (raises : List ℕ → Bool) (start : Instant) (interval : Duration) (waits : List Wait)
    (end : Result LiveError (Unit {0}))
    → start + interval < instant_limit
    → Pressed raises (start + interval) waits end
    → wait_quit_or_timeout raises start interval waits ≡ some (answer_of end)
unfolding wait_quit_or_timeout
wait-Pressed raises start interval waits end fits h =
    ground (arith, fits, wait_loop-Pressed raises (start + interval) waits end h)

wait-Quiet :
    (raises : List ℕ → Bool) (start : Instant) (interval : Duration) (waits : List Wait)
    → start + interval < instant_limit
    → Quiet (start + interval) waits
    → wait_quit_or_timeout raises start interval waits ≡ some (ok false)
unfolding wait_quit_or_timeout
wait-Quiet raises start interval waits fits h =
    ground (arith, fits, wait_loop-Quiet raises (start + interval) waits h)

write_out_whole : (s : Text) (x : Written) (t : Terminal) → x ≡ whole → (write_out s x t).1 ≡ ok tt
unfolding write_out
write_out_whole s whole t h = refl
write_out_whole s (part p e) t h = absurd (ground (arith, h))

module _ {W : Type 0} (exchange : Request → W → W × Result ClientError Response)
    (raises : Termios → List ℕ → Bool) (show_duration : Duration → Text)
    (show_error : ClientError → Text) (params : TopParams) (interval : Duration) where
  live_loop-FirstPress :
      (rounds : List LiveRound) (w v : W) (t u : Terminal)
      (result end : Result LiveError (Unit {0}))
      → All (λ r. r.wait_start + interval < instant_limit) rounds
      → live_loop exchange raises show_duration show_error params interval rounds w t
        ≡ some (v, u, result)
      → FirstPress (raises t.attrs) interval rounds end
      → result ≡ end
  unfolding live_loop
  live_loop-FirstPress [] w v t u result end fits h p = absurd p
  live_loop-FirstPress (r ∷ rounds) w v t u result (ok done) fits h (all, inl press) =
      let (next, answer) = Remote.top exchange params w in
      let frame = on_screen (frame_of show_duration show_error params interval answer) in
      let wrote = write_out_whole frame r.written t all in
      let waited =
        wait-Pressed (raises t.attrs) r.wait_start interval r.waits (ok done) fits.0 press in
      ground (arith, wrote, waited, h)
  live_loop-FirstPress (r ∷ rounds) w v t u result (err x) fits h (all, inl press) =
      let (next, answer) = Remote.top exchange params w in
      let frame = on_screen (frame_of show_duration show_error params interval answer) in
      let wrote = write_out_whole frame r.written t all in
      let waited =
        wait-Pressed (raises t.attrs) r.wait_start interval r.waits (err x) fits.0 press in
      ground (arith, wrote, waited, h)
  live_loop-FirstPress (r ∷ rounds) w v t u result end fits h (all, inr (quiet, later)) =
      let (next, answer) = Remote.top exchange params w in
      let frame = on_screen (frame_of show_duration show_error params interval answer) in
      let wrote = write_out_whole frame r.written t all in
      let waited = wait-Quiet (raises t.attrs) r.wait_start interval r.waits fits.0 quiet in
      let shown = (write_out frame r.written t).0 in
      let kept : shown.attrs ≡ t.attrs = write_out-attrs frame r.written t in
      live_loop-FirstPress rounds next v shown u result end fits.1
        (ground (arith, wrote, waited, h)) (rw kept later)

  -- On the screen, the view ends as the first key that ends it says.
  pub on_alternate-FirstPress :
      (s : Session) (rounds : List LiveRound) (w v : W) (t u : Terminal)
      (result end : Result LiveError (Unit {0}))
      → All (λ r. r.wait_start + interval < instant_limit) rounds
      → on_alternate exchange raises show_duration show_error params interval s rounds w t
        ≡ some (v, u, result)
      → s.entered ≡ whole
      → FirstPress (raises t.attrs) interval rounds end
      → result ≡ end
  unfolding on_alternate
  on_alternate-FirstPress s rounds w v t u result end fits h all press =
      let opened = (write_out enter_screen s.entered t).0 in
      let wrote = write_out_whole enter_screen s.entered t all in
      let kept : opened.attrs ≡ t.attrs = write_out-attrs enter_screen s.entered t in
      elim (Option-cases
        (live_loop exchange raises show_duration show_error params interval rounds w opened)) [
          | inl running ↦ absurd (ground (arith, wrote, running, h))
          | inr ((next, shown, done), ended) ↦
              let same : done ≡ result = ground (arith, wrote, ended, h) in
              sym same
              ∙ live_loop-FirstPress rounds w next opened shown done end fits ended (rw kept press)
        ]
