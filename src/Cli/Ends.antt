-- ===== src/Cli/Ends.antt =====
-- How the loop of the live view ends, and that it keeps the attributes of the terminal.
use microwaf.Prelude.{
  ℕ, ◌+◌, ◌<◌, ◌≡◌, ◌≢◌, ◌⊎◌, inl, inr, refl, Bool, true, false, some, List, [], ◌∷◌, ◌++◌, nat_eq,
  arith, All, Option-cases, ap, ◌∙◌,
}
use microwaf.Prelude.Text.{Text}
use microwaf.Prelude.Result.{Result, ok, err}
use microwaf.Time.{Instant, Duration, instant_limit}
use microwaf.Ipc.Wire.{Request, Response, TopParams}
use microwaf.Remote
use microwaf.Remote.{ClientError}
use microwaf.Cli.Live.{
  LiveError, failed, panicked, Wait, wait_quit_or_timeout, Written, whole, part, Terminal,
  LiveRound, Session, leave_screen, write_out, close_screen, close_raw, live_loop, on_alternate,
  on_screen, frame_of, enter_screen, Termios, interrupted,
}
use microwaf.Cli.Asked.{AsksIn, wait-Asks, wait_calm}

-- An end of the view that is no panic, and without an error only when the user asks to quit.
abbrev pub EndsWell : List LiveRound → Result LiveError (Unit {0}) → Type 0
EndsWell rounds result = (result ≢ err panicked) × (result ≡ ok tt → AsksIn rounds)

EndsWell-err : (rounds : List LiveRound) (x : LiveError) → x ≢ panicked → EndsWell rounds (err x)
EndsWell-err rounds x calm = (λ h. calm (ground (arith, h)), λ h. absurd (ground (arith, h)))

not_panicked : (e : Text) → failed e ≢ panicked
not_panicked e h = ground (arith, h)

write_out-result :
    (s : Text) (x : Written) (t : Terminal)
    → ((write_out s x t).1 ≡ ok tt) ⊎ ((e : Text) × ((write_out s x t).1 ≡ err (failed e)))
unfolding write_out
write_out-result s whole t = inl refl
write_out-result s (part p e) t = inr (e, refl)

pub write_out-attrs : (s : Text) (x : Written) (t : Terminal) → (write_out s x t).0.attrs ≡ t.attrs
unfolding write_out
write_out-attrs s whole t = refl
write_out-attrs s (part p e) t = refl

wait_error :
    (raises : List ℕ → Bool) (start : Instant) (interval : Duration) (waits : List Wait)
    (x : LiveError)
    → start + interval < instant_limit
    → wait_quit_or_timeout raises start interval waits ≡ some (err x)
    → x ≢ panicked
wait_error raises start interval waits x fits h same =
    wait_calm raises start interval waits fits (h ∙ ap (λ y. some (err y)) same)

close_screen-attrs :
    (done : Result LiveError (Unit {0})) (left : Written) (t : Terminal)
    → (close_screen done left t).attrs ≡ t.attrs
unfolding close_screen
close_screen-attrs (ok done) left t = write_out-attrs leave_screen left t
close_screen-attrs (err (failed e)) left t = write_out-attrs leave_screen left t
close_screen-attrs (err panicked) left t = refl
close_screen-attrs (err interrupted) left t = refl

close_screen_out :
    (done : Result LiveError (Unit {0})) (left : Written) (t : Terminal)
    → done ≡ ok tt
    → left ≡ whole
    → (close_screen done left t).out ≡ t.out ++ leave_screen
unfolding close_screen write_out
close_screen_out (ok done) whole t h all = refl
close_screen_out (ok done) (part p e) t h all = absurd (ground (arith, all))
close_screen_out (err e) left t h all = absurd (ground (arith, h))

-- An end by a signal leaves the attributes, and any other end that is no panic restores them.
pub close_raw-attrs :
    (done : Result LiveError (Unit {0})) (orig : Termios) (t : Terminal)
    → done ≢ err panicked
    → (done ≢ err interrupted → (close_raw done true orig t).attrs ≡ orig)
      × (done ≡ err interrupted → (close_raw done true orig t).attrs ≡ t.attrs)
      × ((close_raw done true orig t).out ≡ t.out)
unfolding close_raw
close_raw-attrs (ok done) orig t calm = (λ n. refl, λ e. absurd (ground (arith, e)), refl)
close_raw-attrs (err (failed x)) orig t calm = (λ n. refl, λ e. absurd (ground (arith, e)), refl)
close_raw-attrs (err panicked) orig t calm = absurd (calm refl)
close_raw-attrs (err interrupted) orig t calm = (λ n. absurd (n refl), λ e. refl, refl)

module _ {W : Type 0} (exchange : Request → W → W × Result ClientError Response)
    (raises : Termios → List ℕ → Bool) (show_duration : Duration → Text)
    (show_error : ClientError → Text) (params : TopParams) (interval : Duration) where
  live_loop-EndsWell :
      (rounds : List LiveRound) (w v : W) (t u : Terminal) (result : Result LiveError (Unit {0}))
      → All (λ r. r.wait_start + interval < instant_limit) rounds
      → live_loop exchange raises show_duration show_error params interval rounds w t
        ≡ some (v, u, result)
      → EndsWell rounds result × (u.attrs ≡ t.attrs)
  unfolding live_loop
  live_loop-EndsWell [] w v t u result fits h = absurd (ground (arith, h))
  live_loop-EndsWell (r ∷ rounds) w v t u result fits h =
      let (next, answer) = Remote.top exchange params w in
      let frame = on_screen (frame_of show_duration show_error params interval answer) in
      let shown = (write_out frame r.written t).0 in
      let kept : shown.attrs ≡ t.attrs = write_out-attrs frame r.written t in
      elim (write_out-result frame r.written t) [
        | inr (e, wrote) ↦
            let same : err (failed e) ≡ result = ground (arith, wrote, h) in
            let last : shown ≡ u = ground (arith, wrote, h) in
            (rw (← same) (EndsWell-err (r ∷ rounds) (failed e) (not_panicked e)), rw (← last) kept)
        | inl wrote ↦
            elim (Option-cases
              (wait_quit_or_timeout (raises t.attrs) r.wait_start interval r.waits)) [
                | inl waits ↦ absurd (ground (arith, wrote, waits, h))
                | inr (err x, waited) ↦
                    let calm =
                      wait_error (raises t.attrs) r.wait_start interval r.waits x fits.0 waited in
                    let same : err x ≡ result = ground (arith, wrote, waited, h) in
                    let last : shown ≡ u = ground (arith, wrote, waited, h) in
                    (rw (← same) (EndsWell-err (r ∷ rounds) x calm), rw (← last) kept)
                | inr (ok true, waited) ↦
                    let same : ok tt ≡ result = ground (arith, wrote, waited, h) in
                    let last : shown ≡ u = ground (arith, wrote, waited, h) in
                    (
                      rw (← same) (
                        λ broken. absurd (ground (arith, broken)),
                        λ done.
                            inl (wait-Asks (raises t.attrs) r.wait_start interval r.waits waited),
                      ),
                      rw (← last) kept,
                    )
                | inr (ok false, waited) ↦
                    let (well, same) =
                      live_loop-EndsWell rounds next v shown u result fits.1
                        (ground (arith, wrote, waited, h)) in
                    ((well.0, λ done. inr (well.1 done)), same ∙ kept)
              ]
      ]

  pub on_alternate-EndsWell :
      (s : Session) (rounds : List LiveRound) (w v : W) (t u : Terminal)
      (result : Result LiveError (Unit {0}))
      → All (λ r. r.wait_start + interval < instant_limit) rounds
      → on_alternate exchange raises show_duration show_error params interval s rounds w t
        ≡ some (v, u, result)
      → EndsWell rounds result
        × (u.attrs ≡ t.attrs)
        × (result ≡ ok tt → s.left ≡ whole → (o : Text) × (u.out ≡ o ++ leave_screen))
  unfolding on_alternate
  on_alternate-EndsWell s rounds w v t u result fits h =
      elim (write_out-result enter_screen s.entered t) [
        | inr (e, wrote) ↦
            let same : err (failed e) ≡ result = ground (arith, wrote, h) in
            let last : (write_out enter_screen s.entered t).0 ≡ u = ground (arith, wrote, h) in
            (
              rw (← same) (EndsWell-err rounds (failed e) (not_panicked e)),
              rw (← last) (write_out-attrs enter_screen s.entered t),
              λ done. absurd (ground (arith, done, same)),
            )
        | inl wrote ↦
            let opened = (write_out enter_screen s.entered t).0 in
            elim (Option-cases (
              live_loop exchange raises show_duration show_error params interval rounds w opened)) [
                | inl running ↦ absurd (ground (arith, wrote, running, h))
                | inr ((next, shown, done), ended) ↦
                    let same : done ≡ result = ground (arith, wrote, ended, h) in
                    let closed : close_screen done s.left shown ≡ u =
                      ground (arith, wrote, ended, h) in
                    let (well, attrs) =
                      live_loop-EndsWell rounds w next opened shown result fits
                        (ended ∙ ap (λ x. some (next, shown, x)) same) in
                    (
                      well,
                      rw (← closed) (
                          close_screen-attrs done s.left shown
                          ∙ attrs
                          ∙ write_out-attrs enter_screen s.entered t),
                      λ fine all. (
                        shown.out,
                        rw (← closed) (close_screen_out done s.left shown (same ∙ fine) all),
                      ),
                    )
              ]
      ]
