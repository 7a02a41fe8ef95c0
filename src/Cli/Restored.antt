-- ===== src/Cli/Restored.antt =====
-- The live view of `top` gives the terminal back as it was, unless a signal ends it, and ends as the
-- first key that ends it says.
use microwaf.Prelude.{
  ℕ, ◌+◌, ◌<◌, ◌≡◌, ◌≢◌, inl, inr, refl, true, some, List, ◌++◌, nat_eq, arith, All, Option-cases,
  ◌∙◌, Bool,
}
use microwaf.Prelude.Text.{Text}
use microwaf.Prelude.Result.{Result, ok, err, Result-cases}
use microwaf.Time.{Duration, instant_limit}
use microwaf.Ipc.Wire.{Request, Response, TopParams}
use microwaf.Remote.{ClientError}
use microwaf.Cli.Live.{
  LiveError, failed, interrupted, whole, Terminal, raw_of, Termios, LiveRound, Session,
  leave_screen, live_interval, close_raw, on_alternate, run_live,
}
use microwaf.Cli.Asked.{AsksIn}
use microwaf.Cli.Keys.{FirstPress}
use microwaf.Cli.Ends.{on_alternate-EndsWell, close_raw-attrs}
use microwaf.Cli.Pressed.{on_alternate-FirstPress}

-- What the view leaves behind at its end: a terminal with its old attributes, and on the old screen
-- when the user asked to quit, unless a signal has ended it, and then a raw terminal.
abbrev pub Leaves :
    List LiveRound → Session → Terminal → Terminal → Result LiveError (Unit {0}) → Type 0
Leaves rounds s t u result =
    (result ≢ err interrupted → u.attrs ≡ t.attrs)
    × (result ≡ err interrupted → u.attrs ≡ raw_of t.attrs)
    × (result ≡ ok tt → AsksIn rounds)
    × (result ≡ ok tt → s.left ≡ whole → (o : Text) × (u.out ≡ o ++ leave_screen))

Leaves-failed :
    (rounds : List LiveRound) (s : Session) (t : Terminal) (e : Text)
    → Leaves rounds s t t (err (failed e))
Leaves-failed rounds s t e = (
  λ n. refl,
  λ h. absurd (ground (arith, h)),
  λ h. absurd (ground (arith, h)),
  λ h. absurd (ground (arith, h)),
)

module _ {W : Type 0} (exchange : Request → W → W × Result ClientError Response)
    (raises : Termios → List ℕ → Bool) (show_duration : Duration → Text)
    (show_error : ClientError → Text) (params : TopParams) (interval : Duration) where
  -- If each wait of the live view has a deadline that is an instant, and the terminal takes its old
  -- attributes back, then at an end of the view by a key, by the end of the input or by an error the
  -- terminal has the attributes that it had before. At an end by a signal of the keyboard, it stays
  -- in raw mode. The view ends without an error only if `q`, `Q`, Ctrl+C or the end of the input was
  -- read, and if its last output is written whole, that leaves the alternate screen and shows the
  -- cursor. If the start succeeds, rounds whose frames are written whole, and whose waits are over or
  -- quiet at once, up to a round whose wait begins with keys before its deadline, end as those keys
  -- say: by a signal if the terminal in raw mode raises one for them, and without an error if it
  -- raises none and `q`, `Q` or Ctrl+C is among them.
  pub run_live-restores :
      (s : Session) (rounds : List LiveRound) (w v : W) (t u : Terminal)
      (result : Result LiveError (Unit {0}))
      → All (λ r. r.wait_start + live_interval interval < instant_limit) rounds
      → run_live exchange raises show_duration show_error params interval s rounds w t
        ≡ some (v, u, result)
      → s.taken_back ≡ true
      → Leaves rounds s t u result
        × ((end : Result LiveError (Unit {0}))
            → s.got ≡ ok tt
            → s.set ≡ ok tt
            → s.entered ≡ whole
            → FirstPress (raises (raw_of t.attrs)) (live_interval interval) rounds end
            → result ≡ end)
  unfolding run_live
  run_live-restores s rounds w v t u result fits h taken = elim (Result-cases s.got) [
    | inr (e, got) ↦
        let same : err (failed e) ≡ result = ground (arith, got, h) in
        let last : t ≡ u = ground (arith, got, h) in
        (rw (← same, ← last) (Leaves-failed rounds s t e), λ end g. absurd (ground (arith, got, g)))
    | inl (done, got) ↦ elim (Result-cases s.set) [
      | inr (e, set) ↦
          let same : err (failed e) ≡ result = ground (arith, got, set, h) in
          let last : t ≡ u = ground (arith, got, set, h) in
          (
            rw (← same, ← last) (Leaves-failed rounds s t e),
            λ end g b. absurd (ground (arith, set, b)),
          )
      | inl (raw, set) ↦
          let in_raw : Terminal = record t { attrs = raw_of t.attrs } in
          elim (Option-cases (
            on_alternate exchange raises show_duration show_error params (live_interval interval) s
              rounds w in_raw)) [
                | inl running ↦ absurd (ground (arith, got, set, running, h))
                | inr ((next, shown, ended), ran) ↦
                    let same : ended ≡ result = ground (arith, got, set, ran, h) in
                    let closed : close_raw ended s.taken_back t.attrs shown ≡ u =
                      ground (arith, got, set, ran, h) in
                    let closed_back : close_raw ended true t.attrs shown ≡ u =
                      ground (arith, taken, closed) in
                    let (well, kept, left) =
                      on_alternate-EndsWell exchange raises show_duration show_error params
                        (live_interval interval) s rounds w next in_raw shown ended fits ran in
                    let (back, stays, out) = close_raw-attrs ended t.attrs shown well.0 in
                    (
                      rw (← same, ← closed_back)
                          (
                            back,
                            λ sig. stays sig ∙ kept,
                            well.1,
                            λ fine all. let (o, last) = left fine all in (o, out ∙ last),
                          ),
                      λ end g b all press. rw (← same) (
                          on_alternate-FirstPress exchange raises show_duration show_error params
                            (live_interval interval) s rounds w next in_raw shown ended end fits ran
                            all press),
                    )
              ]
    ]
  ]
