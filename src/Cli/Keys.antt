-- ===== src/Cli/Keys.antt =====
-- Which keys end the live view of `top`, apart from the code that looks for them.
use microwaf.Prelude.{
  ℕ, ◌+◌, ◌<◌, ◌≤◌, ◌≡◌, ◌⊎◌, Bool, true, false, List, [], ◌∷◌, nat_eq, arith, ◌↔◌,
}
use microwaf.Prelude.Result.{Result, ok, err}
use microwaf.Time.{Instant, Duration}
use microwaf.Cli.Live.{
  LiveError, interrupted, nothing, read_bytes, Wait, any_quit, LiveRound, whole,
}

-- `q`, `Q` or Ctrl+C is among the bytes
abbrev pub HasKey : List ℕ → Type 0
HasKey [] = ⊥
HasKey (b ∷ bs) = ((b ≡ 113) ⊎ ((b ≡ 81) ⊎ (b ≡ 3))) ⊎ HasKey bs

pub any_quit_iff : (bs : List ℕ) → (any_quit bs ≡ true) ↔ HasKey bs
unfolding any_quit
any_quit_iff [] = (λ h. absurd (ground (arith, h)), λ h. absurd h)
any_quit_iff (b ∷ bs) =
    (λ h. ground (arith, h, (any_quit_iff bs).0), λ h. ground (arith, h, (any_quit_iff bs).1))

-- What the bytes end the view with: without an error, or by a signal that the terminal raises.
abbrev pub Presses : (List ℕ → Bool) → List ℕ → Result LiveError (Unit {0}) → Type 0
Presses raises [] end = ⊥
Presses raises (b ∷ bs) end =
    ((end ≡ ok tt) × (raises (b ∷ bs) ≡ false) × HasKey (b ∷ bs))
    ⊎ ((end ≡ err interrupted) × (raises (b ∷ bs) ≡ true))

-- In a wait, that is over or silent at first, nothing is pressed;
abbrev pub Quiet : Instant → List Wait → Type 0
Quiet deadline [] = ⊥
Quiet deadline (w ∷ waits) = (deadline ≤ w.checked_at) ⊎ (w.polled ≡ nothing)

-- or keys come in before the deadline.
abbrev pub Pressed : (List ℕ → Bool) → Instant → List Wait → Result LiveError (Unit {0}) → Type 0
Pressed raises deadline [] end = ⊥
Pressed raises deadline (w ∷ waits) end =
    (w.checked_at < deadline) × ((bs : List ℕ) × (w.polled ≡ read_bytes bs) × Presses raises bs end)

-- After rounds in which nothing is pressed comes one with a key that ends the view.
abbrev pub FirstPress :
    (List ℕ → Bool) → Duration → List LiveRound → Result LiveError (Unit {0}) → Type 0
FirstPress raises interval [] end = ⊥
FirstPress raises interval (r ∷ rounds) end =
    (r.written ≡ whole)
    × (Pressed raises (r.wait_start + interval) r.waits end
        ⊎ (Quiet (r.wait_start + interval) r.waits × FirstPress raises interval rounds end))
