-- ===== src/Cli/Format.antt =====
-- `std::fmt`: decimal numbers, and padding to a width in characters.
use microwaf.Prelude.{
  ℕ, zero, suc, ◌+◌, ◌-◌, ◌/◌, ◌%◌, ◌<◌, ◌≤◌, ◌≡◌, [], ◌∷◌, ◌++◌, length, replicate, ltb,
  length-append, length-replicate, arith, if◌then◌else◌,
}
use microwaf.Prelude.Text.{Text}

-- the digits in front of a text; 20 rounds are enough for a `u64`
unfoldable pub digits : ℕ → ℕ → Text → Text
digits zero n acc = acc
digits (suc fuel) n acc =
    let more = digits fuel (n / 10) ((b'0' + n % 10) ∷ acc) in
    if ltb n 10 then (b'0' + n) ∷ acc else more

-- `u64::to_string`
unfoldable pub decimal : ℕ → Text
decimal n = digits 20 n []

-- `{:<w}`, `{:>w}` and `{:^w}` with a fill character
unfoldable pub pad_right : ℕ → ℕ → Text → Text
pad_right fill w s = s ++ replicate (w - length s) fill

unfoldable pub pad_left : ℕ → ℕ → Text → Text
pad_left fill w s = replicate (w - length s) fill ++ s

unfoldable pub pad_center : ℕ → ℕ → Text → Text
pad_center fill w s =
    replicate ((w - length s) / 2) fill ++ (s ++ replicate (w - length s - (w - length s) / 2) fill)

pub length-pad_right : (fill w : ℕ) (s : Text) → length s ≤ w → length (pad_right fill w s) ≡ w
unfolding pad_right
length-pad_right fill w s h =
    omega
      (arith, length-append s (replicate (w - length s) fill), length-replicate (w - length s) fill)

pub length-pad_left : (fill w : ℕ) (s : Text) → length s ≤ w → length (pad_left fill w s) ≡ w
unfolding pad_left
length-pad_left fill w s h =
    omega
      (arith, length-append (replicate (w - length s) fill) s, length-replicate (w - length s) fill)

pub length-pad_center : (fill w : ℕ) (s : Text) → length s ≤ w → length (pad_center fill w s) ≡ w
unfolding pad_center
length-pad_center fill w s h =
    let left = (w - length s) / 2 in
    let right = w - length s - (w - length s) / 2 in
    omega (
      arith,
      length-append (replicate left fill) (s ++ replicate right fill),
      length-append s (replicate right fill),
      length-replicate left fill,
      length-replicate right fill,
    )

pub length-decimal : (n : ℕ) → n < 1000 → length (decimal n) ≤ 3
unfolding decimal digits
length-decimal n h = ground arith
