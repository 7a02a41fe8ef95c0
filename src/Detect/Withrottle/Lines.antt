-- ===== src/Detect/Withrottle/Lines.antt =====
-- What holds of every command line that is detected.
use mathlib.Core.Option.{some-injective}
use mathlib.Core.Path.{subst}
use microwaf.Prelude.{
  ℕ, ◌≡◌, ◌≢◌, ◌≤◌, refl, false, ◌&&◌, ◌||◌, some, List, [], ◌∷◌, length, get_or, take, nat_beq,
  arith, Option-cases, inl, inr, Bool-cases, All, ap, sym, nat_beq_iff,
}
use microwaf.Prelude.Text.{
  Text, codes, starts_with, trim, trim_start, trim_end, push_first, keep_unless_blank,
  is_whitespace,
}
use microwaf.Prelude.Utf8.{from_utf8, as_bytes}
use microwaf.Detect.Withrottle.{
  WithrottleLine, parse_prefix, raw_lines, line_of, collect_lines, detect_withrottle_lines,
  prefix_of_bytes, leb, prefix_len,
}

-- not a line feed and not a carriage return
abbrev pub Inline : ℕ → Type 0
Inline c = (nat_beq c 10 || nat_beq c 13) ≡ false

pub record IsCommand (l : WithrottleLine) : Type 0 where
  pub some_text : l.command ≢ []
  pub one_line : All Inline l.command
  pub no_noise : starts_with (codes "AT+CIPSENDBUF=") l.command ≡ false
  pub in_front : (n : ℕ) × (n ≤ 3) × (l.prefix ≡ take n l.command)

All-trim_start : (s : Text) → All Inline s → All Inline (trim_start s)
All-trim_start [] h = tt
All-trim_start (c ∷ s) h = ground (arith, All-trim_start s h.1)

push_first-Inline :
    (c : ℕ) (ps : List Text) → Inline c → All (All Inline) ps → All (All Inline) (push_first c ps)
push_first-Inline c [] h hs = ((h, tt), tt)
push_first-Inline c (p ∷ ps) h hs = ((h, hs.0), hs.1)

raw_lines-Inline : (s : Text) → All (All Inline) (raw_lines s)
raw_lines-Inline [] = (tt, tt)
raw_lines-Inline (c ∷ s) = elim (Bool-cases (nat_beq c 10 || nat_beq c 13)) [
  | inl e ↦ rw e (tt, raw_lines-Inline s)
  | inr e ↦ rw e (push_first-Inline c (raw_lines s) e (raw_lines-Inline s))
]

keep-Inline : (c : ℕ) (s : Text) → Inline c → All Inline s → All Inline (keep_unless_blank c s)
keep-Inline c [] h hs = elim (Bool-cases (is_whitespace c)) [
  | inl e ↦ rw e tt
  | inr e ↦ rw e (h, tt)
]
keep-Inline c (d ∷ s) h hs = (h, hs)

trim_end-Inline : (s : Text) → All Inline s → All Inline (trim_end s)
trim_end-Inline [] h = tt
trim_end-Inline (c ∷ s) h = keep-Inline c (trim_end s) h.0 (trim_end-Inline s h.1)

-- a prefix of at most three characters
abbrev InFront : Text → Text → Type 0
InFront p line = (n : ℕ) × (n ≤ 3) × (p ≡ take n line)

prefix_of_bytes_lem :
    (line : Text) (bytes : List ℕ)
    → (get_or bytes 0 0 ≡ b'*' → take 1 line ≡ codes "*")
    → InFront (prefix_of_bytes line bytes).0 line
unfolding prefix_of_bytes
prefix_of_bytes_lem line [] h = (0, omega arith, refl)
prefix_of_bytes_lem line (b ∷ bs) h = elim (Bool-cases (nat_beq b b'*')) [
  | inl star ↦ (1, omega arith, rw (star, prefix_of_bytes) (sym (h ((nat_beq_iff b b'*').0 star))))
  | inr other ↦ elim (Bool-cases (nat_beq b b'M' && leb 3 (length (b ∷ bs)))) [
    | inl multi ↦ (3, omega arith, rw (other, multi))
    | inr plain ↦ (prefix_len (b ∷ bs), ground arith, rw (other, plain))
  ]
]

-- Only the character `*` has a first byte `*`.
star_lem : (c : ℕ) (s : Text) → get_or (as_bytes (c ∷ s)) 0 0 ≡ b'*' → c ≡ b'*'
unfolding as_bytes
star_lem c s h = ground arith

parse_prefix_lem : (line : Text) → InFront (parse_prefix line).0 line
unfolding parse_prefix as_bytes
parse_prefix_lem [] = (0, omega arith, refl)
parse_prefix_lem (c ∷ s) =
    prefix_of_bytes_lem (c ∷ s) (as_bytes (c ∷ s)) (λ h. ap (λ x. x ∷ []) (star_lem c s h))

line_of_lem :
    (line : Text) (l : WithrottleLine) → All Inline line → line_of line ≡ some l → IsCommand l
unfolding line_of
line_of_lem [] l hs h = ground arith
line_of_lem (c ∷ s) l hs h = elim (Bool-cases (starts_with (codes "AT+CIPSENDBUF=") (c ∷ s))) [
  | inl noise ↦ absurd (ground (arith, noise))
  | inr e ↦ subst IsCommand (some-injective _ _ (rw (e, line_of) at h)) (record {
    some_text = λ p. ground arith;
    one_line = hs;
    no_noise = e;
    in_front = parse_prefix_lem (c ∷ s);
  })
]

collect_lines_lem : (raws : List Text) → All (All Inline) raws → All IsCommand (collect_lines raws)
unfolding collect_lines
collect_lines_lem [] h = tt
collect_lines_lem (raw ∷ raws) h = elim (Option-cases (line_of (trim raw))) [
  | inl e ↦ rw (e, collect_lines) (collect_lines_lem raws h.1)
  | inr (l, e) ↦
      rw (e, collect_lines)
        (
          line_of_lem (trim raw) l (trim_end-Inline (trim_start raw) (All-trim_start raw h.0)) e,
          collect_lines_lem raws h.1,
        )
]

-- Every command line that is detected is a non-empty text without line breaks that does not start
-- with `AT+CIPSENDBUF=`, and its prefix is made of its first characters, three at most.
pub detect_withrottle_lines_sound :
    (payload : List ℕ) → All IsCommand (detect_withrottle_lines payload)
unfolding detect_withrottle_lines
detect_withrottle_lines_sound payload = elim (Option-cases (from_utf8 payload)) [
  | inl e ↦ rw (e, detect_withrottle_lines) tt
  | inr (text, e) ↦
      rw (e, detect_withrottle_lines) (collect_lines_lem (raw_lines text) (raw_lines-Inline text))
]
