-- ===== src/Detect/Withrottle.antt =====
-- crates/mw-sniffer/src/withrottle.rs: the command lines of a WiThrottle payload.
pub mod Lines
use microwaf.Prelude.{
  ℕ, ◌+◌, Bool, true, false, ◌&&◌, ◌||◌, not, Option, none, some, List, [], ◌∷◌, length, get_or,
  take, ltb, leb, nat_beq, if◌then◌else◌,
}
use microwaf.Prelude.Text.{Text, codes, is_ascii_alphabetic, split, starts_with, trim}
use microwaf.Prelude.Utf8.{from_utf8, as_bytes}

pub record WithrottleLine : Type 0 where
  pub prefix : Text
  pub throttle : Text
  pub command : Text

abbrev letter_at : List ℕ → ℕ → Bool
letter_at bytes i = is_ascii_alphabetic (get_or bytes i 0)

-- the number of characters of a prefix that is no heartbeat and no MultiThrottle
abbrev pub prefix_len : List ℕ → ℕ
prefix_len bytes =
    if leb 3 (length bytes) && letter_at bytes 0 && letter_at bytes 1 && letter_at bytes 2
    then 3
    else if leb 2 (length bytes) && letter_at bytes 0 && letter_at bytes 1
    then 2
    else 1

unfoldable pub prefix_of_bytes : Text → List ℕ → Text × Text
prefix_of_bytes line [] = ([], [])
prefix_of_bytes line (b ∷ bs) =
    if nat_beq b b'*'
    then (codes "*", [])
    else if nat_beq b b'M' && leb 3 (length (b ∷ bs))
    then (take 3 line, get_or (b ∷ bs) 1 0 ∷ [])
    else (take (prefix_len (b ∷ bs)) line, [])

-- `parse_prefix`
unfoldable pub parse_prefix : Text → Text × Text
unfolding prefix_of_bytes
parse_prefix line = prefix_of_bytes line (as_bytes line)

-- `split(['\n', '\r'])`
abbrev pub raw_lines : Text → List Text
raw_lines text = split (λ c. nat_beq c 10 || nat_beq c 13) text

-- the body of the loop for a trimmed line: nothing if it is passed over
unfoldable pub line_of : Text → Option WithrottleLine
line_of [] = none
line_of (c ∷ line) =
    if starts_with (codes "AT+CIPSENDBUF=") (c ∷ line)
    then none
    else let (prefix, throttle) = parse_prefix (c ∷ line) in
      some (record { prefix = prefix; throttle = throttle; command = c ∷ line })

-- the loop of `detect_withrottle_lines`
unfoldable pub collect_lines : List Text → List WithrottleLine
collect_lines [] = []
collect_lines (raw ∷ raws) =
    let rest = collect_lines raws in elim (line_of (trim raw)) [ none ↦ rest | some l ↦ l ∷ rest ]

-- `detect_withrottle_lines`
unfoldable pub detect_withrottle_lines : List ℕ → List WithrottleLine
detect_withrottle_lines payload = elim (from_utf8 payload) [
  | none ↦ []
  | some text ↦ collect_lines (raw_lines text)
]
