-- ===== src/Client/Digits.antt =====
-- A byte is parsed back from its two hexadecimal digits, and from its decimal ones.
use microwaf.Prelude.{
  ℕ, ◌+◌, ◌*◌, ◌/◌, ◌%◌, ◌≡◌, ◌<◌, refl, ap, ◌∙◌, false, ◌||◌, some, [], ◌∷◌, ltb, nat_beq, arith,
  All, inl, inr, Bool-cases, ◌⊎◌,
}
use microwaf.Prelude.Text.{Text}
use microwaf.Client.Display.{hex_digit, hex_byte, decimal_byte}
use microwaf.Client.Parse.{
  hex_value, radix_loop, from_str_radix, decimal_loop, parse_octet, decimal_value,
}

hex_value-hex_digit : (n : ℕ) → n < 16 → hex_value (hex_digit n) ≡ some n
unfolding hex_value hex_digit
hex_value-hex_digit n h = ground arith

-- No hexadecimal digit is a sign or a separator.
hex_digit_plain :
    (d n : ℕ) → n < 16 → (d ≡ b'+') ⊎ ((d ≡ b':') ⊎ (d ≡ b'@')) → nat_beq (hex_digit n) d ≡ false
unfolding hex_digit
hex_digit_plain d n h e = ground arith

radix_loop_step :
    (acc c d : ℕ) (s : Text)
    → hex_value c ≡ some d
    → acc * 16 + d < 256
    → radix_loop acc (c ∷ s) ≡ radix_loop (acc * 16 + d) s
unfolding radix_loop
radix_loop_step acc c d s h l = ground (arith, h)

radix_loop_end : (acc b : ℕ) → acc ≡ b → radix_loop acc [] ≡ some b
unfolding radix_loop
radix_loop_end acc b e = ap some e

pub from_str_radix-hex_byte : (b : ℕ) → b < 256 → from_str_radix (hex_byte b) ≡ some b
unfolding from_str_radix
from_str_radix-hex_byte b h =
    let high : b / 16 < 16 = omega arith in
    let low : b % 16 < 16 = omega arith in
    rw (hex_digit_plain b'+' (b / 16) high (inl refl)) (
      radix_loop_step 0 (hex_digit (b / 16)) (b / 16) (hex_digit (b % 16) ∷ [])
        (hex_value-hex_digit (b / 16) high) (omega arith)
      ∙ radix_loop_step (0 * 16 + b / 16) (hex_digit (b % 16)) (b % 16) []
          (hex_value-hex_digit (b % 16) low) (omega arith)
      ∙ radix_loop_end ((0 * 16 + b / 16) * 16 + b % 16) b (omega arith))

decimal_value_digit : (n : ℕ) → n < 10 → decimal_value (b'0' + n) ≡ some n
unfolding decimal_value
decimal_value_digit n h = ground arith

decimal_loop_step :
    (acc n : ℕ) (s : Text)
    → n < 10
    → acc * 10 + n < 256
    → decimal_loop acc ((b'0' + n) ∷ s) ≡ decimal_loop (acc * 10 + n) s
unfolding decimal_loop
decimal_loop_step acc n s h l = ground (arith, decimal_value_digit n h)

decimal_loop_end : (acc b : ℕ) → acc ≡ b → decimal_loop acc [] ≡ some b
unfolding decimal_loop
decimal_loop_end acc b e = ap some e

zero_only : (n : ℕ) → 0 < n → (nat_beq (b'0' + n) b'0' || false) ≡ false
zero_only n h = ground arith

pub parse_octet-decimal_byte : (b : ℕ) → b < 256 → parse_octet (decimal_byte b) ≡ some b
unfolding parse_octet
parse_octet-decimal_byte b h = elim (Bool-cases (ltb b 10)) [
  | inl one ↦ rw one (
      decimal_loop_step 0 b [] (ground arith) (omega arith)
      ∙ decimal_loop_end (0 * 10 + b) b (omega arith))
  | inr more ↦ rw more (elim (Bool-cases (ltb b 100)) [
    | inl two ↦ rw two (
        rw (zero_only (b / 10) (ground arith)) (
          decimal_loop_step 0 (b / 10) ((b'0' + b % 10) ∷ []) (ground arith) (ground arith)
          ∙ decimal_loop_step (0 * 10 + b / 10) (b % 10) [] (ground arith) (ground arith)
          ∙ decimal_loop_end ((0 * 10 + b / 10) * 10 + b % 10) b (omega arith)))
    | inr three ↦ rw three (
        rw (zero_only (b / 100) (ground arith)) (
          decimal_loop_step 0 (b / 100) ((b'0' + b / 10 % 10) ∷ (b'0' + b % 10) ∷ []) (omega arith)
            (omega arith)
          ∙ decimal_loop_step (0 * 10 + b / 100) (b / 10 % 10) ((b'0' + b % 10) ∷ []) (omega arith)
              (omega arith)
          ∙ decimal_loop_step ((0 * 10 + b / 100) * 10 + b / 10 % 10) (b % 10) [] (omega arith)
              (omega arith)
          ∙ decimal_loop_end (((0 * 10 + b / 100) * 10 + b / 10 % 10) * 10 + b % 10) b
              (omega arith)))
  ])
]

pub hex_byte_plain :
    (d b : ℕ) → b < 256 → (d ≡ b':') ⊎ (d ≡ b'@') → All (λ c. nat_beq c d ≡ false) (hex_byte b)
hex_byte_plain d b h e = (
  hex_digit_plain d (b / 16) (omega arith) (inr e),
  (hex_digit_plain d (b % 16) (omega arith) (inr e), tt),
)

pub decimal_byte_plain : (b : ℕ) → b < 256 → All (λ c. nat_beq c b'.' ≡ false) (decimal_byte b)
decimal_byte_plain b h = elim (Bool-cases (ltb b 10)) [
  | inl one ↦ rw one (ground arith)
  | inr more ↦ rw more (elim (Bool-cases (ltb b 100)) [
    | inl two ↦ rw two (ground arith)
    | inr three ↦ rw three (ground arith)
  ])
]
