-- ===== src/Prelude/Utf8.antt =====
-- `std::str::from_utf8`, which also decodes: the code points of well-formed UTF-8, `none` for
-- anything else; and the bytes of a code point.
use Prim.Native.Nat.{ℕ, ◌+◌, ◌-◌, ◌*◌, ◌/◌, ◌%◌}
use mathlib.Core.Bool.{Bool, ◌&&◌, ◌||◌}
use mathlib.Core.List.{List, [], ◌∷◌, ◌++◌}
use mathlib.Core.Option.{Option, none, some}
use microwaf.Prelude.Tests.{leb, ltb, nat_beq, if◌then◌else◌}
use microwaf.Prelude.Text.{Text}

abbrev within : ℕ → ℕ → ℕ → Bool
within lo hi b = leb lo b && leb b hi

abbrev cont : ℕ → Bool
cont b = within 0x80 0xBF b

abbrev then_decode : ℕ → Option Text → Option Text
then_decode c none = none
then_decode c (some s) = some (c ∷ s)

-- the first byte of a sequence of three, and what its second byte may be
abbrev second_of_three : ℕ → ℕ → Bool
second_of_three b0 b1 =
    (nat_beq b0 0xE0 && within 0xA0 0xBF b1)
    || (within 0xE1 0xEC b0 && cont b1)
    || (nat_beq b0 0xED && within 0x80 0x9F b1)
    || (within 0xEE 0xEF b0 && cont b1)

abbrev second_of_four : ℕ → ℕ → Bool
second_of_four b0 b1 =
    (nat_beq b0 0xF0 && within 0x90 0xBF b1)
    || (within 0xF1 0xF3 b0 && cont b1)
    || (nat_beq b0 0xF4 && within 0x80 0x8F b1)

unfoldable pub from_utf8 : List ℕ → Option Text
from_utf8 [] = some []
from_utf8 (b0 ∷ []) = if ltb b0 0x80 then some (b0 ∷ []) else none
from_utf8 (b0 ∷ b1 ∷ []) =
    let one = then_decode b0 (from_utf8 (b1 ∷ [])) in
    if ltb b0 0x80
    then one
    else if within 0xC2 0xDF b0 && cont b1
    then some (((b0 - 0xC0) * 64 + (b1 - 0x80)) ∷ [])
    else none
from_utf8 (b0 ∷ b1 ∷ b2 ∷ []) =
    let one = then_decode b0 (from_utf8 (b1 ∷ b2 ∷ [])) in
    let two = then_decode ((b0 - 0xC0) * 64 + (b1 - 0x80)) (from_utf8 (b2 ∷ [])) in
    if ltb b0 0x80
    then one
    else if within 0xC2 0xDF b0 && cont b1
    then two
    else if second_of_three b0 b1 && cont b2
    then some (((b0 - 0xE0) * 4096 + (b1 - 0x80) * 64 + (b2 - 0x80)) ∷ [])
    else none
from_utf8 (b0 ∷ b1 ∷ b2 ∷ b3 ∷ bs) =
    let one = then_decode b0 (from_utf8 (b1 ∷ b2 ∷ b3 ∷ bs)) in
    let two = then_decode ((b0 - 0xC0) * 64 + (b1 - 0x80)) (from_utf8 (b2 ∷ b3 ∷ bs)) in
    let three =
      then_decode ((b0 - 0xE0) * 4096 + (b1 - 0x80) * 64 + (b2 - 0x80)) (from_utf8 (b3 ∷ bs)) in
    let four =
      then_decode ((b0 - 0xF0) * 262144 + (b1 - 0x80) * 4096 + (b2 - 0x80) * 64 + (b3 - 0x80))
        (from_utf8 bs) in
    if ltb b0 0x80
    then one
    else if within 0xC2 0xDF b0 && cont b1
    then two
    else if second_of_three b0 b1 && cont b2
    then three
    else if second_of_four b0 b1 && cont b2 && cont b3
    then four
    else none

-- the UTF-8 encoding of a text: `as_bytes`
abbrev pub char_bytes : ℕ → List ℕ
char_bytes c =
    if ltb c 0x80
    then c ∷ []
    else if ltb c 0x800
    then (0xC0 + c / 64) ∷ (0x80 + c % 64) ∷ []
    else if ltb c 0x10000
    then (0xE0 + c / 4096) ∷ (0x80 + c / 64 % 64) ∷ (0x80 + c % 64) ∷ []
    else (0xF0 + c / 262144) ∷ (0x80 + c / 4096 % 64) ∷ (0x80 + c / 64 % 64) ∷ (0x80 + c % 64) ∷ []

unfoldable pub as_bytes : Text → List ℕ
as_bytes [] = []
as_bytes (c ∷ s) = char_bytes c ++ as_bytes s
