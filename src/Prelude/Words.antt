-- ===== src/Prelude/Words.antt =====
-- Machine words: `u64` saturating addition, and numbers read from bytes.
use Prim.Native.Nat.{ℕ, zero, suc, ◌+◌, ◌-◌, ◌*◌, ◌/◌, ◌%◌, ◌^◌, ◌≤◌, ◌<◌, min}
use mathlib.Core.Path.{◌≡◌, refl}
use mathlib.Core.List.{List, [], ◌∷◌, ◌++◌}
use native.Mathlib.Nat.{pow-suc}
use microwaf.Prelude.Lists.{length, length-append}
use native.Mathlib.Omega.{arith}

abbrev pub u64_max : ℕ
u64_max = 2 ^ 64 - 1

-- `u64::saturating_add`
abbrev pub saturating_add : ℕ → ℕ → ℕ
saturating_add a b = min (a + b) u64_max

pub saturating_add-le : (a b : ℕ) → saturating_add a b ≤ u64_max
saturating_add-le a b = omega arith

pub saturating_add_assoc :
    (a b c : ℕ) → saturating_add (saturating_add a b) c ≡ min (a + b + c) u64_max
saturating_add_assoc a b c = omega arith

-- `uN::from_be_bytes` and `uN::from_le_bytes`
abbrev pub from_be_bytes : ℕ → List ℕ → ℕ
from_be_bytes acc [] = acc
from_be_bytes acc (b ∷ bs) = from_be_bytes (acc * 256 + b) bs

abbrev pub from_le_bytes : List ℕ → ℕ
from_le_bytes [] = 0
from_le_bytes (b ∷ bs) = b + 256 * from_le_bytes bs

-- the `k` bytes of a number, most significant first
abbrev pub be_bytes : ℕ → ℕ → List ℕ
be_bytes zero n = []
be_bytes (suc k) n = be_bytes k (n / 256) ++ n % 256 ∷ []

from_be_bytes-append :
    (acc : ℕ) (bs : List ℕ) (b : ℕ)
    → from_be_bytes acc (bs ++ b ∷ []) ≡ from_be_bytes acc bs * 256 + b
from_be_bytes-append acc [] b = refl
from_be_bytes-append acc (x ∷ bs) b = from_be_bytes-append (acc * 256 + x) bs b

pub from_be_bytes-be_bytes : (k n : ℕ) → n < 256 ^ k → from_be_bytes 0 (be_bytes k n) ≡ n
from_be_bytes-be_bytes zero n h = omega arith
from_be_bytes-be_bytes (suc k) n h =
    let below : n / 256 < 256 ^ k = omega (arith, pow-suc 256 k) in
    omega (
      arith,
      from_be_bytes-append 0 (be_bytes k (n / 256)) (n % 256),
      from_be_bytes-be_bytes k (n / 256) below,
    )

pub length-be_bytes : (k n : ℕ) → length (be_bytes k n) ≡ k
length-be_bytes zero n = refl
length-be_bytes (suc k) n =
    omega (arith, length-append (be_bytes k (n / 256)) (n % 256 ∷ []), length-be_bytes k (n / 256))
