-- ===== src/Detect/Z21/Records.antt =====
-- Datagrams that are made of whole records are split into those records, and the loop stops at
-- whatever is no whole record.
use microwaf.Prelude.{
  ℕ, zero, suc, ◌+◌, ◌-◌, ◌*◌, ◌/◌, ◌%◌, ◌^◌, ◌≤◌, ◌<◌, ◌≡◌, ◌⊎◌, refl, ap, ap₂, ◌∙◌, true, false,
  List, [], ◌∷◌, ◌++◌, length, ltb, leb, length-append, get_or-append_at, drop-append_at,
  take-append_length, All, arith,
}
use mathlib.Core.List.{append_assoc}
use microwaf.Detect.Z21.{Z21Record, u16_at, xheader_of, record_at, z21_loop, detect_z21_records}

-- a record that the wire can carry
pub record IsRecord (r : Z21Record) : Type 0 where
  pub whole : r.data_len ≡ length r.payload + 4
  pub len_fits : r.data_len < 2 ^ 16
  pub header_fits : r.header < 2 ^ 16
  pub sub_header : r.xheader ≡ xheader_of r.header r.payload

-- `DataLen | Header | Data`, little-endian
abbrev pub encode : Z21Record → List ℕ
encode r = (r.data_len % 256) ∷ (r.data_len / 256) ∷ (r.header % 256) ∷ (r.header / 256) ∷ r.payload

abbrev pub encode_all : List Z21Record → List ℕ
encode_all [] = []
encode_all (r ∷ rs) = encode r ++ encode_all rs

-- bytes that begin no whole record
abbrev pub IsTail : List ℕ → Type 0
IsTail bytes = (length bytes < 4) ⊎ (u16_at bytes 0 < 4) ⊎ (length bytes < u16_at bytes 0)

u16_at-append : (xs ys : List ℕ) (i j : ℕ) → i ≡ length xs + j → u16_at (xs ++ ys) i ≡ u16_at ys j
u16_at-append xs ys i j h =
    ap₂ (λ a b. a + 256 * b) (get_or-append_at xs ys i j 0 h)
      (get_or-append_at xs ys (i + 1) (j + 1) 0 (omega arith))

record_at-append :
    (xs ys : List ℕ) (i j total : ℕ)
    → i ≡ length xs + j
    → record_at (xs ++ ys) i total ≡ record_at ys j total
record_at-append xs ys i j total h = rw (
  u16_at-append xs ys (i + 2) (j + 2) (omega arith),
  drop-append_at xs ys (i + 4) (j + 4) (omega arith),
)

-- The loop reads nothing before its offset.
z21_loop-append :
    (fuel : ℕ) (xs ys : List ℕ) (i j : ℕ)
    → i ≡ length xs + j
    → z21_loop fuel (xs ++ ys) i ≡ z21_loop fuel ys j
unfolding z21_loop
z21_loop-append zero xs ys i j h = refl
z21_loop-append (suc fuel) xs ys i j h =
    let total = u16_at ys j in
    let fits : leb (i + 4) (length (xs ++ ys)) ≡ leb (j + 4) (length ys) =
      ground (arith, length-append xs ys) in
    let runs : ltb (length (xs ++ ys)) (i + total) ≡ ltb (length ys) (j + total) =
      ground (arith, length-append xs ys) in
    rw (
      u16_at-append xs ys i j h,
      fits,
      runs,
      record_at-append xs ys i j total h,
      z21_loop-append fuel xs ys (i + total) (j + total) (omega arith),
    )

record_at-encode :
    (r : Z21Record) (more : List ℕ) → IsRecord r → record_at (encode r ++ more) 0 r.data_len ≡ r
record_at-encode r more v =
    let len : r.data_len - 4 ≡ length r.payload = omega (arith, v.whole) in
    let header : r.header % 256 + 256 * (r.header / 256) ≡ r.header = omega arith in
    rw (len, take-append_length r.payload more, header, ← v.sub_header)

-- one round at the front of an encoded record
z21_loop-encode :
    (fuel : ℕ) (r : Z21Record) (more : List ℕ)
    → IsRecord r
    → z21_loop (suc fuel) (encode r ++ more) 0 ≡ r ∷ z21_loop fuel more 0
unfolding z21_loop
z21_loop-encode fuel r more v =
    let total : r.data_len % 256 + 256 * (r.data_len / 256) ≡ r.data_len = omega arith in
    let size : length (encode r ++ more) ≡ r.data_len + length more =
      omega (arith, length-append r.payload more, v.whole) in
    let fits : leb (0 + 4) (length (encode r ++ more)) ≡ true = ground (arith, size, v.whole) in
    let long : ltb r.data_len 4 ≡ false = ground (arith, v.whole) in
    let runs : ltb (length (encode r ++ more)) (0 + r.data_len) ≡ false = ground (arith, size) in
    rw (total, fits, long, runs, record_at-encode r more v)
      (ap (◌∷◌ r)
        (z21_loop-append fuel (encode r) more (0 + r.data_len) 0 (omega (arith, v.whole))))

-- the loop stops at a tail
z21_loop-tail : (fuel : ℕ) (junk : List ℕ) → IsTail junk → z21_loop fuel junk 0 ≡ []
unfolding z21_loop
z21_loop-tail zero junk t = refl
z21_loop-tail (suc fuel) junk t = ground arith

z21_loop-encode_all :
    (fuel : ℕ) (rs : List Z21Record) (junk : List ℕ)
    → length rs ≤ fuel
    → All IsRecord rs
    → IsTail junk
    → z21_loop fuel (encode_all rs ++ junk) 0 ≡ rs
z21_loop-encode_all fuel [] junk h v t = z21_loop-tail fuel junk t
z21_loop-encode_all zero (r ∷ rs) junk h v t = absurd (omega arith)
z21_loop-encode_all (suc fuel) (r ∷ rs) junk h v t = rw append_assoc (
    z21_loop-encode fuel r (encode_all rs ++ junk) v.0
    ∙ ap (◌∷◌ r) (z21_loop-encode_all fuel rs junk (omega arith) v.1 t))

length-encode_all : (rs : List Z21Record) → length rs ≤ length (encode_all rs)
length-encode_all [] = omega arith
length-encode_all (r ∷ rs) =
    omega (arith, length-append r.payload (encode_all rs), length-encode_all rs)

-- A datagram that consists of whole records, followed by bytes that begin no whole record, is split
-- into exactly those records: no header, length, sub-header or data byte is lost, and the fuel is
-- enough.
pub detect_z21_records-encode_all :
    (rs : List Z21Record) (junk : List ℕ)
    → All IsRecord rs
    → IsTail junk
    → detect_z21_records (encode_all rs ++ junk) ≡ rs
unfolding detect_z21_records
detect_z21_records-encode_all rs junk v t =
    z21_loop-encode_all (length (encode_all rs ++ junk)) rs junk
      (omega (arith, length-append (encode_all rs) junk, length-encode_all rs)) v t
