-- ===== src/Detect/Ws/Layout.antt =====
-- Headers that are laid out as RFC 6455 says are read back, and only known opcodes are accepted.
use microwaf.Prelude.{
  ℕ, ◌+◌, ◌%◌, ◌^◌, ◌≤◌, ◌<◌, ◌≡◌, ◌⊎◌, inl, inr, Bool, true, false, some, List, [], ◌∷◌, ◌++◌,
  length, ltb, if◌then◌else◌, arith, be_bytes, from_be_bytes-be_bytes, suc, Bool-cases,
}
use microwaf.Detect.Ws.{
  WsFrameHeader, top_bit, frame_lengths, known_opcode, finish_frame, detect_ws_frame,
}

abbrev bit_of : Bool → ℕ
bit_of true = 128
bit_of false = 0

-- the length field: 7 bits, or 16 or 64 bits behind a marker
abbrev len7_of : ℕ → ℕ
len7_of n = if ltb n 126 then n else if ltb n (2 ^ 16) then 126 else 127

abbrev extra_of : ℕ → List ℕ
extra_of n = if ltb n 126 then [] else if ltb n (2 ^ 16) then be_bytes 2 n else be_bytes 8 n

top_bit_lem : (f : Bool) (o : ℕ) → o < 128 → top_bit (bit_of f + o) ≡ f
top_bit_lem true o h = ground arith
top_bit_lem false o h = ground arith

low_bits_lem :
    (f : Bool) (o : ℕ) → o < 128 → ((bit_of f + o) % 128 ≡ o) × ((bit_of f + o) % 16 ≡ o % 16)
low_bits_lem true o h = omega arith
low_bits_lem false o h = omega arith

KnownOpcode : ℕ → Type 0
KnownOpcode o = (o ≤ 2) ⊎ ((8 ≤ o) × (o ≤ 10))

known_opcode_lem : (o : ℕ) → KnownOpcode o → (known_opcode o ≡ true) × (o % 16 ≡ o) × (o < 128)
unfolding KnownOpcode
known_opcode_lem o h = (ground arith, omega arith, omega arith)

-- the fixed part, once the lengths have been read
finish-encode :
    (h : WsFrameHeader) (payload : List ℕ) (extra b1 : ℕ)
    → KnownOpcode h.opcode
    → (h.masked ≡ false) ⊎ (extra + 4 ≤ length payload)
    → extra ≤ length payload
    → b1 < 128
    → finish_frame payload (bit_of h.fin + h.opcode) (bit_of h.masked + b1) (h.payload_len, extra)
      ≡ some h
unfolding finish_frame
finish-encode h payload extra b1 op mask long small =
    let (known, same, below) = known_opcode_lem h.opcode op in
    rw
      (
        top_bit_lem h.masked b1 small,
        top_bit_lem h.fin h.opcode below,
        (low_bits_lem h.fin h.opcode below).1,
        same,
        known,
      )
      (ground arith)

-- The bytes of a frame header with the shortest length field.
abbrev pub encode : WsFrameHeader → List ℕ
encode h =
    (bit_of h.fin + h.opcode) ∷ (bit_of h.masked + len7_of h.payload_len) ∷ extra_of h.payload_len

frame : WsFrameHeader → ℕ → List ℕ → List ℕ
frame h len7 tail = (bit_of h.fin + h.opcode) ∷ (bit_of h.masked + len7) ∷ tail

-- What is detected once the second byte and the length field are known.
detect-frame :
    (h : WsFrameHeader) (len7 hdr_len : ℕ) (tail : List ℕ)
    → KnownOpcode h.opcode
    → len7 < 128
    → frame_lengths (frame h len7 tail) len7 ≡ some (h.payload_len, hdr_len)
    → hdr_len ≤ length tail + 2
    → (h.masked ≡ false) ⊎ (hdr_len + 4 ≤ length tail + 2)
    → detect_ws_frame (frame h len7 tail) ≡ some h
unfolding detect_ws_frame frame
detect-frame h len7 hdr_len tail op small lens long mask =
    let room : ltb (suc (suc (length tail))) 2 ≡ false = ground arith in
    rw ((low_bits_lem h.masked len7 small).0, lens, room)
      (finish-encode h (frame h len7 tail) hdr_len len7 op
        (elim mask [ inl e ↦ inl e | inr l ↦ inr (omega arith) ]) (omega arith) small)

-- A header that is encoded with the shortest length field, with a known opcode and a length below
-- 2^63, and followed by at least the four bytes of the mask if there is one, is detected as it is,
-- whatever follows.
pub detect_ws_frame-encode :
    (h : WsFrameHeader) (rest : List ℕ)
    → (h.opcode ≤ 2) ⊎ ((8 ≤ h.opcode) × (h.opcode ≤ 10))
    → h.payload_len < 2 ^ 63
    → (h.masked ≡ false) ⊎ (4 ≤ length rest)
    → detect_ws_frame (encode h ++ rest) ≡ some h
unfolding frame frame_lengths KnownOpcode
detect_ws_frame-encode h rest op len mask = elim (Bool-cases (ltb h.payload_len 126)) [
  | inl short ↦ rw short (
      detect-frame h h.payload_len 2 rest op (ground arith) (ground arith) (omega arith)
        (elim mask [ inl e ↦ inl e | inr l ↦ inr (omega arith) ]))
  | inr long ↦ elim (Bool-cases (ltb h.payload_len (2 ^ 16))) [
    | inl mid ↦
        rw (long, mid)
          (detect-frame h 126 4 (be_bytes 2 h.payload_len ++ rest) op (omega arith)
            (ground (arith, from_be_bytes-be_bytes 2 h.payload_len (ground arith))) (omega arith)
            (elim mask [ inl e ↦ inl e | inr l ↦ inr (omega arith) ]))
    | inr big ↦
        rw (long, big)
          (detect-frame h 127 10 (be_bytes 8 h.payload_len ++ rest) op (omega arith)
            (ground (arith, from_be_bytes-be_bytes 8 h.payload_len (omega arith))) (omega arith)
            (elim mask [ inl e ↦ inl e | inr l ↦ inr (omega arith) ]))
  ]
]
