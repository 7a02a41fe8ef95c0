-- ===== src/Detect/Ws.antt =====
-- crates/mw-sniffer/src/ws.rs: the header of a WebSocket frame. The masks of single bytes are
-- written as quotients and remainders.
pub mod Layout
use microwaf.Prelude.{
  ℕ, ◌+◌, ◌/◌, ◌%◌, ◌^◌, Bool, true, false, not, ◌&&◌, ◌||◌, Option, none, some, List, length,
  get_or, take, drop, ltb, leb, nat_beq, if◌then◌else◌, from_be_bytes,
}

pub record WsFrameHeader : Type 0 where
  pub fin : Bool
  pub opcode : ℕ
  pub payload_len : ℕ
  pub masked : Bool

-- `b & 0x80 != 0`
abbrev pub top_bit : ℕ → Bool
top_bit b = nat_beq (b / 128 % 2) 1

-- the payload length and the header length, by the 7-bit length
unfoldable pub frame_lengths : List ℕ → ℕ → Option (ℕ × ℕ)
frame_lengths payload len7 =
    if nat_beq len7 126
    then (if ltb (length payload) 4
        then none
        else some (from_be_bytes 0 (take 2 (drop 2 payload)), 4))
    else if nat_beq len7 127
    then (if ltb (length payload) 10
        then none
        else let len = from_be_bytes 0 (take 8 (drop 2 payload)) in
          if nat_beq (len / 2 ^ 63 % 2) 1 then none else some (len, 10))
    else some (len7, 2)

-- `matches!(opcode, 0..=2 | 8..=10)`
abbrev pub known_opcode : ℕ → Bool
known_opcode o = leb o 2 || (leb 8 o && leb o 10)

-- what follows the two lengths
unfoldable pub finish_frame : List ℕ → ℕ → ℕ → ℕ × ℕ → Option WsFrameHeader
finish_frame payload b0 b1 (payload_len, hdr_len) =
    let masked = top_bit b1 in
    if ltb (length payload) (hdr_len + (if masked then 4 else 0))
    then none
    else if not (known_opcode (b0 % 16))
    then none
    else some
        (record { fin = top_bit b0; opcode = b0 % 16; payload_len = payload_len; masked = masked })

-- `detect_ws_frame`
unfoldable pub detect_ws_frame : List ℕ → Option WsFrameHeader
detect_ws_frame payload =
    if ltb (length payload) 2
    then none
    else let b0 = get_or payload 0 0 in
      let b1 = get_or payload 1 0 in
      elim (frame_lengths payload (b1 % 128)) [
        | none ↦ none
        | some lens ↦ finish_frame payload b0 b1 lens
      ]
