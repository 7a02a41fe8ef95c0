-- ===== src/Detect/Z21.antt =====
-- crates/mw-sniffer/src/z21.rs: the records of a Z21 LAN datagram. The loop takes the length of the
-- payload as fuel, since each round moves on by at least four bytes.
pub mod Records
use microwaf.Prelude.{
  ℕ, zero, suc, ◌+◌, ◌-◌, ◌*◌, Bool, Option, none, some, List, [], ◌∷◌, length, get_or, take, drop,
  ltb, leb, nat_beq, if◌then◌else◌, from_le_bytes,
}

pub record Z21Record : Type 0 where
  pub header : ℕ
  pub xheader : ℕ
  pub data_len : ℕ
  pub payload : List ℕ

-- `u16::from_le_bytes([payload[i], payload[i + 1]])`
abbrev pub u16_at : List ℕ → ℕ → ℕ
u16_at payload i = get_or payload i 0 + 256 * get_or payload (i + 1) 0

-- the X-BUS sub-header of the data of a record
abbrev pub xheader_of : ℕ → List ℕ → ℕ
xheader_of header bytes = if nat_beq header 0x0040 then get_or bytes 0 0 else 0

-- the record at `off` with the length `total`
abbrev pub record_at : List ℕ → ℕ → ℕ → Z21Record
record_at payload off total =
    let bytes = take (total - 4) (drop (off + 4) payload) in
    record {
      header = u16_at payload (off + 2);
      xheader = xheader_of (u16_at payload (off + 2)) bytes;
      data_len = total;
      payload = bytes;
    }

-- the loop of `detect_z21_records`
unfoldable pub z21_loop : ℕ → List ℕ → ℕ → List Z21Record
z21_loop zero payload off = []
z21_loop (suc fuel) payload off =
    let total = u16_at payload off in
    let rest = record_at payload off total ∷ z21_loop fuel payload (off + total) in
    if leb (off + 4) (length payload)
    then if ltb total 4 then [] else if ltb (length payload) (off + total) then [] else rest
    else []

-- `detect_z21_records`
unfoldable pub detect_z21_records : List ℕ → List Z21Record
detect_z21_records payload = z21_loop (length payload) payload 0
