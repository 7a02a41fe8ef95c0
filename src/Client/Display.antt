-- ===== src/Client/Display.antt =====
-- crates/mw-core/src/client.rs: how a client is written. The text of an IPv6 address, whose layout
-- `std` fixes, is the parameter `show_v6`.
use microwaf.Prelude.{ℕ, ◌+◌, ◌/◌, ◌%◌, List, [], ◌∷◌, ◌++◌, ltb, if◌then◌else◌}
use microwaf.Prelude.Text.{Text}
use microwaf.Client.Defs.{ClientId, IpAddr, v4, v6}

-- a hexadecimal digit, in lower case
unfoldable pub hex_digit : ℕ → ℕ
hex_digit n = if ltb n 10 then b'0' + n else 87 + n

-- `{:02x}` of a byte
abbrev pub hex_byte : ℕ → Text
hex_byte b = hex_digit (b / 16) ∷ hex_digit (b % 16) ∷ []

abbrev pub join_map : ℕ → (ℕ → Text) → List ℕ → Text
join_map sep f [] = []
join_map sep f (b ∷ []) = f b
join_map sep f (b ∷ c ∷ bs) = f b ++ sep ∷ join_map sep f (c ∷ bs)

-- `ClientId::mac_string`
unfoldable pub mac_string : ClientId → Text
mac_string c = join_map b':' hex_byte c.mac

-- a byte in decimal
abbrev pub decimal_byte : ℕ → Text
decimal_byte b =
    if ltb b 10
    then (b'0' + b) ∷ []
    else if ltb b 100
    then (b'0' + b / 10) ∷ (b'0' + b % 10) ∷ []
    else (b'0' + b / 100) ∷ (b'0' + b / 10 % 10) ∷ (b'0' + b % 10) ∷ []

module _ (show_v6 : List ℕ → Text) where
  -- `IpAddr::to_string`
  unfoldable pub ip_string : IpAddr → Text
  ip_string (v4 octets) = join_map b'.' decimal_byte octets
  ip_string (v6 segments) = show_v6 segments

  -- `ClientId::storage_key`
  unfoldable pub storage_key : ClientId → Text
  unfolding ip_string mac_string
  storage_key c = mac_string c ++ b'@' ∷ ip_string c.ip
