-- ===== src/Client/Parse.antt =====
-- crates/mw-core/src/client.rs: `FromStr for ClientId` and `parse_mac`, with the number parsers of
-- `std` that they call. The parser of IPv6 addresses is the parameter `parse_v6`.
use microwaf.Prelude.{
  ℕ, ◌+◌, ◌-◌, ◌*◌, ◌&&◌, ◌||◌, Option, none, some, List, [], ◌∷◌, length, ltb, leb, nat_beq,
  if◌then◌else◌,
}
use microwaf.Prelude.Text.{Text, split, split_once}
use microwaf.Prelude.Result.{Result, ok, err}
use microwaf.Client.Defs.{ClientId, IpAddr, v4, v6}

-- `char::to_digit(16)`
unfoldable pub hex_value : ℕ → Option ℕ
hex_value c =
    if leb b'0' c && leb c b'9'
    then some (c - b'0')
    else if leb b'a' c && leb c b'f'
    then some (c - 87)
    else if leb b'A' c && leb c b'F'
    then some (c - 55)
    else none

-- the loop of `u8::from_str_radix(s, 16)`, which stops at an overflow
unfoldable pub radix_loop : ℕ → Text → Option ℕ
radix_loop acc [] = some acc
radix_loop acc (c ∷ s) = elim (hex_value c) [
  | none ↦ none
  | some d ↦ let rest = radix_loop (acc * 16 + d) s in if leb (acc * 16 + d) 255 then rest else none
]

-- `u8::from_str_radix(s, 16)`: a sign `+` is allowed in front of digits
unfoldable pub from_str_radix : Text → Option ℕ
from_str_radix [] = none
from_str_radix (c ∷ []) = if nat_beq c b'+' then none else radix_loop 0 (c ∷ [])
from_str_radix (c ∷ d ∷ s) =
    if nat_beq c b'+' then radix_loop 0 (d ∷ s) else radix_loop 0 (c ∷ d ∷ s)

-- the loop of `parse_mac` over the parts
unfoldable pub parse_all : (Text → Option ℕ) → List Text → Option (List ℕ)
parse_all f [] = some []
parse_all f (p ∷ ps) = elim (f p) [
  | none ↦ none
  | some b ↦ elim (parse_all f ps) [ none ↦ none | some bs ↦ some (b ∷ bs) ]
]

-- `parse_mac`
unfoldable pub parse_mac : Text → Option (List ℕ)
parse_mac s =
    if nat_beq (length (split (λ c. nat_beq c b':') s)) 6
    then parse_all from_str_radix (split (λ c. nat_beq c b':') s)
    else none

unfoldable pub decimal_value : ℕ → Option ℕ
decimal_value c = if leb b'0' c && leb c b'9' then some (c - b'0') else none

unfoldable pub decimal_loop : ℕ → Text → Option ℕ
decimal_loop acc [] = some acc
decimal_loop acc (c ∷ s) = elim (decimal_value c) [
  | none ↦ none
  | some d ↦
      let rest = decimal_loop (acc * 10 + d) s in if leb (acc * 10 + d) 255 then rest else none
]

-- an octet of `Ipv4Addr::from_str`: one to three digits, without a leading zero
unfoldable pub parse_octet : Text → Option ℕ
parse_octet [] = none
parse_octet (c ∷ []) = decimal_loop 0 (c ∷ [])
parse_octet (c ∷ d ∷ s) =
    if nat_beq c b'0' || ltb 3 (length (c ∷ d ∷ s)) then none else decimal_loop 0 (c ∷ d ∷ s)

-- `Ipv4Addr::from_str`
unfoldable pub parse_v4 : Text → Option (List ℕ)
parse_v4 s =
    if nat_beq (length (split (λ c. nat_beq c b'.') s)) 4
    then parse_all parse_octet (split (λ c. nat_beq c b'.') s)
    else none

-- the text of the MAC address, and that of the IP address if there is one
abbrev pub split_ref : Text → Text × Option Text
split_ref s = elim (split_once b'@' s) [ none ↦ (s, none) | some (m, i) ↦ (m, some i) ]

module _ (parse_v6 : Text → Option (List ℕ)) where
  -- `IpAddr::from_str`
  unfoldable pub parse_ip : Text → Option IpAddr
  parse_ip s = elim (parse_v4 s) [
    | some octets ↦ some (v4 octets)
    | none ↦ elim (parse_v6 s) [ none ↦ none | some segments ↦ some (v6 segments) ]
  ]

  -- the address of a reference; without one it is 0.0.0.0
  unfoldable pub ref_ip : Option Text → Option IpAddr
  ref_ip none = some (v4 (0 ∷ 0 ∷ 0 ∷ 0 ∷ []))
  ref_ip (some s) = parse_ip s

  -- `ClientId::from_str`; the error holds the text
  unfoldable pub client_from_str : Text → Result Text ClientId
  client_from_str s = elim (parse_mac (split_ref s).0) [
    | none ↦ err s
    | some mac ↦ elim (ref_ip (split_ref s).1) [
      | none ↦ err s
      | some ip ↦ ok (record { mac = mac; ip = ip })
    ]
  ]
