-- ===== src/Client/Defs.antt =====
-- crates/mw-core/src/client.rs: `ClientId`. Byte arrays are lists of bytes.
use microwaf.Prelude.{
  ℕ, ◌≡◌, ◌↔◌, Bool, true, false, ◌&&◌, List, Eq, nat_eq, list_eq, list_beq, list_beq_iff, arith,
}

-- `std::net::IpAddr`: the octets of an IPv4 address, or the segments of an IPv6 one
pub data IpAddr : Type 0 where
  v4 : List ℕ → IpAddr
  v6 : List ℕ → IpAddr

pub record ClientId : Type 0 where
  pub mac : List ℕ
  pub ip : IpAddr

abbrev pub ip_beq : IpAddr → IpAddr → Bool
ip_beq (v4 a) (v4 b) = list_beq a b
ip_beq (v6 a) (v6 b) = list_beq a b
ip_beq _ _ = false

pub ip_beq_iff : (a b : IpAddr) → (ip_beq a b ≡ true) ↔ (a ≡ b)
ip_beq_iff (v4 a) (v4 b) = ground (arith, list_beq_iff a b)
ip_beq_iff (v4 a) (v6 b) = ground arith
ip_beq_iff (v6 a) (v4 b) = ground arith
ip_beq_iff (v6 a) (v6 b) = ground (arith, list_beq_iff a b)

abbrev pub client_beq : ClientId → ClientId → Bool
client_beq c d = list_beq c.mac d.mac && ip_beq c.ip d.ip

pub client_beq_iff : (c d : ClientId) → (client_beq c d ≡ true) ↔ (c ≡ d)
client_beq_iff c d = ground (arith, list_beq_iff c.mac d.mac, ip_beq_iff c.ip d.ip)

-- the derived `PartialEq`
instance abbrev pub client_eq : Eq ClientId
client_eq = record { beq = client_beq; beq_iff = client_beq_iff }
