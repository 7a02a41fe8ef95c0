-- ===== src/Client/Refs.antt =====
-- A client is parsed back from its storage key.
use microwaf.Prelude.{
  ℕ, ◌+◌, ◌≡◌, ◌<◌, refl, sym, ap, ◌∙◌, Bool, true, false, Option, some, List, [], ◌∷◌, ◌++◌,
  length, nat_beq, arith, All, inl, inr, map, suc,
}
use microwaf.Prelude.Text.{Text, split, split_once, push_first}
use microwaf.Prelude.Result.{ok}
use microwaf.Client.Defs.{ClientId, v4}
use microwaf.Client.Display.{hex_byte, join_map, mac_string, decimal_byte, ip_string, storage_key}
use microwaf.Client.Parse.{
  from_str_radix, parse_all, parse_mac, parse_octet, parse_v4, parse_ip, ref_ip, client_from_str,
}
use microwaf.Client.Digits.{
  from_str_radix-hex_byte, parse_octet-decimal_byte, hex_byte_plain, decimal_byte_plain,
}

-- A piece without the separator is split off whole.
split-append :
    (f : ℕ → Bool) (a : Text) (d : ℕ) (s : Text)
    → All (λ c. f c ≡ false) a
    → f d ≡ true
    → split f (a ++ d ∷ s) ≡ a ∷ split f s
split-append f [] d s h e = rw e refl
split-append f (c ∷ a) d s h e = rw h.0 (ap (push_first c) (split-append f a d s h.1 e))

split_whole : (f : ℕ → Bool) (a : Text) → All (λ c. f c ≡ false) a → split f a ≡ a ∷ []
split_whole f [] h = refl
split_whole f (c ∷ a) h = rw h.0 (ap (push_first c) (split_whole f a h.1))

split_once-append :
    (d : ℕ) (a s : Text)
    → All (λ c. nat_beq c d ≡ false) a
    → split_once d (a ++ d ∷ s) ≡ some (a, s)
split_once-append d [] s h = ground arith
split_once-append d (c ∷ a) s h = rw (h.0, split_once-append d a s h.1) refl

abbrev pub IsByte : ℕ → Type 0
IsByte b = b < 256

-- The pieces of a joined text, if no piece has the separator.
split-join_map :
    (sep : ℕ) (f : ℕ → Text) (b : ℕ) (bs : List ℕ)
    → ((x : ℕ) → IsByte x → All (λ c. nat_beq c sep ≡ false) (f x))
    → All IsByte (b ∷ bs)
    → split (λ c. nat_beq c sep) (join_map sep f (b ∷ bs)) ≡ map f (b ∷ bs)
split-join_map sep f b [] plain h = split_whole (λ c. nat_beq c sep) (f b) (plain b h.0)
split-join_map sep f b (x ∷ bs) plain h =
    split-append (λ c. nat_beq c sep) (f b) sep (join_map sep f (x ∷ bs)) (plain b h.0)
      (ground arith)
    ∙ ap (◌∷◌ (f b)) (split-join_map sep f x bs plain h.1)

parse_all-map :
    (g : Text → Option ℕ) (f : ℕ → Text) (bs : List ℕ)
    → ((x : ℕ) → IsByte x → g (f x) ≡ some x)
    → All IsByte bs
    → parse_all g (map f bs) ≡ some bs
unfolding parse_all
parse_all-map g f [] back h = refl
parse_all-map g f (b ∷ bs) back h = ground (arith, back b h.0, parse_all-map g f bs back h.1)

All-append_sep :
    (P : ℕ → Type 0) (a : Text) (d : ℕ) (s : Text) → All P a → P d → All P s → All P (a ++ d ∷ s)
All-append_sep P [] d s ha hd hs = (hd, hs)
All-append_sep P (c ∷ a) d s ha hd hs = (ha.0, All-append_sep P a d s ha.1 hd hs)

All-join_map :
    (P : ℕ → Type 0) (sep : ℕ) (f : ℕ → Text) (bs : List ℕ)
    → ((x : ℕ) → IsByte x → All P (f x))
    → P sep
    → All IsByte bs
    → All P (join_map sep f bs)
All-join_map P sep f [] plain hs h = tt
All-join_map P sep f (b ∷ []) plain hs h = plain b h.0
All-join_map P sep f (b ∷ c ∷ bs) plain hs h =
    All-append_sep P (f b) sep (join_map sep f (c ∷ bs)) (plain b h.0) hs
      (All-join_map P sep f (c ∷ bs) plain hs h.1)

-- The pieces, their number, and what they are parsed to.
pieces :
    (sep n : ℕ) (f : ℕ → Text) (bs : List ℕ)
    → ((x : ℕ) → IsByte x → All (λ c. nat_beq c sep ≡ false) (f x))
    → length bs ≡ n + 1
    → All IsByte bs
    → split (λ c. nat_beq c sep) (join_map sep f bs) ≡ map f bs
pieces sep n f [] plain h bytes = absurd (omega arith)
pieces sep n f (b ∷ bs) plain h bytes = split-join_map sep f b bs plain bytes

length-map : (f : ℕ → Text) (bs : List ℕ) → length (map f bs) ≡ length bs
length-map f [] = refl
length-map f (b ∷ bs) = ap suc (length-map f bs)

-- A MAC address is parsed back from its text.
parse_mac-mac_string :
    (c : ClientId) → length c.mac ≡ 6 → All IsByte c.mac → parse_mac (mac_string c) ≡ some c.mac
unfolding parse_mac mac_string
parse_mac-mac_string c h bytes =
    rw (pieces b':' 5 hex_byte c.mac (λ x l. hex_byte_plain b':' x l (inl refl)) h bytes) (
      rw (length-map hex_byte c.mac, h)
        (parse_all-map from_str_radix hex_byte c.mac from_str_radix-hex_byte bytes))

parse_v4-ip_string :
    (octets : List ℕ)
    → length octets ≡ 4
    → All IsByte octets
    → parse_v4 (join_map b'.' decimal_byte octets) ≡ some octets
unfolding parse_v4
parse_v4-ip_string octets h bytes =
    rw (pieces b'.' 3 decimal_byte octets decimal_byte_plain h bytes) (
      rw (length-map decimal_byte octets, h)
        (parse_all-map parse_octet decimal_byte octets parse_octet-decimal_byte bytes))

-- The parts of a reference with an address.
from_parts :
    (parse_v6 : Text → Option (List ℕ)) (s mac_s ip_s : Text) (mac octets : List ℕ)
    → split_once b'@' s ≡ some (mac_s, ip_s)
    → parse_mac mac_s ≡ some mac
    → parse_v4 ip_s ≡ some octets
    → client_from_str parse_v6 s ≡ ok (record { mac = mac; ip = v4 octets })
unfolding client_from_str ref_ip parse_ip
from_parts parse_v6 s mac_s ip_s mac octets cut hm hi = ground (arith, cut, hm, hi)

-- The storage key of a client with six bytes of MAC address and an IPv4 address of four is parsed
-- back to that client, whatever the texts of IPv6 addresses are.
pub client_from_str-storage_key :
    (show_v6 : List ℕ → Text) (parse_v6 : Text → Option (List ℕ)) (c : ClientId) (octets : List ℕ)
    → c.ip ≡ v4 octets
    → length c.mac ≡ 6
    → All IsByte c.mac
    → length octets ≡ 4
    → All IsByte octets
    → client_from_str parse_v6 (storage_key show_v6 c) ≡ ok c
unfolding storage_key client_from_str ip_string ref_ip parse_ip mac_string
client_from_str-storage_key show_v6 parse_v6 c octets e hm bm ho bo =
    let cut =
      split_once-append b'@' (join_map b':' hex_byte c.mac) (join_map b'.' decimal_byte octets) (
        All-join_map (λ c. nat_beq c b'@' ≡ false) b':' hex_byte c.mac
          (λ x l. hex_byte_plain b'@' x l (inr refl)) (ground arith) bm) in
    from_parts parse_v6 (storage_key show_v6 c) (mac_string c) (join_map b'.' decimal_byte octets)
      c.mac octets (rw e cut) (parse_mac-mac_string c hm bm) (parse_v4-ip_string octets ho bo)
    ∙ ap (λ a. ok (record { mac = c.mac; ip = a })) (sym e)
