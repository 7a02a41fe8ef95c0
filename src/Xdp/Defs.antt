-- ===== src/Xdp/Defs.antt =====
-- crates/mw-ebpf/src/lib.rs: the XDP program over the bytes of a frame, the policy map and the random
-- number that the kernel helper returns. `none` is the `Err(())` of a read past the end.
use microwaf.Prelude.{
  ℕ, ◌+◌, ◌*◌, ◌%◌, not, Option, none, some, List, ◌++◌, length, get_or, take, drop, ltb, nat_beq,
  nat_eq, list_eq, if◌then◌else◌,
}
use microwaf.HashMap.{HashMap, get}

pub data XdpAction : Type 0 where
  xdp_pass xdp_drop : XdpAction

pub record ClientPolicyEntry : Type 0 where
  pub blocked : ℕ
  pub drop_rate : ℕ
  pub until_unix : ℕ

-- `CLIENT_POLICY`
abbrev pub PolicyTable : Type 0
PolicyTable = HashMap (List ℕ) ClientPolicyEntry

-- `ptr_at`: the bytes from `offset` on, if a header of `len` bytes fits there
abbrev pub ptr_at : List ℕ → ℕ → ℕ → Option (List ℕ)
ptr_at frame offset len =
    if ltb (length frame) (offset + len) then none else some (drop offset frame)

-- the source MAC of the Ethernet header and the source address of the IP header
abbrev pub frame_key : List ℕ → List ℕ → List ℕ
frame_key eth ip = take 6 (drop 6 eth) ++ take 4 (drop 12 ip)

-- what happens to a packet whose client has an entry
unfoldable pub enforce_entry : ClientPolicyEntry → ℕ → XdpAction
enforce_entry e r =
    if not (nat_beq e.blocked 0)
    then xdp_drop
    else if ltb 0 e.drop_rate
    then (if ltb (r % 100) e.drop_rate then xdp_drop else xdp_pass)
    else xdp_pass

-- the part past the Ethernet header
unfoldable pub check_ip : PolicyTable → ℕ → List ℕ → List ℕ → XdpAction
check_ip table r eth ip =
    if ltb (get_or ip 0 0 % 16 * 4) 20 then xdp_pass else elim (get (frame_key eth ip) table) [
      | none ↦ xdp_pass
      | some entry ↦ enforce_entry entry r
    ]

-- `try_microwaf`
unfoldable pub try_microwaf : PolicyTable → ℕ → List ℕ → Option XdpAction
try_microwaf table r frame = elim (ptr_at frame 0 14) [
  | none ↦ none
  | some eth ↦
      if not (nat_beq (get_or eth 12 0 * 256 + get_or eth 13 0) 0x0800)
      then some xdp_pass
      else elim (ptr_at frame 14 20) [ none ↦ none | some ip ↦ some (check_ip table r eth ip) ]
]

-- `microwaf`
unfoldable pub microwaf_xdp : PolicyTable → ℕ → List ℕ → XdpAction
microwaf_xdp table r frame = elim (try_microwaf table r frame) [
  | none ↦ xdp_pass
  | some action ↦ action
]
