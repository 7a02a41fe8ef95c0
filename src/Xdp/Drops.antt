-- ===== src/Xdp/Drops.antt =====
-- Exactly which packets the XDP program drops.
use microwaf.Prelude.{
  ℕ, ◌+◌, ◌*◌, ◌%◌, ◌≤◌, ◌<◌, ◌≡◌, ◌≢◌, ◌⊎◌, ◌↔◌, some, List, length, get_or, drop, nat_eq, list_eq,
  arith, Option-cases, inl, inr,
}
use microwaf.HashMap.{get}
use microwaf.Xdp.Defs.{
  xdp_drop, ClientPolicyEntry, PolicyTable, frame_key, enforce_entry, check_ip, try_microwaf,
  microwaf_xdp,
}

-- an IPv4 frame with both headers inside
pub record IsIpv4 (frame : List ℕ) : Type 0 where
  pub whole : 34 ≤ length frame
  pub ethertype : get_or frame 12 0 * 256 + get_or frame 13 0 ≡ 0x0800
  pub header_len : 20 ≤ get_or (drop 14 frame) 0 0 % 16 * 4

-- the entry blocks, or the draw falls below its rate
abbrev pub Hits : ClientPolicyEntry → ℕ → Type 0
Hits e r = (e.blocked ≢ 0) ⊎ (r % 100 < e.drop_rate)

-- One entry decides: `enforce_entry` drops exactly on a hit.
enforce_entry_iff : (e : ClientPolicyEntry) (r : ℕ) → (enforce_entry e r ≡ xdp_drop) ↔ Hits e r
unfolding enforce_entry
enforce_entry_iff e r = (λ h. ground arith, λ h. ground (arith, h))

-- The program drops a packet exactly when it is an IPv4 frame whose source MAC and address have an
-- entry in the policy map that blocks, or whose rate is above the draw modulo 100.
pub microwaf_xdp_iff :
    (table : PolicyTable) (r : ℕ) (frame : List ℕ)
    → (microwaf_xdp table r frame ≡ xdp_drop) ↔ (
        IsIpv4 frame
        × ((e : ClientPolicyEntry) × (get (frame_key frame (drop 14 frame)) table ≡ some e)
            × Hits e r))
unfolding microwaf_xdp try_microwaf check_ip
microwaf_xdp_iff table r frame = elim (Option-cases (get (frame_key frame (drop 14 frame)) table)) [
  | inl e ↦ (λ h. ground (arith, e), λ h. ground (arith, e, h.1.1))
  | inr (x, e) ↦ (
    λ h. (
      record {
        whole = ground (arith, e);
        ethertype = ground (arith, e);
        header_len = ground (arith, e);
      },
      (x, e, (enforce_entry_iff x r).0 (ground (arith, e))),
    ),
    λ h. ground (arith, e, (enforce_entry_iff x r).1, h),
  )
]
