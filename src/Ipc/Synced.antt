-- ===== src/Ipc/Synced.antt =====
-- The commands keep the store in step with the manual policies in memory, and what `block` does.
use microwaf.Prelude.{
  ℕ, ◌≡◌, ◌↔◌, refl, Option, none, some, ◌==◌, if◌then◌else◌, arith, inl, inr, Option-cases, List,
}
use mathlib.Core.Path.{subst}
use microwaf.Prelude.Text.{Text}
use microwaf.Prelude.Result.{Result, ok, Result-cases}
use microwaf.HashMap.{find_or, get-insert}
use microwaf.Time.{Instant}
use microwaf.Client.{ClientId, client_eq}
use microwaf.Policy.{ManualPolicy, StoredManualPolicy, no_policy, from_runtime}
use microwaf.State.{DaemonState}
use microwaf.Store.{ManualPolicyStore, persist_manual}
use microwaf.Ipc.Defs.{
  ClientRef, ThrottleParams, BlockParams, manual_of, set_manual, set_and_persist, throttle, block,
  clear_manual_throttle, clear_manual_block, parse_ref, until_of, throttled, with_block,
  unthrottled, unblocked, update_present, update_present,
}

-- What the commands rely on: a `put` or `remove` that succeeds changes the entry of its client, and
-- no other.
pub record LawfulStore {S : Type 0} (store : ManualPolicyStore S) : Type 0 where
  pub find : S → ClientId → Option StoredManualPolicy
  pub find-put :
      (st : S) (c d : ClientId) (p : StoredManualPolicy)
      → (store.put st c p).1 ≡ ok tt
      → find (store.put st c p).0 d ≡ (if c == d then some p else find st d)
  pub find-remove :
      (st : S) (c d : ClientId)
      → (store.remove st c).1 ≡ ok tt
      → find (store.remove st c).0 d ≡ (if c == d then none else find st d)

manual_of-set_manual :
    {P : Type 0} (s : DaemonState P) (c d : ClientId) (m : Option ManualPolicy)
    → manual_of (set_manual s c m) d ≡ (if c == d then m else manual_of s d)
unfolding manual_of set_manual
manual_of-set_manual s c d m =
    ground
      (arith, get-insert c d (record (find_or no_policy c s.policies) { manual = m }) s.policies)

module _ {P S : Type 0} (store : ManualPolicyStore S) (laws : LawfulStore store)
    (parse_v6 : Text → Option (List ℕ)) where
  -- A client has a manual policy in memory exactly if it has one in the store.
  abbrev pub Synced : DaemonState P → S → Type 0
  Synced s st = (c : ClientId) → (manual_of s c ≡ none) ↔ (laws.find st c ≡ none)

  set_and_persist-Synced :
      (s : DaemonState P) (st : S) (c : ClientId) (m : Option ManualPolicy) (now : Instant)
      (now_sys : ℕ)
      → (set_and_persist store s st c m now now_sys).2 ≡ ok tt
      → Synced s st
      → Synced
          (set_and_persist store s st c m now now_sys).0
          (set_and_persist store s st c m now now_sys).1
  unfolding set_and_persist persist_manual
  set_and_persist-Synced s st c none now now_sys ran h d =
      ground (arith, manual_of-set_manual s c d none, laws.find-remove st c d ran, h d)
  set_and_persist-Synced s st c (some m) now now_sys ran h d = ground (
    arith,
    manual_of-set_manual s c d (some m),
    laws.find-put st c d (from_runtime m now now_sys) ran,
    h d,
  )

  -- If the command succeeds, it keeps memory and store in step.
  abbrev Keeps : DaemonState P → S → DaemonState P × S × Result Text (Unit {0}) → Type 0
  Keeps s st x = x.2 ≡ ok tt → Synced s st → Synced x.0 x.1

  abbrev KeepsAll : DaemonState P → S → Option (DaemonState P × S × Result Text (Unit {0})) → Type 0
  KeepsAll s st none = Unit
  KeepsAll s st (some x) = Keeps s st x

  update_present-Keeps :
      (f : ManualPolicy → Option ManualPolicy) (s : DaemonState P) (st : S) (c : ClientId)
      (now : Instant) (now_sys : ℕ)
      → Keeps s st (update_present store f s st c now now_sys)
  unfolding update_present manual_of
  update_present-Keeps f s st c now now_sys = elim (Option-cases (manual_of s c)) [
    | inl n ↦ rw (n, update_present) (λ ran h. h)
    | inr (m, n) ↦ rw (n, update_present) (set_and_persist-Synced s st c (f m) now now_sys)
  ]

  throttle-Keeps :
      (s : DaemonState P) (st : S) (p : ThrottleParams) (now : Instant) (now_sys : ℕ)
      → KeepsAll s st (throttle store parse_v6 s st p now now_sys)
  unfolding throttle
  throttle-Keeps s st p now now_sys = elim (Result-cases (parse_ref parse_v6 p.client)) [
    | inr (e, n) ↦ rw (n, throttle) (λ ran. absurd (ground arith))
    | inl (c, n) ↦
        rw (n, throttle)
          (elim (Option-cases (until_of p.duration_secs now)) [
            | inl o ↦ rw o tt
            | inr (u, o) ↦ rw o (
                set_and_persist-Synced s st c (some (throttled (manual_of s c) p.rate u)) now
                  now_sys)
          ])
  ]

  block-Keeps :
      (s : DaemonState P) (st : S) (p : BlockParams) (now : Instant) (now_sys : ℕ)
      → KeepsAll s st (block store parse_v6 s st p now now_sys)
  unfolding block
  block-Keeps s st p now now_sys = elim (Result-cases (parse_ref parse_v6 p.client)) [
    | inr (e, n) ↦ rw (n, block) (λ ran. absurd (ground arith))
    | inl (c, n) ↦
        rw (n, block)
          (elim (Option-cases (until_of p.duration_secs now)) [
            | inl o ↦ rw o tt
            | inr (u, o) ↦
                rw o
                  (set_and_persist-Synced s st c (some (with_block (manual_of s c) u)) now now_sys)
          ])
  ]

  unthrottle-Keeps :
      (s : DaemonState P) (st : S) (r : ClientRef) (now : Instant) (now_sys : ℕ)
      → Keeps s st (clear_manual_throttle store parse_v6 s st r now now_sys)
  unfolding clear_manual_throttle
  unthrottle-Keeps s st r now now_sys = elim (Result-cases (parse_ref parse_v6 r)) [
    | inr (e, n) ↦ rw (n, clear_manual_throttle) (λ ran. absurd (ground arith))
    | inl (c, n) ↦
        rw (n, clear_manual_throttle) (update_present-Keeps unthrottled s st c now now_sys)
  ]

  unblock-Keeps :
      (s : DaemonState P) (st : S) (r : ClientRef) (now : Instant) (now_sys : ℕ)
      → Keeps s st (clear_manual_block store parse_v6 s st r now now_sys)
  unfolding clear_manual_block
  unblock-Keeps s st r now now_sys = elim (Result-cases (parse_ref parse_v6 r)) [
    | inr (e, n) ↦ rw (n, clear_manual_block) (λ ran. absurd (ground arith))
    | inl (c, n) ↦ rw (n, clear_manual_block) (update_present-Keeps unblocked s st c now now_sys)
  ]

  -- one command that succeeds
  pub data Step : DaemonState P → S → DaemonState P → S → Type 0 where
    throttles :
        {s t : DaemonState P} {st u : S} (p : ThrottleParams) (now : Instant) (now_sys : ℕ)
        → throttle store parse_v6 s st p now now_sys ≡ some (t, u, ok tt)
        → Step s st t u
    blocks :
        {s t : DaemonState P} {st u : S} (p : BlockParams) (now : Instant) (now_sys : ℕ)
        → block store parse_v6 s st p now now_sys ≡ some (t, u, ok tt)
        → Step s st t u
    unthrottles :
        {s t : DaemonState P} {st u : S} (r : ClientRef) (now : Instant) (now_sys : ℕ)
        → clear_manual_throttle store parse_v6 s st r now now_sys ≡ (t, u, ok tt)
        → Step s st t u
    unblocks :
        {s t : DaemonState P} {st u : S} (r : ClientRef) (now : Instant) (now_sys : ℕ)
        → clear_manual_block store parse_v6 s st r now now_sys ≡ (t, u, ok tt)
        → Step s st t u

  -- commands that succeed, one after another
  pub data Steps : DaemonState P → S → DaemonState P → S → Type 0 where
    finish : {s : DaemonState P} {st : S} → Steps s st s st
    more : {s t v : DaemonState P} {st u w : S} → Step s st t u → Steps t u v w → Steps s st v w

  Step-Synced : {s t : DaemonState P} {st u : S} → Step s st t u → Synced s st → Synced t u
  Step-Synced {s} {t} {st} {u} (throttles p now now_sys ran) =
      subst (KeepsAll s st) ran (throttle-Keeps s st p now now_sys) refl
  Step-Synced {s} {t} {st} {u} (blocks p now now_sys ran) =
      subst (KeepsAll s st) ran (block-Keeps s st p now now_sys) refl
  Step-Synced {s} {t} {st} {u} (unthrottles r now now_sys ran) =
      subst (Keeps s st) ran (unthrottle-Keeps s st r now now_sys) refl
  Step-Synced {s} {t} {st} {u} (unblocks r now now_sys ran) =
      subst (Keeps s st) ran (unblock-Keeps s st r now now_sys) refl

  -- Through any sequence of commands that succeed, on a store that does what they rely on, a client
  -- has a manual policy in memory exactly if it has one in the store, if this holds at the start.
  pub Steps-Synced : (s t : DaemonState P) (st u : S) → Steps s st t u → Synced s st → Synced t u
  Steps-Synced s t st u finish h = h
  Steps-Synced s t st u (more {t = r} {u = w} step rest) h =
      Steps-Synced r t w u rest (Step-Synced step h)
