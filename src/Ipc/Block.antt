-- ===== src/Ipc/Block.antt =====
-- What the `block` command does to what is enforced.
use microwaf.Prelude.{
  ℕ, ◌≡◌, ◌≢◌, ◌<◌, refl, true, Option, none, some, arith, List, ◌+◌, false, ◌*◌, ◌^◌, ◌≤◌,
}
use microwaf.Prelude.Text.{Text}
use microwaf.Prelude.Result.{Result, ok}
use microwaf.HashMap.{get, find_or, get-insert_self, get-insert_ne}
use microwaf.Time.{Instant}
use microwaf.Client.{ClientId, client_eq}
use microwaf.Policy.{ManualPolicy, ClientPolicy, no_policy, merge_policy, is_blocked}
use microwaf.Policy.Merge.{merge_policy_lem}
use microwaf.State.{DaemonState}
use microwaf.Store.{ManualPolicyStore}
use microwaf.Ipc.Defs.{
  BlockParams, manual_of, set_manual, set_and_persist, block, parse_ref, until_of, with_block,
}

-- The deadline of a block is an instant: there is none, or it is below 2^63 seconds.
abbrev pub HasDeadline : Option ℕ → Instant → Type 0
HasDeadline none now = Unit
HasDeadline (some secs) now = now + secs * 1000000000 < 2 ^ 63 * 1000000000

-- A block of that many seconds, or forever, has not run out.
abbrev pub Lasts : Option ℕ → Instant → Instant → Type 0
Lasts none now later = Unit
Lasts (some secs) now later = later < now + secs * 1000000000

-- It has run out.
abbrev pub IsOver : Option ℕ → Instant → Instant → Type 0
IsOver none now later = ⊥
IsOver (some secs) now later = now + secs * 1000000000 ≤ later

deadline_of : Option ℕ → Instant → Option Instant
deadline_of none now = none
deadline_of (some secs) now = some (now + secs * 1000000000)

until_of-deadline_of :
    (d : Option ℕ) (now : Instant) → HasDeadline d now → until_of d now ≡ some (deadline_of d now)
unfolding until_of deadline_of
until_of-deadline_of none now h = refl
until_of-deadline_of (some secs) now h = ground (arith, h)

until_of_panics : (d : Option ℕ) (now : Instant) → ¬ HasDeadline d now → until_of d now ≡ none
unfolding until_of
until_of_panics none now h = absurd (h tt)
until_of_panics (some secs) now h = ground (arith, h)

-- A policy with a block that lasts is a block.
blocked_lem :
    (old : Option ManualPolicy) (d : Option ℕ) (now : Instant) (q : ClientPolicy) (later : Instant)
    → q.manual ≡ some (with_block old (deadline_of d now))
    → Lasts d now later
    → is_blocked (merge_policy q later) ≡ true
unfolding deadline_of
blocked_lem old none now q later e lasts = ground (arith, (merge_policy_lem q later).0, e)
blocked_lem old (some secs) now q later e lasts =
    ground (arith, (merge_policy_lem q later).0, e, lasts)

-- A policy with a block that has run out, and no automatic one, is no block.
over_lem :
    (old : Option ManualPolicy) (d : Option ℕ) (now : Instant) (q : ClientPolicy) (later : Instant)
    → q.manual ≡ some (with_block old (deadline_of d now))
    → q.auto ≡ none
    → IsOver d now later
    → is_blocked (merge_policy q later) ≡ false
unfolding deadline_of
over_lem old none now q later e auto over = absurd over
over_lem old (some secs) now q later e auto over =
    ground (arith, (merge_policy_lem q later).0, e, auto, over)

module _ {P S : Type 0} (store : ManualPolicyStore S) (parse_v6 : Text → Option (List ℕ)) where
  -- A `block` of a well-formed reference ends exactly if its deadline, the given number of seconds
  -- after `now`, is an instant; otherwise it panics. If it ends, then whatever the store answers the
  -- client has a policy that blocks it at every time before the deadline, or forever without one, and
  -- that does not block it from the deadline on, unless there is an automatic policy. The automatic
  -- policy of the client is as before, and so are the policies of the other clients.
  pub block_lem :
      (s : DaemonState P) (st : S) (p : BlockParams) (now : Instant) (now_sys : ℕ) (c : ClientId)
      → parse_ref parse_v6 p.client ≡ ok c
      → (HasDeadline p.duration_secs now
          → (t : DaemonState P) × (u : S) × (r : Result Text (Unit {0})) × (block store parse_v6 s
                st p now now_sys
              ≡ some (t, u, r))
            × ((q : ClientPolicy) × (get c t.policies ≡ some q)
                × (q.auto ≡ (find_or no_policy c s.policies).auto)
                × ((later : Instant)
                    → Lasts p.duration_secs now later
                    → is_blocked (merge_policy q later) ≡ true)
                × ((later : Instant)
                    → q.auto ≡ none
                    → IsOver p.duration_secs now later
                    → is_blocked (merge_policy q later) ≡ false))
            × ((d : ClientId) → c ≢ d → get d t.policies ≡ get d s.policies))
        × (¬ HasDeadline p.duration_secs now → block store parse_v6 s st p now now_sys ≡ none)
  unfolding block set_and_persist set_manual
  block_lem s st p now now_sys c named = (
    λ fits.
        let until = deadline_of p.duration_secs now in
        let m = some (with_block (manual_of s c) until) in
        let q = record (find_or no_policy c s.policies) { manual = m } in
        let x = set_and_persist store s st c m now now_sys in
        (
          x.0,
          x.1,
          x.2,
          rw (named, block) (rw (until_of-deadline_of p.duration_secs now fits) refl),
          (
            q,
            get-insert_self c q s.policies,
            refl,
            λ later lasts. blocked_lem (manual_of s c) p.duration_secs now q later refl lasts,
            λ later auto over. over_lem (manual_of s c) p.duration_secs now q later refl auto over,
          ),
          λ d ne. get-insert_ne c d q s.policies ne,
        ),
    λ late. rw (named, block) (rw (until_of_panics p.duration_secs now late) refl),
  )
