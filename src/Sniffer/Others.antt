-- ===== src/Sniffer/Others.antt =====
-- What a frame leaves alone: the counters of every other client, and the rest of the state.
use microwaf.Prelude.{ℕ, ◌≡◌, ◌≢◌, refl, ◌∙◌, nat_eq, list_eq, arith}
use microwaf.HashMap.{get, find_or, get-insert_ne}
use microwaf.Client.{ClientId, client_eq}
use microwaf.Rule.{RuleId, metric_eq}
use microwaf.Counters.{
  CounterStore, key_of, key_eq, add, add_ws_connection, get_counts, add_cumulative, no_counts,
  key_beq_iff,
}
use microwaf.Counters.Laws.{get_counts-add_at}
use microwaf.Sniffer.Tracked.{Tracked}

-- From `a` to `b`, no counter of a client other than `c` changes.
abbrev pub SameOthers : ClientId → CounterStore → CounterStore → Type 0
SameOthers c a b =
    (d : ClientId)
    → c ≢ d
    → ((i : RuleId) → get_counts b d i ≡ get_counts a d i) × (get d b.by_client ≡ get d a.by_client)

pub others_refl : (c : ClientId) (a : CounterStore) → SameOthers c a a
others_refl c a d h = (λ i. refl, refl)

pub others_trans :
    (c : ClientId) (x y z : CounterStore) → SameOthers c x y → SameOthers c y z → SameOthers c x z
others_trans c x y z h g d n = (λ i. (g d n).0 i ∙ (h d n).0 i, (g d n).1 ∙ (h d n).1)

add-others :
    (s : CounterStore) (c : ClientId) (i : RuleId) (req bytes conn : ℕ)
    → SameOthers c s (add s c i req bytes conn)
unfolding add
add-others s c i req bytes conn d n = (
  λ j.
      ground
        (arith, get_counts-add_at s c d i j req bytes conn, key_beq_iff (key_of c i) (key_of d j)),
  get-insert_ne c d (add_cumulative (find_or no_counts c s.by_client) req bytes conn) s.by_client n,
)

pub add_ws-others : (s : CounterStore) (c : ClientId) → SameOthers c s (add_ws_connection s c)
unfolding add_ws_connection get_counts
add_ws-others s c d n = (λ j. refl, get-insert_ne c d _ s.by_client n)

-- An addition for a client is no change for the others.
pub SameOthers-Tracked : Tracked SameOthers
SameOthers-Tracked = record {
  same = others_refl;
  join = others_trans;
  adds = add-others;
  marks = add_ws-others;
}
