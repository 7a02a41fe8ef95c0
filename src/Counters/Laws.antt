-- ===== src/Counters/Laws.antt =====
-- What an addition to the counters changes, and what it leaves alone.
use microwaf.Prelude.{ℕ, ◌+◌, ◌≡◌, ◌≢◌, ◌⊎◌, min, u64_max, ◌==◌, if◌then◌else◌, arith, inl, inr}
use microwaf.HashMap.{find_or, get-insert, get-insert_self, get-insert_ne}
use microwaf.Client.{ClientId, client_eq}
use microwaf.Rule.{RuleId}
use microwaf.Counters.Defs.{
  CumulativeCounters, key_eq, key_beq_iff, CounterStore, add_counts, add_cumulative, key_of, add,
  get_counts, no_counts,
}

-- An addition by key.
pub get_counts-add_at :
    (s : CounterStore) (c d : ClientId) (i j : RuleId) (req bytes conn : ℕ)
    → get_counts (add s c i req bytes conn) d j ≡ (
        if key_of c i == key_of d j
        then add_counts (get_counts s c i) req bytes conn
        else get_counts s d j)
unfolding get_counts add
get_counts-add_at s c d i j req bytes conn = ground (
  arith,
  get-insert (key_of c i) (key_of d j)
      (add_counts (find_or (0, 0, 0) (key_of c i) s.by_rule) req bytes conn) s.by_rule,
)

-- the cumulative counters of a client
abbrev pub total_for : CounterStore → ClientId → CumulativeCounters
total_for s c = find_or no_counts c s.by_client

-- `n` more, up to the largest `u64`
abbrev pub more : ℕ → ℕ → ℕ
more a n = min (a + n) u64_max

own_counts :
    (s : CounterStore) (c : ClientId) (i : RuleId) (req bytes conn : ℕ)
    → get_counts (add s c i req bytes conn) c i ≡ add_counts (get_counts s c i) req bytes conn
unfolding get_counts add
own_counts s c i req bytes conn = ground (
  arith,
  get-insert_self (key_of c i)
      (add_counts (find_or (0, 0, 0) (key_of c i) s.by_rule) req bytes conn) s.by_rule,
)

own_total :
    (s : CounterStore) (c : ClientId) (i : RuleId) (req bytes conn : ℕ)
    → total_for (add s c i req bytes conn) c ≡ add_cumulative (total_for s c) req bytes conn
unfolding add
own_total s c i req bytes conn = ground (
  arith,
  get-insert_self c (add_cumulative (find_or no_counts c s.by_client) req bytes conn) s.by_client,
)

other_total :
    (s : CounterStore) (c d : ClientId) (i : RuleId) (req bytes conn : ℕ)
    → c ≢ d
    → total_for (add s c i req bytes conn) d ≡ total_for s d
unfolding add
other_total s c d i req bytes conn ne = ground (
  arith,
  get-insert_ne c d (add_cumulative (find_or no_counts c s.by_client) req bytes conn) s.by_client
      ne,
)

other_counts :
    (s : CounterStore) (c d : ClientId) (i j : RuleId) (req bytes conn : ℕ)
    → (c ≢ d) ⊎ (i ≢ j)
    → get_counts (add s c i req bytes conn) d j ≡ get_counts s d j
other_counts s c d i j req bytes conn (inl ne) =
    ground
      (arith, get_counts-add_at s c d i j req bytes conn, key_beq_iff (key_of c i) (key_of d j))
other_counts s c d i j req bytes conn (inr ne) =
    ground
      (arith, get_counts-add_at s c d i j req bytes conn, key_beq_iff (key_of c i) (key_of d j))

-- An addition makes the requests, the bytes and the connections of its client and rule grow by the
-- three amounts, each cut at the largest `u64`, and likewise the cumulative counters of the client,
-- whose WebSocket connections stay. The counters of every other client or rule, and the cumulative
-- counters of every other client, stay as they are.
pub get_counts-add :
    (s : CounterStore) (c : ClientId) (i : RuleId) (req bytes conn : ℕ)
    → (get_counts (add s c i req bytes conn) c i ≡ (
      more (get_counts s c i).0 req,
      more (get_counts s c i).1 bytes,
      more (get_counts s c i).2 conn,
    ))
      × ((d : ClientId) (j : RuleId)
          → (c ≢ d) ⊎ (i ≢ j)
          → get_counts (add s c i req bytes conn) d j ≡ get_counts s d j)
      × (total_for (add s c i req bytes conn) c ≡ record {
        requests = more (total_for s c).requests req;
        bytes = more (total_for s c).bytes bytes;
        connections = more (total_for s c).connections conn;
        ws_connections = (total_for s c).ws_connections;
      })
      × ((d : ClientId) → c ≢ d → total_for (add s c i req bytes conn) d ≡ total_for s d)
get_counts-add s c i req bytes conn = (
  own_counts s c i req bytes conn,
  λ d j ne. other_counts s c d i j req bytes conn ne,
  own_total s c i req bytes conn,
  λ d ne. other_total s c d i req bytes conn ne,
)
