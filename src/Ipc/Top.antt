-- ===== src/Ipc/Top.antt =====
-- crates/microwaf/src/ipc.rs: `top`, with `score_client` and the order of the rows.
use Prim.Native.Nat.{compare, Ordering, lt, eq, gt}
use microwaf.Prelude.{
  ℕ, max, Bool, true, false, ◌&&◌, ◌||◌, Option, none, some, List, [], ◌∷◌, ◌++◌, map, take, ltb,
  leb, ◌==◌, nat_eq, list_eq, if◌then◌else◌,
}
use microwaf.Prelude.Text.{Text}
use microwaf.HashMap.{HashMap, get, contains_key, keys}
use microwaf.Time.{Instant}
use microwaf.Client.{ClientId, IpAddr, v4, v6, client_eq}
use microwaf.Rule.{Rule, protocol_as_str, metric_as_str, window_as_str, secs}
use microwaf.Policy.{ClientPolicy, EffectiveAction, merge_policy}
use microwaf.Window.{RuleWindows, rule_sum}
use microwaf.State.{DaemonState, rules}
use microwaf.Ipc.Lists.{action_to_wire, entry_for}
use microwaf.Ipc.Wire.{TopParams, ViolationWire, TopColumn, ClientsResult}

-- `score_client`: the best value, whether it is hot, and the observations
unfoldable pub score_client :
    {P : Type 0} → RuleWindows → List (Rule P) → ℕ × Bool × List ViolationWire
score_client win [] = (0, false, [])
score_client win (r ∷ rs) =
    let value = rule_sum win r.id r.metric (secs r.window) in
    let (best, hot, observations) = score_client win rs in
    (
      max value best,
      (leb r.min_threshold value && ltb 0 value) || hot,
      record { rule_id = r.id; value = value; limit = r.limit; action = action_to_wire r.action }
          ∷ observations,
    )

-- `zero_observations`
abbrev pub zero_observations : {P : Type 0} → List (Rule P) → List ViolationWire
zero_observations [] = []
zero_observations (r ∷ rs) =
    record { rule_id = r.id; value = 0; limit = r.limit; action = action_to_wire r.action }
    ∷ zero_observations rs

abbrev pub given_or_same : Option Text → Text → Bool
given_or_same none t = true
given_or_same (some g) t = g == t

-- the filter of `top`
unfoldable pub select_rules : {P : Type 0} → TopParams → List (Rule P) → List (Rule P)
select_rules p [] = []
select_rules p (r ∷ rs) =
    let rest = select_rules p rs in
    if given_or_same p.rule_id r.id
      && given_or_same p.protocol (protocol_as_str r.protocol)
      && given_or_same p.metric (metric_as_str r.metric)
    then r ∷ rest
    else rest

-- a row of `top` before it is sorted
pub record Scored : Type 0 where
  pub client : ClientId
  pub best : ℕ
  pub hot : Bool
  pub observations : List ViolationWire

-- `Ordering::then_with`
abbrev pub then_with : Ordering → Ordering → Ordering
then_with eq o = o
then_with lt o = lt
then_with gt o = gt

abbrev pub compare_bytes : List ℕ → List ℕ → Ordering
compare_bytes [] [] = eq
compare_bytes [] (y ∷ ys) = lt
compare_bytes (x ∷ xs) [] = gt
compare_bytes (x ∷ xs) (y ∷ ys) = then_with (compare x y) (compare_bytes xs ys)

-- the derived order of `IpAddr`
abbrev pub compare_ip : IpAddr → IpAddr → Ordering
compare_ip (v4 a) (v4 b) = compare_bytes a b
compare_ip (v4 a) (v6 b) = lt
compare_ip (v6 a) (v4 b) = gt
compare_ip (v6 a) (v6 b) = compare_bytes a b

abbrev pub compare_bool : Bool → Bool → Ordering
compare_bool false false = eq
compare_bool false true = lt
compare_bool true false = gt
compare_bool true true = eq

-- the comparison of `scored.sort_by`
unfoldable pub compare_scored : Scored → Scored → Ordering
compare_scored a b = then_with (compare_bool b.hot a.hot) (
    then_with (compare b.best a.best)
      (then_with (compare_bytes a.client.mac b.client.mac) (compare_ip a.client.ip b.client.ip)))

abbrev pub not_after : Ordering → Bool
not_after gt = false
not_after _ = true

-- `sort_by`, which is stable
unfoldable pub insert_sorted : Scored → List Scored → List Scored
insert_sorted x [] = x ∷ []
insert_sorted x (y ∷ ys) =
    let rest = insert_sorted x ys in if not_after (compare_scored x y) then x ∷ y ∷ ys else y ∷ rest

unfoldable pub sort_scored : List Scored → List Scored
sort_scored [] = []
sort_scored (x ∷ xs) = insert_sorted x (sort_scored xs)

-- the rows of the clients with windows
unfoldable pub score_windows :
    {P : Type 0} → List (Rule P) → HashMap ClientId RuleWindows → List Scored
score_windows rs [] = []
score_windows rs ((client, win) ∷ m) =
    let (best, hot, observations) = score_client win rs in
    record { client = client; best = best; hot = hot; observations = observations }
    ∷ score_windows rs m

-- the rows of the clients that `seen` has not
unfoldable pub unseen_rows : (ClientId → Bool) → List ViolationWire → List ClientId → List Scored
unseen_rows seen zero_obs [] = []
unseen_rows seen zero_obs (c ∷ cs) =
    let rest = unseen_rows seen zero_obs cs in
    if seen c
    then rest
    else record { client = c; best = 0; hot = false; observations = zero_obs } ∷ rest

-- `if limit > 0 { truncate(limit) }`
abbrev pub truncate : ℕ → List Scored → List Scored
truncate limit xs = if ltb 0 limit then take limit xs else xs

-- the action of a client that may have no policy
abbrev pub effective_of : Option ClientPolicy → Instant → EffectiveAction
effective_of none now = EffectiveAction.none
effective_of (some p) now = merge_policy p now

module _ {P : Type 0} where
  -- all rows of `top`, in the order in which they are pushed
  unfoldable pub collect_rows : DaemonState P → List (Rule P) → List Scored
  collect_rows s rs =
      score_windows rs s.windows
      ++ unseen_rows (λ c. contains_key c s.windows) (zero_observations rs) (keys s.policies)
      ++ unseen_rows (λ c. contains_key c s.windows || contains_key c s.policies)
          (zero_observations rs) (keys s.counters.by_client)

  -- the rows that `top` shows
  unfoldable pub top_rows : DaemonState P → TopParams → List Scored
  top_rows s p = truncate p.limit (sort_scored (collect_rows s (select_rules p (rules s).rules)))

  abbrev pub column_of : Rule P → TopColumn
  column_of r = record {
    rule_id = r.id;
    window = window_as_str r.window;
    limit = r.limit;
    min_threshold = r.min_threshold;
  }

  module _ (show_v6 : List ℕ → Text) where
    -- `top`
    unfoldable pub top : DaemonState P → TopParams → Instant → ClientsResult
    top s p now = record {
      clients =
          map
            (λ (r : Scored).
              entry_for show_v6 s r.client (effective_of (get r.client s.policies) now)
                r.observations r.hot)
            (top_rows s p);
      columns = map column_of (select_rules p (rules s).rules);
    }
