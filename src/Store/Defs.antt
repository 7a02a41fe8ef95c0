-- ===== src/Store/Defs.antt =====
-- crates/mw-core/src/store.rs: the interface of a store of manual policies; crates/mw-store/src/memory.rs:
-- the store in memory; crates/microwaf/src/store.rs: `persist_manual` and `hydrate`. An operation
-- returns the store after it, and its result.
use microwaf.Prelude.{ℕ, Option, none, some, List, [], ◌∷◌, nat_eq, list_eq}
use microwaf.Prelude.Text.{Text}
use microwaf.Prelude.Result.{Result, ok, err, ◌>>=◌}
use microwaf.HashMap.{HashMap, insert, remove as remove_key}
use microwaf.Time.{Instant}
use microwaf.Client.{ClientId, client_eq, storage_key, client_from_str}
use microwaf.Policy.{StoredManualPolicy, ClientPolicy, to_runtime}
use microwaf.State.{DaemonState}

-- `ManualPolicyStore`
pub record ManualPolicyStore (S : Type 0) : Type 0 where
  pub load_all : S → Result Text (List (ClientId × StoredManualPolicy))
  pub put : S → ClientId → StoredManualPolicy → S × Result Text (Unit {0})
  pub remove : S → ClientId → S × Result Text (Unit {0})

-- `persist_manual`
unfoldable pub persist_manual :
    {S : Type 0}
    → ManualPolicyStore S
    → S
    → ClientId
    → Option StoredManualPolicy
    → S × Result Text (Unit {0})
persist_manual store s client (some p) = store.put s client p
persist_manual store s client none = store.remove s client

-- the policies of `MemoryStore`, by storage key
abbrev pub MemoryStore : Type 0
MemoryStore = HashMap Text StoredManualPolicy

module _ (show_v6 : List ℕ → Text) (parse_v6 : Text → Option (List ℕ)) where
  -- the loop of `load_all`: a key that is no client is an error
  unfoldable pub load_entries : MemoryStore → Result Text (List (ClientId × StoredManualPolicy))
  load_entries [] = ok []
  load_entries ((k, v) ∷ m) = do
    client ← client_from_str parse_v6 k
    rest ← load_entries m
    ok ((client, v) ∷ rest)

  -- `ManualPolicyStore for MemoryStore`
  abbrev pub memory_store : ManualPolicyStore MemoryStore
  memory_store = record {
    load_all = load_entries;
    put = λ s client p. (insert (storage_key show_v6 client) p s, ok tt);
    remove = λ s client. (remove_key (storage_key show_v6 client) s, ok tt);
  }

-- the loop of `hydrate`; `none` is the panic of `to_runtime`, whose clocks are arguments
unfoldable pub hydrate_all :
    List (ClientId × StoredManualPolicy)
    → Instant
    → ℕ
    → HashMap ClientId ClientPolicy
    → Option (HashMap ClientId ClientPolicy)
hydrate_all [] now now_sys m = some m
hydrate_all ((client, stored) ∷ rest) now now_sys m = elim (to_runtime stored now now_sys) [
  | none ↦ none
  | some p ↦
      hydrate_all rest now now_sys (insert client (record { manual = some p; auto = none }) m)
]

-- `hydrate`
unfoldable pub hydrate :
    {P S : Type 0}
    → ManualPolicyStore S
    → DaemonState P
    → S
    → Instant
    → ℕ
    → Option (Result Text (DaemonState P))
hydrate store s st now now_sys = elim (store.load_all st) [
  | err e ↦ some (err e)
  | ok policies ↦ elim (hydrate_all policies now now_sys s.policies) [
    | none ↦ none
    | some m ↦ some (ok (record s { policies = m }))
  ]
]
