-- ===== src/Tests/Commands.antt =====
-- Examples: client references, and the commands of the control socket.
use microwaf.Prelude.{◌≡◌, ◌≢◌, refl, true, none, some, [], ◌∷◌, arith, All, ◌↔◌, false}
use microwaf.Prelude.Text.{Text, codes}
use microwaf.Prelude.Result.{Result, ok}
use microwaf.HashMap.{HashMap, get, insert, remove, get-insert, get-remove, find_or}
use microwaf.Time.{Instant}
use microwaf.Client.{
  ClientId, client_eq, storage_key, client_from_str, parse_mac, parse_v4, parse_ip, ref_ip,
  parse_all, from_str_radix, radix_loop, hex_value, decimal_value, parse_octet, decimal_loop,
}
use microwaf.Client.Refs.{IsByte, client_from_str-storage_key}
use microwaf.Counters.{no_counters}
use microwaf.Policy.{
  ManualPolicy, ClientPolicy, StoredManualPolicy, from_runtime, merge_policy, is_blocked, no_policy,
}
use microwaf.State.{DaemonState}
use microwaf.Store.{ManualPolicyStore, persist_manual}
use microwaf.Ipc.{BlockParams, block, parse_ref, until_of, manual_of, set_manual, set_and_persist}
use microwaf.Ipc.Block.{HasDeadline, Lasts, IsOver, block_lem}
use microwaf.Ipc.Synced.{LawfulStore, Synced, finish, more, blocks, Steps-Synced}
use microwaf.Tests.Data.{alice, daemon, no_v6}

alice_bytes : All IsByte alice.mac
alice_bytes = ground arith

client_from_str-storage_key_example :
    client_from_str (λ s. none) (storage_key no_v6 alice) ≡ ok alice
client_from_str-storage_key_example =
    client_from_str-storage_key no_v6 (λ s. none) alice (10 ∷ 0 ∷ 0 ∷ 1 ∷ []) refl refl alice_bytes
      refl (ground arith)

-- a store by client, whose operations succeed
abbrev pub dictionary : ManualPolicyStore (HashMap ClientId StoredManualPolicy)
dictionary = record {
  load_all = λ m. ok m;
  put = λ m c p. (insert c p m, ok tt);
  remove = λ m c. (remove c m, ok tt);
}

abbrev dictionary_lawful : LawfulStore dictionary
dictionary_lawful = record {
  find = λ m c. get c m;
  find-put = λ m c d p ran. get-insert c d p m;
  find-remove = λ m c d ran. get-remove c d m;
}

-- without a deadline
abbrev block_alice : BlockParams
block_alice = record {
  client = record { mac = codes "02:00:00:00:00:01"; ip = some (codes "10.0.0.1") };
  duration_secs = none;
}

alice_named : parse_ref (λ s. none) block_alice.client ≡ ok alice
unfolding parse_ref client_from_str parse_mac parse_all from_str_radix radix_loop hex_value ref_ip
    parse_ip parse_v4 parse_octet decimal_loop decimal_value
alice_named = refl

abbrev block_alice_minute : BlockParams
block_alice_minute = record block_alice { duration_secs = some 60 }

block_lem_example :
    (HasDeadline (some 60) 5
      → (t : DaemonState (Unit {0})) × (u : HashMap ClientId StoredManualPolicy) × (r : Result Text
          (Unit {0}))
        × (block dictionary (λ s. none) (daemon no_counters) [] block_alice_minute 5 7
            ≡ some (t, u, r))
        × ((q : ClientPolicy) × (get alice t.policies ≡ some q)
            × (q.auto ≡ (find_or no_policy alice (daemon no_counters).policies).auto)
            × ((later : Instant)
                → Lasts (some 60) 5 later
                → is_blocked (merge_policy q later) ≡ true)
            × ((later : Instant)
                → q.auto ≡ none
                → IsOver (some 60) 5 later
                → is_blocked (merge_policy q later) ≡ false))
        × ((d : ClientId) → alice ≢ d → get d t.policies ≡ get d (daemon no_counters).policies))
    × (¬ HasDeadline (some 60) 5
        → block dictionary (λ s. none) (daemon no_counters) [] block_alice_minute 5 7 ≡ none)
block_lem_example =
    block_lem dictionary (λ s. none) (daemon no_counters) [] block_alice_minute 5 7 alice
      alice_named

abbrev blocked_forever : ManualPolicy
blocked_forever = record { throttle = none; blocked = true; until = none }

abbrev after_block : DaemonState (Unit {0})
after_block = set_manual (daemon no_counters) alice (some blocked_forever)

abbrev stored_block : HashMap ClientId StoredManualPolicy
stored_block = insert alice (from_runtime blocked_forever 5 7) []

block_runs :
    block dictionary (λ s. none) (daemon no_counters) [] block_alice 5 7
    ≡ some (after_block, stored_block, ok tt)
unfolding block parse_ref client_from_str parse_mac parse_all from_str_radix radix_loop hex_value
    ref_ip parse_ip parse_v4 parse_octet decimal_loop decimal_value until_of set_and_persist
    manual_of insert persist_manual get
block_runs = refl

start-Synced : Synced dictionary dictionary_lawful (λ s. none) (daemon no_counters) []
unfolding manual_of get
start-Synced c = (λ h. refl, λ h. refl)

Steps-Synced_example : (manual_of after_block alice ≡ none) ↔ (get alice stored_block ≡ none)
Steps-Synced_example =
    Steps-Synced dictionary dictionary_lawful (λ s. none) (daemon no_counters) after_block []
      stored_block (more (blocks block_alice 5 7 block_runs) finish) start-Synced alice
