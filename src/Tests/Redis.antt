-- ===== src/Tests/Redis.antt =====
-- Examples: a Redis server as a dictionary.
use microwaf.Prelude.{
  ◌≡◌, ◌≢◌, ◌⊎◌, refl, true, Option, none, some, List, [], ◌∷◌, Among, arith, inl, inr, nat_eq,
  list_eq, list_beq_iff, Bool-cases, ◌==◌, if◌then◌else◌, All,
}
use microwaf.Prelude.Text.{Text, codes, starts_with}
use microwaf.Prelude.Result.{Result, ok}
use microwaf.HashMap.{HashMap, get, insert, remove, get-insert, get-remove}
use microwaf.Client.{
  hex_digit, ClientId, storage_key, client_from_str, parse_mac, parse_v4, parse_ip, ref_ip,
  parse_all, from_str_radix, radix_loop, hex_value, decimal_value, parse_octet, decimal_loop,
}
use microwaf.Client.Refs.{IsByte}
use microwaf.Policy.{StoredManualPolicy}
use microwaf.Store.Redis.{
  RedisServer, key_schema, schema_version, parsed_version, ensure_schema, stamp, discard,
  prefix_policy, redis_load_all, redis_put, load_keys, load_entry, get_text, parse_client_from_key,
  policy_key, set_policy,
}
use microwaf.Store.Redis.Laws.{IsLawful, load_all-put}
use microwaf.Store.Redis.Schema.{IsCurrent, ensure_schema_lem}
use microwaf.Tests.Data.{alice, no_v6}

abbrev Table : Type 0
Table = HashMap Text Text

unfoldable remove_all : List Text → Table → Table
remove_all [] d = d
remove_all (k ∷ ks) d = remove k (remove_all ks d)

unfoldable keys_under : Text → Table → List Text
keys_under prefix [] = []
keys_under prefix ((k, v) ∷ d) =
    let rest = keys_under prefix d in if starts_with prefix k then k ∷ rest else rest

abbrev table : RedisServer Table
table = record {
  get = λ d k. ok (get k d);
  set = λ d k v. (insert k v d, ok tt);
  set_ex = λ d k v secs. (insert k v d, ok tt);
  del = λ d ks. (remove_all ks d, ok tt);
  keys = λ d prefix. ok (keys_under prefix d);
}

get-remove_all :
    (ks : List Text) (d : Table) (j : Text)
    → (get j (remove_all ks d) ≡ none) ⊎ (get j (remove_all ks d) ≡ get j d)
unfolding remove_all
get-remove_all [] d j = inr refl
get-remove_all (k ∷ ks) d j =
    ground (arith, get-remove k j (remove_all ks d), get-remove_all ks d j)

remove_all_listed :
    (ks : List Text) (d : Table) (j : Text) → Among j ks → get j (remove_all ks d) ≡ none
unfolding remove_all
remove_all_listed [] d j h = absurd h
remove_all_listed (k ∷ ks) d j (inl same) =
    ground (arith, get-remove k j (remove_all ks d), list_beq_iff k j, same)
remove_all_listed (k ∷ ks) d j (inr later) =
    ground (arith, get-remove k j (remove_all ks d), remove_all_listed ks d j later)

Among-keys_under :
    (prefix k v : Text) (d : Table)
    → starts_with prefix k ≡ true
    → get k d ≡ some v
    → Among k (keys_under prefix d)
unfolding keys_under get
Among-keys_under prefix k v [] named h = absurd (ground (arith, h))
Among-keys_under prefix k v ((j, w) ∷ d) named h = elim (Bool-cases (j == k)) [
  | inl same ↦ let e : j ≡ k = (list_beq_iff j k).0 same in rw (e, named) (inl refl)
  | inr other ↦ elim (Bool-cases (starts_with prefix j)) [
    | inl under ↦ rw under (inr (Among-keys_under prefix k v d named (ground (arith, h, other))))
    | inr out ↦ rw out (Among-keys_under prefix k v d named (ground (arith, h, other)))
  ]
]

get_ok :
    (d : Table) (k : Text) (v : Option Text)
    → ◌≡◌ {A = Result Text (Option Text)} (ok (get k d)) (ok v)
    → v ≡ get k d
get_ok d k v h = ground (arith, h)

keys_ok :
    (d : Table) (prefix : Text) (ks : List Text) (k v : Text)
    → ◌≡◌ {A = Result Text (List Text)} (ok (keys_under prefix d)) (ok ks)
    → starts_with prefix k ≡ true
    → get k d ≡ some v
    → Among k ks
keys_ok d prefix ks k v h named held =
    let same : keys_under prefix d ≡ ks = ground (arith, h) in
    rw (← same) (Among-keys_under prefix k v d named held)

abbrev table_lawful : IsLawful table
table_lawful = record {
  holds = λ d k. get k d;
  get_reply = get_ok;
  holds-set = λ d k v j ran. get-insert k j v d;
  holds-set_ex = λ d k v secs j ran. get-insert k j v d;
  del_listed = λ d ks j ran listed. remove_all_listed ks d j listed;
  del_any = λ d ks j ran. get-remove_all ks d j;
  listed = keys_ok;
}

-- a policy and a JSON library that knows its text
abbrev stored : StoredManualPolicy
stored = record { throttle = none; blocked = true; until_unix_secs = none }

abbrev encode : StoredManualPolicy → Result Text Text
encode p = ok (codes "{}")

abbrev decode : Text → Result Text StoredManualPolicy
decode t = ok stored

-- the schema of an earlier version, and a policy
abbrev old_table : Table
old_table = (key_schema, codes "0") ∷ (codes "microwaf:policy:manual:x", codes "{}") ∷ []

ensure_schema_runs : (ensure_schema table old_table).1 ≡ ok tt
unfolding ensure_schema stamp discard get keys_under remove_all
ensure_schema_runs = refl

ensure_schema_example :
    IsCurrent table table_lawful (ensure_schema table old_table).0
    × (IsCurrent table table_lawful old_table → (ensure_schema table old_table).0 ≡ old_table)
    × ((v : Text)
        → get key_schema old_table ≡ some v
        → parsed_version v ≢ schema_version
        → (k : Text) → starts_with (codes "microwaf:") k ≡ true
        → k ≢ key_schema
        → get k (ensure_schema table old_table).0 ≡ none)
ensure_schema_example = ensure_schema_lem table table_lawful old_table ensure_schema_runs

alice_bytes : All IsByte alice.mac
alice_bytes = ground arith

after_put : Table
after_put = (redis_put table no_v6 (λ s. none) encode decode 7 [] alice stored).0

load_all_runs :
    redis_load_all table no_v6 (λ s. none) encode decode after_put prefix_policy
    ≡ ok ((alice, stored) ∷ [])
unfolding after_put redis_put redis_load_all load_keys load_entry get_text parse_client_from_key
    policy_key set_policy get insert keys_under storage_key client_from_str parse_mac parse_all
    from_str_radix radix_loop hex_value ref_ip parse_ip parse_v4 parse_octet decimal_loop
    decimal_value hex_digit
load_all_runs = refl

load_all-put_example :
    Among {A = ClientId × StoredManualPolicy} (alice, stored) ((alice, stored) ∷ [])
unfolding after_put redis_put policy_key set_policy
load_all-put_example =
    load_all-put table table_lawful no_v6 (λ s. none) encode decode [] alice (10 ∷ 0 ∷ 0 ∷ 1 ∷ [])
      stored (codes "{}") 7 ((alice, stored) ∷ []) refl refl alice_bytes refl (ground arith) refl
      refl refl load_all_runs
