-- ===== src/Store/Redis/Laws.antt =====
-- What the documentation of Redis says of its commands, and that a policy that is put is loaded.
use microwaf.Prelude.{
  ℕ, ◌≡◌, ◌==◌, refl, true, Option, none, some, List, [], ◌∷◌, length, All, Among, arith, inl, inr,
  ◌-◌, list_beq_iff, if◌then◌else◌, nat_eq, list_eq, max, ◌⊎◌,
}
use microwaf.Prelude.Text.{Text, starts_with}
use microwaf.Prelude.Result.{Result, ok, Result-cases}
use microwaf.Time.{as_secs}
use microwaf.Client.{ClientId, v4, storage_key, client_from_str}
use microwaf.Client.Refs.{IsByte, client_from_str-storage_key}
use microwaf.Policy.{StoredManualPolicy}
use microwaf.Store.Redis.{
  RedisServer, prefix_policy, policy_key, get_text, parse_client_from_key, load_entry, load_keys,
  redis_load_all, redis_put, redis_store, set_policy,
}

-- A reply tells what the server holds, and a write that succeeds changes the keys that it names. KEYS
-- lists exactly the keys with the prefix that hold something. A value that SETEX writes is held
-- until its time has passed, which `holds` is asked before.
pub record IsLawful {D : Type 0} (redis : RedisServer D) : Type 0 where
  pub holds : D → Text → Option Text
  pub get_reply : (d : D) (k : Text) (v : Option Text) → redis.get d k ≡ ok v → v ≡ holds d k
  pub holds-set :
      (d : D) (k v j : Text)
      → (redis.set d k v).1 ≡ ok tt
      → holds (redis.set d k v).0 j ≡ (if k == j then some v else holds d j)
  pub holds-set_ex :
      (d : D) (k v : Text) (secs : ℕ) (j : Text)
      → (redis.set_ex d k v secs).1 ≡ ok tt
      → holds (redis.set_ex d k v secs).0 j ≡ (if k == j then some v else holds d j)
  pub del_listed :
      (d : D) (ks : List Text) (j : Text)
      → (redis.del d ks).1 ≡ ok tt
      → Among j ks
      → holds (redis.del d ks).0 j ≡ none
  pub del_any :
      (d : D) (ks : List Text) (j : Text)
      → (redis.del d ks).1 ≡ ok tt
      → (holds (redis.del d ks).0 j ≡ none) ⊎ (holds (redis.del d ks).0 j ≡ holds d j)
  pub listed :
      (d : D) (prefix : Text) (ks : List Text) (k v : Text)
      → redis.keys d prefix ≡ ok ks
      → starts_with prefix k ≡ true
      → holds d k ≡ some v
      → Among k ks

module _ {D : Type 0} (redis : RedisServer D) (laws : IsLawful redis) (show_v6 : List ℕ → Text)
    (parse_v6 : Text → Option (List ℕ)) (encode : StoredManualPolicy → Result Text Text)
    (decode : Text → Result Text StoredManualPolicy) where
  get_text-holds : (d : D) (k raw : Text) → get_text redis d k ≡ ok raw → laws.holds d k ≡ some raw
  unfolding get_text
  get_text-holds d k raw h = elim (Result-cases (redis.get d k)) [
    | inr (e, f) ↦ absurd (ground (arith, f, h))
    | inl (none, f) ↦ absurd (ground (arith, f, h))
    | inl (some v, f) ↦ ground (arith, f, h, laws.get_reply d k (some v) f)
  ]

  -- Each key that the loop reads is loaded with its client and its value.
  load_entry_reads :
      (d : D) (key raw : Text) (p : StoredManualPolicy) (c : ClientId)
      (x : ClientId × StoredManualPolicy)
      → laws.holds d key ≡ some raw
      → decode raw ≡ ok p
      → parse_client_from_key redis show_v6 parse_v6 key prefix_policy ≡ ok c
      → load_entry redis show_v6 parse_v6 encode decode d prefix_policy key ≡ ok x
      → x ≡ (c, p)
  unfolding load_entry
  load_entry_reads d key raw p c x held read named ran =
      elim (Result-cases (get_text redis d key)) [
        | inr (e, f) ↦ absurd (ground (arith, f, ran))
        | inl (got, f) ↦ ground (arith, f, ran, read, named, held, get_text-holds d key got f)
      ]

  load_keys_reads :
      (d : D) (key raw : Text) (p : StoredManualPolicy) (c : ClientId) (ks : List Text)
      (out : List (ClientId × StoredManualPolicy))
      → laws.holds d key ≡ some raw
      → decode raw ≡ ok p
      → parse_client_from_key redis show_v6 parse_v6 key prefix_policy ≡ ok c
      → Among key ks
      → load_keys redis show_v6 parse_v6 encode decode d prefix_policy ks ≡ ok out
      → Among (c, p) out
  unfolding load_keys
  load_keys_reads d key raw p c [] out held read named listed ran = absurd listed
  load_keys_reads d key raw p c (k ∷ ks) out held read named listed ran =
      elim (Result-cases (load_entry redis show_v6 parse_v6 encode decode d prefix_policy k)) [
        | inr (e, f) ↦ absurd (ground (arith, f, ran))
        | inl (x, f) ↦
            elim (Result-cases
              (load_keys redis show_v6 parse_v6 encode decode d prefix_policy ks)) [
                | inr (e, g) ↦ absurd (ground (arith, f, g, ran))
                | inl (rest, g) ↦
                    let made : x ∷ rest ≡ out = ground (arith, f, g, ran) in
                    rw (← made) (elim listed [
                      | inl same ↦
                          inl (load_entry_reads d k raw p c x (rw same held) read (rw same named) f)
                      | inr later ↦
                          inr (load_keys_reads d key raw p c ks rest held read named later g)
                    ])
              ]
      ]

  set_policy-holds :
      (d : D) (k raw : Text) (o : Option ℕ) (now_sys : ℕ)
      → (set_policy redis show_v6 parse_v6 encode decode now_sys d k raw o).1 ≡ ok tt
      → laws.holds (set_policy redis show_v6 parse_v6 encode decode now_sys d k raw o).0 k
        ≡ some raw
  unfolding set_policy
  set_policy-holds d k raw none now_sys ran =
      ground (arith, laws.holds-set d k raw k ran, list_beq_iff k k)
  set_policy-holds d k raw (some secs) now_sys ran =
      ground
        (arith, laws.holds-set_ex d k raw (max (secs - as_secs now_sys) 1) k ran, list_beq_iff k k)

  redis_put-holds :
      (d : D) (c : ClientId) (p : StoredManualPolicy) (raw : Text) (now_sys : ℕ)
      → encode p ≡ ok raw
      → (redis_put redis show_v6 parse_v6 encode decode now_sys d c p).1 ≡ ok tt
      → laws.holds
          (redis_put redis show_v6 parse_v6 encode decode now_sys d c p).0
          (policy_key redis show_v6 parse_v6 c)
        ≡ some raw
  unfolding redis_put
  redis_put-holds d c p raw now_sys e ran = ground (
    arith,
    e,
    ran,
    set_policy-holds d (policy_key redis show_v6 parse_v6 c) raw p.until_unix_secs now_sys,
  )

  key_parsed :
      (c : ClientId)
      → client_from_str parse_v6 (storage_key show_v6 c) ≡ ok c
      → parse_client_from_key redis show_v6 parse_v6
          (policy_key redis show_v6 parse_v6 c)
          prefix_policy
        ≡ ok c
  unfolding parse_client_from_key policy_key
  key_parsed c h = h

  key_prefixed :
      (c : ClientId) → starts_with prefix_policy (policy_key redis show_v6 parse_v6 c) ≡ true
  unfolding policy_key
  key_prefixed c = refl

  loaded_of :
      (d : D) (c : ClientId) (p : StoredManualPolicy) (raw : Text)
      (out : List (ClientId × StoredManualPolicy))
      → client_from_str parse_v6 (storage_key show_v6 c) ≡ ok c
      → decode raw ≡ ok p
      → laws.holds d (policy_key redis show_v6 parse_v6 c) ≡ some raw
      → redis_load_all redis show_v6 parse_v6 encode decode d prefix_policy ≡ ok out
      → Among (c, p) out
  unfolding redis_load_all
  loaded_of d c p raw out named read held ran = elim (Result-cases (redis.keys d prefix_policy)) [
    | inr (e, f) ↦ absurd (ground (arith, f, ran))
    | inl (ks, f) ↦
        load_keys_reads d (policy_key redis show_v6 parse_v6 c) raw p c ks out held read
          (key_parsed c named)
          (laws.listed d prefix_policy ks (policy_key redis show_v6 parse_v6 c) raw f
            (key_prefixed c) held)
          (ground (arith, f, ran))
  ]

  -- On a server that does what the documentation of Redis says, with a JSON library that reads back
  -- what it wrote, a policy that `put` has stored for a client with an IPv4 address is among the
  -- policies that `load_all` returns next, if both succeed.
  pub load_all-put :
      (d : D) (c : ClientId) (octets : List ℕ) (p : StoredManualPolicy) (raw : Text) (now_sys : ℕ)
      (out : List (ClientId × StoredManualPolicy))
      → c.ip ≡ v4 octets
      → length c.mac ≡ 6
      → All IsByte c.mac
      → length octets ≡ 4
      → All IsByte octets
      → encode p ≡ ok raw
      → decode raw ≡ ok p
      → ((redis_store redis show_v6 parse_v6 encode decode now_sys).put d c p).1 ≡ ok tt
      → (redis_store redis show_v6 parse_v6 encode decode now_sys).load_all
          ((redis_store redis show_v6 parse_v6 encode decode now_sys).put d c p).0
        ≡ ok out
      → Among (c, p) out
  load_all-put d c octets p raw now_sys out ip hm bm ho bo wrote read put_ran load_ran =
      loaded_of (redis_put redis show_v6 parse_v6 encode decode now_sys d c p).0 c p raw out
        (client_from_str-storage_key show_v6 parse_v6 c octets ip hm bm ho bo) read
        (redis_put-holds d c p raw now_sys wrote put_ran) load_ran
