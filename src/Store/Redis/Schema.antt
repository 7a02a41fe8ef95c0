-- ===== src/Store/Redis/Schema.antt =====
-- What `ensure_schema` leaves in the server.
use microwaf.Prelude.{
  ◌≡◌, ◌≢◌, ◌∙◌, refl, sym, true, none, some, List, [], ◌∷◌, arith, inl, inr, nat_eq, list_eq,
  nat_beq, list_beq_iff, Bool-cases, Option-cases,
}
use microwaf.Prelude.Text.{Text, codes, starts_with}
use microwaf.Prelude.Result.{ok, Result-cases}
use microwaf.Store.Redis.{
  RedisServer, key_schema, schema_version, schema_text, parsed_version, delete_all, ensure_schema,
  stamp, discard,
}
use microwaf.Store.Redis.Laws.{IsLawful}

module _ {D : Type 0} (redis : RedisServer D) (laws : IsLawful redis) where
  -- the schema version of this program is stamped
  abbrev pub IsCurrent : D → Type 0
  IsCurrent d =
      (v : Text) × (laws.holds d key_schema ≡ some v) × (parsed_version v ≡ schema_version)

  stamp_lem :
      (d : D)
      → (stamp redis d).1 ≡ ok tt
      → IsCurrent (stamp redis d).0
        × ((k : Text) → k ≢ key_schema → laws.holds (stamp redis d).0 k ≡ laws.holds d k)
  unfolding stamp
  stamp_lem d ran = (
    (
      schema_text,
      ground (
        arith,
        laws.holds-set d key_schema schema_text key_schema ran,
        list_beq_iff key_schema key_schema,
      ),
      refl,
    ),
    λ k n.
        ground (arith, laws.holds-set d key_schema schema_text k ran, list_beq_iff key_schema k, n),
  )

  delete_all_lem :
      (d : D) (prefix : Text) (ks : List Text) (k : Text)
      → redis.keys d prefix ≡ ok ks
      → starts_with prefix k ≡ true
      → (delete_all redis d ks).1 ≡ ok tt
      → laws.holds (delete_all redis d ks).0 k ≡ none
  delete_all_lem d prefix [] k listed named ran = elim (Option-cases (laws.holds d k)) [
    | inl e ↦ e
    | inr (v, e) ↦ absurd (laws.listed d prefix [] k v listed named e)
  ]
  delete_all_lem d prefix (x ∷ ks) k listed named ran = elim (Option-cases (laws.holds d k)) [
    | inl e ↦ ground (arith, e, laws.del_any d (x ∷ ks) k ran)
    | inr (v, e) ↦
        laws.del_listed d (x ∷ ks) k ran (laws.listed d prefix (x ∷ ks) k v listed named e)
  ]

  abbrev pub own_prefix : Text
  own_prefix = codes "microwaf:"

  discard_lem :
      (d : D)
      → (discard redis d).1 ≡ ok tt
      → IsCurrent (discard redis d).0
        × ((k : Text)
            → starts_with own_prefix k ≡ true
            → k ≢ key_schema
            → laws.holds (discard redis d).0 k ≡ none)
  unfolding discard
  discard_lem d ran = elim (Result-cases (redis.keys d own_prefix)) [
    | inr (e, f) ↦ absurd (ground (arith, f, ran))
    | inl (ks, f) ↦ elim (Result-cases (delete_all redis d ks).1) [
      | inr (e, g) ↦ absurd (ground (arith, f, g, ran))
      | inl (done, g) ↦
          let cut = (delete_all redis d ks).0 in
          let same : discard redis d ≡ stamp redis cut = ground (arith, f, g) in
          let (current, others) = stamp_lem cut (rw (← same) ran) in
          rw same (current, λ k named n. others k n ∙ delete_all_lem d own_prefix ks k f named g)
    ]
  ]

  -- Once `ensure_schema` has succeeded the server is stamped with the schema version of the program.
  -- A server that was so stamped is left as it was; if it had another version, all other keys of the
  -- daemon are gone.
  pub ensure_schema_lem :
      (d : D)
      → (ensure_schema redis d).1 ≡ ok tt
      → IsCurrent (ensure_schema redis d).0
        × (IsCurrent d → (ensure_schema redis d).0 ≡ d)
        × ((v : Text)
            → laws.holds d key_schema ≡ some v
            → parsed_version v ≢ schema_version
            → (k : Text) → starts_with own_prefix k ≡ true
            → k ≢ key_schema
            → laws.holds (ensure_schema redis d).0 k ≡ none)
  unfolding ensure_schema
  ensure_schema_lem d ran = elim (Result-cases (redis.get d key_schema)) [
    | inr (e, f) ↦ absurd (ground (arith, f, ran))
    | inl (none, f) ↦
        let held : none ≡ laws.holds d key_schema = laws.get_reply d key_schema none f in
        let same : ensure_schema redis d ≡ stamp redis d = ground (arith, f) in
        rw same (
          (stamp_lem d (rw (← same) ran)).0,
          λ c. absurd (ground (arith, held, c.1)),
          λ v h. absurd (ground (arith, held, h)),
        )
    | inl (some v, f) ↦
        let held : some v ≡ laws.holds d key_schema = laws.get_reply d key_schema (some v) f in
        elim (Bool-cases (nat_beq (parsed_version v) schema_version)) [
          | inl equal ↦
              let same : ensure_schema redis d ≡ (d, ok tt) = ground (arith, f, equal) in
              rw same (
                (v, sym held, ground (arith, equal)),
                λ c. refl,
                λ v' h n. absurd (ground (arith, held, h, n, equal)),
              )
          | inr other ↦
              let same : ensure_schema redis d ≡ discard redis d = ground (arith, f, other) in
              let (current, gone) = discard_lem d (rw (← same) ran) in
              rw same (current, λ c. absurd (ground (arith, held, c.1, c.2, other)), λ v' h n. gone)
        ]
  ]
