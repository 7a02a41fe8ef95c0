-- ===== src/Flow/Bounds.antt =====
-- The flow table stays within its size, and a flow is new exactly if it has not been seen lately.
use microwaf.Prelude.{
  ℕ, ◌+◌, ◌≡◌, ◌≢◌, ◌↔◌, ◌≤◌, ◌<◌, refl, Bool, true, false, none, some, [], ◌∷◌, length, ltb, Eq,
  if◌then◌else◌, arith, Option-cases, inl, inr,
}
use microwaf.HashMap.{
  HashMap, get, insert, remove, retain, Distinct, get-insert_self, get-remove, insert-Distinct,
  get-retain_none,
}
use microwaf.Time.{Instant, duration_since}
use microwaf.Flow.Defs.{
  FlowKey, flow_eq, FlowTable, oldest, make_room, live_flows, observe, new_flows, flow_beq_iff,
}

module _ {ℓ κ} {K : Type ℓ} {V : Type κ} ⦃e : Eq K⦄ where
  length-retain : (p : V → Bool) (m : HashMap K V) → length (retain p m) ≤ length m
  unfolding retain
  length-retain p [] = omega arith
  length-retain p ((k, v) ∷ m) = ground (arith, length-retain p m)

  length-remove : (k : K) (m : HashMap K V) → length (remove k m) ≤ length m
  unfolding remove
  length-remove k [] = omega arith
  length-remove k ((j, v) ∷ m) = ground (arith, length-remove k m)

  length-remove-some :
      (k : K) (v : V) (m : HashMap K V) → get k m ≡ some v → length (remove k m) < length m
  unfolding get remove
  length-remove-some k v [] h = ground arith
  length-remove-some k v ((j, w) ∷ m) h =
      ground (arith, length-remove k m, length-remove-some k v m)

  length-insert : (k : K) (v : V) (m : HashMap K V) → length (insert k v m) ≤ length m + 1
  unfolding insert
  length-insert k v [] = omega arith
  length-insert k v ((j, w) ∷ m) = ground (arith, length-insert k v m)

  length-insert-some :
      (k : K) (v w : V) (m : HashMap K V) → get k m ≡ some w → length (insert k v m) ≡ length m
  unfolding get insert
  length-insert-some k v w [] h = ground arith
  length-insert-some k v w ((j, u) ∷ m) h = ground (arith, length-insert-some k v w m)

  get-retain :
      (k : K) (p : V → Bool) (m : HashMap K V)
      → Distinct m
      → get k (retain p m)
        ≡ elim (get k m) [ none ↦ none | some v ↦ (if p v then some v else none) ]
  unfolding get retain
  get-retain k p [] d = refl
  get-retain k p ((j, v) ∷ m) d =
      ground (arith, get-retain k p m d.1, get-retain_none k p m, e.beq_iff j k, d.0)

  retain-Distinct : (p : V → Bool) (m : HashMap K V) → Distinct m → Distinct (retain p m)
  unfolding retain
  retain-Distinct p [] d = tt
  retain-Distinct p ((j, v) ∷ m) d =
      ground (arith, retain-Distinct p m d.1, get-retain_none j p m d.0)

  remove-Distinct : (k : K) (m : HashMap K V) → Distinct m → Distinct (remove k m)
  unfolding remove
  remove-Distinct k [] d = tt
  remove-Distinct k ((j, v) ∷ m) d = ground (arith, remove-Distinct k m d.1, get-remove k j m, d.0)

-- The oldest entry is an entry of the map.
oldest-get :
    (m : HashMap FlowKey Instant) (f : FlowKey × Instant) → oldest m ≡ some f → get f.0 m ≢ none
unfolding oldest get
oldest-get [] f h = ground arith
oldest-get ((k, t) ∷ m) f h = elim (Option-cases (oldest m)) [
  | inl n ↦ ground (arith, n, flow_beq_iff k f.0)
  | inr (g, n) ↦ ground (arith, n, flow_beq_iff k f.0, oldest-get m g n)
]

oldest_none : (m : HashMap FlowKey Instant) → 0 < length m → oldest m ≢ none
unfolding oldest
oldest_none [] h = ground arith
oldest_none (e ∷ m) h = elim (Option-cases (oldest m)) [
  | inl n ↦ ground (arith, n)
  | inr (f, n) ↦ ground (arith, n)
]

length-remove_ne :
    (k : FlowKey) (m : HashMap FlowKey Instant) → get k m ≢ none → length (remove k m) < length m
length-remove_ne k m h = elim (Option-cases (get k m)) [
  | inl n ↦ ground (arith, n, h)
  | inr (v, n) ↦ length-remove-some k v m n
]

length-make_room :
    (limit : ℕ) (m : HashMap FlowKey Instant)
    → 0 < limit
    → length m ≤ limit
    → length (make_room limit m) < limit
unfolding make_room
length-make_room limit m l h = elim (Option-cases (oldest m)) [
  | inl n ↦ ground (arith, n, oldest_none m)
  | inr (f, n) ↦ ground (arith, n, length-remove_ne f.0 m (oldest-get m f n))
]

-- What a flow table keeps: at most `max` flows, each once, and room for one.
pub record IsValid (t : FlowTable) : Type 0 where
  pub room : 0 < t.max
  pub bounded : length t.flows ≤ t.max
  pub distinct : Distinct t.flows

pub new_flows-IsValid : IsValid new_flows
unfolding new_flows
new_flows-IsValid = record { room = ground arith; bounded = ground arith; distinct = tt }

make_room-Distinct :
    (limit : ℕ) (m : HashMap FlowKey Instant) → Distinct m → Distinct (make_room limit m)
unfolding make_room
make_room-Distinct limit m d = elim (Option-cases (oldest m)) [
  | inl n ↦ ground (arith, n, d)
  | inr (f, n) ↦ ground (arith, n, d, remove-Distinct f.0 m d)
]

-- The entries that are left after the idle ones are dropped.
live_flows-bounded : (t : FlowTable) (now : Instant) → IsValid t → length (live_flows t now) ≤ t.max
live_flows-bounded t now v =
    ground (arith, length-retain (λ at. ltb (duration_since now at) t.idle) t.flows, v.bounded)

live_flows-Distinct : (t : FlowTable) (now : Instant) → IsValid t → Distinct (live_flows t now)
live_flows-Distinct t now v =
    retain-Distinct (λ at. ltb (duration_since now at) t.idle) t.flows v.distinct

-- Both branches of `observe`.
observe_known :
    (t : FlowTable) (k : FlowKey) (now at : Instant)
    → get k (live_flows t now) ≡ some at
    → observe t k now ≡ (record t { flows = insert k now (live_flows t now) }, false)
unfolding observe
observe_known t k now at h = ground (arith, h)

observe_new :
    (t : FlowTable) (k : FlowKey) (now : Instant)
    → get k (live_flows t now) ≡ none
    → observe t k now
      ≡ (record t { flows = insert k now (make_room t.max (live_flows t now)) }, true)
unfolding observe
observe_new t k now h = ground (arith, h)

-- Observing a flow keeps the table valid: it never holds more than `max` flows, and each one once.
pub observe-IsValid :
    (t : FlowTable) (k : FlowKey) (now : Instant) → IsValid t → IsValid (observe t k now).0
observe-IsValid t k now v = elim (Option-cases (get k (live_flows t now))) [
  | inl n ↦ rw (observe_new t k now n) (record {
    room = v.room;
    bounded = ground (
      arith,
      length-insert k now (make_room t.max (live_flows t now)),
      length-make_room t.max (live_flows t now) v.room (live_flows-bounded t now v),
    );
    distinct =
        insert-Distinct k now (make_room t.max (live_flows t now))
          (make_room-Distinct t.max (live_flows t now) (live_flows-Distinct t now v));
  })
  | inr (at, n) ↦ rw (observe_known t k now at n) (record {
    room = v.room;
    bounded =
        ground
          (arith, length-insert-some k now at (live_flows t now) n, live_flows-bounded t now v);
    distinct = insert-Distinct k now (live_flows t now) (live_flows-Distinct t now v);
  })
]

-- In a valid table, `observe` reports a known flow exactly when the flow was seen less than `idle`
-- ago, and afterwards the flow is recorded as seen now.
pub observe_iff :
    (t : FlowTable) (k : FlowKey) (now : Instant)
    → IsValid t
    → ((observe t k now).1 ≡ false
        ↔ ((at : Instant) × (get k t.flows ≡ some at) × (duration_since now at < t.idle)))
      × (get k (observe t k now).0.flows ≡ some now)
observe_iff t k now v = elim (Option-cases (get k (live_flows t now))) [
  | inl n ↦ rw (observe_new t k now n) (
    (
      λ h. ground arith,
      λ h. ground (
        arith,
        n,
        h.1,
        h.2,
        get-retain k (λ at. ltb (duration_since now at) t.idle) t.flows v.distinct,
      ),
    ),
    get-insert_self k now (make_room t.max (live_flows t now)),
  )
  | inr (at, n) ↦ rw (observe_known t k now at n) (
    (
      λ h.
          ground
            (arith, n, get-retain k (λ at. ltb (duration_since now at) t.idle) t.flows v.distinct),
      λ h. refl,
    ),
    get-insert_self k now (live_flows t now),
  )
]
