-- ===== src/Decision/Steady.antt =====
-- What a tick makes of a client that has not moved: unchanged counters add nothing to its windows, and
-- expired policies are dropped.
use microwaf.Prelude.{
  ◌≡◌, ◌≢◌, refl, true, false, none, List, [], ◌∷◌, arith, inl, inr, ◌==◌, Bool-cases, Option-cases,
}
use microwaf.HashMap.{HashMap, insert, find_or, get-insert_ne}
use microwaf.Time.{Instant}
use microwaf.Client.{ClientId, client_eq, client_beq_iff}
use microwaf.Counters.{CounterKey, Counts, key_eq}
use microwaf.Window.{RuleWindows}
use microwaf.Policy.{ClientPolicy, no_policy, live_manual, live_auto}
use microwaf.Decision.Defs.{apply_counts, apply_deltas, update_policy, member, distinct}

pub find_or-insert_ne {ℓ} :
    {V : Type ℓ} (d c : ClientId) (x v : V) (m : HashMap ClientId V)
    → d ≢ c
    → find_or x c (insert d v m) ≡ find_or x c m
find_or-insert_ne d c x v m n = ground (arith, get-insert_ne d c v m n)

-- The counters of the client are those of the last tick.
abbrev pub Unchanged : ClientId → HashMap CounterKey Counts → HashMap CounterKey Counts → Type 0
Unchanged c last [] = Unit
Unchanged c last ((k, n) ∷ snapshot) =
    (k.client ≡ c → find_or (0, 0, 0) k last ≡ n) × Unchanged c last snapshot

apply_counts_same :
    (win : RuleWindows) (id : _) (n m : Counts) (now : Instant)
    → m ≡ n
    → apply_counts win id n m now ≡ win
unfolding apply_counts
apply_counts_same win id (r, b, k) (r', b', k') now e = ground (arith, e)

pub apply_deltas_same :
    (c : ClientId) (last snapshot : HashMap CounterKey Counts) (win : RuleWindows) (now : Instant)
    → Unchanged c last snapshot
    → apply_deltas c last snapshot win now ≡ win
unfolding apply_deltas
apply_deltas_same c last [] win now h = refl
apply_deltas_same c last ((k, n) ∷ snapshot) win now h = elim (Bool-cases (k.client == c)) [
  | inl same ↦
      rw
        (
          same,
          apply_counts_same win k.rule_id n (find_or (0, 0, 0) k last) now
              (h.0 ((client_beq_iff k.client c).0 same)),
        )
        (apply_deltas_same c last snapshot win now h.1)
  | inr other ↦ rw other (apply_deltas_same c last snapshot win now h.1)
]

pub dropped :
    (p : ClientPolicy) (now : Instant)
    → live_manual p.manual now ≡ none
    → live_auto p.auto now ≡ none
    → update_policy p none now ≡ no_policy
unfolding update_policy
dropped p now m a = elim (Option-cases p.manual) [
  | inl e ↦ elim (Option-cases p.auto) [
    | inl f ↦ ground (arith, e, f)
    | inr (x, f) ↦ ground (arith, e, f, a)
  ]
  | inr (y, e) ↦ elim (Option-cases p.auto) [
    | inl f ↦ ground (arith, e, f, m)
    | inr (x, f) ↦ ground (arith, e, f, m, a)
  ]
]

-- each client once
abbrev pub Once : List ClientId → Type 0
Once [] = Unit
Once (d ∷ ds) = (member d ds ≡ false) × Once ds

distinct-member :
    (c : ClientId) (l : List ClientId) → member c (distinct l) ≡ true → member c l ≡ true
unfolding distinct
distinct-member c [] h = h
distinct-member c (d ∷ l) h = ground (arith, h, distinct-member c l)

pub distinct-Once : (l : List ClientId) → Once (distinct l)
unfolding distinct
distinct-Once [] = tt
distinct-Once (d ∷ l) = elim (Bool-cases (member d l)) [
  | inl again ↦ rw again (distinct-Once l)
  | inr first ↦ rw first (ground (arith, first, distinct-member d l), distinct-Once l)
]
