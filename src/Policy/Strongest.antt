-- ===== src/Policy/Strongest.antt =====
-- `strongest_auto` keeps the action of a violation that no other violation outranks.
use microwaf.Prelude.{
  ◌+◌, ◌≤◌, ◌<◌, ◌≡◌, ◌⊎◌, inl, inr, refl, true, false, none, some, List, [], ◌∷◌, All, arith, ◌∙◌,
}
use microwaf.Time.{Instant, Duration, instant_limit}
use microwaf.Rule.{Action}
use microwaf.Policy.Defs.{
  AutoPolicy, Violation, from_action, stronger, strongest_from, strongest_auto,
}

-- `a` is at least as strong as the action: it blocks, or it drops at that rate or more.
abbrev pub Covers : AutoPolicy → Action → Type 0
Covers a Action.block = a.blocked ≡ true
Covers a (Action.throttle rate) = (a.blocked ≡ true) ⊎ (rate ≤ a.drop_rate)

-- some violation of the list has the property
abbrev pub Some : (Violation → Type 0) → List Violation → Type 0
Some P [] = ⊥
Some P (v ∷ vs) = P v ⊎ Some P vs

-- The kept candidate is one of the two.
stronger_lem : (p c : AutoPolicy) → (stronger p c ≡ p) ⊎ (stronger p c ≡ c)
unfolding stronger
stronger_lem p c = ground arith

Covers-stronger_left : (p c : AutoPolicy) (a : Action) → Covers p a → Covers (stronger p c) a
unfolding stronger
Covers-stronger_left p c Action.block h = ground arith
Covers-stronger_left p c (Action.throttle r) h = ground arith

Covers-stronger_right : (p c : AutoPolicy) (a : Action) → Covers c a → Covers (stronger p c) a
unfolding stronger
Covers-stronger_right p c Action.block h = ground arith
Covers-stronger_right p c (Action.throttle r) h = ground arith

module _ (now : Instant) (cooldown : Duration) where
  -- `a` is the candidate of the violation, which lasts until the cooldown is over
  abbrev pub IsFrom : AutoPolicy → Violation → Type 0
  IsFrom a v = from_action v.rule_id v.action now cooldown ≡ some a

  found_lem :
      (a b c : AutoPolicy) (v : Violation) (vs : List Violation)
      → (a ≡ stronger b c) ⊎ Some (IsFrom a) vs
      → IsFrom c v
      → (a ≡ b) ⊎ Some (IsFrom a) (v ∷ vs)
  found_lem a b c v vs (inr later) from = inr (inr later)
  found_lem a b c v vs (inl e) from = elim (stronger_lem b c) [
    | inl old ↦ inl (e ∙ old)
    | inr new ↦ inr (inl (rw (e ∙ new) from))
  ]

  -- the panic of `now + cooldown` does not happen
  module _ (fits : now + cooldown < instant_limit) where
    from_action_lem : (v : Violation) → (c : AutoPolicy) × IsFrom c v × Covers c v.action
    unfolding from_action
    from_action_lem v = go v.action refl
      where
        go : (a : Action) → v.action ≡ a → (c : AutoPolicy) × IsFrom c v × Covers c v.action
        go Action.block e = (
          record { drop_rate = 100; blocked = true; rule_id = v.rule_id; until = now + cooldown },
          ground arith,
          rw e refl,
        )
        go (Action.throttle r) e = (
          record { drop_rate = r; blocked = false; rule_id = v.rule_id; until = now + cooldown },
          ground arith,
          rw e (inr (omega arith)),
        )

    -- What the loop returns when it starts from the candidate `b`.
    record Best (b : AutoPolicy) (vs : List Violation) (a : AutoPolicy) : Type 0 where
      found : (a ≡ b) ⊎ Some (IsFrom a) vs
      covers : All (λ v. Covers a v.action) vs
      keeps : (x : Action) → Covers b x → Covers a x

    strongest_from_lem :
        (b : AutoPolicy) (vs : List Violation)
        → (a : AutoPolicy) × (strongest_from (some b) vs now cooldown ≡ some (some a)) × Best b vs a
    unfolding strongest_from
    strongest_from_lem b [] = (b, refl, record { found = inl refl; covers = tt; keeps = λ x h. h })
    strongest_from_lem b (v ∷ vs) =
        let (c, from, covers) = from_action_lem v in
        let (a, ran, best) = strongest_from_lem (stronger b c) vs in
        (
          a,
          rw (from, strongest_from) ran,
          record {
            found = found_lem a b c v vs best.found from;
            covers = (best.keeps v.action (Covers-stronger_right b c v.action covers), best.covers);
            keeps = λ x h. best.keeps x (Covers-stronger_left b c x h);
          },
        )

    -- If `now + cooldown` is an instant, `strongest_auto` does not panic. Without violations it
    -- returns nothing; else it returns the automatic policy of one of the violations, which lasts
    -- until the cooldown is over, and no violation asks for more: a block is answered by a block,
    -- and a throttle by a block or by at least that rate.
    pub strongest_auto_lem :
        (v : Violation) (vs : List Violation)
        → (strongest_auto [] now cooldown ≡ some none)
          × ((a : AutoPolicy) × (strongest_auto (v ∷ vs) now cooldown ≡ some (some a))
              × Some (IsFrom a) (v ∷ vs)
              × All (λ (w : Violation). Covers a w.action) (v ∷ vs))
    unfolding strongest_auto strongest_from
    strongest_auto_lem v vs =
        let (c, from, covers) = from_action_lem v in
        let (a, ran, best) = strongest_from_lem c vs in
        (
          refl,
          (
            a,
            rw (from, strongest_from) ran,
            start a c best.found from,
            (best.keeps v.action covers, best.covers),
          ),
        )
      where
        start :
            (a c : AutoPolicy)
            → (a ≡ c) ⊎ Some (IsFrom a) vs
            → IsFrom c v
            → Some (IsFrom a) (v ∷ vs)
        start a c (inr later) from = inr later
        start a c (inl e) from = inl (rw e from)
