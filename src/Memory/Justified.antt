-- ===== src/Memory/Justified.antt =====
-- crates/nexl-memory/src/lib.rs: every reuse that the analysis records is possible.
use nexl.Prelude.{
  ℕ, Option, none, some, List, [], ◌∷◌, ◌≡◌, refl, sym, ◌⊎◌, inl, inr, arith, ◌∙◌, ap, In, Ids,
}
use nexl.Ir.{VarId, Rhs, let_bind}
use nexl.Memory.{
  dup, drop, RcStep, rc, bind, RcAnnotatedBlock, ReuseToken, ReuseMap, alloc_slot_count, SlotCounts,
  slots_of, slot_counts, take_token, take_for, tokens_left, record_reuse, scan,
  analyze_block_for_reuse,
}
use nexl.Memory.Freed.{
  Occupies, Made, made_before, Freed, AreOrdered, Occupies-alloc_slot_count, AllFreed,
  AllFreed-before, AllFreed-offer, Taken, Taken-take_token, slots_of-slot_counts, AreMade,
  bind-AreMade,
}

-- Some step ahead binds `x` to an allocation of the token's size, and the token's variable was bound
-- to one of that size, and dropped after that, among the steps before it.
pub data Justified (x : VarId) (t : ReuseToken) : List RcStep → List RcStep → Type 0 where
  here :
      {taken : List RcStep} {rhs : Rhs} {steps : List RcStep}
      → Occupies rhs t.slot_count
      → Freed t.dropped_var t.slot_count taken
      → Justified x t taken (bind (let_bind x rhs) ∷ steps)
  past :
      {taken : List RcStep} {step : RcStep} {steps : List RcStep}
      → Justified x t (step ∷ taken) steps
      → Justified x t taken (step ∷ steps)

module _ (slots : SlotCounts) (x : VarId) (t : ReuseToken) where
  abbrev Found : List RcStep → List RcStep → List ReuseToken → ReuseMap → Type 0
  Found taken steps available reuse =
      In (x, t) (scan slots steps available reuse) → In (x, t) reuse ⊎ Justified x t taken steps

  Found-past :
      (taken : List RcStep) (step : RcStep) (steps : List RcStep) (reuse : ReuseMap)
      → In (x, t) reuse ⊎ Justified x t (step ∷ taken) steps
      → In (x, t) reuse ⊎ Justified x t taken (step ∷ steps)
  Found-past taken step steps reuse (inl i) = inl i
  Found-past taken step steps reuse (inr j) = inr (past j)

  -- Behind a binding, whatever token it takes.
  abbrev Onward : List RcStep → VarId → Rhs → List RcStep → Type 0
  Onward taken y rhs steps =
      (ts : List ReuseToken) (r : ReuseMap)
      → AllFreed taken ts
      → Found (bind (let_bind y rhs) ∷ taken) steps ts r

  Found-Taken :
      (taken : List RcStep) (y : VarId) (rhs : Rhs) (steps : List RcStep) (n : ℕ) (reuse : ReuseMap)
      (available : List ReuseToken) (o : Option (ReuseToken × List ReuseToken))
      → alloc_slot_count rhs ≡ some n
      → AllFreed taken available
      → Taken taken n o
      → Onward taken y rhs steps
      → In (x, t) (scan slots steps (tokens_left o available) (record_reuse y o reuse))
      → In (x, t) reuse ⊎ Justified x t taken (bind (let_bind y rhs) ∷ steps)
  Found-Taken taken y rhs steps n reuse available none e h k later i =
      Found-past taken _ steps reuse (later available reuse h i)
  Found-Taken taken y rhs steps n reuse available (some (u, rest)) e h (fits, freed, left) later i =
      elim (later rest ((y, u) ∷ reuse) left i) [
        | inr j ↦ inr (past j)
        | inl (inr j) ↦ inl j
        | inl (inl same) ↦
            let ex : x ≡ y = ap (λ (p : VarId × ReuseToken). p.0) same in
            let et : t ≡ u = ap (λ (p : VarId × ReuseToken). p.1) same in
            let occupied = Occupies-alloc_slot_count rhs u.slot_count (e ∙ ap some (sym fits)) in
            inr (rw (← ex) (here (rw et occupied) (rw et freed)))
      ]

  Found-bind :
      (taken : List RcStep) (y : VarId) (rhs : Rhs) (steps : List RcStep) (reuse : ReuseMap)
      (available : List ReuseToken) (o : Option ℕ)
      → alloc_slot_count rhs ≡ o
      → AllFreed taken available
      → Onward taken y rhs steps
      → In
          (x, t)
          (scan slots steps
            (tokens_left (take_for o available) available)
            (record_reuse y (take_for o available) reuse))
      → In (x, t) reuse ⊎ Justified x t taken (bind (let_bind y rhs) ∷ steps)
  Found-bind taken y rhs steps reuse available none e h later i =
      Found-past taken _ steps reuse (later available reuse h i)
  Found-bind taken y rhs steps reuse available (some n) e h later i =
      Found-Taken taken y rhs steps n reuse available (take_token n available) e h
        (Taken-take_token taken n available h) later i

  Found-scan :
      (steps taken : List RcStep) (bound : Ids) (so_far : SlotCounts) (available : List ReuseToken)
      (reuse : ReuseMap)
      → slots ≡ slot_counts steps so_far
      → AreOrdered bound steps
      → AreMade taken so_far
      → AllFreed taken available
      → Found taken steps available reuse
  unfolding scan slot_counts
  Found-scan [] taken bound so_far available reuse all h made freed i = inl i
  Found-scan (rc (drop v) ∷ steps) taken bound so_far available reuse all (b, h) made freed i =
      let known : (n : ℕ) → slots_of slots v ≡ some n → Made v n taken = λ n e. made v n (
        sym (slots_of-slot_counts steps bound so_far v h b)
        ∙ ap (λ s. slots_of s v) (sym all)
        ∙ e) in
      Found-past taken _ steps reuse (
        Found-scan steps (rc (drop v) ∷ taken) bound so_far _ reuse all h
          (λ w n e. made_before (made w n e))
          (AllFreed-offer taken v available (slots_of slots v) known freed) i)
  Found-scan (rc (dup v) ∷ steps) taken bound so_far available reuse all h made freed i =
      Found-past taken _ steps reuse (
        Found-scan steps (rc (dup v) ∷ taken) bound so_far available reuse all h
          (λ w n e. made_before (made w n e)) (AllFreed-before taken _ available freed) i)
  Found-scan (bind (let_bind y rhs) ∷ steps) taken bound so_far available reuse all (new, h) made
        freed i =
      Found-bind taken y rhs steps reuse available (alloc_slot_count rhs) refl freed
        (λ ts r k.
          Found-scan steps (bind (let_bind y rhs) ∷ taken) (y ∷ bound) _ ts r all h
            (bind-AreMade taken so_far y rhs made) (AllFreed-before taken _ ts k))
        i

-- Where the steps of a block bind each variable at most once, and drop it only after that: each reuse
-- that is recorded for the block is of an allocation that was made and dropped before the new one is
-- made, and the two take the same number of slots, a header and their fields or captures.
pub analyze_block_for_reuse-Justified :
    (b : RcAnnotatedBlock) (x : VarId) (t : ReuseToken)
    → AreOrdered [] b.steps
    → In (x, t) (analyze_block_for_reuse b [])
    → Justified x t [] b.steps
unfolding analyze_block_for_reuse slots_of
analyze_block_for_reuse-Justified b x t ordered i =
    elim (Found-scan (slot_counts b.steps []) x t b.steps [] [] [] [] [] refl ordered
      (λ v n e. absurd (ground (arith, e))) tt i) [ inl j ↦ elim j [ ] | inr j ↦ j ]
