-- ===== src/Memory/Freed.antt =====
-- crates/nexl-memory/src/lib.rs: which allocations the steps of a block have made and dropped.
use nexl.Prelude.{
  ℕ, suc, true, false, Option, none, some, List, [], ◌∷◌, ◌++◌, ◌≡◌, refl, sym, inl, inr, ◌==◌,
  arith, Bool-cases, ==_iff, ◌∙◌, ap, Ids, contains, length,
}
use mathlib.Core.Path.{subst}
use nexl.Ir.{VarId, Atom, FuncId, Rhs, make_closure, make_tuple, let_bind}
use nexl.Memory.{
  dup, drop, RcStep, rc, bind, ReuseToken, alloc_slot_count, SlotCounts, slots_of, add_slots,
  slot_counts, offer, keep_token, take_token,
}

-- An allocation takes a slot for its header and one for each field or capture.
pub data Occupies : Rhs → ℕ → Type 0 where
  a_tuple :
      {ctor : _} {fields : List Atom} → Occupies (make_tuple ctor fields) (suc (length fields))
  a_closure :
      {id : FuncId} {captures : List (VarId × Atom)}
      → Occupies (make_closure id captures) (suc (length captures))

-- Among the steps taken, the last first, a variable is bound to an allocation of a size.
pub data Made (v : VarId) (size : ℕ) : List RcStep → Type 0 where
  made_last :
      {rhs : Rhs} {taken : List RcStep}
      → Occupies rhs size
      → Made v size (bind (let_bind v rhs) ∷ taken)
  made_before :
      {step : RcStep} {taken : List RcStep} → Made v size taken → Made v size (step ∷ taken)

-- A variable is bound to an allocation of a size, and dropped after that.
pub data Freed (v : VarId) (size : ℕ) : List RcStep → Type 0 where
  freed_last : {taken : List RcStep} → Made v size taken → Freed v size (rc (drop v) ∷ taken)
  freed_before :
      {step : RcStep} {taken : List RcStep} → Freed v size taken → Freed v size (step ∷ taken)

-- Each variable is bound at most once, and dropped only after it is bound.
abbrev pub AreOrdered : Ids → List RcStep → Type 0
AreOrdered bound [] = Unit
AreOrdered bound (rc (dup v) ∷ steps) = AreOrdered bound steps
AreOrdered bound (rc (drop v) ∷ steps) = (contains bound v ≡ true) × AreOrdered bound steps
AreOrdered bound (bind (let_bind x rhs) ∷ steps) =
    (contains bound x ≡ false) × AreOrdered (x ∷ bound) steps

pub Occupies-alloc_slot_count : (rhs : Rhs) (n : ℕ) → alloc_slot_count rhs ≡ some n → Occupies rhs n
unfolding alloc_slot_count
Occupies-alloc_slot_count (make_tuple ctor fields) n h =
    let e : suc (length fields) ≡ n = ground (arith, h) in
    subst (Occupies (make_tuple ctor fields)) e a_tuple
Occupies-alloc_slot_count (make_closure id captures) n h =
    let e : suc (length captures) ≡ n = ground (arith, h) in
    subst (Occupies (make_closure id captures)) e a_closure
Occupies-alloc_slot_count _ n h = absurd (ground (arith, h))

-- What is known of the tokens at hand.
abbrev pub AllFreed : List RcStep → List ReuseToken → Type 0
AllFreed taken [] = Unit
AllFreed taken (t ∷ ts) = Freed t.dropped_var t.slot_count taken × AllFreed taken ts

pub AllFreed-before :
    (taken : List RcStep) (step : RcStep) (ts : List ReuseToken)
    → AllFreed taken ts
    → AllFreed (step ∷ taken) ts
AllFreed-before taken step [] h = tt
AllFreed-before taken step (t ∷ ts) (f, h) = (freed_before f, AllFreed-before taken step ts h)

pub AllFreed-snoc :
    (taken : List RcStep) (t : ReuseToken) (ts : List ReuseToken)
    → AllFreed taken ts
    → Freed t.dropped_var t.slot_count taken
    → AllFreed taken (ts ++ t ∷ [])
AllFreed-snoc taken t [] h f = (f, tt)
AllFreed-snoc taken t (u ∷ ts) (g, h) f = (g, AllFreed-snoc taken t ts h f)

pub AllFreed-offer :
    (taken : List RcStep) (v : VarId) (ts : List ReuseToken) (o : Option ℕ)
    → ((n : ℕ) → o ≡ some n → Made v n taken)
    → AllFreed taken ts
    → AllFreed (rc (drop v) ∷ taken) (offer v o ts)
AllFreed-offer taken v ts none made h = AllFreed-before taken (rc (drop v)) ts h
AllFreed-offer taken v ts (some n) made h =
    AllFreed-snoc (rc (drop v) ∷ taken) _ ts (AllFreed-before taken (rc (drop v)) ts h)
      (freed_last (made n refl))

-- What taking a token gives.
abbrev pub Taken : List RcStep → ℕ → Option (ReuseToken × List ReuseToken) → Type 0
Taken taken n none = Unit
Taken taken n (some (t, rest)) =
    (t.slot_count ≡ n) × Freed t.dropped_var t.slot_count taken × AllFreed taken rest

pub Taken-keep :
    (taken : List RcStep) (n : ℕ) (t : ReuseToken) (o : Option (ReuseToken × List ReuseToken))
    → Freed t.dropped_var t.slot_count taken
    → Taken taken n o
    → Taken taken n (keep_token t o)
Taken-keep taken n t none h k = tt
Taken-keep taken n t (some (u, rest)) h (e, f, k) = (e, f, (h, k))

pub Taken-take_token :
    (taken : List RcStep) (n : ℕ) (ts : List ReuseToken)
    → AllFreed taken ts
    → Taken taken n (take_token n ts)
unfolding take_token
Taken-take_token taken n [] h = tt
Taken-take_token taken n (t ∷ ts) (f, h) = elim (Bool-cases (t.slot_count == n)) [
  | inl fits ↦ rw fits ((==_iff t.slot_count n).0 fits, f, h)
  | inr other ↦ rw other (Taken-keep taken n t _ f (Taken-take_token taken n ts h))
]

pub slots_of-add_slots :
    (v x : VarId) (o : Option ℕ) (slots : SlotCounts)
    → (v == x) ≡ false
    → slots_of (add_slots x o slots) v ≡ slots_of slots v
unfolding slots_of
slots_of-add_slots v x none slots apart = refl
slots_of-add_slots v x (some n) slots apart = rw apart refl

pub slots_of-add_same :
    (v x : VarId) (n : ℕ) (slots : SlotCounts)
    → (v == x) ≡ true
    → slots_of (add_slots x (some n) slots) v ≡ some n
unfolding slots_of
slots_of-add_same v x n slots same = rw same refl

-- A variable that is not bound ahead keeps its slot count.
pub slots_of-slot_counts :
    (steps : List RcStep) (bound : Ids) (slots : SlotCounts) (v : VarId)
    → AreOrdered bound steps
    → contains bound v ≡ true
    → slots_of (slot_counts steps slots) v ≡ slots_of slots v
unfolding slot_counts contains
slots_of-slot_counts [] bound slots v h b = refl
slots_of-slot_counts (rc (dup w) ∷ steps) bound slots v h b =
    slots_of-slot_counts steps bound slots v h b
slots_of-slot_counts (rc (drop w) ∷ steps) bound slots v (d, h) b =
    slots_of-slot_counts steps bound slots v h b
slots_of-slot_counts (bind (let_bind x rhs) ∷ steps) bound slots v (new, h) b =
    let apart : (v == x) ≡ false = elim (Bool-cases (v == x)) [
      | inl same ↦ absurd (ground (arith, b, new, ap (contains bound) ((==_iff v x).0 same)))
      | inr other ↦ other
    ] in
    slots_of-slot_counts steps (x ∷ bound) _ v h (rw apart b)
    ∙ slots_of-add_slots v x (alloc_slot_count rhs) slots apart

-- The slot counts of the steps taken are those of what was made.
abbrev pub AreMade : List RcStep → SlotCounts → Type 0
AreMade taken slots = (v : VarId) (n : ℕ) → slots_of slots v ≡ some n → Made v n taken

pub bind-AreMade :
    (taken : List RcStep) (slots : SlotCounts) (x : VarId) (rhs : Rhs)
    → AreMade taken slots
    → AreMade (bind (let_bind x rhs) ∷ taken) (add_slots x (alloc_slot_count rhs) slots)
bind-AreMade taken slots x rhs made v n = by_size (alloc_slot_count rhs) refl
  where
    by_size :
        (o : Option ℕ)
        → alloc_slot_count rhs ≡ o
        → slots_of (add_slots x o slots) v ≡ some n
        → Made v n (bind (let_bind x rhs) ∷ taken)
    by_size none e h = made_before (made v n h)
    by_size (some m) e h = elim (Bool-cases (v == x)) [
      | inl same ↦
          let m-is : m ≡ n = ground (arith, h, slots_of-add_same v x m slots same) in
          let occupied = Occupies-alloc_slot_count rhs n (e ∙ ap some m-is) in
          subst (λ w. Made w n (bind (let_bind x rhs) ∷ taken)) (sym ((==_iff v x).0 same))
            (made_last occupied)
      | inr other ↦ made_before (made v n (sym (slots_of-add_slots v x (some m) slots other) ∙ h))
    ]
