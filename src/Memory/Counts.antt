-- ===== src/Memory/Counts.antt =====
-- crates/nexl-memory/src/lib.rs: what the inserted drops do to the reference counts.
use nexl.Prelude.{
  ℕ, suc, ◌-◌, true, false, Option, List, [], ◌∷◌, ◌++◌, map, ◌≡◌, ◌≢◌, refl, inl, inr, ◌==◌, arith,
  if◌then◌else◌, Bool-cases, ==_iff, In, Ids, contains, ◌&&◌,
}
use nexl.Ir.{VarId, var, Rhs, LetBind, let_bind, block, Tail, ret}
use nexl.Ir.Binders.{binders, BindsOnce}
use nexl.Memory.{
  dup, drop, RcStep, rc, bind, is_heap_alloc, heap_vars, returned, is_returned, drops,
  annotate_block,
}

-- The reference count of each variable's allocation. An allocation starts with one reference.
abbrev pub RefCounts : Type 0
RefCounts = VarId → ℕ

abbrev set_count : VarId → ℕ → RefCounts → RefCounts
set_count x n c y = if y == x then n else c y

pub counts_after : List RcStep → RefCounts → RefCounts
unfolding is_heap_alloc
counts_after [] c = c
counts_after (rc (dup v) ∷ steps) c = counts_after steps (set_count v (suc (c v)) c)
counts_after (rc (drop v) ∷ steps) c = counts_after steps (set_count v (c v - 1) c)
counts_after (bind (let_bind x rhs) ∷ steps) c =
    counts_after steps (if is_heap_alloc rhs then set_count x 1 c else c)

counts_after-append :
    (s t : List RcStep) (c : RefCounts)
    → counts_after (s ++ t) c ≡ counts_after t (counts_after s c)
unfolding counts_after
counts_after-append [] t c = refl
counts_after-append (rc (dup v) ∷ s) t c = counts_after-append s t _
counts_after-append (rc (drop v) ∷ s) t c = counts_after-append s t _
counts_after-append (bind (let_bind x rhs) ∷ s) t c = counts_after-append s t _

counts_after-binds :
    (bs : List LetBind) (c : RefCounts) (v : VarId)
    → counts_after (map bind bs) c v ≡ (if contains (heap_vars bs) v then 1 else c v)
unfolding counts_after heap_vars contains
counts_after-binds [] c v = refl
counts_after-binds (let_bind x rhs ∷ bs) c v =
    ground (arith, counts_after-binds bs (if is_heap_alloc rhs then set_count x 1 c else c) v)

abbrev Distinct : Ids → Type 0
Distinct [] = Unit
Distinct (x ∷ xs) = (contains xs x ≡ false) × Distinct xs

contains-heap_vars :
    (bs : List LetBind) (v : VarId)
    → contains (binders bs) v ≡ false
    → contains (heap_vars bs) v ≡ false
unfolding binders heap_vars contains
contains-heap_vars [] v h = refl
contains-heap_vars (let_bind x rhs ∷ bs) v h = ground (arith, contains-heap_vars bs v)

Distinct-heap_vars : (bs : List LetBind) → BindsOnce bs → Distinct (heap_vars bs)
unfolding heap_vars
Distinct-heap_vars [] h = tt
Distinct-heap_vars (let_bind x rhs ∷ bs) h = elim (Bool-cases (is_heap_alloc rhs)) [
  | inl heap ↦ rw heap (contains-heap_vars bs x h.0, Distinct-heap_vars bs h.1)
  | inr other ↦ rw other (Distinct-heap_vars bs h.1)
]

counts_after-drops :
    (r : Option VarId) (vs : Ids) (c : RefCounts) (v : VarId)
    → Distinct vs
    → counts_after (drops r vs) c v
      ≡ (if is_returned r v then c v else if contains vs v then c v - 1 else c v)
unfolding counts_after drops contains
counts_after-drops r [] c v d = ground arith
counts_after-drops r (x ∷ vs) c v d = elim (Bool-cases (is_returned r x)) [
  | inl kept ↦ rw kept (ground (arith, counts_after-drops r vs c v d.1, ==_iff v x))
  | inr dropped ↦
      rw dropped
        (ground (arith, counts_after-drops r vs (set_count x (c x - 1) c) v d.1, ==_iff v x))
]

-- The count of every variable where the tail of an annotated block begins.
counts_at_tail :
    (binds : List LetBind) (tail : Tail) (v : VarId)
    → BindsOnce binds
    → counts_after (annotate_block (block binds tail)).steps (λ x. 0) v
      ≡ (if is_returned (returned tail) v && contains (heap_vars binds) v then 1 else 0)
unfolding annotate_block
counts_at_tail binds tail v h =
    let ds = drops (returned tail) (heap_vars binds) in
    let c = counts_after (map bind binds) (λ x. 0) in
    rw (counts_after-append (map bind binds) ds (λ x. 0)) (
      ground (
        arith,
        counts_after-drops (returned tail) (heap_vars binds) c v (Distinct-heap_vars binds h),
        counts_after-binds binds (λ x. 0) v,
      ))

In-heap_vars :
    (bs : List LetBind) (v : VarId) (rhs : Rhs)
    → In (let_bind v rhs) bs
    → is_heap_alloc rhs ≡ true
    → contains (heap_vars bs) v ≡ true
unfolding heap_vars contains
In-heap_vars [] v rhs i h = elim i [ ]
In-heap_vars (let_bind x r ∷ bs) v rhs i h = elim i [
  | inl e ↦ ground arith
  | inr j ↦ ground (arith, In-heap_vars bs v rhs j h)
]

returned_self : (v : VarId) → is_returned (returned (ret (var v))) v ≡ true
unfolding returned
returned_self v = ground arith

returned-other :
    (tail : Tail) (v : VarId) → tail ≢ ret (var v) → is_returned (returned tail) v ≡ false
unfolding returned
returned-other (ret (var x)) v h = elim (Bool-cases (v == x)) [
  | inl same ↦ absurd (h (ground (arith, ==_iff v x)))
  | inr other ↦ other
]
returned-other (ret _) v h = refl
returned-other _ v h = refl

-- A block that binds every variable once and returns one of its allocations hands it over with one
-- reference.
pub annotate_block-returned :
    (binds : List LetBind) (v : VarId) (rhs : Rhs)
    → BindsOnce binds
    → In (let_bind v rhs) binds
    → is_heap_alloc rhs ≡ true
    → counts_after (annotate_block (block binds (ret (var v)))).steps (λ x. 0) v ≡ 1
annotate_block-returned binds v rhs once i h =
    rw (counts_at_tail binds (ret (var v)) v once, returned_self v, In-heap_vars binds v rhs i h)

-- In a block that binds every variable once, every allocation but the returned variable has no
-- reference left where the tail begins, whatever the tail is, also if it reads the variable, as a
-- tail call that passes it does.
pub annotate_block-freed :
    (binds : List LetBind) (tail : Tail) (v : VarId) (rhs : Rhs)
    → BindsOnce binds
    → In (let_bind v rhs) binds
    → is_heap_alloc rhs ≡ true
    → tail ≢ ret (var v)
    → counts_after (annotate_block (block binds tail)).steps (λ x. 0) v ≡ 0
annotate_block-freed binds tail v rhs once i h other =
    rw (counts_at_tail binds tail v once, returned-other tail v other)
