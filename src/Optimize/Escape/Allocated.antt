-- ===== src/Optimize/Escape/Allocated.antt =====
-- escape.rs: the heap variables are those that a block binds to an allocation at any depth.
use nexl.Prelude.{
  Bool, true, false, List, [], ◌∷◌, ◌≡◌, refl, ap, ◌∙◌, ◌||◌, ◌&&◌, not, ◌==◌, Ids, contains,
  insert, contains-insert, arith, Bool-cases, inl, inr,
}
use nexl.Ir.{
  VarId, Rhs, atom, call, make_closure, make_tuple, project, LetBind, let_bind, Block, block, Tail,
  if_else, match, loop, Arms, nil, arm, FuncDef,
}
use nexl.Optimize.Escape.{
  heap_vars_binds, collect_heap_vars, collect_heap_vars_tail, collect_heap_vars_arms, difference,
  collect_escaping_block, analyze_func,
}
use nexl.Optimize.Escape.Leaks.{block_hands_on, contains-collect_escaping_block}

or_swap : (a b c : Bool) → (a || (b || c)) ≡ ((b || a) || c)
or_swap true true c = refl
or_swap true false c = refl
or_swap false true c = refl
or_swap false false c = refl

module _ (v : VarId) where
  unfoldable pub rhs_allocates : Rhs → Bool
  rhs_allocates (make_closure _ _) = true
  rhs_allocates (make_tuple _ _) = true
  rhs_allocates _ = false

  unfoldable pub binds_allocate : List LetBind → Bool
  unfolding rhs_allocates
  binds_allocate [] = false
  binds_allocate (let_bind x rhs ∷ bs) = (v == x && rhs_allocates rhs) || binds_allocate bs

  unfoldable mutual
    unfolding binds_allocate

    pub block_allocates : Block → Bool
    block_allocates (block binds tail) = binds_allocate binds || tail_allocates tail

    pub tail_allocates : Tail → Bool
    tail_allocates (if_else c t e) = block_allocates t || block_allocates e
    tail_allocates (match a arms) = arms_allocate arms
    tail_allocates (loop vars body) = block_allocates body
    tail_allocates _ = false

    pub arms_allocate : Arms → Bool
    arms_allocate nil = false
    arms_allocate (arm ctor binds body rest) = block_allocates body || arms_allocate rest

  contains-heap_vars_binds :
      (bs : List LetBind) (out : Ids)
      → contains (heap_vars_binds bs out) v ≡ (binds_allocate bs || contains out v)
  unfolding heap_vars_binds binds_allocate rhs_allocates
  contains-heap_vars_binds [] out = refl
  contains-heap_vars_binds (let_bind x (make_closure _ _) ∷ bs) out =
      ground (arith, contains-heap_vars_binds bs (insert x out), contains-insert x v out)
  contains-heap_vars_binds (let_bind x (make_tuple _ _) ∷ bs) out =
      ground (arith, contains-heap_vars_binds bs (insert x out), contains-insert x v out)
  contains-heap_vars_binds (let_bind x (atom _) ∷ bs) out =
      ground (arith, contains-heap_vars_binds bs out)
  contains-heap_vars_binds (let_bind x (call _ _) ∷ bs) out =
      ground (arith, contains-heap_vars_binds bs out)
  contains-heap_vars_binds (let_bind x (project _ _) ∷ bs) out =
      ground (arith, contains-heap_vars_binds bs out)

  mutual
    unfolding collect_heap_vars collect_heap_vars_tail collect_heap_vars_arms block_allocates
        tail_allocates arms_allocate

    contains-collect_heap_vars :
        (b : Block) (out : Ids)
        → contains (collect_heap_vars b out) v ≡ (block_allocates b || contains out v)
    contains-collect_heap_vars (block binds tail) out =
        contains-collect_heap_vars_tail tail (heap_vars_binds binds out)
        ∙ ap (λ c. tail_allocates tail || c) (contains-heap_vars_binds binds out)
        ∙ or_swap (tail_allocates tail) (binds_allocate binds) (contains out v)

    contains-collect_heap_vars_tail :
        (t : Tail) (out : Ids)
        → contains (collect_heap_vars_tail t out) v ≡ (tail_allocates t || contains out v)
    contains-collect_heap_vars_tail (if_else c t e) out =
        contains-collect_heap_vars e (collect_heap_vars t out)
        ∙ ap (λ c. block_allocates e || c) (contains-collect_heap_vars t out)
        ∙ or_swap (block_allocates e) (block_allocates t) (contains out v)
    contains-collect_heap_vars_tail (match a arms) out = contains-collect_heap_vars_arms arms out
    contains-collect_heap_vars_tail (loop vars body) out = contains-collect_heap_vars body out
    contains-collect_heap_vars_tail _ out = refl

    contains-collect_heap_vars_arms :
        (l : Arms) (out : Ids)
        → contains (collect_heap_vars_arms l out) v ≡ (arms_allocate l || contains out v)
    contains-collect_heap_vars_arms nil out = refl
    contains-collect_heap_vars_arms (arm ctor binds body rest) out =
        contains-collect_heap_vars_arms rest (collect_heap_vars body out)
        ∙ ap (λ c. arms_allocate rest || c) (contains-collect_heap_vars body out)
        ∙ or_swap (arms_allocate rest) (block_allocates body) (contains out v)

  contains-difference :
      (s t : Ids) → contains (difference s t) v ≡ (contains s v && not (contains t v))
  unfolding difference contains
  contains-difference [] t = refl
  contains-difference (x ∷ s) t = elim (Bool-cases (v == x)) [
    | inl same ↦ ground (arith, contains-difference s t)
    | inr other ↦ ground (arith, contains-difference s t)
  ]

-- The variables reported for a function are exactly those that its body binds to an allocation, at
-- any depth, and nowhere returns, calls, passes to a call or stores in a closure or a tuple.
pub contains-analyze_func :
    (f : FuncDef) (v : VarId)
    → contains (analyze_func f).non_escaping v
      ≡ (block_allocates v f.body && not (block_hands_on v f.body))
unfolding analyze_func contains
contains-analyze_func f v = ground (
  arith,
  contains-difference v (collect_heap_vars f.body []) (collect_escaping_block f.body []),
  contains-collect_heap_vars v f.body [],
  contains-collect_escaping_block v f.body [],
)
