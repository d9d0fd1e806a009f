-- ===== src/Optimize/ConstFold/Scoping.antt =====
-- const_fold.rs: a folded block is well scoped.
use nexl.Prelude.{ℕ, zero, suc, ◌≤◌, true, false, [], ◌∷◌, arith}
use nexl.Ir.{
  bool, Block, block, Tail, ret, if_else, tail_call, match, panic, loop, recur, Arms, nil, arm,
}
use nexl.Ir.Scope.{Scope, bound_names, BlockInScope, TailInScope, ArmsInScope}
use nexl.Optimize.ConstFold.{
  Subst, subst_binds, apply_subst_arms, apply_subst_tail, flatten_true, flatten_false, fold_arms,
  fold_tail, fold_block, apply_subst_block, depth_block, depth_tail, depth_arms,
}
use nexl.Optimize.ConstFold.Agree.{
  Agrees, Agrees-empty, Agrees-extend_all, AreNew-left, InScope-subst, AllInScope-subst,
  PairsInScope-subst, bound_names-subst, After-binds,
}
use nexl.Optimize.ConstFold.Depth.{fold_block-eq, depth-apply_subst_tail, depth-apply_subst_block}

-- The call on the blocks below, under one substitution.
abbrev pub Substs : ℕ → Subst → (Block → Block) → Type 0
Substs n s f =
    (b : Block) (all left : Scope)
    → Agrees all left s
    → depth_block b ≤ n
    → BlockInScope all b
    → BlockInScope left (f b)

abbrev Keeps : ℕ → (Block → Block) → Type 0
Keeps n f =
    (b : Block) (all : Scope) → depth_block b ≤ n → BlockInScope all b → BlockInScope all (f b)

module _ (n : ℕ) (s : Subst) (f : Block → Block) (below : Substs n s f) where
  ArmsInScope-subst :
      (arms : Arms) (all left : Scope)
      → Agrees all left s
      → depth_arms arms ≤ n
      → ArmsInScope all arms
      → ArmsInScope left (apply_subst_arms f arms)
  unfolding depth_block apply_subst_arms
  ArmsInScope-subst nil all left g d h = tt
  ArmsInScope-subst (arm c xs b rest) all left g d h = (
    AreNew-left xs all left g.smaller h.0,
    below b _ _ (Agrees-extend_all xs all left s g h.0) (omega arith) h.1,
    ArmsInScope-subst rest all left g (omega arith) h.2,
  )

  pub TailInScope-subst :
      (t : Tail) (all left : Scope)
      → Agrees all left s
      → depth_tail t ≤ n
      → TailInScope all t
      → TailInScope left (apply_subst_tail f s t)
  unfolding depth_block apply_subst_tail
  TailInScope-subst (ret a) all left g d h = InScope-subst all left s g a h
  TailInScope-subst (if_else c t e) all left g d h = (
    InScope-subst all left s g c h.0,
    below t all left g (omega arith) h.1,
    below e all left g (omega arith) h.2,
  )
  TailInScope-subst (tail_call a args) all left g d h =
      (InScope-subst all left s g a h.0, AllInScope-subst all left s g args h.1)
  TailInScope-subst (match a arms) all left g d h =
      (InScope-subst all left s g a h.0, ArmsInScope-subst arms all left g d h.1)
  TailInScope-subst (panic a) all left g d h = InScope-subst all left s g a h
  TailInScope-subst (loop vars body) all left g d h = rw (bound_names-subst s vars) (
    PairsInScope-subst all left s g vars h.0,
    AreNew-left (bound_names vars) all left g.smaller h.1,
    below body _ _ (Agrees-extend_all (bound_names vars) all left s g h.1) d h.2,
  )
  TailInScope-subst (recur args) all left g d h = AllInScope-subst all left s g args h

BlockInScope-flatten_true :
    (b : Block) (all : Scope) → BlockInScope all b → TailInScope all (flatten_true b)
unfolding flatten_true
BlockInScope-flatten_true (block [] t) all h = h.1
BlockInScope-flatten_true (block (b ∷ bs) t) all h = (tt, h, (tt, tt))

BlockInScope-flatten_false :
    (b : Block) (all : Scope) → BlockInScope all b → TailInScope all (flatten_false b)
unfolding flatten_false
BlockInScope-flatten_false (block [] t) all h = h.1
BlockInScope-flatten_false (block (b ∷ bs) t) all h = (tt, (tt, tt), h)

module _ (n : ℕ) (f : Block → Block) (below : Keeps n f) where
  ArmsInScope-fold :
      (arms : Arms) (all : Scope)
      → depth_arms arms ≤ n
      → ArmsInScope all arms
      → ArmsInScope all (fold_arms f arms)
  unfolding depth_block fold_arms
  ArmsInScope-fold nil all d h = tt
  ArmsInScope-fold (arm c xs b rest) all d h =
      (h.0, below b _ (omega arith) h.1, ArmsInScope-fold rest all (omega arith) h.2)

  TailInScope-fold :
      (t : Tail) (all : Scope)
      → depth_tail t ≤ n
      → TailInScope all t
      → TailInScope all (fold_tail f t)
  unfolding depth_block fold_tail
  TailInScope-fold (if_else (bool true) t e) all d h =
      BlockInScope-flatten_true (f t) all (below t all (omega arith) h.1)
  TailInScope-fold (if_else (bool false) t e) all d h =
      BlockInScope-flatten_false (f e) all (below e all (omega arith) h.2)
  TailInScope-fold (if_else c t e) all d h =
      (h.0, below t all (omega arith) h.1, below e all (omega arith) h.2)
  TailInScope-fold (match a arms) all d h = (h.0, ArmsInScope-fold arms all d h.1)
  TailInScope-fold (loop vars body) all d h = (h.0, h.1, below body _ d h.2)
  TailInScope-fold _ all d h = h

pub BlockInScope-subst : (n : ℕ) (s : Subst) → Substs n s (apply_subst_block n s)
unfolding depth_block fold_block
BlockInScope-subst zero s (block binds tail) all left g d h = absurd (omega arith)
BlockInScope-subst (suc n) s (block binds tail) all left g d h =
    let (s', new_binds) = subst_binds s binds in
    let after = After-binds binds all left s g h.0 in
    let t' = apply_subst_tail (apply_subst_block n s') s' tail in
    let d' =
      depth-apply_subst_tail (apply_subst_block n s') (depth-apply_subst_block n s') s' tail in
    (
      after.scoped,
      TailInScope-fold n (fold_block n)
          (λ b sc db hb.
            rw (fold_block-eq n b) (BlockInScope-subst n [] b sc sc (Agrees-empty sc) db hb))
          t' _ (omega (arith, d'))
          (TailInScope-subst n s' (apply_subst_block n s') (BlockInScope-subst n s') tail _ _
            after.agrees (omega arith) h.1),
    )
