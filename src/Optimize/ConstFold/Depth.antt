-- ===== src/Optimize/ConstFold/Depth.antt =====
-- const_fold.rs: folding makes no block deeper, so that fuel for the block is fuel for its result.
use nexl.Prelude.{ℕ, zero, suc, ◌≤◌, [], ◌≡◌, refl, arith, true, false}
use nexl.Ir.{bool, Block, block, Tail, if_else, match, loop, Arms, nil, arm}
use nexl.Optimize.ConstFold.{
  Subst, subst_binds, apply_subst_arms, apply_subst_tail, flatten_true, flatten_false, fold_arms,
  fold_tail, fold_block, apply_subst_block, depth_block, depth_tail, depth_arms,
}

pub depth_block_pos : (b : Block) → 1 ≤ depth_block b
unfolding depth_block
depth_block_pos (block binds tail) = omega arith

module _ (f : Block → Block) (le : (b : Block) → depth_block (f b) ≤ depth_block b) where
  depth-apply_subst_arms : (arms : Arms) → depth_arms (apply_subst_arms f arms) ≤ depth_arms arms
  unfolding depth_block apply_subst_arms
  depth-apply_subst_arms nil = omega arith
  depth-apply_subst_arms (arm c xs b rest) = omega (arith, le b, depth-apply_subst_arms rest)

  pub depth-apply_subst_tail :
      (s : Subst) (t : Tail) → depth_tail (apply_subst_tail f s t) ≤ depth_tail t
  unfolding depth_block apply_subst_tail
  depth-apply_subst_tail s (if_else c t e) = omega (arith, le t, le e)
  depth-apply_subst_tail s (match a arms) = depth-apply_subst_arms arms
  depth-apply_subst_tail s (loop vars body) = le body
  depth-apply_subst_tail s _ = omega arith

  depth-fold_arms : (arms : Arms) → depth_arms (fold_arms f arms) ≤ depth_arms arms
  unfolding depth_block fold_arms
  depth-fold_arms nil = omega arith
  depth-fold_arms (arm c xs b rest) = omega (arith, le b, depth-fold_arms rest)

  pub depth-flatten_true : (b : Block) → depth_tail (flatten_true b) ≤ depth_block b
  unfolding depth_block flatten_true
  depth-flatten_true b = ground arith

  pub depth-flatten_false : (b : Block) → depth_tail (flatten_false b) ≤ depth_block b
  unfolding depth_block flatten_false
  depth-flatten_false b = ground arith

  pub depth-fold_tail : (t : Tail) → depth_tail (fold_tail f t) ≤ depth_tail t
  unfolding depth_block fold_tail
  depth-fold_tail (if_else (bool true) t e) = omega (arith, le t, depth-flatten_true (f t))
  depth-fold_tail (if_else (bool false) t e) = omega (arith, le e, depth-flatten_false (f e))
  depth-fold_tail (if_else c t e) = omega (arith, le t, le e)
  depth-fold_tail (match a arms) = depth-fold_arms arms
  depth-fold_tail (loop vars body) = le body
  depth-fold_tail _ = omega arith

-- `fold_block` is `apply_subst_block` from the empty substitution.
pub fold_block-eq : (n : ℕ) (b : Block) → fold_block n b ≡ apply_subst_block n [] b
unfolding fold_block
fold_block-eq zero b = refl
fold_block-eq (suc n) (block binds tail) = refl

pub depth-apply_subst_block :
    (n : ℕ) (s : Subst) (b : Block) → depth_block (apply_subst_block n s b) ≤ depth_block b
unfolding fold_block depth_block
depth-apply_subst_block zero s b = omega arith
depth-apply_subst_block (suc n) s (block binds tail) =
    let (s', new_binds) = subst_binds s binds in
    let t' = apply_subst_tail (apply_subst_block n s') s' tail in
    omega (
      arith,
      depth-apply_subst_tail (apply_subst_block n s') (depth-apply_subst_block n s') s' tail,
      depth-fold_tail (fold_block n)
          (λ (b : Block). rw (fold_block-eq n b) (depth-apply_subst_block n [] b)) t',
    )
