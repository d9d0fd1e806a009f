-- ===== src/Optimize/ConstFold/Fixpoint.antt =====
-- const_fold.rs: folded blocks are the fixed points of folding.
use nexl.Prelude.{ℕ, zero, suc, ◌≤◌, true, false, [], ◌∷◌, ◌≡◌, refl, sym, ap, ◌∙◌}
use nexl.Ir.{bool, Block, block, Tail, if_else, match, loop, Arms, nil, arm}
use nexl.Optimize.ConstFold.{
  unit_block, apply_subst_arms, apply_subst_tail, flatten_true, flatten_false, fold_arms, fold_tail,
  fold_block, apply_subst_block, depth_block,
}
use nexl.Optimize.ConstFold.Depth.{fold_block-eq}
use nexl.Optimize.ConstFold.NormalForm.{
  empty_laws, HasBinds, BlockIsFolded, TailIsFolded, ArmsIsFolded, fold_block-BlockIsFolded,
  subst_binds-NoCopies,
}

flatten_true-HasBinds : (b : Block) → HasBinds b → flatten_true b ≡ if_else (bool true) b unit_block
unfolding flatten_true
flatten_true-HasBinds (block [] t) h = elim h [ ]
flatten_true-HasBinds (block (b ∷ bs) t) h = refl

flatten_false-HasBinds :
    (b : Block) → HasBinds b → flatten_false b ≡ if_else (bool false) unit_block b
unfolding flatten_false
flatten_false-HasBinds (block [] t) h = elim h [ ]
flatten_false-HasBinds (block (b ∷ bs) t) h = refl

module _ (f : Block → Block) (below : (b : Block) → BlockIsFolded b → f b ≡ b) where
  below_cleared : (b : Block) → b ≡ unit_block → f b ≡ b
  below_cleared b h = rw h (below unit_block (tt, tt))

  apply_subst_arms-fixed : (arms : Arms) → ArmsIsFolded arms → apply_subst_arms f arms ≡ arms
  unfolding apply_subst_arms
  apply_subst_arms-fixed nil h = refl
  apply_subst_arms-fixed (arm c xs b rest) h = cc (below b h.0, apply_subst_arms-fixed rest h.1)

  apply_subst_tail-fixed : (t : Tail) → TailIsFolded t → apply_subst_tail f [] t ≡ t
  unfolding apply_subst_tail
  apply_subst_tail-fixed (if_else (bool true) t e) h = cc (below t h.1, below_cleared e h.2)
  apply_subst_tail-fixed (if_else (bool false) t e) h = cc (below e h.1, below_cleared t h.2)
  apply_subst_tail-fixed (if_else c t e) h = simp empty_laws (cc (below t h.0, below e h.1))
  apply_subst_tail-fixed (match a arms) h = simp empty_laws (cc (apply_subst_arms-fixed arms h))
  apply_subst_tail-fixed (loop vars body) h = simp empty_laws (cc (below body h))
  apply_subst_tail-fixed _ h = simp empty_laws

  fold_arms-fixed : (arms : Arms) → ArmsIsFolded arms → fold_arms f arms ≡ arms
  unfolding fold_arms
  fold_arms-fixed nil h = refl
  fold_arms-fixed (arm c xs b rest) h = cc (below b h.0, fold_arms-fixed rest h.1)

  fold_tail-fixed : (t : Tail) → TailIsFolded t → fold_tail f t ≡ t
  unfolding fold_tail
  fold_tail-fixed (if_else (bool true) t e) h = cc (below t h.1, flatten_true-HasBinds t h.0, h.2)
  fold_tail-fixed (if_else (bool false) t e) h = cc (below e h.1, flatten_false-HasBinds e h.0, h.2)
  fold_tail-fixed (if_else c t e) h = cc (below t h.0, below e h.1)
  fold_tail-fixed (match a arms) h = cc (fold_arms-fixed arms h)
  fold_tail-fixed (loop vars body) h = cc (below body h)
  fold_tail-fixed _ h = refl

fold_block-fixed : (n : ℕ) (b : Block) → BlockIsFolded b → fold_block n b ≡ b
unfolding fold_block
fold_block-fixed zero b h = refl
fold_block-fixed (suc n) (block binds tail) h =
    let below =
      λ (b : Block) (hb : BlockIsFolded b). sym (fold_block-eq n b) ∙ fold_block-fixed n b hb in
    rw
      (
        subst_binds-NoCopies binds h.0,
        apply_subst_tail-fixed (apply_subst_block n []) below tail h.1,
      )
      (ap (block binds) (fold_tail-fixed (fold_block n) (fold_block-fixed n) tail h.1))

-- Folding a folded block again changes nothing, on any fuel.
pub fold_block_idem :
    (n k : ℕ) (b : Block) → depth_block b ≤ n → fold_block k (fold_block n b) ≡ fold_block n b
fold_block_idem n k b d = fold_block-fixed k (fold_block n b) (fold_block-BlockIsFolded n b d)
