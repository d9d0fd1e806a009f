-- ===== src/Tests/ConstFold.antt =====
-- const_fold.rs: runs, and the theorems at the sample program.
use nexl.Prelude.{[], ◌∷◌, ◌≡◌, refl, true, arith, false}
use nexl.Ir.{var, bool, func_ref, call, let_bind, Block, block, ret, if_else}
use nexl.Ir.Scope.{extend}
use nexl.Ir.Semantics.{run_block}
use nexl.Ir.Semantics.Program.{run_program}
use nexl.Optimize.ConstFold.{
  subst_binds, apply_subst_tail, fold_tail, fold_block, depth_block, fold_constants, unit_block,
}
use nexl.Optimize.ConstFold.Meaning.{run_block-fold_block}
use nexl.Optimize.ConstFold.NormalForm.{BlockIsFolded, fold_block-BlockIsFolded}
use nexl.Optimize.ConstFold.Fixpoint.{fold_block_idem}
use nexl.Optimize.ConstFold.Program.{run_program-fold_constants}
use nexl.Tests.Samples.{of_atom, counter, callee, number, copies, program}

-- The copies are gone, and the conditional keeps its live branch alone.
abbrev copies_folded : Block
copies_folded = block [] (
    if_else (bool true) (block (let_bind 3 (call (func_ref 1) (var 0 ∷ [])) ∷ []) (ret (var 3)))
      unit_block)

fold_copies : fold_block 2 copies ≡ copies_folded
unfolding fold_block subst_binds apply_subst_tail fold_tail
fold_copies = refl

run_block-fold_block_example :
    run_block counter 9 (fold_block 2 copies) (λ x. of_atom (number 3)) 0
    ≡ run_block counter 9 copies (λ x. of_atom (number 3)) 0
unfolding depth_block
run_block-fold_block_example =
    run_block-fold_block counter 9 2 (extend 0 (λ x. false)) copies (omega arith)
      ((refl, refl, (refl, tt, tt)), (refl, ((refl, (tt, (refl, tt)), tt), refl), (tt, tt)))
      (λ x. of_atom (number 3)) 0

fold_block-BlockIsFolded_example : BlockIsFolded (fold_block 2 copies)
unfolding depth_block
fold_block-BlockIsFolded_example = fold_block-BlockIsFolded 2 copies (omega arith)

fold_block_idem_example : fold_block 1 (fold_block 2 copies) ≡ fold_block 2 copies
unfolding depth_block
fold_block_idem_example = fold_block_idem 2 1 copies (omega arith)

run_program-fold_constants_example :
    run_program counter callee 9 (fold_constants program) 3 0 (of_atom (number 3) ∷ []) 0
    ≡ run_program counter callee 9 program 3 0 (of_atom (number 3) ∷ []) 0
run_program-fold_constants_example =
    run_program-fold_constants counter callee 9 3 program
      (
        ((refl, refl, (refl, tt, tt)), (refl, ((refl, (tt, (refl, tt)), tt), refl), (tt, tt))),
        ((tt, refl), ((tt, tt), tt)),
      )
      0 (of_atom (number 3) ∷ []) 0
