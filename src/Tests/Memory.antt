-- ===== src/Tests/Memory.antt =====
-- crates/nexl-memory/src/lib.rs: runs, and the theorems at concrete inputs.
use nexl.Prelude.{[], ◌∷◌, ◌≡◌, refl, inl}
use nexl.Ir.{var, func_ref, make_tuple, let_bind, LetBind, block, Tail, ret, tail_call}
use nexl.Ir.Binders.{binders}
use nexl.Memory.{
  drop, rc, bind, RcAnnotatedBlock, is_heap_alloc, annotate_block, run_dup_drop, run_reuse,
  analyze_block_for_reuse,
}
use nexl.Memory.Counts.{counts_after, annotate_block-returned, annotate_block-freed}
use nexl.Memory.Reuse.{run_reuse-run_dup_drop}
use nexl.Memory.Justified.{Justified, analyze_block_for_reuse-Justified}
use nexl.Prelude.{List, contains}
use nexl.Tests.Samples.{number, program}

-- %1 = (Some 5); %2 = (None)
abbrev two_tuples : List LetBind
two_tuples = let_bind 1 (make_tuple "Some" (number 5 ∷ [])) ∷ let_bind 2 (make_tuple "None" []) ∷ []

-- A tail call that passes %1, which is dropped before it.
abbrev passes : Tail
passes = tail_call (func_ref 1) (var 1 ∷ [])

annotate_two_tuples :
    (annotate_block (block two_tuples passes)).steps
    ≡ bind (let_bind 1 (make_tuple "Some" (number 5 ∷ [])))
      ∷ bind (let_bind 2 (make_tuple "None" []))
      ∷ rc (drop 1)
      ∷ rc (drop 2)
      ∷ []
unfolding annotate_block
annotate_two_tuples = refl

annotate_block-returned_example :
    counts_after (annotate_block (block two_tuples (ret (var 1)))).steps (λ x. 0) 1 ≡ 1
unfolding binders contains is_heap_alloc
annotate_block-returned_example =
    annotate_block-returned two_tuples 1 (make_tuple "Some" (number 5 ∷ [])) (refl, (refl, tt))
      (inl refl) refl

annotate_block-freed_example :
    counts_after (annotate_block (block two_tuples passes)).steps (λ x. 0) 1 ≡ 0
unfolding binders contains is_heap_alloc
annotate_block-freed_example =
    annotate_block-freed two_tuples passes 1 (make_tuple "Some" (number 5 ∷ [])) (refl, (refl, tt))
      (inl refl) refl (cc)

run_reuse-run_dup_drop_example : run_reuse (run_dup_drop program) ≡ []
run_reuse-run_dup_drop_example = run_reuse-run_dup_drop program

-- A drop between two allocations of one size.
abbrev between : RcAnnotatedBlock
between = record {
  steps =
      bind (let_bind 1 (make_tuple "None" []))
      ∷ rc (drop 1)
      ∷ bind (let_bind 2 (make_tuple "Nil" []))
      ∷ [];
  tail = ret (var 2);
}

analyze_between :
    analyze_block_for_reuse between [] ≡ (2, record { dropped_var = 1; slot_count = 1 }) ∷ []
unfolding analyze_block_for_reuse
analyze_between = refl

analyze_block_for_reuse-Justified_example :
    Justified 2 (record { dropped_var = 1; slot_count = 1 }) [] between.steps
unfolding analyze_block_for_reuse contains
analyze_block_for_reuse-Justified_example =
    analyze_block_for_reuse-Justified between 2 (record { dropped_var = 1; slot_count = 1 })
      (refl, (refl, (refl, tt))) (inl refl)
