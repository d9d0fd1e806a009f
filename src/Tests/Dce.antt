-- ===== src/Tests/Dce.antt =====
-- dce.rs: runs, and the theorems at the sample program.
use nexl.Prelude.{[], ◌∷◌, ◌≡◌, refl, true, contains, insert, In, inl, inr, arith, ◌↔◌}
use nexl.Ir.{var, func_ref, call, let_bind, block, ret}
use nexl.Ir.Semantics.{run_block}
use nexl.Ir.Mentions.{block_mentions, binds_mention, rhs_mentions, atom_mentions}
use nexl.Optimize.Dce.{
  sweep, eliminate_dead_binds_block, eliminate_dead_funcs, reachable_funcs, entry_points,
  keep_funcs,
}
use nexl.Optimize.Dce.Refs.{build_call_graph, refs_of, graph_refs, collect_func_refs_block}
use nexl.Optimize.Dce.Vars.{collect_used_vars_rhs, collect_used_vars_tail}
use nexl.Optimize.Dce.Reach.{visit_all, bfs, rounds, reachable_from}
use nexl.Optimize.Dce.Reach.Closure.{Reachable, reachable_from_iff}
use nexl.Optimize.Dce.Funcs.{
  DistinctIds, IsLive, eliminate_dead_funcs_iff, eliminate_dead_funcs_closed,
  eliminate_dead_funcs_named,
}
use nexl.Optimize.Dce.Idempotent.{eliminate_dead_binds_block_idem}
use nexl.Optimize.Dce.Meaning.{run_block-eliminate_dead_binds_block}
use nexl.Tests.Samples.{of_atom, counter, number, unused, main, helper, program}

-- The call stays; the tuple and the projection of it go.
eliminate_unused :
    eliminate_dead_binds_block unused
    ≡ block (let_bind 3 (call (func_ref 1) (var 0 ∷ [])) ∷ []) (ret (var 0))
unfolding eliminate_dead_binds_block sweep contains insert collect_used_vars_tail
    collect_used_vars_rhs
eliminate_unused = refl

eliminate_program : eliminate_dead_funcs program ≡ record program { funcs = main ∷ helper ∷ [] }
unfolding eliminate_dead_funcs reachable_funcs entry_points keep_funcs reachable_from rounds bfs
    visit_all build_call_graph refs_of graph_refs collect_func_refs_block contains insert
eliminate_program = refl

run_block-eliminate_dead_binds_block_example :
    run_block counter 9 (eliminate_dead_binds_block unused) (λ x. of_atom (number x)) 0
    ≡ run_block counter 9 unused (λ x. of_atom (number x)) 0
run_block-eliminate_dead_binds_block_example =
    run_block-eliminate_dead_binds_block counter 9 unused (λ x. of_atom (number x)) 0

eliminate_dead_binds_block_idem_example :
    eliminate_dead_binds_block (eliminate_dead_binds_block unused)
    ≡ eliminate_dead_binds_block unused
eliminate_dead_binds_block_idem_example = eliminate_dead_binds_block_idem unused

reachable_from_iff_example :
    (contains (reachable_from (build_call_graph program.funcs []) (0 ∷ [])) 1 ≡ true)
    ↔ Reachable (build_call_graph program.funcs []) (0 ∷ []) 1
reachable_from_iff_example = reachable_from_iff (build_call_graph program.funcs []) (0 ∷ []) 1

eliminate_dead_funcs_named_example : In main (eliminate_dead_funcs program).funcs
eliminate_dead_funcs_named_example = eliminate_dead_funcs_named program main "main" (inl refl) refl

ids-distinct : DistinctIds program.funcs
ids-distinct = (
  λ g i. elim i [
    | inl e ↦ rw e (omega arith)
    | inr j ↦ elim j [ inl e ↦ rw e (omega arith) | inr k ↦ elim k [ ] ]
  ],
  (λ g i. elim i [ inl e ↦ rw e (omega arith) | inr k ↦ elim k [ ] ], (λ g i. elim i [ ], tt)),
)

eliminate_dead_funcs_closed_example : In helper (eliminate_dead_funcs program).funcs
unfolding block_mentions binds_mention rhs_mentions atom_mentions
eliminate_dead_funcs_closed_example =
    eliminate_dead_funcs_closed program main helper ids-distinct eliminate_dead_funcs_named_example
      refl (inr (inl refl))

eliminate_dead_funcs_iff_example :
    In helper (eliminate_dead_funcs program).funcs ↔ IsLive program.funcs helper
eliminate_dead_funcs_iff_example = eliminate_dead_funcs_iff program helper ids-distinct
