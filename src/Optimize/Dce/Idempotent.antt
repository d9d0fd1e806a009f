-- ===== src/Optimize/Dce/Idempotent.antt =====
-- dce.rs: one pass over a block leaves no binding that a second pass would remove.
use nexl.Prelude.{List, [], ◌∷◌, ◌≡◌, refl, ◌||◌, Ids, contains, Bool-cases, inl, inr, ap}
use nexl.Ir.{LetBind, let_bind, Block, block, Tail, if_else, match, loop, Arms, nil, arm}
use nexl.Optimize.Dce.{
  rhs_has_side_effects, sweep, eliminate_dead_binds_block, eliminate_dead_binds_tail,
  eliminate_dead_binds_arms,
}
use nexl.Optimize.Dce.Vars.{collect_used_vars_tail}

sweep_idem : (bs : List LetBind) (used : Ids) → sweep (sweep bs used).0 used ≡ sweep bs used
unfolding sweep
sweep_idem [] used = refl
sweep_idem (let_bind x rhs ∷ bs) used =
    elim (Bool-cases (contains (sweep bs used).1 x || rhs_has_side_effects rhs)) [
      | inl live ↦ rw (live, sweep_idem bs used, live)
      | inr dead ↦ rw dead (sweep_idem bs used)
    ]

mutual
  unfolding eliminate_dead_binds_block

  block_idem :
      (b : Block)
      → eliminate_dead_binds_block (eliminate_dead_binds_block b) ≡ eliminate_dead_binds_block b
  block_idem (block binds tail) = rw (tail_idem tail) (
      ap (λ (p : List LetBind × Ids). block p.0 (eliminate_dead_binds_tail tail))
        (sweep_idem binds (collect_used_vars_tail (eliminate_dead_binds_tail tail) [])))

  tail_idem :
      (t : Tail)
      → eliminate_dead_binds_tail (eliminate_dead_binds_tail t) ≡ eliminate_dead_binds_tail t
  tail_idem (if_else c t e) = cc (block_idem t, block_idem e)
  tail_idem (match a arms) = cc (arms_idem arms)
  tail_idem (loop vars body) = cc (block_idem body)
  tail_idem _ = refl

  arms_idem :
      (arms : Arms)
      → eliminate_dead_binds_arms (eliminate_dead_binds_arms arms) ≡ eliminate_dead_binds_arms arms
  arms_idem nil = refl
  arms_idem (arm c xs b rest) = cc (block_idem b, arms_idem rest)

-- A second pass changes nothing: no binding becomes dead by the removal of others.
pub eliminate_dead_binds_block_idem :
    (b : Block)
    → eliminate_dead_binds_block (eliminate_dead_binds_block b) ≡ eliminate_dead_binds_block b
eliminate_dead_binds_block_idem b = block_idem b
