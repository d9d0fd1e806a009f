-- ===== src/Optimize/Dce/Vars/Blocks.antt =====
-- dce.rs: a whole block depends on its collected variables alone.
use nexl.Prelude.{
  ℕ, Option, none, some, String, List, ◌≡◌, refl, ap, ◌∙◌, Ids, Within, Bool-cases, inl, inr,
  str_eq,
}
use nexl.Ir.{Block, block, Tail, ret, if_else, tail_call, match, panic, loop, recur, Arms, nil, arm}
use nexl.Ir.Scope.{bound_names}
use nexl.Ir.Semantics.{Machine, Env, run_atom, run_block, run_tail, run_arms}
use nexl.Optimize.Dce.Vars.{collect_used_vars_block, collect_used_vars_tail, collect_used_vars_arms}
use nexl.Optimize.Dce.Vars.Mono.{Within-atoms, Within-block, Within-tail, Within-arms}
use nexl.Optimize.Dce.Vars.Reads.{
  AgreeOn, run_atom-agree, run_atoms-agree, run_inits-agree, run_binds-agree, enter-agree,
  iterate-agree,
}

module _ (m : Machine) (n : ℕ) where
  open m use {Value, World, parts, truth}

  mutual
    unfolding collect_used_vars_block run_block

    run_block-agree_in :
        (b : Block) (out s : Ids)
        → Within (collect_used_vars_block b out) s
        → (ρ ρ' : Env Value) → AgreeOn m s ρ ρ'
        → (w : World) → run_block m n b ρ w ≡ run_block m n b ρ' w
    run_block-agree_in (block binds tail) out s le ρ ρ' h w =
        run_binds-agree m binds out s ρ ρ' h (λ v e. le v (Within-tail tail _ v e))
          (run_tail m n tail) (λ ρ₁ ρ₁' w₁ h₁. run_tail-agree_in tail _ s le ρ₁ ρ₁' h₁ w₁) w

    run_tail-agree_in :
        (t : Tail) (out s : Ids)
        → Within (collect_used_vars_tail t out) s
        → (ρ ρ' : Env Value) → AgreeOn m s ρ ρ'
        → (w : World) → run_tail m n t ρ w ≡ run_tail m n t ρ' w
    run_tail-agree_in (ret a) out s le ρ ρ' h w =
        rw (run_atom-agree m a out ρ ρ' (λ v e. h v (le v e)))
    run_tail-agree_in (if_else c t e) out s le ρ ρ' h w = rw (
      run_atom-agree m c out ρ ρ' (λ v g. h v (le v (Within-block e _ v (Within-block t _ v g)))),
      run_block-agree_in t _ s (λ v g. le v (Within-block e _ v g)) ρ ρ' h w,
      run_block-agree_in e _ s le ρ ρ' h w,
    )
    run_tail-agree_in (tail_call f args) out s le ρ ρ' h w = rw (
      run_atom-agree m f out ρ ρ' (λ v e. h v (le v (Within-atoms args _ v e))),
      run_atoms-agree m args _ ρ ρ' (λ v e. h v (le v e)),
    )
    run_tail-agree_in (match a arms) out s le ρ ρ' h w =
        run_arms-agree_in arms _ s le (parts (run_atom m ρ a)) ρ ρ' h w
        ∙ ap (λ u. run_arms m n arms (parts u) ρ' w)
            (run_atom-agree m a out ρ ρ' (λ v e. h v (le v (Within-arms arms _ v e))))
    run_tail-agree_in (panic a) out s le ρ ρ' h w =
        rw (run_atom-agree m a out ρ ρ' (λ v e. h v (le v e)))
    run_tail-agree_in (loop vars body) out s le ρ ρ' h w =
        rw (run_inits-agree m vars out ρ ρ' (λ v e. h v (le v (Within-block body _ v e)))) (
          iterate-agree m n (bound_names vars) _ s ρ ρ' h (run_block m n body)
            (λ ρ₁ ρ₁' w₁ h₁. run_block-agree_in body _ s le ρ₁ ρ₁' h₁ w₁) w)
    run_tail-agree_in (recur args) out s le ρ ρ' h w =
        rw (run_atoms-agree m args out ρ ρ' (λ v e. h v (le v e)))

    run_arms-agree_in :
        (arms : Arms) (out s : Ids)
        → Within (collect_used_vars_arms arms out) s
        → (p : Option (String × List Value)) (ρ ρ' : Env Value) → AgreeOn m s ρ ρ'
        → (w : World) → run_arms m n arms p ρ w ≡ run_arms m n arms p ρ' w
    run_arms-agree_in nil out s le p ρ ρ' h w = refl
    run_arms-agree_in (arm c xs b rest) out s le none ρ ρ' h w = refl
    run_arms-agree_in (arm c xs b rest) out s le (some (c', vs)) ρ ρ' h w =
        elim (Bool-cases (str_eq c' c)) [
          | inl same ↦ rw same (
              enter-agree m xs vs s ρ ρ' h (run_block m n b)
                (λ ρ₁ ρ₁' w₁ h₁.
                  run_block-agree_in b out s (λ v e. le v (Within-arms rest _ v e)) ρ₁ ρ₁' h₁ w₁)
                w)
          | inr other ↦ rw other (run_arms-agree_in rest _ s le (some (c', vs)) ρ ρ' h w)
        ]

  pub run_tail-agree :
      (t : Tail) (out : Ids) (ρ ρ' : Env Value)
      → AgreeOn m (collect_used_vars_tail t out) ρ ρ'
      → (w : World) → run_tail m n t ρ w ≡ run_tail m n t ρ' w
  run_tail-agree t out ρ ρ' h w = run_tail-agree_in t out _ (λ v e. e) ρ ρ' h w
