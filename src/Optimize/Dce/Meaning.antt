-- ===== src/Optimize/Dce/Meaning.antt =====
-- dce.rs: removing the unused bindings keeps the meaning of every block and of every program.
use mathlib.Core.Path.{fun_ext}
use nexl.Prelude.{
  ℕ, false, Option, none, some, String, List, [], ◌∷◌, ◌≡◌, refl, sym, ap, ◌∙◌, ◌||◌, Ids, contains,
  Bool-cases, inl, inr, str_eq, arith,
}
use nexl.Ir.{
  VarId, unit, Rhs, atom, call, make_closure, make_tuple, project, LetBind, let_bind, Block, block,
  Tail, if_else, match, loop, Arms, nil, arm,
}
use nexl.Ir.Scope.{bound_names}
use nexl.Ir.Semantics.{
  Machine, Outcome, done, Env, next, update, update_all, enter, run_rhs, run_inits, run_binds,
  run_block, run_tail, run_arms, iterate,
}
use nexl.Ir.Semantics.Program.{run_func}
use nexl.Ir.Semantics.Pass.{IsSound}
use nexl.Optimize.Dce.{
  rhs_has_side_effects, sweep, eliminate_dead_binds_block, eliminate_dead_binds_tail,
  eliminate_dead_binds_arms, clean_func,
}
use nexl.Optimize.Dce.Vars.{collect_used_vars_rhs, collect_used_vars_tail}
use nexl.Optimize.Dce.Vars.Mono.{Within-rhs}
use nexl.Optimize.Dce.Vars.Reads.{AgreeOn, AgreeOn-update, run_rhs-agree}
use nexl.Optimize.Dce.Vars.Blocks.{run_tail-agree}

module _ (m : Machine) where
  open m use {Value, World}

  -- A right-hand side that is no call gives a value and leaves the world alone.
  run_rhs-done :
      (ρ : Env Value) (rhs : Rhs) (w : World)
      → rhs_has_side_effects rhs ≡ false
      → (v : Value) × (run_rhs m ρ rhs w ≡ done v w)
  unfolding rhs_has_side_effects run_rhs
  run_rhs-done ρ (call f args) w h = cc
  run_rhs-done ρ (atom a) w h = (_, refl)
  run_rhs-done ρ (make_closure id captures) w h = (_, refl)
  run_rhs-done ρ (make_tuple ctor fields) w h = (_, refl)
  run_rhs-done ρ (project base index) w h = (_, refl)

  AgreeOn-unused :
      (s : Ids) (x : VarId) (u : Value) (ρ ρ' : Env Value)
      → contains s x ≡ false
      → AgreeOn m s ρ ρ'
      → AgreeOn m s (update x u ρ) ρ'
  AgreeOn-unused s x u ρ ρ' dead h v e = ground (arith, h v e)

  run_binds-sweep :
      (bs : List LetBind) (used : Ids) (ρ ρ' : Env Value)
      → AgreeOn m (sweep bs used).1 ρ ρ'
      → (k k' : Env Value → World → Outcome Value World)
      → ((ρ₁ ρ₁' : Env Value) (w : World) → AgreeOn m used ρ₁ ρ₁' → k' ρ₁' w ≡ k ρ₁ w)
      → (w : World) → run_binds m (sweep bs used).0 ρ' w k' ≡ run_binds m bs ρ w k
  unfolding sweep run_binds
  run_binds-sweep [] used ρ ρ' h k k' eq w = eq ρ ρ' w h
  run_binds-sweep (let_bind x rhs ∷ bs) used ρ ρ' h k k' eq w =
      let used' = (sweep bs used).1 in
      elim (Bool-cases (contains used' x || rhs_has_side_effects rhs)) [
        | inl live ↦
            let h' : AgreeOn m (collect_used_vars_rhs rhs used') ρ ρ' = rw live at h in
            rw (live, ← run_rhs-agree m rhs used' ρ ρ' h' w)
              (ap (next (run_rhs m ρ rhs w)) (
                fun_ext λ u. fun_ext λ w'.
                  run_binds-sweep bs used _ _
                    (AgreeOn-update m used' x u ρ ρ' (λ v e. h' v (Within-rhs rhs used' v e))) k k'
                    eq w'))
        | inr dead ↦
            let (v, e) = run_rhs-done ρ rhs w (ground arith) in
            rw (dead, e)
              (run_binds-sweep bs used _ ρ'
                (AgreeOn-unused used' x v ρ ρ' (ground arith) (rw dead at h)) k k' eq w)
      ]

module _ (m : Machine) (n : ℕ) where
  open m use {Value, World, parts}

  mutual
    unfolding eliminate_dead_binds_block run_block

    run_block-eliminate :
        (b : Block) (ρ : Env Value) (w : World)
        → run_block m n (eliminate_dead_binds_block b) ρ w ≡ run_block m n b ρ w
    run_block-eliminate (block binds tail) ρ w =
        let clean = eliminate_dead_binds_tail tail in
        run_binds-sweep m binds (collect_used_vars_tail clean []) ρ ρ (λ v e. refl)
          (run_tail m n tail) (run_tail m n clean)
          (λ ρ₁ ρ₁' w₁ h₁.
            sym (run_tail-agree m n clean [] ρ₁ ρ₁' h₁ w₁) ∙ run_tail-eliminate tail ρ₁ w₁)
          w

    run_tail-eliminate :
        (t : Tail) (ρ : Env Value) (w : World)
        → run_tail m n (eliminate_dead_binds_tail t) ρ w ≡ run_tail m n t ρ w
    run_tail-eliminate (if_else c t e) ρ w =
        rw (run_block-eliminate t ρ w, run_block-eliminate e ρ w)
    run_tail-eliminate (match a arms) ρ w = run_arms-eliminate arms _ ρ w
    run_tail-eliminate (loop vars body) ρ w =
        ap (λ k. iterate n (bound_names vars) k ρ (run_inits m ρ vars) w)
          (fun_ext λ ρ₁. fun_ext λ w₁. run_block-eliminate body ρ₁ w₁)
    run_tail-eliminate _ ρ w = refl

    run_arms-eliminate :
        (arms : Arms) (p : Option (String × List Value)) (ρ : Env Value) (w : World)
        → run_arms m n (eliminate_dead_binds_arms arms) p ρ w ≡ run_arms m n arms p ρ w
    run_arms-eliminate nil p ρ w = refl
    run_arms-eliminate (arm c xs b rest) none ρ w = refl
    run_arms-eliminate (arm c xs b rest) (some (c', vs)) ρ w = elim (Bool-cases (str_eq c' c)) [
      | inl same ↦ rw same (
          ap (λ k. enter (update_all xs vs ρ) k w)
            (fun_ext λ ρ₁. fun_ext λ w₁. run_block-eliminate b ρ₁ w₁))
      | inr other ↦ rw other (run_arms-eliminate rest (some (c', vs)) ρ w)
    ]

-- A block and what is left of it without its unused bindings end in the same way, on every
-- machine and with any bound `n` on the rounds of a loop. The block need not be well scoped.
pub run_block-eliminate_dead_binds_block :
    (m : Machine) (n : ℕ) (b : Block) (ρ : Env m.Value) (w : m.World)
    → run_block m n (eliminate_dead_binds_block b) ρ w ≡ run_block m n b ρ w
run_block-eliminate_dead_binds_block m n b ρ w = run_block-eliminate m n b ρ w

pub clean_func-IsSound : IsSound clean_func
unfolding clean_func run_func
clean_func-IsSound = record {
  same_id = λ f. refl;
  same_run = λ m n f h vs w.
      ap (λ k. enter (update_all f.params vs (λ x. m.constant unit)) k w)
        (fun_ext λ ρ. fun_ext λ w₁. run_block-eliminate m n f.body ρ w₁);
}
