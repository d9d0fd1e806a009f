-- ===== src/Optimize/Dce/Vars/Reads.antt =====
-- dce.rs: what a block does depends on the collected variables alone.
use mathlib.Core.Path.{fun_ext}
use nexl.Prelude.{
  ℕ, zero, suc, true, List, [], ◌∷◌, ◌≡◌, refl, ap, Ids, Within, contains, contains-insert_self,
  arith,
}
use nexl.Ir.{
  VarId, Atom, var, Rhs, atom, call, make_closure, make_tuple, project, LetBind, let_bind,
}
use nexl.Ir.Semantics.{
  Machine, Outcome, Env, update, update_all, next, enter, again, iterate, run_atom, run_atoms,
  run_inits, run_rhs, run_binds,
}
use nexl.Optimize.Dce.Vars.{
  collect_used_vars_atom, collect_used_vars_atoms, collect_used_vars_pairs, collect_used_vars_rhs,
  collect_used_vars_binds,
}
use nexl.Optimize.Dce.Vars.Mono.{Within-atoms, Within-pairs, Within-binds}

module _ (m : Machine) where
  open m use {Value, World, parts, truth, apply}

  abbrev pub AgreeOn : Ids → Env Value → Env Value → Type 0
  AgreeOn used ρ ρ' = (v : VarId) → contains used v ≡ true → ρ v ≡ ρ' v

  pub AgreeOn-Within : (s t : Ids) (ρ ρ' : Env Value) → Within s t → AgreeOn t ρ ρ' → AgreeOn s ρ ρ'
  AgreeOn-Within s t ρ ρ' le h v e = h v (le v e)

  pub AgreeOn-update :
      (s : Ids) (x : VarId) (u : Value) (ρ ρ' : Env Value)
      → AgreeOn s ρ ρ'
      → AgreeOn s (update x u ρ) (update x u ρ')
  AgreeOn-update s x u ρ ρ' h v e = ground (arith, h v e)

  pub run_atom-agree :
      (a : Atom) (out : Ids) (ρ ρ' : Env Value)
      → AgreeOn (collect_used_vars_atom a out) ρ ρ'
      → run_atom m ρ a ≡ run_atom m ρ' a
  unfolding collect_used_vars_atom run_atom
  run_atom-agree (var x) out ρ ρ' h = h x (contains-insert_self x out)
  run_atom-agree _ out ρ ρ' h = refl

  pub run_atoms-agree :
      (l : List Atom) (out : Ids) (ρ ρ' : Env Value)
      → AgreeOn (collect_used_vars_atoms l out) ρ ρ'
      → run_atoms m ρ l ≡ run_atoms m ρ' l
  unfolding collect_used_vars_atoms run_atoms
  run_atoms-agree [] out ρ ρ' h = refl
  run_atoms-agree (a ∷ l) out ρ ρ' h =
      cc (run_atom-agree a out ρ ρ' (λ v e. h v (Within-atoms l _ v e)), run_atoms-agree l _ ρ ρ' h)

  pub run_inits-agree :
      (l : List (VarId × Atom)) (out : Ids) (ρ ρ' : Env Value)
      → AgreeOn (collect_used_vars_pairs l out) ρ ρ'
      → run_inits m ρ l ≡ run_inits m ρ' l
  unfolding collect_used_vars_pairs run_inits
  run_inits-agree [] out ρ ρ' h = refl
  run_inits-agree ((x, a) ∷ l) out ρ ρ' h =
      cc (run_atom-agree a out ρ ρ' (λ v e. h v (Within-pairs l _ v e)), run_inits-agree l _ ρ ρ' h)

  pub run_rhs-agree :
      (rhs : Rhs) (out : Ids) (ρ ρ' : Env Value)
      → AgreeOn (collect_used_vars_rhs rhs out) ρ ρ'
      → (w : World) → run_rhs m ρ rhs w ≡ run_rhs m ρ' rhs w
  unfolding collect_used_vars_rhs run_rhs
  run_rhs-agree (atom a) out ρ ρ' h w = cc (run_atom-agree a out ρ ρ' h)
  run_rhs-agree (call f args) out ρ ρ' h w = cc (
    run_atom-agree f out ρ ρ' (λ v e. h v (Within-atoms args _ v e)),
    run_atoms-agree args _ ρ ρ' h,
  )
  run_rhs-agree (make_closure id captures) out ρ ρ' h w = cc (run_inits-agree captures out ρ ρ' h)
  run_rhs-agree (make_tuple ctor fields) out ρ ρ' h w = cc (run_atoms-agree fields out ρ ρ' h)
  run_rhs-agree (project base index) out ρ ρ' h w = cc (run_atom-agree base out ρ ρ' h)

  pub run_binds-agree :
      (bs : List LetBind) (out s : Ids) (ρ ρ' : Env Value)
      → AgreeOn s ρ ρ'
      → Within (collect_used_vars_binds bs out) s
      → (k : Env Value → World → Outcome Value World)
      → ((ρ₁ ρ₁' : Env Value) (w : World) → AgreeOn s ρ₁ ρ₁' → k ρ₁ w ≡ k ρ₁' w)
      → (w : World) → run_binds m bs ρ w k ≡ run_binds m bs ρ' w k
  unfolding collect_used_vars_binds run_binds
  run_binds-agree [] out s ρ ρ' h le k eq w = eq ρ ρ' w h
  run_binds-agree (let_bind x rhs ∷ bs) out s ρ ρ' h le k eq w =
      rw (run_rhs-agree rhs out ρ ρ' (λ v e. h v (le v (Within-binds bs _ v e))) w) (
        ap (next (run_rhs m ρ' rhs w)) (
          fun_ext
            λ u. fun_ext λ w'. run_binds-agree bs _ s _ _ (AgreeOn-update s x u ρ ρ' h) le k eq w'))

  pub enter-agree :
      (xs : List VarId) (vs : List Value) (s : Ids) (ρ ρ' : Env Value)
      → AgreeOn s ρ ρ'
      → (k : Env Value → World → Outcome Value World)
      → ((ρ₁ ρ₁' : Env Value) (w : World) → AgreeOn s ρ₁ ρ₁' → k ρ₁ w ≡ k ρ₁' w)
      → (w : World) → enter (update_all xs vs ρ) k w ≡ enter (update_all xs vs ρ') k w
  enter-agree [] [] s ρ ρ' h k eq w = eq ρ ρ' w h
  enter-agree [] (v ∷ vs) s ρ ρ' h k eq w = refl
  enter-agree (x ∷ xs) [] s ρ ρ' h k eq w = refl
  enter-agree (x ∷ xs) (v ∷ vs) s ρ ρ' h k eq w =
      enter-agree xs vs s _ _ (AgreeOn-update s x v ρ ρ' h) k eq w

  pub iterate-agree :
      (n : ℕ) (xs : List VarId) (vs : List Value) (s : Ids) (ρ ρ' : Env Value)
      → AgreeOn s ρ ρ'
      → (k : Env Value → World → Outcome Value World)
      → ((ρ₁ ρ₁' : Env Value) (w : World) → AgreeOn s ρ₁ ρ₁' → k ρ₁ w ≡ k ρ₁' w)
      → (w : World) → iterate n xs k ρ vs w ≡ iterate n xs k ρ' vs w
  unfolding iterate
  iterate-agree zero xs vs s ρ ρ' h k eq w = refl
  iterate-agree (suc n) xs vs s ρ ρ' h k eq w = rw (enter-agree xs vs s ρ ρ' h k eq w) (
      ap (λ c. again c (enter (update_all xs vs ρ') k w))
        (fun_ext λ us. fun_ext λ w'. iterate-agree n xs us s ρ ρ' h k eq w'))
