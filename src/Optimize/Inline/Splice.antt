-- ===== src/Optimize/Inline/Splice.antt =====
-- inline.rs: a call replaced by the body of its callee does what the call does.
use mathlib.Core.Path.{fun_ext}
use nexl.Prelude.{
  ℕ, ◌≤◌, false, List, [], ◌∷◌, ◌++◌, ◌≡◌, refl, ap, ◌∙◌, sym, arith, length, Option, none, some,
}
use nexl.Ir.{VarId, Atom, unit, atom, LetBind, let_bind, block, ret, FuncDef}
use nexl.Ir.Scope.{extend_all, InScope, AllInScope, scope_after, BindsInScope}
use nexl.Ir.Semantics.{
  Machine, Outcome, done, Env, update, update_all, next, enter, run_atom, run_atoms, run_rhs,
  run_binds, run_block,
}
use nexl.Optimize.Inline.Rename.{rename_atom, rename_binds}
use nexl.Optimize.Inline.Meaning.{below, Keeps, run_atom-rename, run_binds-rename, run_binds-params}
use nexl.Optimize.Inline.{bind_params}

next-next :
    {V W : Type 0} (o : Outcome V W) (k l : V → W → Outcome V W)
    → next (next o k) l ≡ next o (λ v w. next (k v w) l)
next-next (done v w) k l = refl
next-next (Outcome.panics v w) k l = refl
next-next (Outcome.recurs vs w) k l = refl
next-next Outcome.stuck k l = refl
next-next Outcome.no_answer k l = refl
next-next Outcome.out_of_fuel k l = refl

next-enter :
    {V W : Type 0} (o : Option (Env V)) (k : Env V → W → Outcome V W) (w : W)
    (l : V → W → Outcome V W)
    → next (enter o k w) l ≡ enter o (λ ρ w'. next (k ρ w') l) w
next-enter none k w l = refl
next-enter (some ρ) k w l = refl

module _ (m : Machine) where
  open m use {Value, World}

  pub run_binds-append :
      (bs rest : List LetBind) (ρ : Env Value) (w : World)
      (k : Env Value → World → Outcome Value World)
      → run_binds m (bs ++ rest) ρ w k ≡ run_binds m bs ρ w (λ ρ' w'. run_binds m rest ρ' w' k)
  unfolding run_binds
  run_binds-append [] rest ρ w k = refl
  run_binds-append (let_bind x rhs ∷ bs) rest ρ w k =
      ap (next (run_rhs m ρ rhs w))
        (fun_ext λ u. fun_ext λ w'. run_binds-append bs rest (update x u ρ) w' k)

  next-run_binds :
      (bs : List LetBind) (ρ : Env Value) (w : World) (k : Env Value → World → Outcome Value World)
      (l : Value → World → Outcome Value World)
      → next (run_binds m bs ρ w k) l ≡ run_binds m bs ρ w (λ ρ' w'. next (k ρ' w') l)
  unfolding run_binds
  next-run_binds [] ρ w k l = refl
  next-run_binds (let_bind x rhs ∷ bs) ρ w k l =
      next-next (run_rhs m ρ rhs w) _ l
      ∙ ap (next (run_rhs m ρ rhs w))
          (fun_ext λ u. fun_ext λ w'. next-run_binds bs (update x u ρ) w' k l)

  -- The parameters, the callee's bindings and the result, in the caller's registers.
  pub run_binds-parts :
      (n fuel : ℕ) (ρ₀ ρ : Env Value) (callee : FuncDef) (args : List Atom) (binds : List LetBind)
      (a : Atom) (x : VarId) (gen : ℕ) (w : World) (k k' : Env Value → World → Outcome Value World)
      → n ≤ gen
      → Keeps m n ρ₀ ρ
      → length callee.params ≡ length args
      → AllInScope (below n) args
      → BindsInScope (extend_all callee.params (λ v. false)) binds
      → InScope (scope_after (extend_all callee.params (λ v. false)) binds) a
      → ((v : Value) (ρ₁ : Env Value) (w₁ : World)
          → Keeps m n (update x v ρ₀) ρ₁
          → k' ρ₁ w₁ ≡ k (update x v ρ₀) w₁)
      → let p = bind_params callee.params args [] gen in
        let r = rename_binds binds p.1 p.2 in
        run_binds m (p.0 ++ (r.0 ++ let_bind x (atom (rename_atom r.1 a)) ∷ [])) ρ w k'
        ≡ next
            (enter
              (update_all callee.params (run_atoms m ρ₀ args) (λ v. m.constant unit))
              (run_block m fuel (block binds (ret a)))
              w)
            (λ v w₁. k (update x v ρ₀) w₁)
  unfolding run_binds run_rhs run_block
  run_binds-parts n fuel ρ₀ ρ callee args binds a x gen w k k' le keeps len args-below scoped
        a-scoped eq =
      let p = bind_params callee.params args [] gen in
      let r = rename_binds binds p.1 p.2 in
      run_binds-append p.0 _ ρ w k'
      ∙ run_binds-params m n ρ₀ callee.params args (λ v. false) [] gen (λ v. m.constant unit) ρ le
          len args-below (λ v e. absurd (ground arith)) keeps
          (λ σ₁ w₁. next (run_block m fuel (block binds (ret a)) σ₁ w₁) (λ v. k (update x v ρ₀))) _
          (λ σ₁ ρ₁ w₁ le₁ h₁ keeps₁.
            run_binds-append r.0 _ ρ₁ w₁ k'
            ∙ run_binds-rename m n ρ₀ binds _ p.1 p.2 σ₁ ρ₁ le₁ h₁ keeps₁ scoped _ _
                (λ σ₂ ρ₂ w₂ h₂ keeps₂. cc (
                  run_atom-rename m _ r.1 r.2 σ₂ ρ₂ h₂ a a-scoped,
                  eq (run_atom m σ₂ a) (update x (run_atom m σ₂ a) ρ₂) w₂
                      (λ v e. ground (arith, keeps₂ v e)),
                ))
                w₁
            ∙ sym (next-run_binds binds σ₁ w₁ _ _))
          w
      ∙ sym (next-enter (update_all callee.params (run_atoms m ρ₀ args) _) _ w _)
