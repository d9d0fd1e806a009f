-- ===== src/Optimize/Inline/Meaning.antt =====
-- inline.rs: renamed bindings in the registers of the caller do what they did in the callee's.
use mathlib.Core.Path.{fun_ext}
use nexl.Prelude.{
  ℕ, suc, ◌≤◌, ◌<◌, true, List, [], ◌∷◌, ◌≡◌, refl, ap, ◌==◌, inl, inr, arith, Bool-cases, length,
  ltb,
}
use nexl.Ir.{
  VarId, Atom, var, Rhs, atom, call, make_closure, make_tuple, project, LetBind, let_bind,
}
use nexl.Ir.Scope.{
  Scope, extend, extend_all, InScope, AllInScope, PairsInScope, RhsInScope, scope_after,
  BindsInScope,
}
use nexl.Ir.Semantics.{
  Machine, Outcome, Env, update, update_all, next, enter, run_atom, run_atoms, run_inits, run_rhs,
  run_binds,
}
use nexl.Optimize.Inline.Rename.{
  Renaming, renamed, rename_atom, rename_atoms, rename_captures, rename_rhs, rename_binds,
}
use nexl.Optimize.Inline.{bind_params}

-- The identifiers below `n`, as a scope.
abbrev pub below : ℕ → Scope
below n v = ltb v n

module _ (m : Machine) where
  open m use {Value, World}

  -- The caller's registers hold the callee's variables in scope under their new names, which are
  -- below `gen`.
  abbrev pub Holds : Scope → Renaming → ℕ → Env Value → Env Value → Type 0
  Holds s rename gen σ ρ =
      (v : VarId) → s v ≡ true → (ρ (renamed rename v) ≡ σ v) × (renamed rename v < gen)

  -- The caller's own registers, below `n`, are as they were.
  abbrev pub Keeps : ℕ → Env Value → Env Value → Type 0
  Keeps n ρ₀ ρ = (v : VarId) → v < n → ρ v ≡ ρ₀ v

  Holds-extend :
      (s : Scope) (rename : Renaming) (gen : ℕ) (σ ρ : Env Value) (x : VarId) (u : Value)
      → Holds s rename gen σ ρ
      → Holds (extend x s) ((x, gen) ∷ rename) (suc gen) (update x u σ) (update gen u ρ)
  unfolding renamed
  Holds-extend s rename gen σ ρ x u h v e = elim (Bool-cases (v == x)) [
    | inl same ↦ rw same (ground arith, omega arith)
    | inr other ↦
        let t = h v (ground arith) in rw other (ground (arith, t.0, t.1), omega (arith, t.1))
  ]

  Keeps-extend :
      (n : ℕ) (ρ₀ ρ : Env Value) (gen : ℕ) (u : Value)
      → n ≤ gen
      → Keeps n ρ₀ ρ
      → Keeps n ρ₀ (update gen u ρ)
  Keeps-extend n ρ₀ ρ gen u le h v e = ground (arith, h v e)

  module _ (s : Scope) (rename : Renaming) (gen : ℕ) (σ ρ : Env Value)
      (h : Holds s rename gen σ ρ) where
    pub run_atom-rename :
        (a : Atom) → InScope s a → run_atom m ρ (rename_atom rename a) ≡ run_atom m σ a
    unfolding rename_atom run_atom
    run_atom-rename (var v) i = (h v i).0
    run_atom-rename _ i = refl

    run_atoms-rename :
        (l : List Atom) → AllInScope s l → run_atoms m ρ (rename_atoms rename l) ≡ run_atoms m σ l
    unfolding rename_atoms run_atoms
    run_atoms-rename [] i = refl
    run_atoms-rename (a ∷ l) i = cc (run_atom-rename a i.0, run_atoms-rename l i.1)

    run_inits-rename :
        (l : List (VarId × Atom))
        → PairsInScope s l
        → run_inits m ρ (rename_captures rename l) ≡ run_inits m σ l
    unfolding rename_captures run_inits
    run_inits-rename [] i = refl
    run_inits-rename ((x, a) ∷ l) i = cc (run_atom-rename a i.0, run_inits-rename l i.1)

    run_rhs-rename :
        (rhs : Rhs) (w : World)
        → RhsInScope s rhs
        → run_rhs m ρ (rename_rhs rename rhs) w ≡ run_rhs m σ rhs w
    unfolding rename_rhs run_rhs
    run_rhs-rename (atom a) w i = cc (run_atom-rename a i)
    run_rhs-rename (call f args) w i = cc (run_atom-rename f i.0, run_atoms-rename args i.1)
    run_rhs-rename (make_closure id captures) w i = cc (run_inits-rename captures i)
    run_rhs-rename (make_tuple ctor fields) w i = cc (run_atoms-rename fields i)
    run_rhs-rename (project base index) w i = cc (run_atom-rename base i)

  pub run_atom-Keeps :
      (n : ℕ) (ρ₀ ρ : Env Value) (a : Atom)
      → Keeps n ρ₀ ρ
      → InScope (below n) a
      → run_atom m ρ a ≡ run_atom m ρ₀ a
  unfolding run_atom
  run_atom-Keeps n ρ₀ ρ (var v) h b = h v (ground arith)
  run_atom-Keeps n ρ₀ ρ _ h b = refl

  pub run_atoms-Keeps :
      (n : ℕ) (ρ₀ ρ : Env Value) (l : List Atom)
      → Keeps n ρ₀ ρ
      → AllInScope (below n) l
      → run_atoms m ρ l ≡ run_atoms m ρ₀ l
  unfolding run_atoms
  run_atoms-Keeps n ρ₀ ρ [] h b = refl
  run_atoms-Keeps n ρ₀ ρ (a ∷ l) h b =
      cc (run_atom-Keeps n ρ₀ ρ a h b.0, run_atoms-Keeps n ρ₀ ρ l h b.1)

  pub run_inits-Keeps :
      (n : ℕ) (ρ₀ ρ : Env Value) (l : List (VarId × Atom))
      → Keeps n ρ₀ ρ
      → PairsInScope (below n) l
      → run_inits m ρ l ≡ run_inits m ρ₀ l
  unfolding run_inits
  run_inits-Keeps n ρ₀ ρ [] h b = refl
  run_inits-Keeps n ρ₀ ρ ((x, a) ∷ l) h b =
      cc (run_atom-Keeps n ρ₀ ρ a h b.0, run_inits-Keeps n ρ₀ ρ l h b.1)

  pub run_rhs-Keeps :
      (n : ℕ) (ρ₀ ρ : Env Value) (rhs : Rhs) (w : World)
      → Keeps n ρ₀ ρ
      → RhsInScope (below n) rhs
      → run_rhs m ρ rhs w ≡ run_rhs m ρ₀ rhs w
  unfolding run_rhs
  run_rhs-Keeps n ρ₀ ρ (atom a) w h b = cc (run_atom-Keeps n ρ₀ ρ a h b)
  run_rhs-Keeps n ρ₀ ρ (call f args) w h b =
      cc (run_atom-Keeps n ρ₀ ρ f h b.0, run_atoms-Keeps n ρ₀ ρ args h b.1)
  run_rhs-Keeps n ρ₀ ρ (make_closure id captures) w h b = cc (run_inits-Keeps n ρ₀ ρ captures h b)
  run_rhs-Keeps n ρ₀ ρ (make_tuple ctor fields) w h b = cc (run_atoms-Keeps n ρ₀ ρ fields h b)
  run_rhs-Keeps n ρ₀ ρ (project base index) w h b = cc (run_atom-Keeps n ρ₀ ρ base h b)

  module _ (n : ℕ) (ρ₀ : Env Value) where
    -- The renamed bindings, run in the caller's registers.
    pub run_binds-rename :
        (bs : List LetBind) (s : Scope) (rename : Renaming) (gen : ℕ) (σ ρ : Env Value)
        → n ≤ gen
        → Holds s rename gen σ ρ
        → Keeps n ρ₀ ρ
        → BindsInScope s bs
        → (k k' : Env Value → World → Outcome Value World)
        → ((σ₁ ρ₁ : Env Value) (w : World)
            → Holds
                (scope_after s bs)
                (rename_binds bs rename gen).1
                (rename_binds bs rename gen).2
                σ₁
                ρ₁
            → Keeps n ρ₀ ρ₁
            → k' ρ₁ w ≡ k σ₁ w)
        → (w : World) → run_binds m (rename_binds bs rename gen).0 ρ w k' ≡ run_binds m bs σ w k
    unfolding rename_binds run_binds
    run_binds-rename [] s rename gen σ ρ le h kp b k k' eq w = eq σ ρ w h kp
    run_binds-rename (let_bind x rhs ∷ bs) s rename gen σ ρ le h kp b k k' eq w =
        rw (run_rhs-rename s rename gen σ ρ h rhs w b.1) (
          ap (next (run_rhs m σ rhs w)) (
            fun_ext λ u. fun_ext λ w'.
              run_binds-rename bs (extend x s) ((x, gen) ∷ rename) (suc gen) _ _ (omega arith)
                (Holds-extend s rename gen σ ρ x u h) (Keeps-extend n ρ₀ ρ gen u le kp) b.2 k k' eq
                w'))

    -- The parameter bindings enter the callee with the values of the arguments.
    pub run_binds-params :
        (params : List VarId) (args : List Atom) (s : Scope) (rename : Renaming) (gen : ℕ)
        (σ ρ : Env Value)
        → n ≤ gen
        → length params ≡ length args
        → AllInScope (below n) args
        → Holds s rename gen σ ρ
        → Keeps n ρ₀ ρ
        → (k k' : Env Value → World → Outcome Value World)
        → ((σ₁ ρ₁ : Env Value) (w : World)
            → n ≤ (bind_params params args rename gen).2
            → Holds
                (extend_all params s)
                (bind_params params args rename gen).1
                (bind_params params args rename gen).2
                σ₁
                ρ₁
            → Keeps n ρ₀ ρ₁
            → k' ρ₁ w ≡ k σ₁ w)
        → (w : World)
        → run_binds m (bind_params params args rename gen).0 ρ w k'
          ≡ enter (update_all params (run_atoms m ρ₀ args) σ) k w
    unfolding bind_params run_binds run_rhs run_atoms
    run_binds-params [] [] s rename gen σ ρ le len below h kp k k' eq w = eq σ ρ w le h kp
    run_binds-params [] (a ∷ args) s rename gen σ ρ le len below h kp k k' eq w =
        absurd (omega arith)
    run_binds-params (p ∷ params) [] s rename gen σ ρ le len below h kp k k' eq w =
        absurd (omega arith)
    run_binds-params (p ∷ params) (a ∷ args) s rename gen σ ρ le len below h kp k k' eq w =
        rw (run_atom-Keeps n ρ₀ ρ a kp below.0) (
          run_binds-params params args (extend p s) ((p, gen) ∷ rename) (suc gen) _ _ (omega arith)
            (omega arith) below.1 (Holds-extend s rename gen σ ρ p _ h)
            (Keeps-extend n ρ₀ ρ gen _ le kp) k k' eq w)
