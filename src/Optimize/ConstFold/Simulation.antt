-- ===== src/Optimize/ConstFold/Simulation.antt =====
-- const_fold.rs: a substituted right-hand side, run where the copies are gone, has the value of
-- the original.
use mathlib.Core.Path.{fun_ext}
use nexl.Prelude.{
  ℕ, zero, suc, false, List, [], ◌∷◌, ◌≡◌, refl, ap, ◌∙◌, ◌==◌, inl, inr, arith, Bool-cases, ==_iff,
}
use nexl.Ir.{
  VarId, Atom, var, Rhs, atom, call, make_closure, make_tuple, project, LetBind, let_bind,
}
use nexl.Ir.Scope.{Scope, extend, InScope, AreNew, BindsInScope}
use nexl.Ir.Semantics.{
  Machine, Outcome, Env, update, update_all, next, enter, again, iterate, run_atom, run_atoms,
  run_inits, run_rhs, run_binds,
}
use nexl.Optimize.ConstFold.{
  Subst, get, apply_subst_atom, apply_subst_atoms, apply_subst_pairs, apply_subst_rhs, subst_binds,
}
use nexl.Optimize.ConstFold.Agree.{
  Agrees, Agrees-extend, Agrees-copy, InScope-subst, is_propagatable-true,
}

module _ (m : Machine) where
  open m use {Value, World}

  -- Each variable has the value of the atom that it is replaced by.
  abbrev pub Simulates : Subst → Env Value → Env Value → Type 0
  Simulates s ρ ρ' = (v : VarId) → run_atom m ρ' (apply_subst_atom s (var v)) ≡ ρ v

  pub Simulates-empty : (ρ : Env Value) → Simulates [] ρ ρ
  unfolding apply_subst_atom run_atom
  Simulates-empty ρ v = refl

  run_atom-update :
      (x : VarId) (v : Value) (ρ : Env Value) (left : Scope) (a : Atom)
      → left x ≡ false
      → InScope left a
      → run_atom m (update x v ρ) a ≡ run_atom m ρ a
  unfolding run_atom
  run_atom-update x v ρ left (var y) new h = elim (Bool-cases (y == x)) [
    | inl same ↦ ground (arith, ==_iff y x)
    | inr other ↦ rw other
  ]
  run_atom-update x v ρ left _ new h = refl

  module _ (all left : Scope) (s : Subst) (g : Agrees all left s) (x : VarId)
      (new : all x ≡ false) where
    pub Simulates-extend :
        (ρ ρ' : Env Value) (v : Value)
        → Simulates s ρ ρ'
        → Simulates s (update x v ρ) (update x v ρ')
    unfolding apply_subst_atom run_atom
    Simulates-extend ρ ρ' v r y = elim (Bool-cases (y == x)) [
      | inl same ↦ ground (arith, g.unmapped y)
      | inr other ↦ elim (Bool-cases (all y)) [
        | inl old ↦
            rw other (run_atom-update x v ρ' left _ (g.smaller x new) (g.mapped y old) ∙ r y)
        | inr unseen ↦ ground (arith, g.unmapped y unseen, r y)
      ]
    ]

    pub Simulates-copy :
        (ρ ρ' : Env Value) (a : Atom)
        → Simulates s ρ ρ'
        → Simulates ((x, a) ∷ s) (update x (run_atom m ρ' a) ρ) ρ'
    unfolding apply_subst_atom get run_atom
    Simulates-copy ρ ρ' a r y = elim (Bool-cases (y == x)) [
      | inl same ↦ rw same
      | inr other ↦ rw other (r y)
    ]

  module _ (s : Subst) (ρ ρ' : Env Value) (r : Simulates s ρ ρ') where
    pub run_atom-subst : (a : Atom) → run_atom m ρ' (apply_subst_atom s a) ≡ run_atom m ρ a
    unfolding apply_subst_atom run_atom
    run_atom-subst (var v) = r v
    run_atom-subst _ = refl

    pub run_atoms-subst : (l : List Atom) → run_atoms m ρ' (apply_subst_atoms s l) ≡ run_atoms m ρ l
    unfolding apply_subst_atoms run_atoms
    run_atoms-subst [] = refl
    run_atoms-subst (a ∷ l) = rw (run_atom-subst a, run_atoms-subst l)

    pub run_inits-subst :
        (l : List (VarId × Atom)) → run_inits m ρ' (apply_subst_pairs s l) ≡ run_inits m ρ l
    unfolding apply_subst_pairs run_inits
    run_inits-subst [] = refl
    run_inits-subst ((x, a) ∷ l) = rw (run_atom-subst a, run_inits-subst l)

    pub run_rhs-subst :
        (rhs : Rhs) (w : World) → run_rhs m ρ' (apply_subst_rhs s rhs) w ≡ run_rhs m ρ rhs w
    unfolding apply_subst_rhs run_rhs
    run_rhs-subst (atom a) w = rw (run_atom-subst a)
    run_rhs-subst (call f args) w = rw (run_atom-subst f, run_atoms-subst args)
    run_rhs-subst (make_closure id captures) w = rw (run_inits-subst captures)
    run_rhs-subst (make_tuple ctor fields) w = rw (run_atoms-subst fields)
    run_rhs-subst (project base index) w = rw (run_atom-subst base)

  -- Binding the same values on both sides, as arms and loops do.
  pub enter-subst :
      (xs : List VarId) (all left : Scope) (s : Subst)
      → Agrees all left s
      → AreNew all xs
      → (ρ ρ' : Env Value) (vs : List Value) → Simulates s ρ ρ'
      → (f f' : Env Value → World → Outcome Value World)
      → ((ρ₁ ρ₁' : Env Value) (w : World) → Simulates s ρ₁ ρ₁' → f' ρ₁' w ≡ f ρ₁ w)
      → (w : World) → enter (update_all xs vs ρ') f' w ≡ enter (update_all xs vs ρ) f w
  enter-subst [] all left s g h ρ ρ' [] r f f' eq w = eq ρ ρ' w r
  enter-subst [] all left s g h ρ ρ' (v ∷ vs) r f f' eq w = refl
  enter-subst (x ∷ xs) all left s g h ρ ρ' [] r f f' eq w = refl
  enter-subst (x ∷ xs) all left s g h ρ ρ' (v ∷ vs) r f f' eq w =
      enter-subst xs _ _ s (Agrees-extend all left s g x h.0) h.1 _ _ vs
        (Simulates-extend all left s g x h.0 ρ ρ' v r) f f' eq w

  pub iterate-subst :
      (n : ℕ) (xs : List VarId) (all left : Scope) (s : Subst)
      → Agrees all left s
      → AreNew all xs
      → (ρ ρ' : Env Value) (vs : List Value) → Simulates s ρ ρ'
      → (f f' : Env Value → World → Outcome Value World)
      → ((ρ₁ ρ₁' : Env Value) (w : World) → Simulates s ρ₁ ρ₁' → f' ρ₁' w ≡ f ρ₁ w)
      → (w : World) → iterate n xs f' ρ' vs w ≡ iterate n xs f ρ vs w
  unfolding iterate
  iterate-subst zero xs all left s g h ρ ρ' vs r f f' eq w = refl
  iterate-subst (suc n) xs all left s g h ρ ρ' vs r f f' eq w =
      rw (enter-subst xs all left s g h ρ ρ' vs r f f' eq w) (
        ap (λ k. again k (enter (update_all xs vs ρ) f w))
          (fun_ext λ us. fun_ext λ w'. iterate-subst n xs all left s g h ρ ρ' us r f f' eq w'))

  -- Bindings `p.1` under the substitution `p.0` do what `bs` does, before any continuation that
  -- gives the same on simulating environments.
  abbrev pub Replaces : List LetBind → Env Value → Env Value → Subst × List LetBind → Type 0
  Replaces bs ρ ρ' p =
      (k k' : Env Value → World → Outcome Value World)
      → ((ρ₁ ρ₁' : Env Value) (w : World) → Simulates p.0 ρ₁ ρ₁' → k' ρ₁' w ≡ k ρ₁ w)
      → (w : World) → run_binds m p.1 ρ' w k' ≡ run_binds m bs ρ w k

  module _ (x : VarId) (bs : List LetBind) (all left : Scope) (s : Subst) (g : Agrees all left s)
      (new : all x ≡ false) (ρ ρ' : Env Value) (r : Simulates s ρ ρ')
      (later : (left' : Scope) (s' : Subst) (ρ₁ ρ₁' : Env Value)
        → Agrees (extend x all) left' s'
        → Simulates s' ρ₁ ρ₁'
        → Replaces bs ρ₁ ρ₁' (subst_binds s' bs)) where
    Replaces-copy :
        (a : Atom)
        → InScope all a
        → Replaces (let_bind x (atom a) ∷ bs) ρ ρ' (subst_binds s (let_bind x (atom a) ∷ bs))
    unfolding subst_binds run_binds run_rhs
    Replaces-copy a h =
        let a' = apply_subst_atom s a in
        rw (is_propagatable-true a', ← run_atom-subst s ρ ρ' r a)
          (later left ((x, a') ∷ s) _ ρ'
            (Agrees-copy all left s g x new a' (InScope-subst all left s g a h))
            (Simulates-copy all left s g x new ρ ρ' a' r))

    Replaces-emit :
        (rhs : Rhs)
        → subst_binds s (let_bind x rhs ∷ bs)
          ≡ ((subst_binds s bs).0, let_bind x (apply_subst_rhs s rhs) ∷ (subst_binds s bs).1)
        → Replaces (let_bind x rhs ∷ bs) ρ ρ' (subst_binds s (let_bind x rhs ∷ bs))
    unfolding run_binds
    Replaces-emit rhs emits = rw emits λ k k' eq w. rw (run_rhs-subst s ρ ρ' r rhs w) (
        ap (next (run_rhs m ρ rhs w)) (
          fun_ext λ v. fun_ext λ w'.
            later (extend x left) s _ _ (Agrees-extend all left s g x new)
              (Simulates-extend all left s g x new ρ ρ' v r) k k' eq w'))

  pub Replaces-subst :
      (bs : List LetBind) (all left : Scope) (s : Subst)
      → Agrees all left s
      → BindsInScope all bs
      → (ρ ρ' : Env Value) → Simulates s ρ ρ'
      → Replaces bs ρ ρ' (subst_binds s bs)
  unfolding run_binds subst_binds
  Replaces-subst [] all left s g h ρ ρ' r = λ k k' eq w. eq ρ ρ' w r
  Replaces-subst (let_bind x (atom a) ∷ bs) all left s g h ρ ρ' r =
      Replaces-copy x bs all left s g h.0 ρ ρ' r
        (λ left' s' ρ₁ ρ₁' g'. Replaces-subst bs _ left' s' g' h.2 ρ₁ ρ₁') a h.1
  Replaces-subst (let_bind x (call f args) ∷ bs) all left s g h ρ ρ' r =
      Replaces-emit x bs all left s g h.0 ρ ρ' r
        (λ left' s' ρ₁ ρ₁' g'. Replaces-subst bs _ left' s' g' h.2 ρ₁ ρ₁') _ refl
  Replaces-subst (let_bind x (make_closure id captures) ∷ bs) all left s g h ρ ρ' r =
      Replaces-emit x bs all left s g h.0 ρ ρ' r
        (λ left' s' ρ₁ ρ₁' g'. Replaces-subst bs _ left' s' g' h.2 ρ₁ ρ₁') _ refl
  Replaces-subst (let_bind x (make_tuple ctor fields) ∷ bs) all left s g h ρ ρ' r =
      Replaces-emit x bs all left s g h.0 ρ ρ' r
        (λ left' s' ρ₁ ρ₁' g'. Replaces-subst bs _ left' s' g' h.2 ρ₁ ρ₁') _ refl
  Replaces-subst (let_bind x (project base index) ∷ bs) all left s g h ρ ρ' r =
      Replaces-emit x bs all left s g h.0 ρ ρ' r
        (λ left' s' ρ₁ ρ₁' g'. Replaces-subst bs _ left' s' g' h.2 ρ₁ ρ₁') _ refl
