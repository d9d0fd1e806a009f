-- ===== src/Optimize/ConstFold/Meaning.antt =====
-- const_fold.rs: folding a well-scoped block keeps its meaning, on every machine.
use mathlib.Core.Path.{fun_ext}
use nexl.Prelude.{
  ℕ, zero, suc, ◌≤◌, true, false, Option, none, some, String, List, [], ◌∷◌, ◌≡◌, refl, ap, ◌∙◌,
  arith, str_eq, Bool-cases, inl, inr,
}
use nexl.Ir.{
  bool, Block, block, Tail, ret, if_else, tail_call, match, panic, loop, recur, Arms, nil, arm,
}
use nexl.Ir.Scope.{Scope, bound_names, BlockInScope, TailInScope, ArmsInScope}
use nexl.Ir.Semantics.{
  Machine, Env, update_all, enter, iterate, run_atom, run_inits, run_binds, run_block, run_tail,
  run_arms,
}
use nexl.Optimize.ConstFold.{
  Subst, subst_binds, apply_subst_arms, apply_subst_tail, flatten_true, flatten_false, fold_arms,
  fold_tail, fold_block, apply_subst_block, depth_block, depth_tail, depth_arms,
}
use nexl.Optimize.ConstFold.Agree.{
  Agrees, Agrees-empty, Agrees-extend_all, bound_names-subst, After-binds,
}
use nexl.Optimize.ConstFold.Depth.{fold_block-eq, depth-apply_subst_tail, depth-apply_subst_block}
use nexl.Optimize.ConstFold.Scoping.{TailInScope-subst, BlockInScope-subst}
use nexl.Optimize.ConstFold.Simulation.{
  Simulates, Simulates-empty, run_atom-subst, run_atoms-subst, run_inits-subst, enter-subst,
  iterate-subst, Replaces-subst,
}

module _ (m : Machine) (fuel : ℕ) where
  open m use {Value, World, parts}

  -- `f` replaces the blocks below, under one substitution.
  abbrev SameUnder : ℕ → Subst → (Block → Block) → Type 0
  SameUnder n s f =
      (b : Block) (all left : Scope)
      → Agrees all left s
      → depth_block b ≤ n
      → BlockInScope all b
      → (ρ ρ' : Env Value) → Simulates m s ρ ρ'
      → (w : World) → run_block m fuel (f b) ρ' w ≡ run_block m fuel b ρ w

  module _ (n : ℕ) (s : Subst) (f : Block → Block) (below : SameUnder n s f) where
    run_arms-subst :
        (arms : Arms) (all left : Scope)
        → Agrees all left s
        → depth_arms arms ≤ n
        → ArmsInScope all arms
        → (p : Option (String × List Value)) (ρ ρ' : Env Value) → Simulates m s ρ ρ'
        → (w : World)
        → run_arms m fuel (apply_subst_arms f arms) p ρ' w ≡ run_arms m fuel arms p ρ w
    unfolding depth_block apply_subst_arms run_block
    run_arms-subst nil all left g d h p ρ ρ' r w = refl
    run_arms-subst (arm c xs b rest) all left g d h none ρ ρ' r w = refl
    run_arms-subst (arm c xs b rest) all left g d h (some (c', vs)) ρ ρ' r w =
        elim (Bool-cases (str_eq c' c)) [
          | inl same ↦ rw same (
              enter-subst m xs all left s g h.0 ρ ρ' vs r (run_block m fuel b)
                (run_block m fuel (f b))
                (λ ρ₁ ρ₁' w₁ r₁.
                  below b _ _ (Agrees-extend_all xs all left s g h.0) (omega arith) h.1 ρ₁ ρ₁' r₁
                    w₁)
                w)
          | inr other ↦
              rw other (run_arms-subst rest all left g (omega arith) h.2 (some (c', vs)) ρ ρ' r w)
        ]

    run_tail-subst :
        (t : Tail) (all left : Scope)
        → Agrees all left s
        → depth_tail t ≤ n
        → TailInScope all t
        → (ρ ρ' : Env Value) → Simulates m s ρ ρ'
        → (w : World) → run_tail m fuel (apply_subst_tail f s t) ρ' w ≡ run_tail m fuel t ρ w
    unfolding depth_block apply_subst_tail run_block
    run_tail-subst (ret a) all left g d h ρ ρ' r w = rw (run_atom-subst m s ρ ρ' r a)
    run_tail-subst (if_else c t e) all left g d h ρ ρ' r w = rw (
      run_atom-subst m s ρ ρ' r c,
      below t all left g (omega arith) h.1 ρ ρ' r w,
      below e all left g (omega arith) h.2 ρ ρ' r w,
    )
    run_tail-subst (tail_call a args) all left g d h ρ ρ' r w =
        rw (run_atom-subst m s ρ ρ' r a, run_atoms-subst m s ρ ρ' r args)
    run_tail-subst (match a arms) all left g d h ρ ρ' r w =
        run_arms-subst arms all left g d h.1 _ ρ ρ' r w
        ∙ ap (λ v. run_arms m fuel arms (parts v) ρ w) (run_atom-subst m s ρ ρ' r a)
    run_tail-subst (panic a) all left g d h ρ ρ' r w = rw (run_atom-subst m s ρ ρ' r a)
    run_tail-subst (loop vars body) all left g d h ρ ρ' r w =
        rw (run_inits-subst m s ρ ρ' r vars, bound_names-subst s vars)
          (iterate-subst m fuel (bound_names vars) all left s g h.1 ρ ρ' _ r (run_block m fuel body)
            (run_block m fuel (f body))
            (λ ρ₁ ρ₁' w₁ r₁.
              below body _ _ (Agrees-extend_all (bound_names vars) all left s g h.1) d h.2 ρ₁ ρ₁' r₁
                w₁)
            w)
    run_tail-subst (recur args) all left g d h ρ ρ' r w = rw (run_atoms-subst m s ρ ρ' r args)

  run_tail-flatten_true :
      (b : Block) (ρ : Env Value) (w : World)
      → run_tail m fuel (flatten_true b) ρ w ≡ run_block m fuel b ρ w
  unfolding flatten_true run_block run_atom run_binds
  run_tail-flatten_true (block [] t) ρ w = refl
  run_tail-flatten_true (block (b ∷ bs) t) ρ w = rw (m.truth-bool true)

  run_tail-flatten_false :
      (b : Block) (ρ : Env Value) (w : World)
      → run_tail m fuel (flatten_false b) ρ w ≡ run_block m fuel b ρ w
  unfolding flatten_false run_block run_atom run_binds
  run_tail-flatten_false (block [] t) ρ w = refl
  run_tail-flatten_false (block (b ∷ bs) t) ρ w = rw (m.truth-bool false)

  abbrev SameAs : ℕ → (Block → Block) → Type 0
  SameAs n f =
      (b : Block) (all : Scope)
      → depth_block b ≤ n
      → BlockInScope all b
      → (ρ : Env Value) (w : World) → run_block m fuel (f b) ρ w ≡ run_block m fuel b ρ w

  module _ (n : ℕ) (f : Block → Block) (below : SameAs n f) where
    run_arms-fold :
        (arms : Arms) (all : Scope)
        → depth_arms arms ≤ n
        → ArmsInScope all arms
        → (p : Option (String × List Value)) (ρ : Env Value) (w : World)
        → run_arms m fuel (fold_arms f arms) p ρ w ≡ run_arms m fuel arms p ρ w
    unfolding depth_block fold_arms run_block
    run_arms-fold nil all d h p ρ w = refl
    run_arms-fold (arm c xs b rest) all d h none ρ w = refl
    run_arms-fold (arm c xs b rest) all d h (some (c', vs)) ρ w = elim (Bool-cases (str_eq c' c)) [
      | inl same ↦ rw same (
          ap (λ k. enter (update_all xs vs ρ) k w)
            (fun_ext λ ρ₁. fun_ext λ w₁. below b _ (omega arith) h.1 ρ₁ w₁))
      | inr other ↦ rw other (run_arms-fold rest all (omega arith) h.2 (some (c', vs)) ρ w)
    ]

    run_tail-fold :
        (t : Tail) (all : Scope)
        → depth_tail t ≤ n
        → TailInScope all t
        → (ρ : Env Value) (w : World) → run_tail m fuel (fold_tail f t) ρ w ≡ run_tail m fuel t ρ w
    unfolding depth_block fold_tail run_block run_atom
    run_tail-fold (if_else (bool true) t e) all d h ρ w =
        rw (m.truth-bool true) (run_tail-flatten_true (f t) ρ w ∙ below t all (omega arith) h.1 ρ w)
    run_tail-fold (if_else (bool false) t e) all d h ρ w =
        rw (m.truth-bool false)
          (run_tail-flatten_false (f e) ρ w ∙ below e all (omega arith) h.2 ρ w)
    run_tail-fold (if_else c t e) all d h ρ w =
        rw (below t all (omega arith) h.1 ρ w, below e all (omega arith) h.2 ρ w)
    run_tail-fold (match a arms) all d h ρ w = run_arms-fold arms all d h.1 _ ρ w
    run_tail-fold (loop vars body) all d h ρ w =
        ap (λ k. iterate fuel (bound_names vars) k ρ (run_inits m ρ vars) w)
          (fun_ext λ ρ₁. fun_ext λ w₁. below body _ d h.2 ρ₁ w₁)
    run_tail-fold _ all d h ρ w = refl

  run_block-subst : (n : ℕ) (s : Subst) → SameUnder n s (apply_subst_block n s)
  unfolding depth_block fold_block run_block
  run_block-subst zero s (block binds tail) all left g d h ρ ρ' r w = absurd (omega arith)
  run_block-subst (suc n) s (block binds tail) all left g d h ρ ρ' r w =
      let (s', new_binds) = subst_binds s binds in
      let after = After-binds binds all left s g h.0 in
      let f = apply_subst_block n s' in
      let d' = depth-apply_subst_tail f (depth-apply_subst_block n s') s' tail in
      let scoped =
        TailInScope-subst n s' f (BlockInScope-subst n s') tail _ _ after.agrees (omega arith)
          h.1 in
      Replaces-subst m binds all left s g h.0 ρ ρ' r (run_tail m fuel tail)
        (run_tail m fuel (fold_tail (fold_block n) (apply_subst_tail f s' tail)))
        (λ ρ₁ ρ₁' w₁ r₁.
          run_tail-fold n (fold_block n)
            (λ b sc db hb ρ₂ w₂. rw (fold_block-eq n b) (
              run_block-subst n [] b sc sc (Agrees-empty sc) db hb ρ₂ ρ₂ (Simulates-empty m ρ₂) w₂))
            (apply_subst_tail f s' tail) _ (omega (arith, d')) scoped ρ₁' w₁
          ∙ run_tail-subst n s' f (run_block-subst n s') tail _ _ after.agrees (omega arith) h.1 ρ₁
              ρ₁' r₁ w₁)
        w

-- On every machine, a well-scoped block and the block that folding makes of it end in the same
-- way: with the same value or panic, the same world, and after as many rounds of each loop.
pub run_block-fold_block :
    (m : Machine) (fuel n : ℕ) (all : Scope) (b : Block)
    → depth_block b ≤ n
    → BlockInScope all b
    → (ρ : Env m.Value) (w : m.World)
    → run_block m fuel (fold_block n b) ρ w ≡ run_block m fuel b ρ w
run_block-fold_block m fuel n all b d h ρ w =
    rw (fold_block-eq n b)
      (run_block-subst m fuel n [] b all all (Agrees-empty all) d h ρ ρ (Simulates-empty m ρ) w)
