-- ===== src/Optimize/Inline/Blocks.antt =====
-- inline.rs: inlining in a block, with its branches, arms and loops, keeps what the block does.
use mathlib.Core.Path.{fun_ext}
use nexl.Prelude.{
  ℕ, zero, suc, ◌≤◌, List, [], ◌∷◌, ◌≡◌, refl, ap, ◌∙◌, arith, Option, none, some, String,
}
use nexl.Ir.{
  VarId, Atom, func_ref, Block, block, Tail, ret, if_else, tail_call, match, panic, loop, recur,
  Arms, nil, arm, FuncDef,
}
use nexl.Ir.Scope.{InScope, AllInScope, PairsInScope, bound_names}
use nexl.Ir.Semantics.{
  Machine, Outcome, Env, update, update_all, enter, again, iterate, run_block, run_tail, run_arms,
}
use nexl.Optimize.Inline.Rename.{Renaming, rename_block}
use nexl.Optimize.Inline.Grows.{inline_block-grows}
use nexl.Optimize.Inline.Meaning.{below, Keeps, run_atom-Keeps, run_atoms-Keeps, run_inits-Keeps}
use nexl.Optimize.Inline.Calls.{BindsFit, run_binds-replaced}
use nexl.Optimize.Inline.{
  FuncTable, get_func, instantiate, inline_tail_call, finish_tail, tail_found, inline_block,
  inline_tail, inline_arms,
}

abbrev pub EndsOtherwise : Block → Type 0
EndsOtherwise (block binds (ret a)) = ⊥
EndsOtherwise (block binds tail) = Unit

-- A callee that ends in no return: a tail call of it stays.
abbrev pub StaysCalled : Option FuncDef → Type 0
StaysCalled none = Unit
StaysCalled (some f) = EndsOtherwise f.body

finish-stays :
    (body : Block) (rename : Renaming) (gen : ℕ) (original : Tail)
    → EndsOtherwise body
    → finish_tail original (rename_block body rename gen).0 ≡ original
unfolding rename_block
finish-stays (block binds (ret a)) rename gen original h = absurd h
finish-stays (block binds (if_else _ _ _)) rename gen original h = refl
finish-stays (block binds (tail_call _ _)) rename gen original h = refl
finish-stays (block binds (match _ _)) rename gen original h = refl
finish-stays (block binds (panic _)) rename gen original h = refl
finish-stays (block binds (loop _ _)) rename gen original h = refl
finish-stays (block binds (recur _)) rename gen original h = refl

module _ (m : Machine) (n : ℕ) where
  open m use {Value, World}

  enter-Keeps :
      (xs : List VarId) (vs : List Value) (ρ₀ ρ : Env Value) (w : World)
      (k k' : Env Value → World → Outcome Value World)
      → Keeps m n ρ₀ ρ
      → ((ρ₁ ρ₂ : Env Value) (w₁ : World) → Keeps m n ρ₁ ρ₂ → k' ρ₂ w₁ ≡ k ρ₁ w₁)
      → enter (update_all xs vs ρ) k' w ≡ enter (update_all xs vs ρ₀) k w
  enter-Keeps [] [] ρ₀ ρ w k k' keeps eq = eq ρ₀ ρ w keeps
  enter-Keeps [] (v ∷ vs) ρ₀ ρ w k k' keeps eq = refl
  enter-Keeps (x ∷ xs) [] ρ₀ ρ w k k' keeps eq = refl
  enter-Keeps (x ∷ xs) (v ∷ vs) ρ₀ ρ w k k' keeps eq =
      enter-Keeps xs vs (update x v ρ₀) (update x v ρ) w k k' (λ y e. ground (arith, keeps y e)) eq

  iterate-Keeps :
      (r : ℕ) (xs : List VarId) (vs : List Value) (ρ₀ ρ : Env Value) (w : World)
      (k k' : Env Value → World → Outcome Value World)
      → Keeps m n ρ₀ ρ
      → ((ρ₁ ρ₂ : Env Value) (w₁ : World) → Keeps m n ρ₁ ρ₂ → k' ρ₂ w₁ ≡ k ρ₁ w₁)
      → iterate r xs k' ρ vs w ≡ iterate r xs k ρ₀ vs w
  unfolding iterate
  iterate-Keeps zero xs vs ρ₀ ρ w k k' keeps eq = refl
  iterate-Keeps (suc r) xs vs ρ₀ ρ w k k' keeps eq = rw (enter-Keeps xs vs ρ₀ ρ w k k' keeps eq) (
      ap (λ c. again c (enter (update_all xs vs ρ₀) k w))
        (fun_ext λ us. fun_ext λ w₁. iterate-Keeps r xs us ρ₀ ρ w₁ k k' keeps eq))

module _ (m : Machine) (fuel n : ℕ) (table : FuncTable) where
  open m use {Value, World}

  abbrev CallStays : Atom → Type 0
  CallStays (func_ref id) = StaysCalled (get_func table id)
  CallStays f = Unit

  -- Variables are read below `n`, calls among bindings fit, and tail calls stay.
  unfoldable mutual
    pub BlockFits : Block → Type 0
    BlockFits (block binds tail) = BindsFit m fuel n table binds × TailFits tail

    pub TailFits : Tail → Type 0
    TailFits (ret a) = InScope (below n) a
    TailFits (if_else c t e) = InScope (below n) c × BlockFits t × BlockFits e
    TailFits (tail_call f args) = InScope (below n) f × AllInScope (below n) args × CallStays f
    TailFits (match a arms) = InScope (below n) a × ArmsFit arms
    TailFits (panic a) = InScope (below n) a
    TailFits (loop vars body) = PairsInScope (below n) vars × BlockFits body
    TailFits (recur args) = AllInScope (below n) args

    pub ArmsFit : Arms → Type 0
    ArmsFit nil = Unit
    ArmsFit (arm ctor binds body rest) = BlockFits body × ArmsFit rest

  tail_found-stays :
      (found : Option FuncDef) (original : Tail) (args : List Atom) (gen : ℕ)
      → StaysCalled found
      → (tail_found found original args gen).0 ≡ original
  unfolding inline_tail_call instantiate
  tail_found-stays none original args gen h = refl
  tail_found-stays (some f) original args gen h = finish-stays f.body _ _ original h

  mutual
    unfolding inline_block inline_tail inline_arms run_block run_tail run_arms BlockFits TailFits
        ArmsFit

    run_block-replaced :
        (r : ℕ) (b : Block) (gen : ℕ) (ρ₀ ρ : Env Value) (w : World)
        → n ≤ gen
        → BlockFits b
        → Keeps m n ρ₀ ρ
        → run_block m r (inline_block table b gen).0 ρ w ≡ run_block m r b ρ₀ w
    run_block-replaced r (block binds tail) gen ρ₀ ρ w le fit keeps =
        run_binds-replaced m fuel n table binds gen ρ₀ ρ w _ _ le fit.0 keeps
          (λ ρ₁ ρ₂ w₁ le₁ keeps₁.
            run_tail-replaced r tail _ ρ₁ ρ₂ w₁ (omega (arith, le₁)) fit.1 keeps₁)

    run_tail-replaced :
        (r : ℕ) (t : Tail) (gen : ℕ) (ρ₀ ρ : Env Value) (w : World)
        → n ≤ gen
        → TailFits t
        → Keeps m n ρ₀ ρ
        → run_tail m r (inline_tail table t gen).0 ρ w ≡ run_tail m r t ρ₀ w
    run_tail-replaced r (ret a) gen ρ₀ ρ w le fit keeps = cc (run_atom-Keeps m n ρ₀ ρ a keeps fit)
    run_tail-replaced r (if_else c t e) gen ρ₀ ρ w le fit keeps = cc (
      run_atom-Keeps m n ρ₀ ρ c keeps fit.0,
      run_block-replaced r t gen ρ₀ ρ w le fit.1 keeps,
      run_block-replaced r e (inline_block table t gen).1 ρ₀ ρ w
          (omega (arith, inline_block-grows table t gen)) fit.2 keeps,
    )
    run_tail-replaced r (match a arms) gen ρ₀ ρ w le fit keeps =
        ap (λ v. run_arms m r (inline_arms table arms gen).0 (m.parts v) ρ w)
          (run_atom-Keeps m n ρ₀ ρ a keeps fit.0)
        ∙ run_arms-replaced r arms _ gen ρ₀ ρ w le fit.1 keeps
    run_tail-replaced r (loop vars body) gen ρ₀ ρ w le fit keeps =
        ap
          (λ vs.
            iterate r (bound_names vars) (run_block m r (inline_block table body gen).0) ρ vs w)
          (run_inits-Keeps m n ρ₀ ρ vars keeps fit.0)
        ∙ iterate-Keeps m n r (bound_names vars) _ ρ₀ ρ w _ _ keeps
            (λ ρ₁ ρ₂ w₁ keeps₁. run_block-replaced r body gen ρ₁ ρ₂ w₁ le fit.1 keeps₁)
    run_tail-replaced r (panic a) gen ρ₀ ρ w le fit keeps = cc (run_atom-Keeps m n ρ₀ ρ a keeps fit)
    run_tail-replaced r (recur args) gen ρ₀ ρ w le fit keeps =
        cc (run_atoms-Keeps m n ρ₀ ρ args keeps fit)
    run_tail-replaced r (tail_call (func_ref id) args) gen ρ₀ ρ w le fit keeps =
        ap (λ t. run_tail m r t ρ w) (tail_found-stays (get_func table id) _ args gen fit.2)
        ∙ cc (
          run_atom-Keeps m n ρ₀ ρ (func_ref id) keeps fit.0,
          run_atoms-Keeps m n ρ₀ ρ args keeps fit.1,
        )
    run_tail-replaced r (tail_call f args) gen ρ₀ ρ w le fit keeps =
        cc (run_atom-Keeps m n ρ₀ ρ f keeps fit.0, run_atoms-Keeps m n ρ₀ ρ args keeps fit.1)

    run_arms-replaced :
        (r : ℕ) (l : Arms) (p : Option (String × List Value)) (gen : ℕ) (ρ₀ ρ : Env Value)
        (w : World)
        → n ≤ gen
        → ArmsFit l
        → Keeps m n ρ₀ ρ
        → run_arms m r (inline_arms table l gen).0 p ρ w ≡ run_arms m r l p ρ₀ w
    run_arms-replaced r nil p gen ρ₀ ρ w le fit keeps = refl
    run_arms-replaced r (arm ctor binds body rest) none gen ρ₀ ρ w le fit keeps = refl
    run_arms-replaced r (arm ctor binds body rest) (some (c, vs)) gen ρ₀ ρ w le fit keeps = cc (
      enter-Keeps m n binds vs ρ₀ ρ w _ _ keeps
          (λ ρ₁ ρ₂ w₁ keeps₁. run_block-replaced r body gen ρ₁ ρ₂ w₁ le fit.0 keeps₁),
      run_arms-replaced r rest (some (c, vs)) (inline_block table body gen).1 ρ₀ ρ w
          (omega (arith, inline_block-grows table body gen)) fit.1 keeps,
    )

-- A block that reads variables below the unused identifiers, whose calls of functions in the table
-- are calls of well-scoped functions of that arity ending in a return, answered by the machine as
-- the function's body does, and whose tail calls of functions in the table are of functions ending
-- in no return: inlining keeps how it ends, from every environment and world and for every bound
-- on loop rounds.
pub run_block-inline_block :
    (m : Machine) (fuel gen : ℕ) (table : FuncTable) (b : Block)
    → BlockFits m fuel gen table b
    → (r : ℕ) (ρ : Env m.Value) (w : m.World)
    → run_block m r (inline_block table b gen).0 ρ w ≡ run_block m r b ρ w
run_block-inline_block m fuel gen table b fit r ρ w =
    run_block-replaced m fuel gen table r b gen ρ ρ w (omega arith) fit (λ v e. refl)
