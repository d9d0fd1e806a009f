-- ===== src/Optimize/Inline/Calls.antt =====
-- inline.rs: inlining the calls among the bindings of a block keeps what the bindings do.
use mathlib.Core.Path.{fun_ext, transport}
use nexl.Prelude.{
  ℕ, suc, ◌≤◌, List, [], ◌∷◌, ◌++◌, ◌≡◌, refl, ap, ◌∙◌, sym, arith, length, Option, none, some,
}
use nexl.Ir.{
  VarId, FuncId, Atom, unit, func_ref, Rhs, atom, call, LetBind, let_bind, block, ret, FuncDef,
}
use nexl.Ir.Scope.{AllInScope, RhsInScope, BlockInScope}
use nexl.Ir.Semantics.{
  Machine, Outcome, Env, update, next, answer, run_atoms, run_rhs, run_binds, run_block, run_atom,
  enter, update_all,
}
use nexl.Ir.Semantics.Program.{FuncInScope, run_func}
use nexl.Optimize.Inline.Rename.{rename_atom, rename_binds, rename_block}
use nexl.Optimize.Inline.Meaning.{below, Keeps, run_rhs-Keeps}
use nexl.Optimize.Inline.Grows.{bind_params-grows, rename_binds-grows}
use nexl.Optimize.Inline.Splice.{run_binds-append, run_binds-parts}
use nexl.Optimize.Inline.{
  FuncTable, get_func, bind_params, instantiate, splice, splice_found, inline_bind, inline_binds,
}

length-run_atoms :
    (m : Machine) (ρ : Env m.Value) (l : List Atom) → length (run_atoms m ρ l) ≡ length l
unfolding run_atoms
length-run_atoms m ρ [] = refl
length-run_atoms m ρ (a ∷ l) = ap suc (length-run_atoms m ρ l)

splice-shape :
    (callee : FuncDef) (x : VarId) (id : FuncId) (args : List Atom) (gen : ℕ) (binds : List LetBind)
    (a : Atom)
    → callee.body ≡ block binds (ret a)
    → let p = bind_params callee.params args [] gen in
      let r = rename_binds binds p.1 p.2 in
      splice callee x id args gen
      ≡ (p.0 ++ (r.0 ++ let_bind x (atom (rename_atom r.1 a)) ∷ []), r.2)
unfolding splice instantiate rename_block
splice-shape callee x id args gen binds a e = rw e refl

module _ (m : Machine) (fuel n : ℕ) where
  open m use {Value, World}

  -- A call that may be replaced: the callee ends in a return, and the machine answers as it does.
  pub record Fits (callee : FuncDef) (id : FuncId) (args : List Atom) : Type 0 where
    pub binds : List LetBind
    pub result : Atom
    pub returns : callee.body ≡ block binds (ret result)
    pub scoped : FuncInScope callee
    pub arity : length callee.params ≡ length args
    pub answers :
        (vs : List Value) (w : World)
        → length vs ≡ length callee.params
        → answer (m.apply (m.constant (func_ref id)) vs w) ≡ run_func m fuel callee vs w

  abbrev pub FoundFits : Option FuncDef → FuncId → List Atom → Type 0
  FoundFits none id args = Unit
  FoundFits (some callee) id args = Fits callee id args

  abbrev pub RhsFits : FuncTable → Rhs → Type 0
  RhsFits table (call (func_ref id) args) = FoundFits (get_func table id) id args
  RhsFits table rhs = Unit

  -- The bindings read variables below `n` alone, and their calls fit.
  abbrev pub BindsFit : FuncTable → List LetBind → Type 0
  BindsFit table [] = Unit
  BindsFit table (let_bind x rhs ∷ bs) =
      RhsInScope (below n) rhs × RhsFits table rhs × BindsFit table bs

  -- What the new bindings do, from registers that agree below `n`, with more identifiers used.
  record Replaces (x : VarId) (rhs : Rhs) (gen : ℕ) (new : List LetBind × ℕ) : Type 0 where
    grows : gen ≤ new.1
    same :
        (ρ₀ ρ : Env Value) (w : World) (k k' : Env Value → World → Outcome Value World)
        → Keeps m n ρ₀ ρ
        → ((v : Value) (ρ₁ : Env Value) (w₁ : World)
            → Keeps m n (update x v ρ₀) ρ₁
            → k' ρ₁ w₁ ≡ k (update x v ρ₀) w₁)
        → run_binds m new.0 ρ w k' ≡ next (run_rhs m ρ₀ rhs w) (λ v w₁. k (update x v ρ₀) w₁)

  Replaces-self :
      (x : VarId) (rhs : Rhs) (gen : ℕ)
      → RhsInScope (below n) rhs
      → Replaces x rhs gen (let_bind x rhs ∷ [], gen)
  unfolding run_binds
  Replaces-self x rhs gen scoped = record {
    grows = omega arith;
    same = λ ρ₀ ρ w k k' keeps eq. rw (run_rhs-Keeps m n ρ₀ ρ rhs w keeps scoped) (
        ap (next (run_rhs m ρ₀ rhs w))
          (fun_ext λ v. fun_ext λ w₁. eq v _ w₁ (λ y e. ground (arith, keeps y e))));
  }

  Replaces-splice :
      (x : VarId) (callee : FuncDef) (id : FuncId) (args : List Atom) (gen : ℕ)
      → n ≤ gen
      → AllInScope (below n) args
      → Fits callee id args
      → Replaces x (call (func_ref id) args) gen (splice callee x id args gen)
  unfolding run_func run_rhs run_atom
  Replaces-splice x callee id args gen le scoped fits =
      let shape = splice-shape callee x id args gen fits.binds fits.result fits.returns in
      let body = transport (ap (BlockInScope _) fits.returns) fits.scoped in
      record {
        grows = rw shape (
            omega (
              arith,
              bind_params-grows callee.params args [] gen,
              rename_binds-grows fits.binds (bind_params callee.params args [] gen).1
                  (bind_params callee.params args [] gen).2,
            ));
        same = λ ρ₀ ρ w k k' keeps eq.
            ap (λ new. run_binds m new.0 ρ w k') shape
            ∙ run_binds-parts m n fuel ρ₀ ρ callee args fits.binds fits.result x gen w k k' le keeps
                fits.arity scoped body.0 body.1 eq
            ∙ ap
                (λ b.
                  next
                    (enter (update_all callee.params (run_atoms m ρ₀ args) (λ v. m.constant unit))
                      (run_block m fuel b) w)
                    (λ v w₁. k (update x v ρ₀) w₁))
                (sym fits.returns)
            ∙ ap (λ o. next o (λ v w₁. k (update x v ρ₀) w₁))
                (sym (
                  fits.answers (run_atoms m ρ₀ args) w
                    (length-run_atoms m ρ₀ args ∙ sym fits.arity)));
      }

  Replaces-found :
      (found : Option FuncDef) (x : VarId) (id : FuncId) (args : List Atom) (gen : ℕ)
      → n ≤ gen
      → RhsInScope (below n) (call (func_ref id) args)
      → FoundFits found id args
      → Replaces x (call (func_ref id) args) gen (splice_found found x id args gen)
  Replaces-found none x id args gen le scoped fits = Replaces-self x _ gen scoped
  Replaces-found (some callee) x id args gen le scoped fits =
      Replaces-splice x callee id args gen le scoped.1 fits

  Replaces-bind :
      (table : FuncTable) (x : VarId) (rhs : Rhs) (gen : ℕ)
      → n ≤ gen
      → RhsInScope (below n) rhs
      → RhsFits table rhs
      → Replaces x rhs gen (inline_bind table (let_bind x rhs) gen)
  unfolding inline_bind
  Replaces-bind table x (call (func_ref id) args) gen le scoped fits =
      Replaces-found (get_func table id) x id args gen le scoped fits
  Replaces-bind table x rhs gen le scoped fits = Replaces-self x rhs gen scoped

  -- From registers that agree below `n`, with any unused identifiers.
  pub run_binds-replaced :
      (table : FuncTable) (bs : List LetBind) (gen : ℕ) (ρ₀ ρ : Env Value) (w : World)
      (k k' : Env Value → World → Outcome Value World)
      → n ≤ gen
      → BindsFit table bs
      → Keeps m n ρ₀ ρ
      → ((ρ₁ ρ₂ : Env Value) (w₁ : World)
          → gen ≤ (inline_binds table bs gen).1
          → Keeps m n ρ₁ ρ₂
          → k' ρ₂ w₁ ≡ k ρ₁ w₁)
      → run_binds m (inline_binds table bs gen).0 ρ w k' ≡ run_binds m bs ρ₀ w k
  unfolding inline_binds run_binds
  run_binds-replaced table [] gen ρ₀ ρ w k k' le fit keeps eq = eq ρ₀ ρ w (omega arith) keeps
  run_binds-replaced table (let_bind x rhs ∷ bs) gen ρ₀ ρ w k k' le fit keeps eq =
      let first = inline_bind table (let_bind x rhs) gen in
      let replaces = Replaces-bind table x rhs gen le fit.0 fit.1 in
      run_binds-append m first.0 (inline_binds table bs first.1).0 ρ w k'
      ∙ replaces.same ρ₀ ρ w (λ ρ₁ w₁. run_binds m bs ρ₁ w₁ k) _ keeps
          (λ v ρ₁ w₁ keeps₁.
            run_binds-replaced table bs first.1 _ ρ₁ w₁ k k' (omega (arith, replaces.grows)) fit.2
              keeps₁
              (λ ρ₂ ρ₃ w₂ le₂ keeps₂. eq ρ₂ ρ₃ w₂ (omega (arith, replaces.grows, le₂)) keeps₂))
