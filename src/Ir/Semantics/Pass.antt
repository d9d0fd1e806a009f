-- ===== src/Ir/Semantics/Pass.antt =====
-- A pass over the functions of a module (crates/nexl-ir/src/optimize): what each function keeps,
-- the program keeps.
use mathlib.Core.Path.{fun_ext}
use nexl.Prelude.{
  ℕ, zero, suc, Option, List, [], ◌∷◌, map, ◌≡◌, refl, ap, ◌∙◌, ◌==◌, inl, inr, Bool-cases,
}
use nexl.Ir.{FuncId, FuncDef, Module}
use nexl.Ir.Semantics.{Machine, Reply}
use nexl.Ir.Semantics.Program.{
  FuncInScope, FuncsInScope, find_func, reply, dispatch, run_func, run_found, linked, run_program,
}

-- The contract of a pass: it keeps identifiers, and the meaning of well-scoped functions.
pub record IsSound (pass : FuncDef → FuncDef) : Type 1 where
  pub same_id : (f : FuncDef) → (pass f).id ≡ f.id
  pub same_run :
      (m : Machine) (fuel : ℕ) (f : FuncDef)
      → FuncInScope f
      → (vs : List m.Value) (w : m.World) → run_func m fuel (pass f) vs w ≡ run_func m fuel f vs w

module _ (pass : FuncDef → FuncDef) (sound : IsSound pass) where
  run_found-pass :
      (fs : List FuncDef)
      → FuncsInScope fs
      → (m : Machine) (fuel : ℕ) (id : FuncId) (vs : List m.Value) (w : m.World)
      → run_found m fuel (find_func (map pass fs) id) vs w ≡ run_found m fuel (find_func fs id) vs w
  unfolding find_func run_found run_func
  run_found-pass [] h m fuel id vs w = refl
  run_found-pass (f ∷ fs) h m fuel id vs w = rw (sound.same_id f) (elim (Bool-cases (f.id == id)) [
    | inl same ↦ rw same (sound.same_run m fuel f h.0 vs w)
    | inr other ↦ rw other (run_found-pass fs h.1 m fuel id vs w)
  ])

  module _ (m : Machine) (callee : m.Value → Option FuncId) (fuel : ℕ) (program : Module)
      (scoped : FuncsInScope program.funcs) where
    abbrev passed : Module
    passed = record program { funcs = map pass program.funcs }

    -- One call, over the function that answers the calls it makes.
    abbrev own_call :
        Module
        → m.Value
        → List m.Value
        → m.World
        → (m.Value → List m.Value → m.World → Reply m.Value m.World)
        → Reply m.Value m.World
    own_call md f vs w inner =
        dispatch (callee f) (m.apply f vs w)
          (λ id. reply (run_found (record m { apply = inner }) fuel (find_func md.funcs id) vs w))

    linked-pass :
        (depth : ℕ) → linked m callee fuel passed depth ≡ linked m callee fuel program depth
    unfolding linked
    linked-pass zero = refl
    linked-pass (suc depth) = fun_ext λ f. fun_ext λ vs. fun_ext λ w.
        ap (own_call passed f vs w) (linked-pass depth)
        ∙ ap (dispatch (callee f) (m.apply f vs w))
            (fun_ext λ id. ap reply (run_found-pass program.funcs scoped _ fuel id vs w))

    pub run_program-pass :
        (depth : ℕ) (id : FuncId) (vs : List m.Value) (w : m.World)
        → run_program m callee fuel passed depth id vs w
          ≡ run_program m callee fuel program depth id vs w
    unfolding run_program
    run_program-pass depth id vs w =
        rw (linked-pass depth) (run_found-pass program.funcs scoped _ fuel id vs w)
