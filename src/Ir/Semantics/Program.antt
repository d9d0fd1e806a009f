-- ===== src/Ir/Semantics/Program.antt =====
-- A module of crates/nexl-ir/src/lib.rs as a program: its functions call one another.
use nexl.Prelude.{ℕ, zero, suc, Option, none, some, false, List, [], ◌∷◌, ◌==◌, if◌then◌else◌}
use nexl.Ir.{FuncId, unit, FuncDef, Module}
use nexl.Ir.Scope.{extend_all, BlockInScope}
use nexl.Ir.Semantics.{
  Reply, returned, panicked, silent, Machine, Outcome, done, panics, recurs, stuck, no_answer,
  out_of_fuel, update_all, enter, run_block,
}

abbrev pub FuncInScope : FuncDef → Type 0
FuncInScope f = BlockInScope (extend_all f.params (λ x. false)) f.body

abbrev pub FuncsInScope : List FuncDef → Type 0
FuncsInScope [] = Unit
FuncsInScope (f ∷ fs) = FuncInScope f × FuncsInScope fs

unfoldable pub find_func : List FuncDef → FuncId → Option FuncDef
find_func [] id = none
find_func (f ∷ fs) id = if f.id == id then some f else find_func fs id

-- What the caller sees of how a body ends.
abbrev pub reply : {V W : Type 0} → Outcome V W → Reply V W
reply (done v w) = returned v w
reply (panics v w) = panicked v w
reply (recurs vs w) = silent
reply stuck = silent
reply no_answer = silent
reply out_of_fuel = silent

module _ (m : Machine) where
  open m use {Value, World, constant}

  unfoldable pub run_func : ℕ → FuncDef → List Value → World → Outcome Value World
  run_func fuel f vs w =
      enter (update_all f.params vs (λ x. constant unit)) (run_block m fuel f.body) w

  unfoldable pub run_found : ℕ → Option FuncDef → List Value → World → Outcome Value World
  run_found fuel none vs w = stuck
  run_found fuel (some f) vs w = run_func fuel f vs w

abbrev pub dispatch : {R : Type 0} → Option FuncId → R → (FuncId → R) → R
dispatch none other own = other
dispatch (some id) other own = own id

module _ (m : Machine) (callee : m.Value → Option FuncId) (fuel : ℕ) (program : Module) where
  open m use {Value, World}

  -- Calls of the module's functions, `depth` of them nested at most. `callee` tells which function
  -- a value stands for; a call of any other value is the machine's.
  unfoldable pub linked : ℕ → Value → List Value → World → Reply Value World
  linked zero f vs w = silent
  linked (suc depth) f vs w =
      let inner = run_found (record m { apply = linked depth }) fuel in
      dispatch (callee f) (m.apply f vs w) (λ id. reply (inner (find_func program.funcs id) vs w))

  -- The program run from one of its functions.
  unfoldable pub run_program : ℕ → FuncId → List Value → World → Outcome Value World
  run_program depth id vs w =
      run_found (record m { apply = linked depth }) fuel (find_func program.funcs id) vs w
