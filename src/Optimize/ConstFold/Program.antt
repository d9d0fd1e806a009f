-- ===== src/Optimize/ConstFold/Program.antt =====
-- const_fold.rs: `fold_constants` keeps the meaning of a program.
use mathlib.Core.Path.{fun_ext}
use nexl.Prelude.{ℕ, Option, List, ◌≡◌, refl, ap, arith}
use nexl.Ir.{FuncId, Module, unit}
use nexl.Ir.Semantics.{Machine, update_all, enter}
use nexl.Ir.Semantics.Program.{FuncsInScope, run_func, run_program}
use nexl.Ir.Semantics.Pass.{IsSound, run_program-pass}
use nexl.Optimize.ConstFold.{fold_func, depth_block, fold_constants}
use nexl.Optimize.ConstFold.Meaning.{run_block-fold_block}

pub fold_func-IsSound : IsSound fold_func
unfolding fold_func run_func
fold_func-IsSound = record {
  same_id = λ f. refl;
  same_run = λ m fuel f h vs w.
      ap (λ k. enter (update_all f.params vs (λ x. m.constant unit)) k w)
        (fun_ext λ ρ.
          fun_ext
            λ w₁. run_block-fold_block m fuel (depth_block f.body) _ f.body (omega arith) h ρ w₁);
}

-- A program whose functions are well scoped does the same before and after constant folding:
-- from every function, on all arguments and worlds, on every machine, and with any bounds on the
-- rounds of a loop (`fuel`) and on the nesting of calls (`depth`).
pub run_program-fold_constants :
    (m : Machine) (callee : m.Value → Option FuncId) (fuel depth : ℕ) (program : Module)
    → FuncsInScope program.funcs
    → (id : FuncId) (vs : List m.Value) (w : m.World)
    → run_program m callee fuel (fold_constants program) depth id vs w
      ≡ run_program m callee fuel program depth id vs w
unfolding fold_constants
run_program-fold_constants m callee fuel depth program h id vs w =
    run_program-pass fold_func fold_func-IsSound m callee fuel program h depth id vs w
