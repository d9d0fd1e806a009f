-- ===== src/Tests/Escape.antt =====
-- escape.rs: runs, and the theorems at small functions.
use nexl.Prelude.{ℕ, none, [], ◌∷◌, ◌≡◌, refl, true, contains}
use nexl.Ir.{var, atom, make_tuple, let_bind, block, ret, FuncDef}
use nexl.Ir.Semantics.{Env, done, run_atoms, run_block}
use nexl.Optimize.Escape.{analyze_func}
use nexl.Optimize.Escape.Leaks.{block_hands_on, among}
use nexl.Optimize.Escape.Allocated.{contains-analyze_func, block_allocates}
use nexl.Optimize.Escape.Copies.{analyze_func-copy}
use nexl.Tests.Samples.{Value, counter, number, unused}

-- %1 = (Pair %0 5) of `unused` stays in its function.
abbrev holder : FuncDef
holder = record { id = 0; name = none; params = 0 ∷ []; body = unused }

contains-analyze_func_example : contains (analyze_func holder).non_escaping 1 ≡ true
unfolding block_allocates block_hands_on
contains-analyze_func_example = contains-analyze_func holder 1

-- %1 = (Some 5); %2 = %1; return %2
abbrev copier : FuncDef
copier = record {
  id = 0;
  name = none;
  params = [];
  body =
      block (let_bind 1 (make_tuple "Some" (number 5 ∷ [])) ∷ let_bind 2 (atom (var 1)) ∷ [])
        (ret (var 2));
}

analyze_func-copy_example :
    (contains (analyze_func copier).non_escaping 1 ≡ true)
    × ((fuel : ℕ) (ρ : Env Value) (w : ℕ)
        → run_block counter fuel copier.body ρ w
          ≡ done (counter.tuple "Some" (run_atoms counter ρ (number 5 ∷ []))) w)
unfolding among
analyze_func-copy_example =
    analyze_func-copy counter copier 1 2 "Some" (number 5 ∷ []) refl refl refl
