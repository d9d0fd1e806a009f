-- ===== src/Optimize/Escape/Copies.antt =====
-- escape.rs: a value that leaves its function under another name is missed.
use nexl.Prelude.{ℕ, String, true, false, [], ◌∷◌, ◌≡◌, ◌==◌, List, contains, arith}
use nexl.Ir.{VarId, Atom, var, atom, make_tuple, let_bind, block, ret, FuncDef}
use nexl.Ir.Semantics.{
  Machine, Env, done, run_atoms, run_block, run_tail, run_binds, run_rhs, run_atom,
}
use nexl.Optimize.Escape.{analyze_func}
use nexl.Optimize.Escape.Allocated.{contains-analyze_func, block_allocates}
use nexl.Optimize.Escape.Leaks.{among, block_hands_on}

-- A function that binds a tuple, which does not hold the variable itself, copies it to another
-- variable and returns the copy: the tuple is reported not to escape, and on every machine it is
-- what the function answers.
pub analyze_func-copy :
    (m : Machine) (f : FuncDef) (x y : VarId) (ctor : String) (fields : List Atom)
    → f.body
      ≡ block (let_bind x (make_tuple ctor fields) ∷ let_bind y (atom (var x)) ∷ []) (ret (var y))
    → (x == y) ≡ false
    → among x fields ≡ false
    → (contains (analyze_func f).non_escaping x ≡ true)
      × ((fuel : ℕ) (ρ : Env m.Value) (w : m.World)
          → run_block m fuel f.body ρ w ≡ done (m.tuple ctor (run_atoms m ρ fields)) w)
unfolding block_hands_on block_allocates run_block run_tail run_binds run_rhs run_atom
analyze_func-copy m f x y ctor fields body other apart =
    let eq = contains-analyze_func f x in
    (rw (eq, body, apart, other) (ground arith), λ fuel ρ w. rw body (ground arith))
