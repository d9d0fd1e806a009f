-- ===== src/Optimize/Dce/Vars.antt =====
-- dce.rs: the variables that bindings and tails read. `out` is the set that the source passes by
-- reference.
pub mod Blocks
pub mod Mono
pub mod Reads
use nexl.Prelude.{ℕ, suc, Option, none, some, List, [], ◌∷◌, ◌++◌, ◌==◌, Ids, insert, if◌then◌else◌}
use nexl.Ir.{
  VarId, FuncId, Atom, var, func_ref, Rhs, atom, call, make_closure, make_tuple, project, LetBind,
  let_bind, Block, block, Tail, ret, if_else, tail_call, match, panic, loop, recur, Arms, nil, arm,
  FuncDef,
}

pub collect_used_vars_atom : Atom → Ids → Ids
collect_used_vars_atom (var v) out = insert v out
collect_used_vars_atom _ out = out

pub collect_used_vars_atoms : List Atom → Ids → Ids
collect_used_vars_atoms [] out = out
collect_used_vars_atoms (a ∷ r) out = collect_used_vars_atoms r (collect_used_vars_atom a out)

pub collect_used_vars_pairs : List (VarId × Atom) → Ids → Ids
collect_used_vars_pairs [] out = out
collect_used_vars_pairs ((x, a) ∷ r) out = collect_used_vars_pairs r (collect_used_vars_atom a out)

unfoldable pub collect_used_vars_rhs : Rhs → Ids → Ids
unfolding collect_used_vars_atom collect_used_vars_atoms collect_used_vars_pairs
collect_used_vars_rhs (atom a) out = collect_used_vars_atom a out
collect_used_vars_rhs (call f args) out =
    collect_used_vars_atoms args (collect_used_vars_atom f out)
collect_used_vars_rhs (make_closure id captures) out = collect_used_vars_pairs captures out
collect_used_vars_rhs (make_tuple ctor fields) out = collect_used_vars_atoms fields out
collect_used_vars_rhs (project base index) out = collect_used_vars_atom base out

pub collect_used_vars_binds : List LetBind → Ids → Ids
unfolding collect_used_vars_rhs
collect_used_vars_binds [] out = out
collect_used_vars_binds (let_bind x rhs ∷ bs) out =
    collect_used_vars_binds bs (collect_used_vars_rhs rhs out)

unfoldable mutual
  unfolding collect_used_vars_binds

  pub collect_used_vars_block : Block → Ids → Ids
  collect_used_vars_block (block binds tail) out =
      collect_used_vars_tail tail (collect_used_vars_binds binds out)

  pub collect_used_vars_tail : Tail → Ids → Ids
  collect_used_vars_tail (ret a) out = collect_used_vars_atom a out
  collect_used_vars_tail (if_else c t e) out =
      collect_used_vars_block e (collect_used_vars_block t (collect_used_vars_atom c out))
  collect_used_vars_tail (tail_call f args) out =
      collect_used_vars_atoms args (collect_used_vars_atom f out)
  collect_used_vars_tail (match a arms) out =
      collect_used_vars_arms arms (collect_used_vars_atom a out)
  collect_used_vars_tail (panic a) out = collect_used_vars_atom a out
  collect_used_vars_tail (loop vars body) out =
      collect_used_vars_block body (collect_used_vars_pairs vars out)
  collect_used_vars_tail (recur args) out = collect_used_vars_atoms args out

  pub collect_used_vars_arms : Arms → Ids → Ids
  collect_used_vars_arms nil out = out
  collect_used_vars_arms (arm ctor binds body rest) out =
      collect_used_vars_arms rest (collect_used_vars_block body out)
