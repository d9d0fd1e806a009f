-- ===== src/Optimize/Dce/Refs.antt =====
-- dce.rs: the functions that a body refers to. `out` is the set that the source passes by
-- reference.
pub mod Collect
use nexl.Prelude.{ℕ, suc, Option, none, some, List, [], ◌∷◌, ◌++◌, ◌==◌, Ids, insert, if◌then◌else◌}
use nexl.Ir.{
  VarId, FuncId, Atom, var, func_ref, Rhs, atom, call, make_closure, make_tuple, project, LetBind,
  let_bind, Block, block, Tail, ret, if_else, tail_call, match, panic, loop, recur, Arms, nil, arm,
  FuncDef,
}

pub collect_func_refs_atom : Atom → Ids → Ids
collect_func_refs_atom (func_ref id) out = insert id out
collect_func_refs_atom _ out = out

pub collect_func_refs_atoms : List Atom → Ids → Ids
collect_func_refs_atoms [] out = out
collect_func_refs_atoms (a ∷ r) out = collect_func_refs_atoms r (collect_func_refs_atom a out)

pub collect_func_refs_pairs : List (VarId × Atom) → Ids → Ids
collect_func_refs_pairs [] out = out
collect_func_refs_pairs ((x, a) ∷ r) out = collect_func_refs_pairs r (collect_func_refs_atom a out)

pub collect_func_refs_rhs : Rhs → Ids → Ids
unfolding collect_func_refs_atom collect_func_refs_atoms collect_func_refs_pairs
collect_func_refs_rhs (atom a) out = collect_func_refs_atom a out
collect_func_refs_rhs (call f args) out =
    collect_func_refs_atoms args (collect_func_refs_atom f out)
collect_func_refs_rhs (make_closure id captures) out =
    collect_func_refs_pairs captures (insert id out)
collect_func_refs_rhs (make_tuple ctor fields) out = collect_func_refs_atoms fields out
collect_func_refs_rhs (project base index) out = collect_func_refs_atom base out

pub collect_func_refs_binds : List LetBind → Ids → Ids
unfolding collect_func_refs_rhs
collect_func_refs_binds [] out = out
collect_func_refs_binds (let_bind x rhs ∷ bs) out =
    collect_func_refs_binds bs (collect_func_refs_rhs rhs out)

unfoldable mutual
  unfolding collect_func_refs_binds

  pub collect_func_refs_block : Block → Ids → Ids
  collect_func_refs_block (block binds tail) out =
      collect_func_refs_tail tail (collect_func_refs_binds binds out)

  pub collect_func_refs_tail : Tail → Ids → Ids
  collect_func_refs_tail (ret a) out = collect_func_refs_atom a out
  collect_func_refs_tail (if_else c t e) out =
      collect_func_refs_block e (collect_func_refs_block t (collect_func_refs_atom c out))
  collect_func_refs_tail (tail_call f args) out =
      collect_func_refs_atoms args (collect_func_refs_atom f out)
  collect_func_refs_tail (match a arms) out =
      collect_func_refs_arms arms (collect_func_refs_atom a out)
  collect_func_refs_tail (panic a) out = collect_func_refs_atom a out
  collect_func_refs_tail (loop vars body) out =
      collect_func_refs_block body (collect_func_refs_pairs vars out)
  collect_func_refs_tail (recur args) out = collect_func_refs_atoms args out

  pub collect_func_refs_arms : Arms → Ids → Ids
  collect_func_refs_arms nil out = out
  collect_func_refs_arms (arm ctor binds body rest) out =
      collect_func_refs_arms rest (collect_func_refs_block body out)

-- `HashMap<FuncId, HashSet<FuncId>>`: the last insertion of a key counts.
abbrev pub CallGraph : Type 0
CallGraph = List (FuncId × Ids)

unfoldable pub build_call_graph : List FuncDef → CallGraph → CallGraph
unfolding collect_func_refs_block
build_call_graph [] graph = graph
build_call_graph (f ∷ fs) graph =
    build_call_graph fs ((f.id, collect_func_refs_block f.body []) ∷ graph)

-- `graph.get(&fid)`, and no functions for an unknown one.
unfoldable pub refs_of : CallGraph → FuncId → Ids
refs_of [] fid = []
refs_of ((id, refs) ∷ graph) fid = if fid == id then refs else refs_of graph fid

-- Every reference in the graph.
unfoldable pub graph_refs : CallGraph → Ids
graph_refs [] = []
graph_refs ((id, refs) ∷ graph) = refs ++ graph_refs graph
