-- ===== src/Optimize/Escape.antt =====
-- crates/nexl-ir/src/optimize/escape.rs: which allocations do not escape their function.
-- `out` is the set that the source passes by reference.
pub mod Allocated
pub mod Copies
pub mod Leaks
use nexl.Prelude.{map, List, [], ◌∷◌, Ids, insert, contains, if◌then◌else◌}
use nexl.Ir.{
  VarId, FuncId, Atom, var, Rhs, atom, call, make_closure, make_tuple, project, LetBind, let_bind,
  Block, block, Tail, ret, if_else, tail_call, match, panic, loop, recur, Arms, nil, arm, FuncDef,
  Module,
}

-- The variables that bindings bind to an allocation.
unfoldable pub heap_vars_binds : List LetBind → Ids → Ids
heap_vars_binds [] out = out
heap_vars_binds (let_bind x (make_closure _ _) ∷ bs) out = heap_vars_binds bs (insert x out)
heap_vars_binds (let_bind x (make_tuple _ _) ∷ bs) out = heap_vars_binds bs (insert x out)
heap_vars_binds (let_bind x _ ∷ bs) out = heap_vars_binds bs out

unfoldable mutual
  unfolding heap_vars_binds

  pub collect_heap_vars : Block → Ids → Ids
  collect_heap_vars (block binds tail) out = collect_heap_vars_tail tail (heap_vars_binds binds out)

  pub collect_heap_vars_tail : Tail → Ids → Ids
  collect_heap_vars_tail (if_else c t e) out = collect_heap_vars e (collect_heap_vars t out)
  collect_heap_vars_tail (match a arms) out = collect_heap_vars_arms arms out
  collect_heap_vars_tail (loop vars body) out = collect_heap_vars body out
  collect_heap_vars_tail _ out = out

  pub collect_heap_vars_arms : Arms → Ids → Ids
  collect_heap_vars_arms nil out = out
  collect_heap_vars_arms (arm ctor binds body rest) out =
      collect_heap_vars_arms rest (collect_heap_vars body out)

unfoldable pub mark_if_var : Atom → Ids → Ids
mark_if_var (var v) out = insert v out
mark_if_var _ out = out

unfoldable pub mark_atoms : List Atom → Ids → Ids
unfolding mark_if_var
mark_atoms [] out = out
mark_atoms (a ∷ l) out = mark_atoms l (mark_if_var a out)

unfoldable pub mark_captures : List (VarId × Atom) → Ids → Ids
unfolding mark_if_var
mark_captures [] out = out
mark_captures ((x, a) ∷ l) out = mark_captures l (mark_if_var a out)

unfoldable pub escaping_binds : List LetBind → Ids → Ids
unfolding mark_atoms mark_captures
escaping_binds [] out = out
escaping_binds (let_bind x (call f args) ∷ bs) out =
    escaping_binds bs (mark_atoms args (mark_if_var f out))
escaping_binds (let_bind x (make_closure id captures) ∷ bs) out =
    escaping_binds bs (mark_captures captures out)
escaping_binds (let_bind x (make_tuple ctor fields) ∷ bs) out =
    escaping_binds bs (mark_atoms fields out)
escaping_binds (let_bind x (project base index) ∷ bs) out = escaping_binds bs out
escaping_binds (let_bind x (atom a) ∷ bs) out = escaping_binds bs out

unfoldable mutual
  unfolding escaping_binds

  pub collect_escaping_block : Block → Ids → Ids
  collect_escaping_block (block binds tail) out =
      collect_escaping_tail tail (escaping_binds binds out)

  pub collect_escaping_tail : Tail → Ids → Ids
  collect_escaping_tail (ret a) out = mark_if_var a out
  collect_escaping_tail (tail_call f args) out = mark_atoms args (mark_if_var f out)
  collect_escaping_tail (if_else c t e) out =
      collect_escaping_block e (collect_escaping_block t out)
  collect_escaping_tail (match a arms) out = collect_escaping_arms arms out
  collect_escaping_tail (loop vars body) out = collect_escaping_block body out
  collect_escaping_tail (panic a) out = out
  collect_escaping_tail (recur args) out = out

  pub collect_escaping_arms : Arms → Ids → Ids
  collect_escaping_arms nil out = out
  collect_escaping_arms (arm ctor binds body rest) out =
      collect_escaping_arms rest (collect_escaping_block body out)

-- `HashSet::difference`
unfoldable pub difference : Ids → Ids → Ids
difference [] t = []
difference (x ∷ s) t = let rest = difference s t in if contains t x then rest else x ∷ rest

pub record EscapeInfo : Type 0 where
  pub non_escaping : Ids

unfoldable pub analyze_func : FuncDef → EscapeInfo
unfolding collect_heap_vars collect_escaping_block difference
analyze_func f = record {
  non_escaping = difference (collect_heap_vars f.body []) (collect_escaping_block f.body []);
}

unfoldable pub analyze_escapes : Module → List (FuncId × EscapeInfo)
analyze_escapes m = map (λ f. (f.id, analyze_func f)) m.funcs
