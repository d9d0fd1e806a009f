-- ===== src/Optimize/Inline/Analysis.antt =====
-- inline.rs: the cost of functions, which of them may be inlined, and the largest identifier.
use nexl.Prelude.{
  ℕ, ◌+◌, max, Bool, true, false, List, [], ◌∷◌, ◌==◌, Ids, insert, contains, leb, if◌then◌else◌,
}
use nexl.Ir.{
  VarId, FuncId, Atom, var, func_ref, Rhs, atom, call, make_closure, make_tuple, project, LetBind,
  let_bind, Block, block, Tail, ret, if_else, tail_call, match, panic, loop, recur, Arms, nil, arm,
  FuncDef, Module,
}

abbrev pub inline_cost_threshold : ℕ
inline_cost_threshold = 10

unfoldable pub rhs_cost : Rhs → ℕ
rhs_cost (atom _) = 0
rhs_cost (call _ _) = 2
rhs_cost (make_closure _ _) = 3
rhs_cost (make_tuple _ _) = 1
rhs_cost (project _ _) = 1

unfoldable pub binds_cost : List LetBind → ℕ
unfolding rhs_cost
binds_cost [] = 0
binds_cost (let_bind x rhs ∷ bs) = 1 + rhs_cost rhs + binds_cost bs

unfoldable mutual
  unfolding binds_cost

  pub block_cost : Block → ℕ
  block_cost (block binds tail) = binds_cost binds + tail_cost tail

  pub tail_cost : Tail → ℕ
  tail_cost (ret _) = 0
  tail_cost (if_else c t e) = 1 + block_cost t + block_cost e
  tail_cost (tail_call _ _) = 2
  tail_cost (match a arms) = 1 + arms_cost arms
  tail_cost (panic _) = 1
  tail_cost (loop vars body) = 2 + block_cost body
  tail_cost (recur _) = 1

  pub arms_cost : Arms → ℕ
  arms_cost nil = 0
  arms_cost (arm ctor binds body rest) = block_cost body + arms_cost rest

unfoldable pub func_cost : FuncDef → ℕ
func_cost f = block_cost f.body

-- The functions called by name or made into a closure by bindings.
unfoldable pub callees_binds : List LetBind → Ids → Ids
callees_binds [] out = out
callees_binds (let_bind x (call (func_ref id) args) ∷ bs) out = callees_binds bs (insert id out)
callees_binds (let_bind x (make_closure id captures) ∷ bs) out = callees_binds bs (insert id out)
callees_binds (let_bind x _ ∷ bs) out = callees_binds bs out

unfoldable mutual
  unfolding callees_binds

  pub collect_callees_block : Block → Ids → Ids
  collect_callees_block (block binds tail) out = collect_callees_tail tail (callees_binds binds out)

  pub collect_callees_tail : Tail → Ids → Ids
  collect_callees_tail (tail_call (func_ref id) args) out = insert id out
  collect_callees_tail (if_else c t e) out = collect_callees_block e (collect_callees_block t out)
  collect_callees_tail (match a arms) out = collect_callees_arms arms out
  collect_callees_tail (loop vars body) out = collect_callees_block body out
  collect_callees_tail _ out = out

  pub collect_callees_arms : Arms → Ids → Ids
  collect_callees_arms nil out = out
  collect_callees_arms (arm ctor binds body rest) out =
      collect_callees_arms rest (collect_callees_block body out)

unfoldable pub closure_refs_binds : List LetBind → Ids → Ids
closure_refs_binds [] out = out
closure_refs_binds (let_bind x (make_closure id captures) ∷ bs) out =
    closure_refs_binds bs (insert id out)
closure_refs_binds (let_bind x _ ∷ bs) out = closure_refs_binds bs out

unfoldable mutual
  unfolding closure_refs_binds

  pub collect_closure_refs : Block → Ids → Ids
  collect_closure_refs (block binds tail) out =
      collect_closure_refs_tail tail (closure_refs_binds binds out)

  pub collect_closure_refs_tail : Tail → Ids → Ids
  collect_closure_refs_tail (if_else c t e) out =
      collect_closure_refs e (collect_closure_refs t out)
  collect_closure_refs_tail (match a arms) out = collect_closure_refs_arms arms out
  collect_closure_refs_tail (loop vars body) out = collect_closure_refs body out
  collect_closure_refs_tail _ out = out

  pub collect_closure_refs_arms : Arms → Ids → Ids
  collect_closure_refs_arms nil out = out
  collect_closure_refs_arms (arm ctor binds body rest) out =
      collect_closure_refs_arms rest (collect_closure_refs body out)

-- The functions that any function of the module makes into a closure.
unfoldable pub closure_funcs : List FuncDef → Ids → Ids
closure_funcs [] out = out
closure_funcs (f ∷ fs) out = closure_funcs fs (collect_closure_refs f.body out)

-- `HashMap<FuncId, HashSet<FuncId>>`: the last insertion of a key counts.
abbrev pub CalleeMap : Type 0
CalleeMap = List (FuncId × Ids)

unfoldable pub callee_map : List FuncDef → CalleeMap → CalleeMap
unfolding collect_callees_block
callee_map [] callees = callees
callee_map (f ∷ fs) callees = callee_map fs ((f.id, collect_callees_block f.body []) ∷ callees)

unfoldable pub callees_of : CalleeMap → FuncId → Ids
callees_of [] id = []
callees_of ((f, callees) ∷ rest) id = if id == f then callees else callees_of rest id

-- The three tests on a function: no closure, not too large, no direct call of itself.
unfoldable pub is_eligible : Ids → CalleeMap → FuncDef → Bool
unfolding func_cost callees_of
is_eligible closures callees f =
    if contains closures f.id
    then false
    else if leb (func_cost f) inline_cost_threshold
    then (if contains (callees_of callees f.id) f.id then false else true)
    else false

unfoldable pub eligible_funcs : Ids → CalleeMap → List FuncDef → Ids → Ids
unfolding is_eligible
eligible_funcs closures callees [] out = out
eligible_funcs closures callees (f ∷ fs) out =
    eligible_funcs closures callees fs
      (if is_eligible closures callees f then insert f.id out else out)

unfoldable pub find_inlinable : Module → Ids
unfolding eligible_funcs closure_funcs collect_closure_refs callee_map
find_inlinable m = eligible_funcs (closure_funcs m.funcs []) (callee_map m.funcs []) m.funcs []

unfoldable pub max_var_atom : Atom → ℕ → ℕ
max_var_atom (var v) n = max n v
max_var_atom _ n = n

unfoldable pub max_var_atoms : List Atom → ℕ → ℕ
unfolding max_var_atom
max_var_atoms [] n = n
max_var_atoms (a ∷ l) n = max_var_atoms l (max_var_atom a n)

unfoldable pub max_var_pairs : List (VarId × Atom) → ℕ → ℕ
unfolding max_var_atom
max_var_pairs [] n = n
max_var_pairs ((v, a) ∷ l) n = max_var_pairs l (max_var_atom a (max n v))

unfoldable pub max_var_ids : List VarId → ℕ → ℕ
max_var_ids [] n = n
max_var_ids (v ∷ l) n = max_var_ids l (max n v)

unfoldable pub max_var_rhs : Rhs → ℕ → ℕ
unfolding max_var_atoms max_var_pairs
max_var_rhs (atom a) n = max_var_atom a n
max_var_rhs (call f args) n = max_var_atoms args (max_var_atom f n)
max_var_rhs (make_closure id captures) n = max_var_pairs captures n
max_var_rhs (make_tuple ctor fields) n = max_var_atoms fields n
max_var_rhs (project base index) n = max_var_atom base n

unfoldable pub max_var_binds : List LetBind → ℕ → ℕ
unfolding max_var_rhs
max_var_binds [] n = n
max_var_binds (let_bind x rhs ∷ bs) n = max_var_binds bs (max_var_rhs rhs (max n x))

unfoldable mutual
  unfolding max_var_binds max_var_ids

  pub max_var_block : Block → ℕ → ℕ
  max_var_block (block binds tail) n = max_var_tail tail (max_var_binds binds n)

  pub max_var_tail : Tail → ℕ → ℕ
  max_var_tail (ret a) n = max_var_atom a n
  max_var_tail (if_else c t e) n = max_var_block e (max_var_block t (max_var_atom c n))
  max_var_tail (tail_call f args) n = max_var_atoms args (max_var_atom f n)
  max_var_tail (match a arms) n = max_var_arms arms (max_var_atom a n)
  max_var_tail (panic a) n = max_var_atom a n
  max_var_tail (loop vars body) n = max_var_block body (max_var_pairs vars n)
  max_var_tail (recur args) n = max_var_atoms args n

  pub max_var_arms : Arms → ℕ → ℕ
  max_var_arms nil n = n
  max_var_arms (arm ctor binds body rest) n =
      max_var_arms rest (max_var_block body (max_var_ids binds n))

unfoldable pub max_var_funcs : List FuncDef → ℕ → ℕ
unfolding max_var_block
max_var_funcs [] n = n
max_var_funcs (f ∷ fs) n = max_var_funcs fs (max_var_block f.body (max_var_ids f.params n))

unfoldable pub find_max_var : Module → ℕ
unfolding max_var_funcs
find_max_var m = max_var_funcs m.funcs 0
