-- ===== src/Optimize/Dce.antt =====
-- crates/nexl-ir/src/optimize/dce.rs: dead code elimination.
pub mod Funcs
pub mod Idempotent
pub mod Meaning
pub mod Refs
pub mod Reach
pub mod Vars
use Refs.{build_call_graph, graph_refs}
use Reach.{reachable_from}
use Vars.{collect_used_vars_rhs, collect_used_vars_tail}
use nexl.Prelude.{
  Bool, true, false, Option, none, some, List, [], ◌∷◌, ◌||◌, map, Ids, contains, if◌then◌else◌,
}
use nexl.Ir.{
  FuncId, Rhs, call, LetBind, let_bind, Block, block, Tail, if_else, match, loop, Arms, nil, arm,
  FuncDef, Module,
}

unfoldable pub reachable_funcs : Module → List FuncId → Ids
reachable_funcs m entry_points = reachable_from (build_call_graph m.funcs []) entry_points

abbrev pub is_some {ℓ} : {A : Type ℓ} → Option A → Bool
is_some none = false
is_some (some a) = true

-- The named functions, in order.
unfoldable pub entry_points : List FuncDef → List FuncId
entry_points [] = []
entry_points (f ∷ fs) = let rest = entry_points fs in if is_some f.name then f.id ∷ rest else rest

unfoldable pub keep_funcs : Ids → List FuncDef → List FuncDef
keep_funcs reachable [] = []
keep_funcs reachable (f ∷ fs) =
    let rest = keep_funcs reachable fs in if contains reachable f.id then f ∷ rest else rest

unfoldable pub eliminate_dead_funcs : Module → Module
unfolding reachable_funcs entry_points keep_funcs
eliminate_dead_funcs m = record m {
  funcs = keep_funcs (reachable_funcs m (entry_points m.funcs)) m.funcs;
}

pub rhs_has_side_effects : Rhs → Bool
rhs_has_side_effects (call _ _) = true
rhs_has_side_effects _ = false

-- The backward scan over the bindings: those kept, and the variables used from there on.
unfoldable pub sweep : List LetBind → Ids → List LetBind × Ids
unfolding rhs_has_side_effects
sweep [] used = ([], used)
sweep (let_bind x rhs ∷ bs) used =
    let (kept, used') = sweep bs used in
    if contains used' x || rhs_has_side_effects rhs
    then (let_bind x rhs ∷ kept, collect_used_vars_rhs rhs used')
    else (kept, used')

unfoldable mutual
  pub eliminate_dead_binds_block : Block → Block
  eliminate_dead_binds_block (block binds tail) =
      let clean_tail = eliminate_dead_binds_tail tail in
      block (sweep binds (collect_used_vars_tail clean_tail [])).0 clean_tail

  pub eliminate_dead_binds_tail : Tail → Tail
  eliminate_dead_binds_tail (if_else c t e) =
      if_else c (eliminate_dead_binds_block t) (eliminate_dead_binds_block e)
  eliminate_dead_binds_tail (match a arms) = match a (eliminate_dead_binds_arms arms)
  eliminate_dead_binds_tail (loop vars body) = loop vars (eliminate_dead_binds_block body)
  eliminate_dead_binds_tail tail = tail

  pub eliminate_dead_binds_arms : Arms → Arms
  eliminate_dead_binds_arms nil = nil
  eliminate_dead_binds_arms (arm ctor binds body rest) =
      arm ctor binds (eliminate_dead_binds_block body) (eliminate_dead_binds_arms rest)

pub clean_func : FuncDef → FuncDef
clean_func f = record f { body = eliminate_dead_binds_block f.body }

pub eliminate_dead_code : Module → Module
eliminate_dead_code m =
    let pruned = eliminate_dead_funcs m in record pruned { funcs = map clean_func pruned.funcs }
