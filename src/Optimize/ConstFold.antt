-- ===== src/Optimize/ConstFold.antt =====
-- crates/nexl-ir/src/optimize/const_fold.rs: copy propagation and constant conditionals.
-- `fold_block` calls itself on what `apply_subst_tail` returns, so it runs on fuel: one unit for
-- each level of nested blocks. A body is folded with its depth as fuel.
pub mod Agree
pub mod Depth
pub mod Scoping
pub mod Simulation
pub mod NormalForm
pub mod Fixpoint
pub mod Program
pub mod Meaning
use nexl.Prelude.{
  ℕ, zero, suc, max, Bool, true, false, Option, none, some, List, [], ◌∷◌, map, ◌==◌, if◌then◌else◌,
}
use nexl.Ir.{
  VarId, Atom, var, int, float, bool, unit, str, func_ref, Rhs, atom, call, make_closure,
  make_tuple, project, LetBind, let_bind, Block, block, Tail, ret, if_else, tail_call, match, panic,
  loop, recur, Arms, nil, arm, FuncDef, Module,
}

-- `HashMap<VarId, Atom>`: the last insertion of a key counts.
abbrev pub Subst : Type 0
Subst = List (VarId × Atom)

pub get : Subst → VarId → Option Atom
get [] v = none
get ((x, a) ∷ s) v = if v == x then some a else get s v

pub is_propagatable : Atom → Bool
is_propagatable (int _) = true
is_propagatable (float _) = true
is_propagatable (bool _) = true
is_propagatable unit = true
is_propagatable (str _) = true
is_propagatable (func_ref _) = true
is_propagatable (var _) = true

abbrev pub unwrap_or : Option Atom → Atom → Atom
unwrap_or none d = d
unwrap_or (some a) d = a

pub apply_subst_atom : Subst → Atom → Atom
unfolding get
apply_subst_atom s (var v) = unwrap_or (get s v) (var v)
apply_subst_atom s a = a

pub apply_subst_atoms : Subst → List Atom → List Atom
apply_subst_atoms s [] = []
apply_subst_atoms s (a ∷ r) = apply_subst_atom s a ∷ apply_subst_atoms s r

pub apply_subst_pairs : Subst → List (VarId × Atom) → List (VarId × Atom)
apply_subst_pairs s [] = []
apply_subst_pairs s ((v, a) ∷ r) = (v, apply_subst_atom s a) ∷ apply_subst_pairs s r

pub apply_subst_rhs : Subst → Rhs → Rhs
apply_subst_rhs s (atom a) = atom (apply_subst_atom s a)
apply_subst_rhs s (call f args) = call (apply_subst_atom s f) (apply_subst_atoms s args)
apply_subst_rhs s (make_closure id captures) = make_closure id (apply_subst_pairs s captures)
apply_subst_rhs s (make_tuple ctor fields) = make_tuple ctor (apply_subst_atoms s fields)
apply_subst_rhs s (project base index) = project (apply_subst_atom s base) index

-- What the loop over the bindings does at a right-hand side that is already substituted: a
-- propagatable atom is recorded, and anything else is emitted.
pub record_copy : VarId → Rhs → Subst → Subst
unfolding is_propagatable
record_copy x (atom a) s = if is_propagatable a then (x, a) ∷ s else s
record_copy x rhs s = s

pub emit : VarId → Rhs → List LetBind → List LetBind
unfolding is_propagatable
emit x (atom a) out = if is_propagatable a then out else let_bind x (atom a) ∷ out
emit x rhs out = let_bind x rhs ∷ out

-- The loop over the bindings: the final substitution and `new_binds`.
unfoldable pub subst_binds : Subst → List LetBind → Subst × List LetBind
unfolding apply_subst_rhs record_copy emit
subst_binds s [] = (s, [])
subst_binds s (let_bind x rhs ∷ bs) =
    let rhs' = apply_subst_rhs s rhs in
    let rest = subst_binds (record_copy x rhs' s) bs in (rest.0, emit x rhs' rest.1)

-- `apply_subst_tail` and `fold_tail`, over the functions that they call on the blocks below.
pub apply_subst_arms : (Block → Block) → Arms → Arms
apply_subst_arms on_block nil = nil
apply_subst_arms on_block (arm ctor binds body rest) =
    arm ctor binds (on_block body) (apply_subst_arms on_block rest)

unfoldable pub apply_subst_tail : (Block → Block) → Subst → Tail → Tail
unfolding apply_subst_atom apply_subst_atoms apply_subst_pairs apply_subst_arms
apply_subst_tail on_block s (ret a) = ret (apply_subst_atom s a)
apply_subst_tail on_block s (if_else c t e) =
    if_else (apply_subst_atom s c) (on_block t) (on_block e)
apply_subst_tail on_block s (tail_call f args) =
    tail_call (apply_subst_atom s f) (apply_subst_atoms s args)
apply_subst_tail on_block s (match a arms) =
    match (apply_subst_atom s a) (apply_subst_arms on_block arms)
apply_subst_tail on_block s (panic a) = panic (apply_subst_atom s a)
apply_subst_tail on_block s (loop vars body) = loop (apply_subst_pairs s vars) (on_block body)
apply_subst_tail on_block s (recur args) = recur (apply_subst_atoms s args)

abbrev pub unit_block : Block
unit_block = block [] (ret unit)

-- A folded branch with no bindings is its tail; one with bindings stays in the conditional.
pub flatten_true : Block → Tail
flatten_true (block [] t) = t
flatten_true (block (b ∷ bs) t) = if_else (bool true) (block (b ∷ bs) t) unit_block

pub flatten_false : Block → Tail
flatten_false (block [] t) = t
flatten_false (block (b ∷ bs) t) = if_else (bool false) unit_block (block (b ∷ bs) t)

pub fold_arms : (Block → Block) → Arms → Arms
fold_arms on_block nil = nil
fold_arms on_block (arm ctor binds body rest) =
    arm ctor binds (on_block body) (fold_arms on_block rest)

unfoldable pub fold_tail : (Block → Block) → Tail → Tail
unfolding flatten_true flatten_false fold_arms
fold_tail on_block (if_else (bool true) t e) = flatten_true (on_block t)
fold_tail on_block (if_else (bool false) t e) = flatten_false (on_block e)
fold_tail on_block (if_else c t e) = if_else c (on_block t) (on_block e)
fold_tail on_block (match a arms) = match a (fold_arms on_block arms)
fold_tail on_block (loop vars body) = loop vars (on_block body)
fold_tail on_block tail = tail

-- Out of fuel, a block is left as it is.
unfoldable mutual
  pub fold_block : ℕ → Block → Block
  fold_block zero b = b
  fold_block (suc n) (block binds tail) =
      let (s, new_binds) = subst_binds [] binds in
      block new_binds (fold_tail (fold_block n) (apply_subst_tail (apply_subst_block n s) s tail))

  pub apply_subst_block : ℕ → Subst → Block → Block
  apply_subst_block zero outer b = b
  apply_subst_block (suc n) outer (block binds tail) =
      let (s, new_binds) = subst_binds outer binds in
      block new_binds (fold_tail (fold_block n) (apply_subst_tail (apply_subst_block n s) s tail))

unfoldable mutual
  pub depth_block : Block → ℕ
  depth_block (block binds tail) = suc (depth_tail tail)

  pub depth_tail : Tail → ℕ
  depth_tail (if_else c t e) = max (depth_block t) (depth_block e)
  depth_tail (match a arms) = depth_arms arms
  depth_tail (loop vars body) = depth_block body
  depth_tail _ = 0

  pub depth_arms : Arms → ℕ
  depth_arms nil = 0
  depth_arms (arm ctor binds body rest) = max (depth_block body) (depth_arms rest)

unfoldable pub fold_func : FuncDef → FuncDef
fold_func func = record func { body = fold_block (depth_block func.body) func.body }

unfoldable pub fold_constants : Module → Module
fold_constants m = record m { funcs = map fold_func m.funcs }
