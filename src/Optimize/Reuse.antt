-- ===== src/Optimize/Reuse.antt =====
-- crates/nexl-ir/src/optimize/reuse.rs: which tuples may take over the memory of dead ones.
-- A HashMap is an association list with one entry for each key. Where the source iterates over
-- one, the order is the parameter `order`, since it is unspecified.
pub mod Dead
pub mod Once
pub mod Sizes
pub mod Tuples
use nexl.Prelude.{
  ℕ, suc, Bool, true, false, Option, none, some, List, [], ◌∷◌, ◌++◌, map, ◌==◌, ◌&&◌, not, Ids,
  insert, contains, length, ltb, leb, if◌then◌else◌,
}
use nexl.Ir.{
  VarId, FuncId, Atom, var, Rhs, atom, call, make_closure, make_tuple, project, LetBind, let_bind,
  Block, block, Tail, ret, if_else, tail_call, match, panic, loop, recur, Arms, nil, arm, FuncDef,
  Module,
}

pub record ReuseOp : Type 0 where
  pub producer : VarId
  pub consumer : VarId
  pub producer_fields : ℕ
  pub consumer_fields : ℕ

abbrev pub VarMap : Type 0
VarMap = List (VarId × ℕ)

-- `HashMap::get`
unfoldable pub lookup : VarMap → VarId → Option ℕ
lookup [] v = none
lookup ((x, n) ∷ entries) v = if v == x then some n else lookup entries v

abbrev pub is_some : Option ℕ → Bool
is_some none = false
is_some (some n) = true

-- `HashMap::insert`
unfoldable pub put : VarId → ℕ → VarMap → VarMap
put v n [] = (v, n) ∷ []
put v n ((x, k) ∷ entries) =
    let rest = put v n entries in if v == x then (x, n) ∷ entries else (x, k) ∷ rest

-- The calls of `f` on the variables, which act on a state.
module _ {S : Type 0} (f : VarId → S → S) where
  unfoldable pub for_each_var_in_atom : Atom → S → S
  for_each_var_in_atom (var v) s = f v s
  for_each_var_in_atom _ s = s

  unfoldable pub for_each_atom : List Atom → S → S
  unfolding for_each_var_in_atom
  for_each_atom [] s = s
  for_each_atom (a ∷ l) s = for_each_atom l (for_each_var_in_atom a s)

  unfoldable pub for_each_pair : List (VarId × Atom) → S → S
  unfolding for_each_var_in_atom
  for_each_pair [] s = s
  for_each_pair ((x, a) ∷ l) s = for_each_pair l (for_each_var_in_atom a s)

  unfoldable pub for_each_var_in_rhs : Rhs → S → S
  unfolding for_each_atom for_each_pair
  for_each_var_in_rhs (atom a) s = for_each_var_in_atom a s
  for_each_var_in_rhs (call g args) s = for_each_atom args (for_each_var_in_atom g s)
  for_each_var_in_rhs (make_closure id captures) s = for_each_pair captures s
  for_each_var_in_rhs (make_tuple ctor fields) s = for_each_atom fields s
  for_each_var_in_rhs (project base index) s = for_each_var_in_atom base s

  unfoldable pub for_each_bind : List LetBind → S → S
  unfolding for_each_var_in_rhs
  for_each_bind [] s = s
  for_each_bind (let_bind x rhs ∷ bs) s = for_each_bind bs (for_each_var_in_rhs rhs s)

  unfoldable mutual
    unfolding for_each_bind

    pub for_each_var_in_block : Block → S → S
    for_each_var_in_block (block binds tail) s = for_each_var_in_tail tail (for_each_bind binds s)

    pub for_each_var_in_tail : Tail → S → S
    for_each_var_in_tail (ret a) s = for_each_var_in_atom a s
    for_each_var_in_tail (if_else c t e) s =
        for_each_var_in_block e (for_each_var_in_block t (for_each_var_in_atom c s))
    for_each_var_in_tail (tail_call g args) s = for_each_atom args (for_each_var_in_atom g s)
    for_each_var_in_tail (match a arms) s = for_each_var_in_arms arms (for_each_var_in_atom a s)
    for_each_var_in_tail (panic a) s = for_each_var_in_atom a s
    for_each_var_in_tail (loop vars body) s = for_each_var_in_block body (for_each_pair vars s)
    for_each_var_in_tail (recur args) s = for_each_atom args s

    pub for_each_var_in_arms : Arms → S → S
    for_each_var_in_arms nil s = s
    for_each_var_in_arms (arm ctor binds body rest) s =
        for_each_var_in_arms rest (for_each_var_in_block body s)

unfoldable pub tuple_producers : List LetBind → VarMap → VarMap
unfolding put
tuple_producers [] producers = producers
tuple_producers (let_bind x (make_tuple ctor fields) ∷ bs) producers =
    tuple_producers bs (put x (length fields) producers)
tuple_producers (let_bind x _ ∷ bs) producers = tuple_producers bs producers

-- The closure of `find_last_uses`: a use of a producer at an index.
unfoldable pub note_use : VarMap → ℕ → VarId → VarMap → VarMap
unfolding lookup put
note_use producers i v last_use =
    if is_some (lookup producers v) then put v i last_use else last_use

-- The loop over the bindings from an index on, and then the tail.
unfoldable pub last_uses_from : VarMap → ℕ → List LetBind → Tail → VarMap → VarMap
unfolding note_use for_each_var_in_rhs for_each_var_in_tail
last_uses_from producers i [] tail last_use =
    for_each_var_in_tail (note_use producers i) tail last_use
last_uses_from producers i (let_bind x rhs ∷ bs) tail last_use =
    last_uses_from producers (suc i) bs tail
      (for_each_var_in_rhs (note_use producers i) rhs last_use)

unfoldable pub find_last_uses : Block → VarMap → VarMap
unfolding last_uses_from
find_last_uses (block binds tail) producers = last_uses_from producers 0 binds tail []

-- `dead_producers` and `used_producers`
abbrev pub Dead : Type 0
Dead = VarMap × Ids

abbrev pub add_dead : VarId → Option ℕ → Dead → Dead
add_dead v none s = s
add_dead v (some n) (dead, used) = (dead ++ (v, n) ∷ [], insert v used)

-- One pass over the last uses, before the binding at an index.
unfoldable pub mark_dead : VarMap → ℕ → VarMap → Dead → Dead
unfolding lookup insert contains
mark_dead producers i [] s = s
mark_dead producers i ((v, last) ∷ uses) s =
    let found = lookup producers v in
    mark_dead producers i uses
      (if ltb last i && not (contains s.1 v) then add_dead v found s else s)

abbrev pub smaller : VarId × ℕ → Option (VarId × ℕ) → Option (VarId × ℕ)
smaller p none = some p
smaller p (some q) = if leb p.1 q.1 then some p else some q

-- `filter` and `min_by_key`: the first of the smallest that are large enough.
unfoldable pub best : ℕ → VarMap → Option (VarId × ℕ)
best needed [] = none
best needed (p ∷ dead) =
    let rest = best needed dead in if leb needed p.1 then smaller p rest else rest

-- `retain`
unfoldable pub remove_var : VarId → VarMap → VarMap
remove_var v [] = []
remove_var v ((x, n) ∷ dead) =
    let rest = remove_var v dead in if x == v then rest else (x, n) ∷ rest

abbrev pub take_best : VarId → ℕ → Option (VarId × ℕ) → VarMap → List ReuseOp × VarMap
take_best x needed none dead = ([], dead)
take_best x needed (some (v, n)) dead = (
  record { producer = v; consumer = x; producer_fields = n; consumer_fields = needed } ∷ [],
  remove_var v dead,
)

-- What a binding reuses, and the dead producers left.
unfoldable pub reuse_bind : LetBind → VarMap → List ReuseOp × VarMap
unfolding best remove_var
reuse_bind (let_bind x (make_tuple ctor fields)) dead =
    take_best x (length fields) (best (length fields) dead) dead
reuse_bind b dead = ([], dead)

module _ (order : VarMap → VarMap) where
  -- The scan over the bindings from an index on.
  unfoldable pub scan_binds : VarMap → VarMap → ℕ → List LetBind → Dead → List ReuseOp
  unfolding mark_dead reuse_bind
  scan_binds producers uses i [] s = []
  scan_binds producers uses i (b ∷ bs) s =
      let (dead, used) = mark_dead producers i (order uses) s in
      let (ops, dead') = reuse_bind b dead in
      ops ++ scan_binds producers uses (suc i) bs (dead', used)

  -- The reuses among the bindings of one block; none where it has no producer.
  abbrev pub own_reuse : Block → VarMap → List ReuseOp
  own_reuse b [] = []
  own_reuse (block binds tail) (p ∷ producers) =
      scan_binds (p ∷ producers) (find_last_uses (block binds tail) (p ∷ producers)) 0 binds
        ([], [])

  unfoldable mutual
    unfolding scan_binds tuple_producers find_last_uses

    pub analyze_block_reuse : Block → List ReuseOp
    analyze_block_reuse (block binds tail) =
        own_reuse (block binds tail) (tuple_producers binds []) ++ analyze_tail_reuse tail

    pub analyze_tail_reuse : Tail → List ReuseOp
    analyze_tail_reuse (if_else c t e) = analyze_block_reuse t ++ analyze_block_reuse e
    analyze_tail_reuse (match a arms) = analyze_arms_reuse arms
    analyze_tail_reuse (loop vars body) = analyze_block_reuse body
    analyze_tail_reuse _ = []

    pub analyze_arms_reuse : Arms → List ReuseOp
    analyze_arms_reuse nil = []
    analyze_arms_reuse (arm ctor binds body rest) =
        analyze_block_reuse body ++ analyze_arms_reuse rest

  unfoldable pub analyze_func_reuse : FuncDef → List ReuseOp
  unfolding analyze_block_reuse
  analyze_func_reuse f = analyze_block_reuse f.body

  unfoldable pub find_reuse_opportunities : Module → List (FuncId × List ReuseOp)
  unfolding analyze_func_reuse
  find_reuse_opportunities m = map (λ f. (f.id, analyze_func_reuse f)) m.funcs
