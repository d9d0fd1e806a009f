-- ===== src/Memory.antt =====
-- crates/nexl-memory/src/lib.rs: the dup/drop pass and the reuse analysis.
pub mod Counts
pub mod Freed
pub mod Justified
pub mod Reuse
use nexl.Prelude.{
  ℕ, suc, ◌+◌, Bool, true, false, String, Option, none, some, List, [], ◌∷◌, ◌++◌, map, ◌==◌,
  length, if◌then◌else◌,
}
use nexl.Ir.{
  VarId, FuncId, Atom, var, Rhs, make_closure, make_tuple, LetBind, let_bind, Block, block, Tail,
  ret, FuncDef, Module,
}

pub data RcOp : Type 0 where
  dup drop : VarId → RcOp

pub data RcStep : Type 0 where
  rc : RcOp → RcStep
  bind : LetBind → RcStep

pub record RcAnnotatedBlock : Type 0 where
  pub steps : List RcStep
  pub tail : Tail

pub record RcAnnotatedFunc : Type 0 where
  pub id : FuncId
  pub name : Option String
  pub params : List VarId
  pub body : RcAnnotatedBlock

pub record RcAnnotatedModule : Type 0 where
  pub name : String
  pub funcs : List RcAnnotatedFunc

unfoldable pub is_heap_alloc : Rhs → Bool
is_heap_alloc (make_tuple _ _) = true
is_heap_alloc (make_closure _ _) = true
is_heap_alloc _ = false

-- The variables bound to an allocation, in order.
unfoldable pub heap_vars : List LetBind → List VarId
heap_vars [] = []
heap_vars (let_bind x rhs ∷ bs) =
    let rest = heap_vars bs in if is_heap_alloc rhs then x ∷ rest else rest

unfoldable pub returned : Tail → Option VarId
returned (ret (var v)) = some v
returned _ = none

-- `Some(var) == returned`
abbrev pub is_returned : Option VarId → VarId → Bool
is_returned none v = false
is_returned (some r) v = v == r

unfoldable pub drops : Option VarId → List VarId → List RcStep
drops r [] = []
drops r (v ∷ vs) = let rest = drops r vs in if is_returned r v then rest else rc (drop v) ∷ rest

unfoldable pub annotate_block : Block → RcAnnotatedBlock
unfolding heap_vars returned drops is_heap_alloc
annotate_block (block binds tail) = record {
  steps = map bind binds ++ drops (returned tail) (heap_vars binds);
  tail = tail;
}

unfoldable pub annotate_func : FuncDef → RcAnnotatedFunc
annotate_func f = record {
  id = f.id;
  name = f.name;
  params = f.params;
  body = annotate_block f.body;
}

-- `DupDropPass::run`
unfoldable pub run_dup_drop : Module → RcAnnotatedModule
run_dup_drop m = record { name = m.name; funcs = map annotate_func m.funcs }

pub record ReuseToken : Type 0 where
  pub dropped_var : VarId
  pub slot_count : ℕ

-- `HashMap<VarId, ReuseToken>`: the last insertion of a key counts.
abbrev pub ReuseMap : Type 0
ReuseMap = List (VarId × ReuseToken)

unfoldable pub alloc_slot_count : Rhs → Option ℕ
alloc_slot_count (make_tuple _ fields) = some (1 + length fields)
alloc_slot_count (make_closure _ captures) = some (1 + length captures)
alloc_slot_count _ = none

abbrev pub SlotCounts : Type 0
SlotCounts = List (VarId × ℕ)

unfoldable pub slots_of : SlotCounts → VarId → Option ℕ
slots_of [] v = none
slots_of ((x, n) ∷ slots) v = if v == x then some n else slots_of slots v

abbrev pub add_slots : VarId → Option ℕ → SlotCounts → SlotCounts
add_slots x none slots = slots
add_slots x (some n) slots = (x, n) ∷ slots

-- The slot counts of all the variables that a block binds to allocations.
unfoldable pub slot_counts : List RcStep → SlotCounts → SlotCounts
unfolding alloc_slot_count
slot_counts [] slots = slots
slot_counts (rc op ∷ steps) slots = slot_counts steps slots
slot_counts (bind (let_bind x rhs) ∷ steps) slots =
    slot_counts steps (add_slots x (alloc_slot_count rhs) slots)

-- `available.push`, where the dropped variable has a slot count.
abbrev pub offer : VarId → Option ℕ → List ReuseToken → List ReuseToken
offer v none available = available
offer v (some n) available = available ++ record { dropped_var = v; slot_count = n } ∷ []

abbrev pub keep_token :
    ReuseToken → Option (ReuseToken × List ReuseToken) → Option (ReuseToken × List ReuseToken)
keep_token t none = none
keep_token t (some (u, rest)) = some (u, t ∷ rest)

-- The first token of the size, and the others (`position` and `remove`).
unfoldable pub take_token : ℕ → List ReuseToken → Option (ReuseToken × List ReuseToken)
take_token needed [] = none
take_token needed (t ∷ available) =
    let later = keep_token t (take_token needed available) in
    if t.slot_count == needed then some (t, available) else later

abbrev pub take_for : Option ℕ → List ReuseToken → Option (ReuseToken × List ReuseToken)
take_for none available = none
take_for (some needed) available = take_token needed available

abbrev pub tokens_left : Option (ReuseToken × List ReuseToken) → List ReuseToken → List ReuseToken
tokens_left none available = available
tokens_left (some (t, rest)) available = rest

abbrev pub record_reuse : VarId → Option (ReuseToken × List ReuseToken) → ReuseMap → ReuseMap
record_reuse x none reuse = reuse
record_reuse x (some (t, rest)) reuse = (x, t) ∷ reuse

-- The scan of a block's steps.
unfoldable pub scan : SlotCounts → List RcStep → List ReuseToken → ReuseMap → ReuseMap
unfolding slots_of take_token alloc_slot_count
scan slots [] available reuse = reuse
scan slots (rc (drop v) ∷ steps) available reuse =
    scan slots steps (offer v (slots_of slots v) available) reuse
scan slots (rc (dup v) ∷ steps) available reuse = scan slots steps available reuse
scan slots (bind (let_bind x rhs) ∷ steps) available reuse =
    let taken = take_for (alloc_slot_count rhs) available in
    scan slots steps (tokens_left taken available) (record_reuse x taken reuse)

unfoldable pub analyze_block_for_reuse : RcAnnotatedBlock → ReuseMap → ReuseMap
unfolding slot_counts scan
analyze_block_for_reuse b reuse = scan (slot_counts b.steps []) b.steps [] reuse

unfoldable pub analyze_funcs : List RcAnnotatedFunc → ReuseMap → ReuseMap
analyze_funcs [] reuse = reuse
analyze_funcs (f ∷ fs) reuse = analyze_funcs fs (analyze_block_for_reuse f.body reuse)

-- `ReusePass::run`
unfoldable pub run_reuse : RcAnnotatedModule → ReuseMap
run_reuse m = analyze_funcs m.funcs []
