-- ===== src/Optimize/Inline.antt =====
-- crates/nexl-ir/src/optimize/inline.rs: inlining of small functions at their calls.
-- `VarGen` is the next unused identifier, which each function takes and returns.
pub mod Analysis
pub mod Blocks
pub mod Calls
pub mod Grows
pub mod MaxVar
pub mod Meaning
pub mod Rename
pub mod Splice
pub mod Tails
use Analysis.{find_inlinable, find_max_var}
use Rename.{Renaming, rename_block}
use nexl.Prelude.{
  ℕ, suc, ◌+◌, Option, none, some, List, [], ◌∷◌, ◌++◌, ◌==◌, Ids, contains, if◌then◌else◌,
}
use nexl.Ir.{
  VarId, FuncId, Atom, func_ref, Rhs, atom, call, LetBind, let_bind, Block, block, Tail, ret,
  if_else, tail_call, match, loop, Arms, nil, arm, FuncDef, Module,
}

-- `HashMap<FuncId, &FuncDef>`: the last insertion of a key counts.
abbrev pub FuncTable : Type 0
FuncTable = List FuncDef

unfoldable pub func_table : Ids → List FuncDef → FuncTable → FuncTable
func_table eligible [] table = table
func_table eligible (f ∷ fs) table =
    func_table eligible fs (if contains eligible f.id then f ∷ table else table)

unfoldable pub get_func : FuncTable → FuncId → Option FuncDef
get_func [] id = none
get_func (f ∷ table) id = if id == f.id then some f else get_func table id

-- The parameters bound to the arguments under fresh names, as far as both lists go.
unfoldable pub bind_params : List VarId → List Atom → Renaming → ℕ → List LetBind × Renaming × ℕ
bind_params (p ∷ params) (a ∷ args) rename gen =
    let (binds, rename', gen') = bind_params params args ((p, gen) ∷ rename) (suc gen) in
    (let_bind gen (atom a) ∷ binds, rename', gen')
bind_params [] args rename gen = ([], rename, gen)
bind_params (p ∷ params) [] rename gen = ([], rename, gen)

-- The callee's body under fresh names: the parameter bindings, its own, and its tail.
unfoldable pub instantiate : FuncDef → List Atom → ℕ → List LetBind × Block × ℕ
unfolding bind_params
instantiate callee args gen =
    let (params, rename, gen') = bind_params callee.params args [] gen in
    let (body, gen'') = rename_block callee.body rename gen' in (params, body, gen'')

-- What follows the callee's bindings: the result, or the original call where the tail is no return.
abbrev pub finish_call : LetBind → VarId → Tail → LetBind
finish_call original x (ret a) = let_bind x (atom a)
finish_call original x _ = original

abbrev pub splice_body : LetBind → VarId → List LetBind × Block × ℕ → List LetBind × ℕ
splice_body original x (params, block binds tail, gen) =
    (params ++ (binds ++ finish_call original x tail ∷ []), gen)

unfoldable pub splice : FuncDef → VarId → FuncId → List Atom → ℕ → List LetBind × ℕ
unfolding instantiate
splice callee x id args gen =
    splice_body (let_bind x (call (func_ref id) args)) x (instantiate callee args gen)

abbrev pub splice_found : Option FuncDef → VarId → FuncId → List Atom → ℕ → List LetBind × ℕ
splice_found none x id args gen = (let_bind x (call (func_ref id) args) ∷ [], gen)
splice_found (some callee) x id args gen = splice callee x id args gen

unfoldable pub inline_bind : FuncTable → LetBind → ℕ → List LetBind × ℕ
unfolding get_func
inline_bind table (let_bind x (call (func_ref id) args)) gen =
    splice_found (get_func table id) x id args gen
inline_bind table b gen = (b ∷ [], gen)

unfoldable pub inline_binds : FuncTable → List LetBind → ℕ → List LetBind × ℕ
unfolding inline_bind
inline_binds table [] gen = ([], gen)
inline_binds table (b ∷ bs) gen =
    let (new, gen') = inline_bind table b gen in
    let (rest, gen'') = inline_binds table bs gen' in (new ++ rest, gen'')

-- An inlined tail call is the callee's return alone: `extra_binds` and the callee's bindings are
-- computed and dropped.
abbrev pub finish_tail : Tail → Block → Tail
finish_tail original (block binds (ret a)) = ret a
finish_tail original (block binds _) = original

unfoldable pub inline_tail_call : FuncDef → Tail → List Atom → ℕ → Tail × ℕ
unfolding instantiate
inline_tail_call callee original args gen =
    let (params, body, gen') = instantiate callee args gen in (finish_tail original body, gen')

abbrev pub tail_found : Option FuncDef → Tail → List Atom → ℕ → Tail × ℕ
tail_found none original args gen = (original, gen)
tail_found (some callee) original args gen = inline_tail_call callee original args gen

unfoldable mutual
  unfolding inline_binds

  pub inline_block : FuncTable → Block → ℕ → Block × ℕ
  inline_block table (block binds tail) gen =
      let (new_binds, gen') = inline_binds table binds gen in
      let (new_tail, gen'') = inline_tail table tail gen' in (block new_binds new_tail, gen'')

  pub inline_tail : FuncTable → Tail → ℕ → Tail × ℕ
  inline_tail table (if_else c t e) gen =
      let (t', gen') = inline_block table t gen in
      let (e', gen'') = inline_block table e gen' in (if_else c t' e', gen'')
  inline_tail table (match a arms) gen =
      let (arms', gen') = inline_arms table arms gen in (match a arms', gen')
  inline_tail table (loop vars body) gen =
      let (body', gen') = inline_block table body gen in (loop vars body', gen')
  inline_tail table (tail_call (func_ref id) args) gen =
      tail_found (get_func table id) (tail_call (func_ref id) args) args gen
  inline_tail table tail gen = (tail, gen)

  pub inline_arms : FuncTable → Arms → ℕ → Arms × ℕ
  inline_arms table nil gen = (nil, gen)
  inline_arms table (arm ctor binds body rest) gen =
      let (body', gen') = inline_block table body gen in
      let (rest', gen'') = inline_arms table rest gen' in (arm ctor binds body' rest', gen'')

unfoldable pub inline_funcs : FuncTable → List FuncDef → ℕ → List FuncDef
inline_funcs table [] gen = []
inline_funcs table (f ∷ fs) gen =
    let (new_body, gen') = inline_block table f.body gen in
    record f { body = new_body } ∷ inline_funcs table fs gen'

-- No eligible function leaves the module as it is; else `VarGen` starts past every identifier.
abbrev pub inline_with : Ids → Module → Module
inline_with [] m = m
inline_with (id ∷ ids) m = record m {
  funcs = inline_funcs (func_table (id ∷ ids) m.funcs []) m.funcs (suc (find_max_var m));
}

unfoldable pub inline_calls : Module → Module
unfolding func_table inline_funcs
inline_calls m = inline_with (find_inlinable m) m
