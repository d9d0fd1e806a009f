-- ===== src/Optimize/Inline/Rename.antt =====
-- inline.rs: renaming a callee's variables to fresh ones.
use nexl.Prelude.{ℕ, suc, List, [], ◌∷◌, ◌==◌, if◌then◌else◌}
use nexl.Ir.{
  VarId, Atom, var, Rhs, atom, call, make_closure, make_tuple, project, LetBind, let_bind, Block,
  block, Tail, ret, if_else, tail_call, match, panic, loop, recur, Arms, nil, arm,
}

-- `HashMap<VarId, VarId>`: the last insertion of a key counts.
abbrev pub Renaming : Type 0
Renaming = List (VarId × VarId)

-- `rename.get(v).copied().unwrap_or(v)`
unfoldable pub renamed : Renaming → VarId → VarId
renamed [] v = v
renamed ((x, y) ∷ rename) v = if v == x then y else renamed rename v

unfoldable pub rename_atom : Renaming → Atom → Atom
unfolding renamed
rename_atom rename (var v) = var (renamed rename v)
rename_atom rename a = a

unfoldable pub rename_atoms : Renaming → List Atom → List Atom
unfolding rename_atom
rename_atoms rename [] = []
rename_atoms rename (a ∷ l) = rename_atom rename a ∷ rename_atoms rename l

unfoldable pub rename_captures : Renaming → List (VarId × Atom) → List (VarId × Atom)
unfolding rename_atom
rename_captures rename [] = []
rename_captures rename ((v, a) ∷ l) =
    (renamed rename v, rename_atom rename a) ∷ rename_captures rename l

unfoldable pub rename_rhs : Renaming → Rhs → Rhs
unfolding rename_atoms rename_captures
rename_rhs rename (atom a) = atom (rename_atom rename a)
rename_rhs rename (call f args) = call (rename_atom rename f) (rename_atoms rename args)
rename_rhs rename (make_closure id captures) = make_closure id (rename_captures rename captures)
rename_rhs rename (make_tuple ctor fields) = make_tuple ctor (rename_atoms rename fields)
rename_rhs rename (project base index) = project (rename_atom rename base) index

unfoldable pub rename_binds : List LetBind → Renaming → ℕ → List LetBind × Renaming × ℕ
unfolding rename_rhs
rename_binds [] rename gen = ([], rename, gen)
rename_binds (let_bind x rhs ∷ bs) rename gen =
    let (new, rename', gen') = rename_binds bs ((x, gen) ∷ rename) (suc gen) in
    (let_bind gen (rename_rhs rename rhs) ∷ new, rename', gen')

-- Fresh names for the variables of an arm.
unfoldable pub fresh_names : List VarId → Renaming → ℕ → List VarId × Renaming × ℕ
fresh_names [] rename gen = ([], rename, gen)
fresh_names (v ∷ vs) rename gen =
    let (new, rename', gen') = fresh_names vs ((v, gen) ∷ rename) (suc gen) in
    (gen ∷ new, rename', gen')

-- The variables of a loop, each start renamed under the variables before it.
unfoldable pub rename_vars : List (VarId × Atom) → Renaming → ℕ → List (VarId × Atom) × Renaming × ℕ
unfolding rename_atom
rename_vars [] rename gen = ([], rename, gen)
rename_vars ((v, a) ∷ l) rename gen =
    let (new, rename', gen') = rename_vars l ((v, gen) ∷ rename) (suc gen) in
    ((gen, rename_atom rename a) ∷ new, rename', gen')

unfoldable mutual
  unfolding rename_binds rename_vars fresh_names

  pub rename_block : Block → Renaming → ℕ → Block × ℕ
  rename_block (block binds tail) rename gen =
      let (new_binds, rename', gen') = rename_binds binds rename gen in
      let (new_tail, gen'') = rename_tail tail rename' gen' in (block new_binds new_tail, gen'')

  pub rename_tail : Tail → Renaming → ℕ → Tail × ℕ
  rename_tail (ret a) rename gen = (ret (rename_atom rename a), gen)
  rename_tail (if_else c t e) rename gen =
      let (t', gen') = rename_block t rename gen in
      let (e', gen'') = rename_block e rename gen' in (if_else (rename_atom rename c) t' e', gen'')
  rename_tail (tail_call f args) rename gen =
      (tail_call (rename_atom rename f) (rename_atoms rename args), gen)
  rename_tail (match a arms) rename gen =
      let (arms', gen') = rename_arms arms rename gen in (match (rename_atom rename a) arms', gen')
  rename_tail (panic a) rename gen = (panic (rename_atom rename a), gen)
  rename_tail (loop vars body) rename gen =
      let (new_vars, rename', gen') = rename_vars vars rename gen in
      let (body', gen'') = rename_block body rename' gen' in (loop new_vars body', gen'')
  rename_tail (recur args) rename gen = (recur (rename_atoms rename args), gen)

  pub rename_arms : Arms → Renaming → ℕ → Arms × ℕ
  rename_arms nil rename gen = (nil, gen)
  rename_arms (arm ctor binds body rest) rename gen =
      let (new_binds, rename', gen') = fresh_names binds rename gen in
      let (body', gen'') = rename_block body rename' gen' in
      let (rest', gen''') = rename_arms rest rename gen'' in
      (arm ctor new_binds body' rest', gen''')
