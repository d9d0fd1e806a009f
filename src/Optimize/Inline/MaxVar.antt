-- ===== src/Optimize/Inline/MaxVar.antt =====
-- inline.rs: `find_max_var` bounds every variable of the module, so that the names behind it are
-- unused.
use nexl.Prelude.{ℕ, suc, ◌≤◌, ◌<◌, List, [], ◌∷◌, arith, max, In, inl, inr}
use nexl.Ir.{
  VarId, Atom, var, Rhs, atom, call, make_closure, make_tuple, project, LetBind, let_bind, Block,
  block, Tail, ret, if_else, tail_call, match, panic, loop, recur, Arms, nil, arm, FuncDef, Module,
}
use nexl.Ir.Scope.{InScope, AllInScope, PairsInScope, RhsInScope}
use nexl.Optimize.Inline.Meaning.{below}
use nexl.Optimize.Inline.Analysis.{
  max_var_atom, max_var_atoms, max_var_pairs, max_var_ids, max_var_rhs, max_var_binds,
  max_var_block, max_var_tail, max_var_arms, max_var_funcs, find_max_var,
}

-- All the variables that are bound or read lie below `n`.
module _ (n : ℕ) where
  abbrev pub IdsBelow : List VarId → Type 0
  IdsBelow [] = Unit
  IdsBelow (x ∷ xs) = (x < n) × IdsBelow xs

  abbrev pub PairsBelow : List (VarId × Atom) → Type 0
  PairsBelow [] = Unit
  PairsBelow ((x, a) ∷ l) = (x < n) × InScope (below n) a × PairsBelow l

  abbrev pub BindsBelow : List LetBind → Type 0
  BindsBelow [] = Unit
  BindsBelow (let_bind x rhs ∷ bs) = (x < n) × RhsInScope (below n) rhs × BindsBelow bs

  unfoldable mutual
    pub BlockBelow : Block → Type 0
    BlockBelow (block binds tail) = BindsBelow binds × TailBelow tail

    pub TailBelow : Tail → Type 0
    TailBelow (ret a) = InScope (below n) a
    TailBelow (if_else c t e) = InScope (below n) c × BlockBelow t × BlockBelow e
    TailBelow (tail_call f args) = InScope (below n) f × AllInScope (below n) args
    TailBelow (match a arms) = InScope (below n) a × ArmsBelow arms
    TailBelow (panic a) = InScope (below n) a
    TailBelow (loop vars body) = PairsBelow vars × BlockBelow body
    TailBelow (recur args) = AllInScope (below n) args

    pub ArmsBelow : Arms → Type 0
    ArmsBelow nil = Unit
    ArmsBelow (arm ctor binds body rest) = IdsBelow binds × BlockBelow body × ArmsBelow rest

module _ (k : ℕ) where
  atom-Below : (a : Atom) (n : ℕ) → max_var_atom a n ≤ k → (n ≤ k) × InScope (below (suc k)) a
  unfolding max_var_atom
  atom-Below (var v) n h = (omega (arith, h), ground (arith, h))
  atom-Below _ n h = (h, tt)

  atoms-Below :
      (l : List Atom) (n : ℕ) → max_var_atoms l n ≤ k → (n ≤ k) × AllInScope (below (suc k)) l
  unfolding max_var_atoms
  atoms-Below [] n h = (h, tt)
  atoms-Below (a ∷ l) n h =
      let rest = atoms-Below l (max_var_atom a n) h in
      let first = atom-Below a n rest.0 in (first.0, (first.1, rest.1))

  pairs-Below :
      (l : List (VarId × Atom)) (n : ℕ) → max_var_pairs l n ≤ k → (n ≤ k) × PairsBelow (suc k) l
  unfolding max_var_pairs
  pairs-Below [] n h = (h, tt)
  pairs-Below ((x, a) ∷ l) n h =
      let rest = pairs-Below l (max_var_atom a (max n x)) h in
      let first = atom-Below a (max n x) rest.0 in
      (omega (arith, first.0), (omega (arith, first.0), first.1, rest.1))

  captures-Below : (l : List (VarId × Atom)) → PairsBelow (suc k) l → PairsInScope (below (suc k)) l
  captures-Below [] h = tt
  captures-Below ((x, a) ∷ l) h = (h.1, captures-Below l h.2)

  ids-Below : (l : List VarId) (n : ℕ) → max_var_ids l n ≤ k → (n ≤ k) × IdsBelow (suc k) l
  unfolding max_var_ids
  ids-Below [] n h = (h, tt)
  ids-Below (x ∷ l) n h =
      let rest = ids-Below l (max n x) h in (omega (arith, rest.0), (omega (arith, rest.0), rest.1))

  rhs-Below : (rhs : Rhs) (n : ℕ) → max_var_rhs rhs n ≤ k → (n ≤ k) × RhsInScope (below (suc k)) rhs
  unfolding max_var_rhs
  rhs-Below (atom a) n h = atom-Below a n h
  rhs-Below (call f args) n h =
      let rest = atoms-Below args (max_var_atom f n) h in
      let first = atom-Below f n rest.0 in (first.0, (first.1, rest.1))
  rhs-Below (make_closure id captures) n h =
      let t = pairs-Below captures n h in (t.0, captures-Below captures t.1)
  rhs-Below (make_tuple ctor fields) n h = atoms-Below fields n h
  rhs-Below (project base index) n h = atom-Below base n h

  binds-Below :
      (bs : List LetBind) (n : ℕ) → max_var_binds bs n ≤ k → (n ≤ k) × BindsBelow (suc k) bs
  unfolding max_var_binds
  binds-Below [] n h = (h, tt)
  binds-Below (let_bind x rhs ∷ bs) n h =
      let rest = binds-Below bs (max_var_rhs rhs (max n x)) h in
      let first = rhs-Below rhs (max n x) rest.0 in
      (omega (arith, first.0), (omega (arith, first.0), first.1, rest.1))

  mutual
    unfolding max_var_block max_var_tail max_var_arms BlockBelow TailBelow ArmsBelow

    block-Below : (b : Block) (n : ℕ) → max_var_block b n ≤ k → (n ≤ k) × BlockBelow (suc k) b
    block-Below (block binds tail) n h =
        let rest = tail-Below tail (max_var_binds binds n) h in
        let first = binds-Below binds n rest.0 in (first.0, (first.1, rest.1))

    tail-Below : (t : Tail) (n : ℕ) → max_var_tail t n ≤ k → (n ≤ k) × TailBelow (suc k) t
    tail-Below (ret a) n h = atom-Below a n h
    tail-Below (if_else c t e) n h =
        let r = block-Below e (max_var_block t (max_var_atom c n)) h in
        let l = block-Below t (max_var_atom c n) r.0 in
        let first = atom-Below c n l.0 in (first.0, (first.1, l.1, r.1))
    tail-Below (tail_call f args) n h =
        let rest = atoms-Below args (max_var_atom f n) h in
        let first = atom-Below f n rest.0 in (first.0, (first.1, rest.1))
    tail-Below (match a arms) n h =
        let rest = arms-Below arms (max_var_atom a n) h in
        let first = atom-Below a n rest.0 in (first.0, (first.1, rest.1))
    tail-Below (panic a) n h = atom-Below a n h
    tail-Below (loop vars body) n h =
        let rest = block-Below body (max_var_pairs vars n) h in
        let first = pairs-Below vars n rest.0 in (first.0, (first.1, rest.1))
    tail-Below (recur args) n h = atoms-Below args n h

    arms-Below : (l : Arms) (n : ℕ) → max_var_arms l n ≤ k → (n ≤ k) × ArmsBelow (suc k) l
    arms-Below nil n h = (h, tt)
    arms-Below (arm ctor binds body rest) n h =
        let later = arms-Below rest (max_var_block body (max_var_ids binds n)) h in
        let here = block-Below body (max_var_ids binds n) later.0 in
        let first = ids-Below binds n here.0 in (first.0, (first.1, here.1, later.1))

  funcs-Below :
      (fs : List FuncDef) (n : ℕ)
      → max_var_funcs fs n ≤ k
      → (n ≤ k) × ((f : FuncDef) → In f fs → IdsBelow (suc k) f.params × BlockBelow (suc k) f.body)
  unfolding max_var_funcs
  funcs-Below [] n h = (h, λ f i. absurd i)
  funcs-Below (g ∷ fs) n h =
      let later = funcs-Below fs (max_var_block g.body (max_var_ids g.params n)) h in
      let here = block-Below g.body (max_var_ids g.params n) later.0 in
      let first = ids-Below g.params n here.0 in
      (first.0, λ f i. elim i [ inl e ↦ rw e (first.1, here.1) | inr j ↦ later.1 f j ])

-- No function of the module has a parameter, or binds or reads a variable anywhere in its body,
-- that lies above `find_max_var`.
pub find_max_var-BlockBelow :
    (m : Module) (f : FuncDef)
    → In f m.funcs
    → IdsBelow (suc (find_max_var m)) f.params × BlockBelow (suc (find_max_var m)) f.body
unfolding find_max_var
find_max_var-BlockBelow m f i = (funcs-Below (find_max_var m) m.funcs 0 (omega arith)).1 f i
