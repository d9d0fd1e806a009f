-- ===== src/Optimize/Inline/Grows.antt =====
-- inline.rs: the next unused identifier never falls.
use nexl.Prelude.{ℕ, suc, ◌≤◌, Option, none, some, List, [], ◌∷◌, arith, ◌≡◌, refl}
use nexl.Ir.{
  VarId, FuncId, Atom, func_ref, call, LetBind, let_bind, Block, block, Tail, ret, if_else,
  tail_call, match, panic, loop, recur, Arms, nil, arm, FuncDef,
}
use nexl.Optimize.Inline.Rename.{
  Renaming, rename_binds, fresh_names, rename_vars, rename_block, rename_tail, rename_arms,
}
use nexl.Optimize.Inline.{
  FuncTable, get_func, bind_params, instantiate, splice, splice_body, splice_found, inline_bind,
  inline_binds, inline_tail_call, tail_found, inline_block, inline_tail, inline_arms,
}

pub bind_params-grows :
    (params : List VarId) (args : List Atom) (rename : Renaming) (gen : ℕ)
    → gen ≤ (bind_params params args rename gen).2
unfolding bind_params
bind_params-grows [] args rename gen = omega arith
bind_params-grows (p ∷ params) [] rename gen = omega arith
bind_params-grows (p ∷ params) (a ∷ args) rename gen =
    omega (arith, bind_params-grows params args ((p, gen) ∷ rename) (suc gen))

pub rename_binds-grows :
    (bs : List LetBind) (rename : Renaming) (gen : ℕ) → gen ≤ (rename_binds bs rename gen).2
unfolding rename_binds
rename_binds-grows [] rename gen = omega arith
rename_binds-grows (let_bind x rhs ∷ bs) rename gen =
    omega (arith, rename_binds-grows bs ((x, gen) ∷ rename) (suc gen))

fresh_names-grows :
    (xs : List VarId) (rename : Renaming) (gen : ℕ) → gen ≤ (fresh_names xs rename gen).2
unfolding fresh_names
fresh_names-grows [] rename gen = omega arith
fresh_names-grows (v ∷ vs) rename gen =
    omega (arith, fresh_names-grows vs ((v, gen) ∷ rename) (suc gen))

rename_vars-grows :
    (l : List (VarId × Atom)) (rename : Renaming) (gen : ℕ) → gen ≤ (rename_vars l rename gen).2
unfolding rename_vars
rename_vars-grows [] rename gen = omega arith
rename_vars-grows ((v, a) ∷ l) rename gen =
    omega (arith, rename_vars-grows l ((v, gen) ∷ rename) (suc gen))

mutual
  unfolding rename_block rename_tail rename_arms

  rename_block-grows :
      (b : Block) (rename : Renaming) (gen : ℕ) → gen ≤ (rename_block b rename gen).1
  rename_block-grows (block binds tail) rename gen =
      let r = rename_binds binds rename gen in
      omega (arith, rename_binds-grows binds rename gen, rename_tail-grows tail r.1 r.2)

  rename_tail-grows : (t : Tail) (rename : Renaming) (gen : ℕ) → gen ≤ (rename_tail t rename gen).1
  rename_tail-grows (ret a) rename gen = omega arith
  rename_tail-grows (if_else c t e) rename gen = omega (
    arith,
    rename_block-grows t rename gen,
    rename_block-grows e rename (rename_block t rename gen).1,
  )
  rename_tail-grows (tail_call f args) rename gen = omega arith
  rename_tail-grows (match a arms) rename gen = rename_arms-grows arms rename gen
  rename_tail-grows (panic a) rename gen = omega arith
  rename_tail-grows (loop vars body) rename gen =
      let r = rename_vars vars rename gen in
      omega (arith, rename_vars-grows vars rename gen, rename_block-grows body r.1 r.2)
  rename_tail-grows (recur args) rename gen = omega arith

  rename_arms-grows : (l : Arms) (rename : Renaming) (gen : ℕ) → gen ≤ (rename_arms l rename gen).1
  rename_arms-grows nil rename gen = omega arith
  rename_arms-grows (arm ctor binds body rest) rename gen =
      let r = fresh_names binds rename gen in
      let b = rename_block body r.1 r.2 in
      omega (
        arith,
        fresh_names-grows binds rename gen,
        rename_block-grows body r.1 r.2,
        rename_arms-grows rest rename b.1,
      )

instantiate-grows : (f : FuncDef) (args : List Atom) (gen : ℕ) → gen ≤ (instantiate f args gen).2
unfolding instantiate
instantiate-grows f args gen =
    let p = bind_params f.params args [] gen in
    omega (arith, bind_params-grows f.params args [] gen, rename_block-grows f.body p.1 p.2)

splice_body-gen :
    (original : LetBind) (x : VarId) (params : List LetBind) (body : Block) (gen : ℕ)
    → (splice_body original x (params, body, gen)).1 ≡ gen
splice_body-gen original x params (block binds tail) gen = refl

splice_found-grows :
    (found : Option FuncDef) (x : VarId) (id : FuncId) (args : List Atom) (gen : ℕ)
    → gen ≤ (splice_found found x id args gen).1
unfolding splice instantiate
splice_found-grows none x id args gen = omega arith
splice_found-grows (some f) x id args gen = omega (
  arith,
  instantiate-grows f args gen,
  splice_body-gen (let_bind x (call (func_ref id) args)) x (instantiate f args gen).0
      (instantiate f args gen).1 (instantiate f args gen).2,
)

inline_bind-grows : (table : FuncTable) (b : LetBind) (gen : ℕ) → gen ≤ (inline_bind table b gen).1
unfolding inline_bind
inline_bind-grows table (let_bind x (call (func_ref id) args)) gen =
    splice_found-grows (get_func table id) x id args gen
inline_bind-grows table b gen = omega arith

pub inline_binds-grows :
    (table : FuncTable) (bs : List LetBind) (gen : ℕ) → gen ≤ (inline_binds table bs gen).1
unfolding inline_binds
inline_binds-grows table [] gen = omega arith
inline_binds-grows table (b ∷ bs) gen =
    omega (
      arith,
      inline_bind-grows table b gen,
      inline_binds-grows table bs (inline_bind table b gen).1,
    )

tail_found-grows :
    (found : Option FuncDef) (original : Tail) (args : List Atom) (gen : ℕ)
    → gen ≤ (tail_found found original args gen).1
unfolding inline_tail_call
tail_found-grows none original args gen = omega arith
tail_found-grows (some f) original args gen = instantiate-grows f args gen

mutual
  unfolding inline_block inline_tail inline_arms

  pub inline_block-grows :
      (table : FuncTable) (b : Block) (gen : ℕ) → gen ≤ (inline_block table b gen).1
  inline_block-grows table (block binds tail) gen = omega (
    arith,
    inline_binds-grows table binds gen,
    inline_tail-grows table tail (inline_binds table binds gen).1,
  )

  pub inline_tail-grows :
      (table : FuncTable) (t : Tail) (gen : ℕ) → gen ≤ (inline_tail table t gen).1
  inline_tail-grows table (if_else c t e) gen = omega (
    arith,
    inline_block-grows table t gen,
    inline_block-grows table e (inline_block table t gen).1,
  )
  inline_tail-grows table (match a arms) gen = inline_arms-grows table arms gen
  inline_tail-grows table (loop vars body) gen = inline_block-grows table body gen
  inline_tail-grows table (tail_call (func_ref id) args) gen =
      tail_found-grows (get_func table id) (tail_call (func_ref id) args) args gen
  inline_tail-grows table t gen = omega arith

  pub inline_arms-grows :
      (table : FuncTable) (l : Arms) (gen : ℕ) → gen ≤ (inline_arms table l gen).1
  inline_arms-grows table nil gen = omega arith
  inline_arms-grows table (arm ctor binds body rest) gen = omega (
    arith,
    inline_block-grows table body gen,
    inline_arms-grows table rest (inline_block table body gen).1,
  )
