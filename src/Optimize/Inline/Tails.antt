-- ===== src/Optimize/Inline/Tails.antt =====
-- inline.rs: what becomes of a call whose callee cannot be spliced, and of a tail call.
use mathlib.Core.Path.{transport}
use nexl.Prelude.{
  ℕ, suc, ◌+◌, ◌≤◌, true, false, List, [], ◌∷◌, ◌++◌, ◌≡◌, refl, ap, ◌∙◌, ◌==◌, inl, inr, arith,
  Bool-cases, length,
}
use nexl.Ir.{
  VarId, FuncId, Atom, var, func_ref, atom, call, make_closure, make_tuple, project, LetBind,
  let_bind, block, Tail, ret, if_else, tail_call, match, panic, loop, recur, FuncDef,
}
use nexl.Ir.Scope.{Scope, extend, extend_all, scope_after, BlockInScope}
use nexl.Ir.Semantics.{Machine, Env, done, run_atom, run_tail}
use nexl.Ir.Semantics.Program.{FuncInScope}
use nexl.Optimize.Inline.Rename.{
  Renaming, renamed, rename_atom, rename_rhs, rename_binds, rename_block, rename_tail,
}
use nexl.Optimize.Inline.Grows.{bind_params-grows}
use nexl.Optimize.Inline.Blocks.{EndsOtherwise}
use nexl.Optimize.Inline.{bind_params, instantiate, splice, finish_call, inline_tail_call}

-- How many bindings are calls.
unfoldable pub call_count : List LetBind → ℕ
call_count [] = 0
call_count (let_bind x (call f args) ∷ bs) = suc (call_count bs)
call_count (let_bind x _ ∷ bs) = call_count bs

call_count-append :
    (bs rest : List LetBind) → call_count (bs ++ rest) ≡ call_count bs + call_count rest
unfolding call_count
call_count-append [] rest = omega arith
call_count-append (let_bind x (call f args) ∷ bs) rest = omega (arith, call_count-append bs rest)
call_count-append (let_bind x (atom _) ∷ bs) rest = call_count-append bs rest
call_count-append (let_bind x (make_closure _ _) ∷ bs) rest = call_count-append bs rest
call_count-append (let_bind x (make_tuple _ _) ∷ bs) rest = call_count-append bs rest
call_count-append (let_bind x (project _ _) ∷ bs) rest = call_count-append bs rest

call_count-params :
    (params : List VarId) (args : List Atom) (rename : Renaming) (gen : ℕ)
    → call_count (bind_params params args rename gen).0 ≡ 0
unfolding call_count bind_params
call_count-params [] args rename gen = refl
call_count-params (p ∷ params) [] rename gen = refl
call_count-params (p ∷ params) (a ∷ args) rename gen =
    call_count-params params args ((p, gen) ∷ rename) (suc gen)

call_count-rename :
    (bs : List LetBind) (rename : Renaming) (gen : ℕ)
    → call_count (rename_binds bs rename gen).0 ≡ call_count bs
unfolding call_count rename_binds rename_rhs
call_count-rename [] rename gen = refl
call_count-rename (let_bind x (call f args) ∷ bs) rename gen =
    ap suc (call_count-rename bs ((x, gen) ∷ rename) (suc gen))
call_count-rename (let_bind x (atom _) ∷ bs) rename gen =
    call_count-rename bs ((x, gen) ∷ rename) (suc gen)
call_count-rename (let_bind x (make_closure _ _) ∷ bs) rename gen =
    call_count-rename bs ((x, gen) ∷ rename) (suc gen)
call_count-rename (let_bind x (make_tuple _ _) ∷ bs) rename gen =
    call_count-rename bs ((x, gen) ∷ rename) (suc gen)
call_count-rename (let_bind x (project _ _) ∷ bs) rename gen =
    call_count-rename bs ((x, gen) ∷ rename) (suc gen)

-- The new names of what is in scope are unused ones.
abbrev IsFresh : ℕ → Scope → Renaming → Type 0
IsFresh n s rename = (v : VarId) → s v ≡ true → n ≤ renamed rename v

IsFresh-extend :
    (n : ℕ) (s : Scope) (rename : Renaming) (x : VarId) (gen : ℕ)
    → n ≤ gen
    → IsFresh n s rename
    → IsFresh n (extend x s) ((x, gen) ∷ rename)
unfolding renamed
IsFresh-extend n s rename x gen le h v e = elim (Bool-cases (v == x)) [
  | inl same ↦ rw same (omega arith)
  | inr other ↦ rw other (h v (ground arith))
]

IsFresh-params :
    (n : ℕ) (params : List VarId) (args : List Atom) (s : Scope) (rename : Renaming) (gen : ℕ)
    → n ≤ gen
    → length params ≡ length args
    → IsFresh n s rename
    → IsFresh n (extend_all params s) (bind_params params args rename gen).1
unfolding bind_params
IsFresh-params n [] args s rename gen le len h = h
IsFresh-params n (p ∷ params) [] s rename gen le len h = absurd (omega arith)
IsFresh-params n (p ∷ params) (a ∷ args) s rename gen le len h =
    IsFresh-params n params args (extend p s) ((p, gen) ∷ rename) (suc gen) (omega arith)
      (omega arith) (IsFresh-extend n s rename p gen le h)

IsFresh-binds :
    (n : ℕ) (bs : List LetBind) (s : Scope) (rename : Renaming) (gen : ℕ)
    → n ≤ gen
    → IsFresh n s rename
    → IsFresh n (scope_after s bs) (rename_binds bs rename gen).1
unfolding rename_binds
IsFresh-binds n [] s rename gen le h = h
IsFresh-binds n (let_bind x rhs ∷ bs) s rename gen le h =
    IsFresh-binds n bs (extend x s) ((x, gen) ∷ rename) (suc gen) (omega arith)
      (IsFresh-extend n s rename x gen le h)

finish_call-otherwise :
    (original : LetBind) (x : VarId) (binds : List LetBind) (tail : Tail) (rename : Renaming)
    (gen : ℕ)
    → EndsOtherwise (block binds tail)
    → finish_call original x (rename_tail tail rename gen).0 ≡ original
unfolding rename_tail
finish_call-otherwise original x binds (ret a) rename gen h = absurd h
finish_call-otherwise original x binds (if_else _ _ _) rename gen h = refl
finish_call-otherwise original x binds (tail_call _ _) rename gen h = refl
finish_call-otherwise original x binds (match _ _) rename gen h = refl
finish_call-otherwise original x binds (panic _) rename gen h = refl
finish_call-otherwise original x binds (loop _ _) rename gen h = refl
finish_call-otherwise original x binds (recur _) rename gen h = refl

call_count-splice_lem :
    (params : List VarId) (args : List Atom) (binds : List LetBind) (gen : ℕ) (b : LetBind)
    → let p = bind_params params args [] gen in
      call_count (p.0 ++ ((rename_binds binds p.1 p.2).0 ++ b ∷ []))
      ≡ call_count binds + call_count (b ∷ [])
call_count-splice_lem params args binds gen b =
    let p = bind_params params args [] gen in
    let r = rename_binds binds p.1 p.2 in
    omega (
      arith,
      call_count-append p.0 (r.0 ++ b ∷ []),
      call_count-append r.0 (b ∷ []),
      call_count-params params args [] gen,
      call_count-rename binds p.1 p.2,
    )

-- A call of a function of the table whose body ends in no return becomes bindings with one call
-- more than the body's own bindings have: theirs, and the call itself.
pub call_count-splice :
    (callee : FuncDef) (x : VarId) (id : FuncId) (args : List Atom) (gen : ℕ) (binds : List LetBind)
    (tail : Tail)
    → callee.body ≡ block binds tail
    → EndsOtherwise (block binds tail)
    → call_count (splice callee x id args gen).0 ≡ suc (call_count binds)
unfolding splice instantiate rename_block call_count
call_count-splice callee x id args gen binds tail e h =
    let p = bind_params callee.params args [] gen in
    let r = rename_binds binds p.1 p.2 in
    let original = let_bind x (call (func_ref id) args) in
    rw e (
      ap (λ b. call_count (p.0 ++ (r.0 ++ b ∷ [])))
        (finish_call-otherwise original x binds tail r.1 r.2 h)
      ∙ call_count-splice_lem callee.params args binds gen original
      ∙ omega arith)

-- A tail call of a well-scoped function of the table whose body returns a variable, with as many
-- arguments as it has parameters, becomes an end that answers what one register holds, which was
-- unused so far, and leaves the world as it is: the bindings of the body are dropped.
pub run_tail-inline_tail_call :
    (m : Machine) (callee : FuncDef) (original : Tail) (args : List Atom) (gen : ℕ)
    (binds : List LetBind) (v : VarId)
    → callee.body ≡ block binds (ret (var v))
    → FuncInScope callee
    → length callee.params ≡ length args
    → (y : VarId) × (gen ≤ y)
      × ((r : ℕ) (ρ : Env m.Value) (w : m.World)
          → run_tail m r (inline_tail_call callee original args gen).0 ρ w ≡ done (ρ y) w)
unfolding inline_tail_call instantiate rename_block rename_tail rename_atom run_tail run_atom
run_tail-inline_tail_call m callee original args gen binds v e scoped len =
    let p = bind_params callee.params args [] gen in
    let r = rename_binds binds p.1 p.2 in
    let body = transport (ap (BlockInScope _) e) scoped in
    (
      renamed r.1 v,
      IsFresh-binds gen binds _ p.1 p.2 (bind_params-grows callee.params args [] gen)
          (IsFresh-params gen callee.params args (λ x. false) [] gen (omega arith) len
            (λ x h. absurd (ground arith)))
          v body.1,
      λ rounds ρ w. rw e refl,
    )
