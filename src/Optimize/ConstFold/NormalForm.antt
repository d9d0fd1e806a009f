-- ===== src/Optimize/ConstFold/NormalForm.antt =====
-- const_fold.rs: what a folded block looks like, and that folding it again changes nothing.
use nexl.Prelude.{ℕ, zero, suc, ◌≤◌, true, false, List, [], ◌∷◌, ◌≡◌, refl, arith}
use nexl.Ir.{
  VarId, Atom, var, bool, atom, call, make_closure, make_tuple, project, LetBind, let_bind, Block,
  block, Tail, if_else, match, loop, Arms, nil, arm,
}
use nexl.Optimize.ConstFold.{
  Subst, unit_block, apply_subst_atom, apply_subst_atoms, apply_subst_pairs, subst_binds,
  apply_subst_tail, flatten_true, flatten_false, fold_arms, fold_tail, fold_block,
  apply_subst_block, depth_block, depth_tail, depth_arms,
}
use nexl.Optimize.ConstFold.Agree.{is_propagatable-true}
use nexl.Optimize.ConstFold.Depth.{depth-apply_subst_tail, depth-apply_subst_block}

-- No binding is a copy.
abbrev pub NoCopies : List LetBind → Type 0
NoCopies [] = Unit
NoCopies (let_bind x (atom a) ∷ bs) = ⊥
NoCopies (let_bind x rhs ∷ bs) = NoCopies bs

abbrev pub HasBinds : Block → Type 0
HasBinds (block [] t) = ⊥
HasBinds (block (b ∷ bs) t) = Unit

-- No copy is left, and a conditional on a constant only round a branch with bindings, its dead
-- branch cleared.
abbrev mutual
  pub BlockIsFolded : Block → Type 0
  BlockIsFolded (block binds tail) = NoCopies binds × TailIsFolded tail

  pub TailIsFolded : Tail → Type 0
  TailIsFolded (if_else (bool true) t e) = HasBinds t × BlockIsFolded t × (e ≡ unit_block)
  TailIsFolded (if_else (bool false) t e) = HasBinds e × BlockIsFolded e × (t ≡ unit_block)
  TailIsFolded (if_else c t e) = BlockIsFolded t × BlockIsFolded e
  TailIsFolded (match a arms) = ArmsIsFolded arms
  TailIsFolded (loop vars body) = BlockIsFolded body
  TailIsFolded t = Unit

  pub ArmsIsFolded : Arms → Type 0
  ArmsIsFolded nil = Unit
  ArmsIsFolded (arm ctor binds body rest) = BlockIsFolded body × ArmsIsFolded rest

NoCopies-subst_binds : (bs : List LetBind) (s : Subst) → NoCopies (subst_binds s bs).1
unfolding subst_binds
NoCopies-subst_binds [] s = tt
NoCopies-subst_binds (let_bind x (atom a) ∷ bs) s =
    rw (is_propagatable-true (apply_subst_atom s a)) (NoCopies-subst_binds bs _)
NoCopies-subst_binds (let_bind x (call f args) ∷ bs) s = NoCopies-subst_binds bs s
NoCopies-subst_binds (let_bind x (make_closure id captures) ∷ bs) s = NoCopies-subst_binds bs s
NoCopies-subst_binds (let_bind x (make_tuple ctor fields) ∷ bs) s = NoCopies-subst_binds bs s
NoCopies-subst_binds (let_bind x (project base index) ∷ bs) s = NoCopies-subst_binds bs s

TailIsFolded-flatten_true : (b : Block) → BlockIsFolded b → TailIsFolded (flatten_true b)
unfolding flatten_true
TailIsFolded-flatten_true (block [] t) h = h.1
TailIsFolded-flatten_true (block (b ∷ bs) t) h = (tt, h, refl)

TailIsFolded-flatten_false : (b : Block) → BlockIsFolded b → TailIsFolded (flatten_false b)
unfolding flatten_false
TailIsFolded-flatten_false (block [] t) h = h.1
TailIsFolded-flatten_false (block (b ∷ bs) t) h = (tt, h, refl)

module _ (n : ℕ) (f : Block → Block)
    (below : (b : Block) → depth_block b ≤ n → BlockIsFolded (f b)) where
  ArmsIsFolded-fold : (arms : Arms) → depth_arms arms ≤ n → ArmsIsFolded (fold_arms f arms)
  unfolding depth_block fold_arms
  ArmsIsFolded-fold nil d = tt
  ArmsIsFolded-fold (arm c xs b rest) d =
      (below b (omega arith), ArmsIsFolded-fold rest (omega arith))

  TailIsFolded-fold : (t : Tail) → depth_tail t ≤ n → TailIsFolded (fold_tail f t)
  unfolding depth_block fold_tail
  TailIsFolded-fold (if_else (bool true) t e) d =
      TailIsFolded-flatten_true (f t) (below t (omega arith))
  TailIsFolded-fold (if_else (bool false) t e) d =
      TailIsFolded-flatten_false (f e) (below e (omega arith))
  TailIsFolded-fold (if_else c t e) d = (below t (omega arith), below e (omega arith))
  TailIsFolded-fold (match a arms) d = ArmsIsFolded-fold arms d
  TailIsFolded-fold (loop vars body) d = below body d
  TailIsFolded-fold _ d = tt

-- With fuel for its depth, every block folds to one with no copy left at any level, and with no
-- constant conditional but round a branch with bindings, whose dead branch is `return unit`.
pub fold_block-BlockIsFolded :
    (n : ℕ) (b : Block) → depth_block b ≤ n → BlockIsFolded (fold_block n b)
unfolding depth_block fold_block
fold_block-BlockIsFolded zero (block binds tail) d = absurd (omega arith)
fold_block-BlockIsFolded (suc n) (block binds tail) d =
    let s' = (subst_binds [] binds).0 in
    let f = apply_subst_block n s' in
    let d' = depth-apply_subst_tail f (depth-apply_subst_block n s') s' tail in
    (
      NoCopies-subst_binds binds [],
      TailIsFolded-fold n (fold_block n) (fold_block-BlockIsFolded n) (apply_subst_tail f s' tail)
          (omega (arith, d')),
    )

pub apply_subst_atom-empty : (a : Atom) → apply_subst_atom [] a ≡ a
unfolding apply_subst_atom
apply_subst_atom-empty (var v) = refl
apply_subst_atom-empty _ = refl

pub apply_subst_atoms-empty : (l : List Atom) → apply_subst_atoms [] l ≡ l
unfolding apply_subst_atoms
apply_subst_atoms-empty [] = refl
apply_subst_atoms-empty (a ∷ l) = rw (apply_subst_atom-empty a, apply_subst_atoms-empty l)

pub apply_subst_pairs-empty : (l : List (VarId × Atom)) → apply_subst_pairs [] l ≡ l
unfolding apply_subst_pairs
apply_subst_pairs-empty [] = refl
apply_subst_pairs-empty ((x, a) ∷ l) = rw (apply_subst_atom-empty a, apply_subst_pairs-empty l)

pub ruleset empty_laws = (apply_subst_atom-empty, apply_subst_atoms-empty, apply_subst_pairs-empty)

pub subst_binds-NoCopies : (bs : List LetBind) → NoCopies bs → subst_binds [] bs ≡ ([], bs)
unfolding subst_binds
subst_binds-NoCopies [] h = refl
subst_binds-NoCopies (let_bind x (atom a) ∷ bs) h = elim h [ ]
subst_binds-NoCopies (let_bind x (call f args) ∷ bs) h =
    simp (empty_laws, subst_binds-NoCopies bs h)
subst_binds-NoCopies (let_bind x (make_closure id captures) ∷ bs) h =
    simp (empty_laws, subst_binds-NoCopies bs h)
subst_binds-NoCopies (let_bind x (make_tuple ctor fields) ∷ bs) h =
    simp (empty_laws, subst_binds-NoCopies bs h)
subst_binds-NoCopies (let_bind x (project base index) ∷ bs) h =
    simp (empty_laws, subst_binds-NoCopies bs h)
