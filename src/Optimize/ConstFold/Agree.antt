-- ===== src/Optimize/ConstFold/Agree.antt =====
-- const_fold.rs: what a substitution keeps of the scope of a block.
use nexl.Prelude.{true, false, none, List, [], ◌∷◌, ◌≡◌, refl, ◌==◌, inl, inr, arith, Bool-cases}
use nexl.Ir.{
  VarId, Atom, var, Rhs, atom, call, make_closure, make_tuple, project, LetBind, let_bind,
}
use nexl.Ir.Scope.{
  Scope, extend, extend_all, InScope, AllInScope, PairsInScope, RhsInScope, AreNew, scope_after,
  BindsInScope, bound_names,
}
use nexl.Optimize.ConstFold.{
  Subst, get, is_propagatable, apply_subst_atom, apply_subst_atoms, apply_subst_pairs,
  apply_subst_rhs, record_copy, emit, subst_binds,
}

-- `s` takes the variables of a scope to atoms of the scope that is left, and nothing else.
pub record Agrees (all left : Scope) (s : Subst) : Type 0 where
  pub mapped : (v : VarId) → all v ≡ true → InScope left (apply_subst_atom s (var v))
  pub unmapped : (v : VarId) → all v ≡ false → get s v ≡ none
  pub smaller : (v : VarId) → all v ≡ false → left v ≡ false

pub Agrees-empty : (all : Scope) → Agrees all all []
unfolding apply_subst_atom
Agrees-empty all = record { mapped = λ v h. h; unmapped = λ v h. refl; smaller = λ v h. h }

InScope-extend : (x : VarId) (left : Scope) (a : Atom) → InScope left a → InScope (extend x left) a
InScope-extend x left (var v) h = ground arith
InScope-extend x left _ h = tt

module _ (all left : Scope) (s : Subst) (g : Agrees all left s) (x : VarId)
    (new : all x ≡ false) where
  pub Agrees-extend : Agrees (extend x all) (extend x left) s
  unfolding apply_subst_atom
  Agrees-extend = record {
    mapped = λ v h. elim (Bool-cases (v == x)) [
      | inl same ↦ ground (arith, g.unmapped v)
      | inr other ↦ InScope-extend x left (apply_subst_atom s (var v)) (g.mapped v (ground arith))
    ];
    unmapped = λ v h. g.unmapped v (ground arith);
    smaller = λ v h. ground (arith, g.smaller v);
  }

  pub Agrees-copy : (a : Atom) → InScope left a → Agrees (extend x all) left ((x, a) ∷ s)
  unfolding apply_subst_atom get
  Agrees-copy a ha = record {
    mapped = λ v h. elim (Bool-cases (v == x)) [
      | inl same ↦ rw same ha
      | inr other ↦ rw other (g.mapped v (ground arith))
    ];
    unmapped = λ v h. ground (arith, g.unmapped v);
    smaller = λ v h. g.smaller v (ground arith);
  }

pub Agrees-extend_all :
    (xs : List VarId) (all left : Scope) (s : Subst)
    → Agrees all left s
    → AreNew all xs
    → Agrees (extend_all xs all) (extend_all xs left) s
Agrees-extend_all [] all left s g h = g
Agrees-extend_all (x ∷ xs) all left s g h =
    Agrees-extend_all xs _ _ s (Agrees-extend all left s g x h.0) h.1

pub AreNew-left :
    (xs : List VarId) (all left : Scope)
    → ((v : VarId) → all v ≡ false → left v ≡ false)
    → AreNew all xs
    → AreNew left xs
AreNew-left [] all left le h = tt
AreNew-left (x ∷ xs) all left le h =
    (le x h.0, AreNew-left xs (extend x all) (extend x left) (λ v e. ground (arith, le v)) h.1)

module _ (all left : Scope) (s : Subst) (g : Agrees all left s) where
  pub InScope-subst : (a : Atom) → InScope all a → InScope left (apply_subst_atom s a)
  unfolding apply_subst_atom
  InScope-subst (var v) h = g.mapped v h
  InScope-subst _ h = tt

  pub AllInScope-subst :
      (r : List Atom) → AllInScope all r → AllInScope left (apply_subst_atoms s r)
  unfolding apply_subst_atoms
  AllInScope-subst [] h = tt
  AllInScope-subst (a ∷ r) h = (InScope-subst a h.0, AllInScope-subst r h.1)

  pub PairsInScope-subst :
      (r : List (VarId × Atom)) → PairsInScope all r → PairsInScope left (apply_subst_pairs s r)
  unfolding apply_subst_pairs
  PairsInScope-subst [] h = tt
  PairsInScope-subst ((x, a) ∷ r) h = (InScope-subst a h.0, PairsInScope-subst r h.1)

  pub RhsInScope-subst : (rhs : Rhs) → RhsInScope all rhs → RhsInScope left (apply_subst_rhs s rhs)
  unfolding apply_subst_rhs
  RhsInScope-subst (atom a) h = InScope-subst a h
  RhsInScope-subst (call f args) h = (InScope-subst f h.0, AllInScope-subst args h.1)
  RhsInScope-subst (make_closure id captures) h = PairsInScope-subst captures h
  RhsInScope-subst (make_tuple ctor fields) h = AllInScope-subst fields h
  RhsInScope-subst (project base index) h = InScope-subst base h

pub bound_names-subst :
    (s : Subst) (r : List (VarId × Atom)) → bound_names (apply_subst_pairs s r) ≡ bound_names r
unfolding apply_subst_pairs
bound_names-subst s [] = refl
bound_names-subst s ((x, a) ∷ r) = rw (bound_names-subst s r)

pub is_propagatable-true : (a : Atom) → is_propagatable a ≡ true
unfolding is_propagatable
is_propagatable-true (var _) = refl
is_propagatable-true _ = refl

-- What is known behind the bindings.
pub record After (all left : Scope) (s : Subst) (binds : List LetBind) : Type 0 where
  pub scoped : BindsInScope left (subst_binds s binds).1
  pub agrees :
      Agrees
        (scope_after all binds)
        (scope_after left (subst_binds s binds).1)
        (subst_binds s binds).0

-- One binding: what holds behind the later ones holds behind it as well.
module _ (x : VarId) (bs : List LetBind) (all left : Scope) (s : Subst) (g : Agrees all left s)
    (new : all x ≡ false)
    (later : (left' : Scope) (s' : Subst)
      → Agrees (extend x all) left' s'
      → After (extend x all) left' s' bs) where
  After-copy : (a : Atom) → InScope all a → After all left s (let_bind x (atom a) ∷ bs)
  unfolding subst_binds
  After-copy a h =
      let a' = apply_subst_atom s a in
      let t =
        later left ((x, a') ∷ s)
          (Agrees-copy all left s g x new a' (InScope-subst all left s g a h)) in
      record {
        scoped = rw (is_propagatable-true a') t.scoped;
        agrees = rw (is_propagatable-true a') t.agrees;
      }

  After-emit :
      (rhs : Rhs)
      → RhsInScope all rhs
      → record_copy x (apply_subst_rhs s rhs) s ≡ s
      → ((out : List LetBind)
          → emit x (apply_subst_rhs s rhs) out ≡ let_bind x (apply_subst_rhs s rhs) ∷ out)
      → After all left s (let_bind x rhs ∷ bs)
  unfolding subst_binds
  After-emit rhs h keeps emits =
      let t = later (extend x left) s (Agrees-extend all left s g x new) in
      record {
        scoped =
            rw (keeps, emits (subst_binds s bs).1)
              (g.smaller x new, RhsInScope-subst all left s g rhs h, t.scoped);
        agrees = rw (keeps, emits (subst_binds s bs).1) t.agrees;
      }

pub After-binds :
    (bs : List LetBind) (all left : Scope) (s : Subst)
    → Agrees all left s
    → BindsInScope all bs
    → After all left s bs
unfolding subst_binds
After-binds [] all left s g h = record { scoped = tt; agrees = g }
After-binds (let_bind x (atom a) ∷ bs) all left s g h =
    After-copy x bs all left s g h.0 (λ left' s' g'. After-binds bs _ left' s' g' h.2) a h.1
After-binds (let_bind x (call f args) ∷ bs) all left s g h =
    After-emit x bs all left s g h.0 (λ left' s' g'. After-binds bs _ left' s' g' h.2) _ h.1 refl
      (λ out. refl)
After-binds (let_bind x (make_closure id captures) ∷ bs) all left s g h =
    After-emit x bs all left s g h.0 (λ left' s' g'. After-binds bs _ left' s' g' h.2) _ h.1 refl
      (λ out. refl)
After-binds (let_bind x (make_tuple ctor fields) ∷ bs) all left s g h =
    After-emit x bs all left s g h.0 (λ left' s' g'. After-binds bs _ left' s' g' h.2) _ h.1 refl
      (λ out. refl)
After-binds (let_bind x (project base index) ∷ bs) all left s g h =
    After-emit x bs all left s g h.0 (λ left' s' g'. After-binds bs _ left' s' g' h.2) _ h.1 refl
      (λ out. refl)
