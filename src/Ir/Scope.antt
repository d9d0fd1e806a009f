-- ===== src/Ir/Scope.antt =====
-- Well-scoped blocks: a variable is bound before it is read, and no binder is bound twice in the
-- scope of the first, as `VarGen` of crates/nexl-ir/src/lib.rs makes it.
use nexl.Prelude.{Bool, true, false, List, [], ◌∷◌, ◌≡◌, ◌||◌, ◌==◌}
use nexl.Ir.{
  VarId, Atom, var, Rhs, atom, call, make_closure, make_tuple, project, LetBind, let_bind, Block,
  block, Tail, ret, if_else, tail_call, match, panic, loop, recur, Arms, nil, arm,
}

abbrev pub Scope : Type 0
Scope = VarId → Bool

abbrev pub extend : VarId → Scope → Scope
extend x s y = y == x || s y

abbrev pub extend_all : List VarId → Scope → Scope
extend_all [] s = s
extend_all (x ∷ xs) s = extend_all xs (extend x s)

abbrev pub bound_names : {A : Type 0} → List (VarId × A) → List VarId
bound_names [] = []
bound_names ((x, a) ∷ r) = x ∷ bound_names r

abbrev pub InScope : Scope → Atom → Type 0
InScope s (var v) = s v ≡ true
InScope s a = Unit

abbrev pub AllInScope : Scope → List Atom → Type 0
AllInScope s [] = Unit
AllInScope s (a ∷ r) = InScope s a × AllInScope s r

abbrev pub PairsInScope : Scope → List (VarId × Atom) → Type 0
PairsInScope s [] = Unit
PairsInScope s ((x, a) ∷ r) = InScope s a × PairsInScope s r

abbrev pub RhsInScope : Scope → Rhs → Type 0
RhsInScope s (atom a) = InScope s a
RhsInScope s (call f args) = InScope s f × AllInScope s args
RhsInScope s (make_closure id captures) = PairsInScope s captures
RhsInScope s (make_tuple ctor fields) = AllInScope s fields
RhsInScope s (project base index) = InScope s base

abbrev pub AreNew : Scope → List VarId → Type 0
AreNew s [] = Unit
AreNew s (x ∷ xs) = (s x ≡ false) × AreNew (extend x s) xs

abbrev pub scope_after : Scope → List LetBind → Scope
scope_after s [] = s
scope_after s (let_bind x rhs ∷ bs) = scope_after (extend x s) bs

abbrev pub BindsInScope : Scope → List LetBind → Type 0
BindsInScope s [] = Unit
BindsInScope s (let_bind x rhs ∷ bs) =
    (s x ≡ false) × RhsInScope s rhs × BindsInScope (extend x s) bs

abbrev mutual
  pub BlockInScope : Scope → Block → Type 0
  BlockInScope s (block binds tail) = BindsInScope s binds × TailInScope (scope_after s binds) tail

  pub TailInScope : Scope → Tail → Type 0
  TailInScope s (ret a) = InScope s a
  TailInScope s (if_else c t e) = InScope s c × BlockInScope s t × BlockInScope s e
  TailInScope s (tail_call f args) = InScope s f × AllInScope s args
  TailInScope s (match a arms) = InScope s a × ArmsInScope s arms
  TailInScope s (panic a) = InScope s a
  TailInScope s (loop vars body) =
      PairsInScope s vars
      × AreNew s (bound_names vars)
      × BlockInScope (extend_all (bound_names vars) s) body
  TailInScope s (recur args) = AllInScope s args

  pub ArmsInScope : Scope → Arms → Type 0
  ArmsInScope s nil = Unit
  ArmsInScope s (arm ctor binds body rest) =
      AreNew s binds × BlockInScope (extend_all binds s) body × ArmsInScope s rest
