-- ===== src/Ir/Binders.antt =====
-- Which variables a list of bindings of crates/nexl-ir/src/lib.rs binds.
use nexl.Prelude.{
  true, false, List, [], ◌∷◌, ◌≡◌, sym, ap, ◌∙◌, inl, inr, arith, Ids, In, contains, ==_self,
}
use nexl.Ir.{VarId, Rhs, LetBind, let_bind}

unfoldable pub binders : List LetBind → Ids
binders [] = []
binders (let_bind x rhs ∷ bs) = x ∷ binders bs

-- No variable is bound twice.
abbrev pub BindsOnce : List LetBind → Type 0
BindsOnce [] = Unit
BindsOnce (let_bind x rhs ∷ bs) = (contains (binders bs) x ≡ false) × BindsOnce bs

abbrev binder_of : LetBind → VarId
binder_of (let_bind x rhs) = x

abbrev rhs_of : LetBind → Rhs
rhs_of (let_bind x rhs) = rhs

contains-binders :
    (bs : List LetBind) (x : VarId) (rhs : Rhs)
    → In (let_bind x rhs) bs
    → contains (binders bs) x ≡ true
unfolding binders contains
contains-binders [] x rhs i = absurd i
contains-binders (let_bind y r ∷ bs) x rhs (inl e) =
    let same : x ≡ y = ap binder_of e in rw same (ground (arith, ==_self y))
contains-binders (let_bind y r ∷ bs) x rhs (inr i) = ground (arith, contains-binders bs x rhs i)

-- Where no variable is bound twice, a variable has one binding.
pub BindsOnce-one :
    (bs : List LetBind) (x : VarId) (r q : Rhs)
    → BindsOnce bs
    → In (let_bind x r) bs
    → In (let_bind x q) bs
    → r ≡ q
BindsOnce-one [] x r q once i j = absurd i
BindsOnce-one (let_bind y p ∷ bs) x r q once (inl i) (inl j) = ap rhs_of (i ∙ sym j)
BindsOnce-one (let_bind y p ∷ bs) x r q (new, once) (inl i) (inr j) =
    let x-is-y : x ≡ y = ap binder_of i in
    absurd (ground (arith, new, ap (contains (binders bs)) (sym x-is-y), contains-binders bs x q j))
BindsOnce-one (let_bind y p ∷ bs) x r q (new, once) (inr i) (inl j) =
    let x-is-y : x ≡ y = ap binder_of j in
    absurd (ground (arith, new, ap (contains (binders bs)) (sym x-is-y), contains-binders bs x r i))
BindsOnce-one (let_bind y p ∷ bs) x r q (new, once) (inr i) (inr j) =
    BindsOnce-one bs x r q once i j
