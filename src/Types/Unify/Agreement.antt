-- ===== src/Types/Unify/Agreement.antt =====
-- unify.rs: when two types count as one, effect rows aside: the aliases Int64 and F64 stand for Int
-- and Float, Never agrees with everything, and the fields of a record may come in another order.
use nexl.Prelude.{suc, some, String, ◌≡◌, refl, ap, ◌∙◌, sym, str_eq, Bool-cases, inl, inr, arith}
use nexl.Types.{
  TypeVar, Prim, never, int64, f64, Ty, prim, fn, adt, rec, tuple, vec, map, set, Tys, nil, cons,
  Fields, end, field, EffectRow,
}
use nexl.Types.Subst.Solve.{replace_vars, replace_tys, replace_fields}
use nexl.Types.Unify.{normalize, length_fields, find_field}

mutual
  pub data Agree : Ty → Ty → Type 0 where
    same : {t u : Ty} → normalize t ≡ normalize u → Agree t u
    left : {t t' u : Ty} → normalize t ≡ normalize t' → Agree t' u → Agree t u
    right : {t u u' : Ty} → normalize u ≡ normalize u' → Agree t u' → Agree t u
    never_left : {u : Ty} → Agree (prim never) u
    never_right : {t : Ty} → Agree t (prim never)
    both_fn :
        {ps qs : Tys} {r q : Ty} {row row' : EffectRow}
        → AgreeTys ps qs
        → Agree r q
        → Agree (fn ps r row) (fn qs q row')
    both_adt : {n m : String} {ts us : Tys} → n ≡ m → AgreeTys ts us → Agree (adt n ts) (adt m us)
    both_rec :
        {n m : String} {fs gs : Fields}
        → n ≡ m
        → length_fields fs ≡ length_fields gs
        → AgreeFields fs gs
        → Agree (rec n fs) (rec m gs)
    both_tuple : {ts us : Tys} → AgreeTys ts us → Agree (tuple ts) (tuple us)
    both_vec : {t u : Ty} → Agree t u → Agree (vec t) (vec u)
    both_map : {k l t u : Ty} → Agree k l → Agree t u → Agree (map k t) (map l u)
    both_set : {t u : Ty} → Agree t u → Agree (set t) (set u)

  pub data AgreeTys : Tys → Tys → Type 0 where
    both_nil : AgreeTys nil nil
    both_cons :
        {t u : Ty} {ts us : Tys} → Agree t u → AgreeTys ts us → AgreeTys (cons t ts) (cons u us)

  -- Each field on the left has one of its name on the right.
  pub data AgreeFields : Fields → Fields → Type 0 where
    all_found : {gs : Fields} → AgreeFields end gs
    next_found :
        {n : String} {t u : Ty} {fs gs : Fields}
        → find_field n gs ≡ some u
        → Agree t u
        → AgreeFields fs gs
        → AgreeFields (field n t fs) gs

-- Only an alias changes.
pub normalize-replace_lem :
    (f : TypeVar → Ty) (t : Ty)
    → normalize (replace_vars f t) ≡ normalize (replace_vars f (normalize t))
unfolding normalize replace_vars
normalize-replace_lem f (prim int64) = refl
normalize-replace_lem f (prim f64) = refl
normalize-replace_lem f (prim _) = refl
normalize-replace_lem f _ = refl

normalize-replace :
    (f : TypeVar → Ty) (t u : Ty)
    → normalize t ≡ normalize u
    → normalize (replace_vars f t) ≡ normalize (replace_vars f u)
normalize-replace f t u h =
    normalize-replace_lem f t
    ∙ ap (λ x. normalize (replace_vars f x)) h
    ∙ sym (normalize-replace_lem f u)

pub length_fields-replace :
    (f : TypeVar → Ty) (fs : Fields) → length_fields (replace_fields f fs) ≡ length_fields fs
unfolding replace_fields
length_fields-replace f end = refl
length_fields-replace f (field n t fs) = ap suc (length_fields-replace f fs)

pub find_field-replace :
    (f : TypeVar → Ty) (n : String) (gs : Fields) (u : Ty)
    → find_field n gs ≡ some u
    → find_field n (replace_fields f gs) ≡ some (replace_vars f u)
unfolding find_field replace_fields
find_field-replace f n end u h = cc
find_field-replace f n (field m t gs) u h = elim (Bool-cases (str_eq m n)) [
  | inl e ↦ rw e (ap some (ap (replace_vars f) (ground (arith, h, e))))
  | inr e ↦ rw e (find_field-replace f n gs u (ground (arith, h, e)))
]

-- Agreement is kept by a further replacement of variables.
module _ (f : TypeVar → Ty) where
  mutual
    unfolding replace_vars replace_tys replace_fields

    pub Agree-replace : {t u : Ty} → Agree t u → Agree (replace_vars f t) (replace_vars f u)
    Agree-replace (same {t} {u} e) = same (normalize-replace f t u e)
    Agree-replace (left {t} {t'} e a) = left (normalize-replace f t t' e) (Agree-replace a)
    Agree-replace (right {t} {u} {u'} e a) = right (normalize-replace f u u' e) (Agree-replace a)
    Agree-replace never_left = never_left
    Agree-replace never_right = never_right
    Agree-replace (both_fn ps r) = both_fn (AgreeTys-replace ps) (Agree-replace r)
    Agree-replace (both_adt e ts) = both_adt e (AgreeTys-replace ts)
    Agree-replace (both_rec {fs = fs} {gs = gs} e len fields) =
        both_rec e (length_fields-replace f fs ∙ len ∙ sym (length_fields-replace f gs))
          (AgreeFields-replace fields)
    Agree-replace (both_tuple ts) = both_tuple (AgreeTys-replace ts)
    Agree-replace (both_vec a) = both_vec (Agree-replace a)
    Agree-replace (both_map k a) = both_map (Agree-replace k) (Agree-replace a)
    Agree-replace (both_set a) = both_set (Agree-replace a)

    AgreeTys-replace :
        {ts us : Tys} → AgreeTys ts us → AgreeTys (replace_tys f ts) (replace_tys f us)
    AgreeTys-replace both_nil = both_nil
    AgreeTys-replace (both_cons a as_) = both_cons (Agree-replace a) (AgreeTys-replace as_)

    AgreeFields-replace :
        {fs gs : Fields}
        → AgreeFields fs gs
        → AgreeFields (replace_fields f fs) (replace_fields f gs)
    AgreeFields-replace all_found = all_found
    AgreeFields-replace (next_found {n} {t} {u} {fs} {gs} found a as_) =
        next_found (find_field-replace f n gs u found) (Agree-replace a) (AgreeFields-replace as_)
