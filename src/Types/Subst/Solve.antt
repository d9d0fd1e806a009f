-- ===== src/Types/Subst/Solve.antt =====
-- subst.rs: what a substitution stands for, one variable replaced after the other. Effect rows are
-- left aside here: `replace_vars` empties them.
use nexl.Prelude.{
  Bool, true, false, none, List, [], ◌∷◌, ◌||◌, ◌≡◌, refl, ◌==◌, inl, inr, ◌⊎◌, ==_self, arith,
  if◌then◌else◌,
}
use nexl.Types.{
  TypeVar, Ty, prim, var, fn, adt, rec, tuple, vec, map, set, Tys, nil, cons, Fields, end, field,
  empty_row, occurs_in, occurs_in_tys, occurs_in_fields,
}
use nexl.Types.Subst.{lookup}

unfoldable mutual
  pub replace_vars : (TypeVar → Ty) → Ty → Ty
  replace_vars f (prim p) = prim p
  replace_vars f (var v) = f v
  replace_vars f (fn params ret row) = fn (replace_tys f params) (replace_vars f ret) empty_row
  replace_vars f (adt name args) = adt name (replace_tys f args)
  replace_vars f (rec name fields) = rec name (replace_fields f fields)
  replace_vars f (tuple items) = tuple (replace_tys f items)
  replace_vars f (vec elem) = vec (replace_vars f elem)
  replace_vars f (map key val) = map (replace_vars f key) (replace_vars f val)
  replace_vars f (set elem) = set (replace_vars f elem)

  pub replace_tys : (TypeVar → Ty) → Tys → Tys
  replace_tys f nil = nil
  replace_tys f (cons t ts) = cons (replace_vars f t) (replace_tys f ts)

  pub replace_fields : (TypeVar → Ty) → Fields → Fields
  replace_fields f end = end
  replace_fields f (field name t fs) = field name (replace_vars f t) (replace_fields f fs)

-- A type without its effect rows.
abbrev pub erase : Ty → Ty
erase t = replace_vars var t

abbrev pub single : TypeVar → Ty → TypeVar → Ty
single w t v = if v == w then t else var v

-- What a variable stands for: the older bindings first, and the newest, at the head, last.
unfoldable pub solution : List (TypeVar × Ty) → TypeVar → Ty
solution [] v = var v
solution ((w, t) ∷ rest) v = replace_vars (single w (erase t)) (solution rest v)

abbrev pub solve : List (TypeVar × Ty) → Ty → Ty
solve entries t = replace_vars (solution entries) t

-- The order that unification keeps: a variable is bound once, and its type mentions neither itself
-- nor a variable bound before.
abbrev pub IsTriangular : List (TypeVar × Ty) → Type 0
IsTriangular [] = Unit
IsTriangular ((w, t) ∷ rest) =
    (lookup rest w ≡ none)
    × (occurs_in w t ≡ false)
    × ((u : TypeVar) → occurs_in u t ≡ true → lookup rest u ≡ none)
    × IsTriangular rest

pub or-cases : (a b : Bool) → (a || b) ≡ true → (a ≡ true) ⊎ (b ≡ true)
or-cases true b h = inl refl
or-cases false b h = inr h

mutual
  unfolding replace_vars replace_tys replace_fields

  pub replace-replace :
      (f g : TypeVar → Ty) (t : Ty)
      → replace_vars f (replace_vars g t) ≡ replace_vars (λ v. replace_vars f (g v)) t
  replace-replace f g (prim p) = refl
  replace-replace f g (var v) = refl
  replace-replace f g (fn params ret row) =
      cc (replace_tys-replace f g params, replace-replace f g ret)
  replace-replace f g (adt name args) = cc (replace_tys-replace f g args)
  replace-replace f g (rec name fields) = cc (replace_fields-replace f g fields)
  replace-replace f g (tuple items) = cc (replace_tys-replace f g items)
  replace-replace f g (vec elem) = cc (replace-replace f g elem)
  replace-replace f g (map key val) = cc (replace-replace f g key, replace-replace f g val)
  replace-replace f g (set elem) = cc (replace-replace f g elem)

  replace_tys-replace :
      (f g : TypeVar → Ty) (ts : Tys)
      → replace_tys f (replace_tys g ts) ≡ replace_tys (λ v. replace_vars f (g v)) ts
  replace_tys-replace f g nil = refl
  replace_tys-replace f g (cons t ts) = cc (replace-replace f g t, replace_tys-replace f g ts)

  replace_fields-replace :
      (f g : TypeVar → Ty) (fs : Fields)
      → replace_fields f (replace_fields g fs) ≡ replace_fields (λ v. replace_vars f (g v)) fs
  replace_fields-replace f g end = refl
  replace_fields-replace f g (field name t fs) =
      cc (replace-replace f g t, replace_fields-replace f g fs)

-- `f` and `g` agree on the variables that a test picks.
abbrev pub AgreeOn : (TypeVar → Bool) → (TypeVar → Ty) → (TypeVar → Ty) → Type 0
AgreeOn test f g = (v : TypeVar) → test v ≡ true → f v ≡ g v

AgreeOn-left :
    (a b : TypeVar → Bool) (f g : TypeVar → Ty) → AgreeOn (λ v. a v || b v) f g → AgreeOn a f g
AgreeOn-left a b f g h v e = h v (ground (arith, e))

AgreeOn-right :
    (a b : TypeVar → Bool) (f g : TypeVar → Ty) → AgreeOn (λ v. a v || b v) f g → AgreeOn b f g
AgreeOn-right a b f g h v e = h v (ground (arith, e))

module _ (f g : TypeVar → Ty) where
  mutual
    unfolding replace_vars replace_tys replace_fields occurs_in occurs_in_tys occurs_in_fields

    pub replace-cong :
        (t : Ty) → AgreeOn (λ v. occurs_in v t) f g → replace_vars f t ≡ replace_vars g t
    replace-cong (prim p) h = refl
    replace-cong (var v) h = h v (==_self v)
    replace-cong (fn params ret row) h = cc (
      replace_tys-cong params (AgreeOn-left _ (λ v. occurs_in v ret) f g h),
      replace-cong ret (AgreeOn-right (λ v. occurs_in_tys v params) _ f g h),
    )
    replace-cong (adt name args) h = cc (replace_tys-cong args h)
    replace-cong (rec name fields) h = cc (replace_fields-cong fields h)
    replace-cong (tuple items) h = cc (replace_tys-cong items h)
    replace-cong (vec elem) h = cc (replace-cong elem h)
    replace-cong (map key val) h = cc (
      replace-cong key (AgreeOn-left _ (λ v. occurs_in v val) f g h),
      replace-cong val (AgreeOn-right (λ v. occurs_in v key) _ f g h),
    )
    replace-cong (set elem) h = cc (replace-cong elem h)

    replace_tys-cong :
        (ts : Tys) → AgreeOn (λ v. occurs_in_tys v ts) f g → replace_tys f ts ≡ replace_tys g ts
    replace_tys-cong nil h = refl
    replace_tys-cong (cons t ts) h = cc (
      replace-cong t (AgreeOn-left _ (λ v. occurs_in_tys v ts) f g h),
      replace_tys-cong ts (AgreeOn-right (λ v. occurs_in v t) _ f g h),
    )

    replace_fields-cong :
        (fs : Fields)
        → AgreeOn (λ v. occurs_in_fields v fs) f g
        → replace_fields f fs ≡ replace_fields g fs
    replace_fields-cong end h = refl
    replace_fields-cong (field name t fs) h = cc (
      replace-cong t (AgreeOn-left _ (λ v. occurs_in_fields v fs) f g h),
      replace_fields-cong fs (AgreeOn-right (λ v. occurs_in v t) _ f g h),
    )
