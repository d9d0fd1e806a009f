-- ===== src/Types/Equality.antt =====
-- The derived equality of crates/nexl-types/src/types.rs.
use nexl.Prelude.{
  Bool, true, false, Option, none, some, String, List, [], ◌∷◌, ◌&&◌, ◌≡◌, refl, ap, ◌==◌, ==_iff,
  str_eq, str_eq_iff, arith,
}
use nexl.Types.{
  Prim, Prim-discrete, Ty, prim, var, fn, adt, rec, tuple, vec, map, set, Tys, nil, cons, Fields,
  end, field, EffectRow,
}

unfoldable pub prim_eq : Prim → Prim → Bool
unfolding Prim-discrete
prim_eq p q = elim (Prim-discrete p q) [ yes _ ↦ true | no _ ↦ false ]

unfoldable pub texts_eq : List String → List String → Bool
texts_eq [] [] = true
texts_eq (a ∷ as_) (b ∷ bs) = str_eq a b && texts_eq as_ bs
texts_eq _ _ = false

unfoldable pub tail_eq : Option String → Option String → Bool
tail_eq none none = true
tail_eq (some a) (some b) = str_eq a b
tail_eq _ _ = false

unfoldable pub row_eq : EffectRow → EffectRow → Bool
unfolding texts_eq tail_eq
row_eq r q = texts_eq r.effects q.effects && tail_eq r.tail q.tail

unfoldable mutual
  unfolding prim_eq row_eq

  pub ty_eq : Ty → Ty → Bool
  ty_eq (prim p) (prim q) = prim_eq p q
  ty_eq (var v) (var w) = v == w
  ty_eq (fn ps r row) (fn qs q row') = tys_eq ps qs && (ty_eq r q && row_eq row row')
  ty_eq (adt n ts) (adt m us) = str_eq n m && tys_eq ts us
  ty_eq (rec n fs) (rec m gs) = str_eq n m && fields_eq fs gs
  ty_eq (tuple ts) (tuple us) = tys_eq ts us
  ty_eq (vec t) (vec u) = ty_eq t u
  ty_eq (map k t) (map l u) = ty_eq k l && ty_eq t u
  ty_eq (set t) (set u) = ty_eq t u
  ty_eq _ _ = false

  pub tys_eq : Tys → Tys → Bool
  tys_eq nil nil = true
  tys_eq (cons t ts) (cons u us) = ty_eq t u && tys_eq ts us
  tys_eq _ _ = false

  pub fields_eq : Fields → Fields → Bool
  fields_eq end end = true
  fields_eq (field n t fs) (field m u gs) = str_eq n m && (ty_eq t u && fields_eq fs gs)
  fields_eq _ _ = false

prim_eq_sound : (p q : Prim) → prim_eq p q ≡ true → p ≡ q
unfolding prim_eq
prim_eq_sound p q h = ground (arith, h)

texts_eq_sound : (as_ bs : List String) → texts_eq as_ bs ≡ true → as_ ≡ bs
unfolding texts_eq
texts_eq_sound [] [] h = refl
texts_eq_sound (a ∷ as_) (b ∷ bs) h = ground (arith, h, str_eq_iff a b, texts_eq_sound as_ bs)
texts_eq_sound _ _ h = absurd (ground (arith, h))

tail_eq_sound : (a b : Option String) → tail_eq a b ≡ true → a ≡ b
unfolding tail_eq
tail_eq_sound none none h = refl
tail_eq_sound (some a) (some b) h = ap some ((str_eq_iff a b).0 h)
tail_eq_sound _ _ h = absurd (ground (arith, h))

pub and-both : (a b : Bool) → (a && b) ≡ true → (a ≡ true) × (b ≡ true)
and-both true b h = (refl, h)
and-both false b h = absurd (ground (arith, h))

row_eq_sound : (r q : EffectRow) → row_eq r q ≡ true → r ≡ q
unfolding row_eq
row_eq_sound r q h =
    let both = and-both (texts_eq r.effects q.effects) (tail_eq r.tail q.tail) h in
    ground (arith, texts_eq_sound r.effects q.effects both.0, tail_eq_sound r.tail q.tail both.1)

mutual
  unfolding ty_eq tys_eq fields_eq

  pub ty_eq_sound : (t u : Ty) → ty_eq t u ≡ true → t ≡ u
  ty_eq_sound (prim p) (prim q) h = ap prim (prim_eq_sound p q h)
  ty_eq_sound (var v) (var w) h = ap var ((==_iff v w).0 h)
  ty_eq_sound (fn ps r row) (fn qs q row') h =
      let first = and-both (tys_eq ps qs) (ty_eq r q && row_eq row row') h in
      let second = and-both (ty_eq r q) (row_eq row row') first.1 in
      cc (tys_eq_sound ps qs first.0, ty_eq_sound r q second.0, row_eq_sound row row' second.1)
  ty_eq_sound (adt n ts) (adt m us) h =
      let both = and-both (str_eq n m) (tys_eq ts us) h in
      cc ((str_eq_iff n m).0 both.0, tys_eq_sound ts us both.1)
  ty_eq_sound (rec n fs) (rec m gs) h =
      let both = and-both (str_eq n m) (fields_eq fs gs) h in
      cc ((str_eq_iff n m).0 both.0, fields_eq_sound fs gs both.1)
  ty_eq_sound (tuple ts) (tuple us) h = cc (tys_eq_sound ts us h)
  ty_eq_sound (vec t) (vec u) h = cc (ty_eq_sound t u h)
  ty_eq_sound (map k t) (map l u) h =
      let both = and-both (ty_eq k l) (ty_eq t u) h in
      cc (ty_eq_sound k l both.0, ty_eq_sound t u both.1)
  ty_eq_sound (set t) (set u) h = cc (ty_eq_sound t u h)
  ty_eq_sound _ _ h = absurd (ground (arith, h))

  tys_eq_sound : (ts us : Tys) → tys_eq ts us ≡ true → ts ≡ us
  tys_eq_sound nil nil h = refl
  tys_eq_sound (cons t ts) (cons u us) h =
      let both = and-both (ty_eq t u) (tys_eq ts us) h in
      cc (ty_eq_sound t u both.0, tys_eq_sound ts us both.1)
  tys_eq_sound _ _ h = absurd (ground (arith, h))

  fields_eq_sound : (fs gs : Fields) → fields_eq fs gs ≡ true → fs ≡ gs
  fields_eq_sound end end h = refl
  fields_eq_sound (field n t fs) (field m u gs) h =
      let first = and-both (str_eq n m) (ty_eq t u && fields_eq fs gs) h in
      let second = and-both (ty_eq t u) (fields_eq fs gs) first.1 in
      cc ((str_eq_iff n m).0 first.0, ty_eq_sound t u second.0, fields_eq_sound fs gs second.1)
  fields_eq_sound _ _ h = absurd (ground (arith, h))
