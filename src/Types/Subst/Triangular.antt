-- ===== src/Types/Subst/Triangular.antt =====
-- subst.rs: what a triangular substitution stands for mentions no bound variable, and every bound
-- variable stands for what its type does.
use nexl.Prelude.{
  Bool, true, false, none, some, List, [], ◌∷◌, ◌||◌, ◌≡◌, refl, ap, ◌∙◌, sym, ◌==◌, Bool-cases,
  inl, inr, ==_iff, ==_self, arith,
}
use nexl.Types.{
  TypeVar, Ty, prim, var, fn, adt, rec, tuple, vec, map, set, Tys, nil, cons, Fields, end, field,
  occurs_in, occurs_in_tys, occurs_in_fields,
}
use nexl.Types.Subst.{lookup}
use nexl.Types.Subst.Solve.{
  replace_vars, replace_tys, replace_fields, erase, single, solution, solve, IsTriangular, or-cases,
  replace-replace, replace-cong,
}

-- A variable that a replaced type mentions comes from a variable of the type.
abbrev pub Source : (TypeVar → Bool) → (TypeVar → Ty) → TypeVar → Type 0
Source test f u = (x : TypeVar) × (test x ≡ true) × (occurs_in u (f x) ≡ true)

Source-left :
    (a b : TypeVar → Bool) (f : TypeVar → Ty) (u : TypeVar)
    → Source a f u
    → Source (λ x. a x || b x) f u
Source-left a b f u (x, e, h) = (x, ground (arith, e), h)

Source-right :
    (a b : TypeVar → Bool) (f : TypeVar → Ty) (u : TypeVar)
    → Source b f u
    → Source (λ x. a x || b x) f u
Source-right a b f u (x, e, h) = (x, ground (arith, e), h)

Source-either :
    (a b : TypeVar → Bool) (f : TypeVar → Ty) (u : TypeVar) (p q : Bool)
    → (p ≡ true → Source a f u)
    → (q ≡ true → Source b f u)
    → (p || q) ≡ true
    → Source (λ x. a x || b x) f u
Source-either a b f u p q left right h = elim (or-cases p q h) [
  | inl e ↦ Source-left a b f u (left e)
  | inr e ↦ Source-right a b f u (right e)
]

module _ (f : TypeVar → Ty) (u : TypeVar) where
  mutual
    unfolding replace_vars replace_tys replace_fields occurs_in occurs_in_tys occurs_in_fields

    pub replace-Source :
        (t : Ty) → occurs_in u (replace_vars f t) ≡ true → Source (λ x. occurs_in x t) f u
    replace-Source (prim p) h = absurd (ground (arith, h))
    replace-Source (var v) h = (v, ==_self v, h)
    replace-Source (fn params ret row) h =
        Source-either (λ x. occurs_in_tys x params) (λ x. occurs_in x ret) f u _ _
          (replace_tys-Source params) (replace-Source ret) h
    replace-Source (adt name args) h = replace_tys-Source args h
    replace-Source (rec name fields) h = replace_fields-Source fields h
    replace-Source (tuple items) h = replace_tys-Source items h
    replace-Source (vec elem) h = replace-Source elem h
    replace-Source (map key val) h =
        Source-either (λ x. occurs_in x key) (λ x. occurs_in x val) f u _ _ (replace-Source key)
          (replace-Source val) h
    replace-Source (set elem) h = replace-Source elem h

    replace_tys-Source :
        (ts : Tys)
        → occurs_in_tys u (replace_tys f ts) ≡ true
        → Source (λ x. occurs_in_tys x ts) f u
    replace_tys-Source nil h = absurd (ground (arith, h))
    replace_tys-Source (cons t ts) h =
        Source-either (λ x. occurs_in x t) (λ x. occurs_in_tys x ts) f u _ _ (replace-Source t)
          (replace_tys-Source ts) h

    replace_fields-Source :
        (fs : Fields)
        → occurs_in_fields u (replace_fields f fs) ≡ true
        → Source (λ x. occurs_in_fields x fs) f u
    replace_fields-Source end h = absurd (ground (arith, h))
    replace_fields-Source (field name t fs) h =
        Source-either (λ x. occurs_in x t) (λ x. occurs_in_fields x fs) f u _ _ (replace-Source t)
          (replace_fields-Source fs) h

-- Erasing the rows changes no variable.
mutual
  unfolding replace_vars replace_tys replace_fields occurs_in occurs_in_tys occurs_in_fields

  pub occurs-erase : (u : TypeVar) (t : Ty) → occurs_in u (erase t) ≡ occurs_in u t
  occurs-erase u (prim p) = refl
  occurs-erase u (var v) = refl
  occurs-erase u (fn params ret row) = cc (occurs_tys-erase u params, occurs-erase u ret)
  occurs-erase u (adt name args) = occurs_tys-erase u args
  occurs-erase u (rec name fields) = occurs_fields-erase u fields
  occurs-erase u (tuple items) = occurs_tys-erase u items
  occurs-erase u (vec elem) = occurs-erase u elem
  occurs-erase u (map key val) = cc (occurs-erase u key, occurs-erase u val)
  occurs-erase u (set elem) = occurs-erase u elem

  occurs_tys-erase :
      (u : TypeVar) (ts : Tys) → occurs_in_tys u (replace_tys var ts) ≡ occurs_in_tys u ts
  occurs_tys-erase u nil = refl
  occurs_tys-erase u (cons t ts) = cc (occurs-erase u t, occurs_tys-erase u ts)

  occurs_fields-erase :
      (u : TypeVar) (fs : Fields)
      → occurs_in_fields u (replace_fields var fs) ≡ occurs_in_fields u fs
  occurs_fields-erase u end = refl
  occurs_fields-erase u (field name t fs) = cc (occurs-erase u t, occurs_fields-erase u fs)

erase-occurs : (u : TypeVar) (t : Ty) → occurs_in u (erase t) ≡ true → occurs_in u t ≡ true
erase-occurs u t h = sym (occurs-erase u t) ∙ h

pub solution-unbound :
    (entries : List (TypeVar × Ty)) (v : TypeVar)
    → lookup entries v ≡ none
    → solution entries v ≡ var v
unfolding solution lookup replace_vars
solution-unbound [] v h = refl
solution-unbound ((w, t) ∷ rest) v h = elim (Bool-cases (v == w)) [
  | inl same ↦ cc (h, same)
  | inr other ↦ rw (solution-unbound rest v (ground (arith, h))) (ground arith)
]

-- A type that mentions no bound variable stands for itself.
pub solve-unbound :
    (entries : List (TypeVar × Ty)) (t : Ty)
    → ((u : TypeVar) → occurs_in u t ≡ true → lookup entries u ≡ none)
    → solve entries t ≡ erase t
solve-unbound entries t h =
    replace-cong (solution entries) var t (λ u e. solution-unbound entries u (h u e))

pub solve-step :
    (w : TypeVar) (t : Ty) (rest : List (TypeVar × Ty)) (ty : Ty)
    → solve ((w, t) ∷ rest) ty ≡ replace_vars (single w (erase t)) (solve rest ty)
unfolding solution
solve-step w t rest ty = sym (replace-replace (single w (erase t)) (solution rest) ty)

single-apart :
    (w : TypeVar) (t s : Ty) → occurs_in w s ≡ false → replace_vars (single w t) (erase s) ≡ erase s
unfolding replace_vars
single-apart w t s apart =
    replace-replace (single w t) var s
    ∙ replace-cong (single w t) var s (λ u e. elim (Bool-cases (u == w)) [
      | inl same ↦
          let u-is-w = (==_iff u w).0 same in
          absurd (ground (arith, e, apart, ap (λ x. occurs_in x s) u-is-w))
      | inr other ↦ rw other refl
    ])

solution-head :
    (w : TypeVar) (s : Ty) (rest : List (TypeVar × Ty))
    → IsTriangular ((w, s) ∷ rest)
    → solution ((w, s) ∷ rest) w ≡ solve ((w, s) ∷ rest) s
unfolding solution replace_vars
solution-head w s rest h =
    rw (solution-unbound rest w h.0, ==_self w)
      (sym (
        solve-step w s rest s
        ∙ ap (replace_vars (single w (erase s))) (solve-unbound rest s h.2)
        ∙ single-apart w (erase s) s h.1))

-- A bound variable stands for what its type does.
pub solution-bound :
    (entries : List (TypeVar × Ty)) (v : TypeVar) (t : Ty)
    → IsTriangular entries
    → lookup entries v ≡ some t
    → solution entries v ≡ solve entries t
unfolding solution lookup replace_vars
solution-bound [] v t h e = cc
solution-bound ((w, s) ∷ rest) v t h e = elim (Bool-cases (v == w)) [
  | inl same ↦
      let v-is-w = (==_iff v w).0 same in
      let t-is-s : s ≡ t = ground (arith, e) in
      ap (solution ((w, s) ∷ rest)) v-is-w
      ∙ solution-head w s rest h
      ∙ ap (solve ((w, s) ∷ rest)) t-is-s
  | inr other ↦
      ap (replace_vars (single w (erase s))) (solution-bound rest v t h.3 (ground (arith, e)))
      ∙ sym (solve-step w s rest t)
]

-- What a variable stands for mentions no bound variable.
pub solution-occurs :
    (entries : List (TypeVar × Ty)) (v u : TypeVar)
    → IsTriangular entries
    → occurs_in u (solution entries v) ≡ true
    → lookup entries u ≡ none
unfolding solution lookup occurs_in
solution-occurs [] v u h e = refl
solution-occurs ((w, t) ∷ rest) v u h e =
    let (x, from, at) = replace-Source (single w (erase t)) u (solution rest v) e in
    elim (Bool-cases (x == w)) [
      | inl same ↦
          let in-t = erase-occurs u t (rw same at at) in
          elim (Bool-cases (u == w)) [
            | inl u-w ↦
                absurd (ground (arith, h.1, in-t, ap (λ y. occurs_in y t) ((==_iff u w).0 u-w)))
            | inr u-w ↦ rw u-w (h.2 u in-t)
          ]
      | inr other ↦
          let x-is-u = (==_iff x u).0 (rw other at at) in
          let unbound =
            solution-occurs rest v u h.3
              (ap (λ y. occurs_in y (solution rest v)) (sym x-is-u) ∙ from) in
          let apart = ap (λ y. y == w) (sym x-is-u) ∙ other in rw apart unbound
    ]
