-- ===== src/Types/Subst/Apply.antt =====
-- subst.rs: on a triangular substitution `apply` ends, and gives what the substitution stands for.
use nexl.Prelude.{
  ℕ, zero, suc, ◌≤◌, ◌<◌, Bool, true, Option, none, some, List, [], ◌∷◌, ◌≡◌, refl, ap, ◌∙◌, sym,
  ◌==◌, Bool-cases, Option-cases, inl, inr, ==_iff, ==_self, arith, if◌then◌else◌, Ids, contains,
  length,
}
use nexl.Types.{
  TypeVar, Ty, prim, var, fn, adt, rec, tuple, vec, map, set, Tys, nil, cons, Fields, end, field,
  EffectRow, occurs_in, occurs_in_tys, occurs_in_fields,
}
use nexl.Types.Subst.{
  Subst, lookup, apply_effect_row, apply_with, apply_tys, apply_fields, follow, visit, apply,
}
use nexl.Types.Subst.Solve.{
  replace_vars, replace_tys, replace_fields, erase, solution, solve, IsTriangular,
}
use nexl.Types.Subst.Triangular.{solution-unbound, solution-bound}

-- How many bindings newer than a bound variable's there are at most, from one on.
unfoldable rank : List (TypeVar × Ty) → TypeVar → ℕ
rank [] v = 0
rank ((w, t) ∷ rest) v =
    let later = rank rest v in if v == w then 1 else if later == 0 then 0 else suc later

rank-unbound :
    (entries : List (TypeVar × Ty)) (v : TypeVar) → lookup entries v ≡ none → rank entries v ≡ 0
unfolding rank lookup
rank-unbound [] v h = refl
rank-unbound ((w, t) ∷ rest) v h = ground (arith, h, rank-unbound rest v)

rank-bound :
    (entries : List (TypeVar × Ty)) (v : TypeVar) (t : Ty)
    → lookup entries v ≡ some t
    → 0 < rank entries v
unfolding rank lookup
rank-bound [] v t h = cc
rank-bound ((w, s) ∷ rest) v t h = ground (arith, rank-bound rest v t)

rank-le-length : (entries : List (TypeVar × Ty)) (v : TypeVar) → rank entries v ≤ length entries
unfolding rank
rank-le-length [] v = omega arith
rank-le-length ((w, t) ∷ rest) v = ground (arith, rank-le-length rest v)

-- The type of a bound variable mentions variables of smaller rank.
rank-decreases :
    (entries : List (TypeVar × Ty)) (v u : TypeVar) (t : Ty)
    → IsTriangular entries
    → lookup entries v ≡ some t
    → occurs_in u t ≡ true
    → rank entries u < rank entries v
unfolding rank lookup
rank-decreases [] v u t h e o = cc
rank-decreases ((w, s) ∷ rest) v u t h e o = elim (Bool-cases (v == w)) [
  | inl same ↦
      let t-is-s : t ≡ s = ground (arith, e, same) in
      let in-s = ap (occurs_in u) (sym t-is-s) ∙ o in
      let unbound = rank-unbound rest u (h.2 u in-s) in
      elim (Bool-cases (u == w)) [
        | inl u-w ↦ absurd (ground (arith, h.1, in-s, ap (λ y. occurs_in y s) ((==_iff u w).0 u-w)))
        | inr u-w ↦ ground (arith, same, u-w, unbound)
      ]
  | inr other ↦
      let bound : lookup rest v ≡ some t = ground (arith, e, other) in
      let ih = rank-decreases rest v u t h.3 bound o in
      ground (arith, other, ih, rank-bound rest v t bound)
]

-- A result that is there, and is a given type but for its effect rows.
abbrev pub Gives : Option Ty → Ty → Type 0
Gives o u = (t : Ty) × (o ≡ some t) × (erase t ≡ u)

abbrev GivesTys : Option Tys → Tys → Type 0
GivesTys o us = (ts : Tys) × (o ≡ some ts) × (replace_tys var ts ≡ us)

abbrev GivesFields : Option Fields → Fields → Type 0
GivesFields o us = (fs : Fields) × (o ≡ some fs) × (replace_fields var fs ≡ us)

abbrev GivesOn : (TypeVar → Bool) → (TypeVar → Option Ty) → (TypeVar → Ty) → Type 0
GivesOn test f g = (v : TypeVar) → test v ≡ true → Gives (f v) (g v)

module _ (f : TypeVar → Option Ty) (on_row : EffectRow → EffectRow) (g : TypeVar → Ty) where
  mutual
    unfolding apply_with apply_tys apply_fields replace_vars replace_tys replace_fields occurs_in
        occurs_in_tys occurs_in_fields

    apply_with-Gives :
        (t : Ty)
        → GivesOn (λ v. occurs_in v t) f g
        → Gives (apply_with f on_row t) (replace_vars g t)
    apply_with-Gives (prim p) h = (prim p, refl, refl)
    apply_with-Gives (var v) h = h v (==_self v)
    apply_with-Gives (fn params ret row) h =
        let (ps, e, same) = apply_tys-Gives params (λ v o. h v (ground (arith, o))) in
        let (r, e', same') = apply_with-Gives ret (λ v o. h v (ground (arith, o))) in
        (fn ps r (on_row row), rw (e, e') refl, cc (same, same'))
    apply_with-Gives (adt name args) h =
        let (ts, e, same) = apply_tys-Gives args h in (adt name ts, rw e refl, cc same)
    apply_with-Gives (rec name fields) h =
        let (fs, e, same) = apply_fields-Gives fields h in (rec name fs, rw e refl, cc same)
    apply_with-Gives (tuple items) h =
        let (ts, e, same) = apply_tys-Gives items h in (tuple ts, rw e refl, cc same)
    apply_with-Gives (vec elem) h =
        let (t, e, same) = apply_with-Gives elem h in (vec t, rw e refl, cc same)
    apply_with-Gives (map key val) h =
        let (k, e, same) = apply_with-Gives key (λ v o. h v (ground (arith, o))) in
        let (x, e', same') = apply_with-Gives val (λ v o. h v (ground (arith, o))) in
        (map k x, rw (e, e') refl, cc (same, same'))
    apply_with-Gives (set elem) h =
        let (t, e, same) = apply_with-Gives elem h in (set t, rw e refl, cc same)

    apply_tys-Gives :
        (ts : Tys)
        → GivesOn (λ v. occurs_in_tys v ts) f g
        → GivesTys (apply_tys f on_row ts) (replace_tys g ts)
    apply_tys-Gives nil h = (nil, refl, refl)
    apply_tys-Gives (cons t ts) h =
        let (t', e, same) = apply_with-Gives t (λ v o. h v (ground (arith, o))) in
        let (ts', e', same') = apply_tys-Gives ts (λ v o. h v (ground (arith, o))) in
        (cons t' ts', rw (e, e') refl, cc (same, same'))

    apply_fields-Gives :
        (fs : Fields)
        → GivesOn (λ v. occurs_in_fields v fs) f g
        → GivesFields (apply_fields f on_row fs) (replace_fields g fs)
    apply_fields-Gives end h = (end, refl, refl)
    apply_fields-Gives (field name t fs) h =
        let (t', e, same) = apply_with-Gives t (λ v o. h v (ground (arith, o))) in
        let (fs', e', same') = apply_fields-Gives fs (λ v o. h v (ground (arith, o))) in
        (field name t' fs', rw (e, e') refl, cc (same, same'))

-- Going on from a bound variable's type, whether that is a variable or not.
follow-Gives :
    (t u : Ty) (current : TypeVar) (next : TypeVar → Option Ty) (other : Ty → Option Ty)
    → ((v : TypeVar) → t ≡ var v → Gives (next v) u)
    → Gives (other t) u
    → Gives (follow (some t) current next other) u
follow-Gives (var v) u current next other h k = h v refl
follow-Gives (prim _) u current next other h k = k
follow-Gives (fn _ _ _) u current next other h k = k
follow-Gives (adt _ _) u current next other h k = k
follow-Gives (rec _ _) u current next other h k = k
follow-Gives (tuple _) u current next other h k = k
follow-Gives (vec _) u current next other h k = k
follow-Gives (map _ _) u current next other h k = k
follow-Gives (set _) u current next other h k = k

module _ (s : Subst) (tri : IsTriangular s.map) where
  -- The loop on a variable, where every variable visited so far has a greater rank.
  visit-Gives :
      (n : ℕ) (tv current : TypeVar) (seen : Ids)
      → rank s.map current < n
      → ((u : TypeVar) → contains seen u ≡ true → rank s.map current < rank s.map u)
      → Gives (visit n s tv current seen) (solution s.map current)
  unfolding visit contains replace_vars occurs_in
  visit-Gives zero tv current seen lt above = absurd (omega arith)
  visit-Gives (suc n) tv current seen lt above = elim (Bool-cases (contains seen current)) [
    | inl yet ↦ absurd (omega (arith, above current yet))
    | inr new ↦ rw new (elim (Option-cases (lookup s.map current)) [
      | inl unbound ↦ rw unbound (var current, refl, sym (solution-unbound s.map current unbound))
      | inr (t, bound) ↦
          rw (bound, solution-bound s.map current t tri bound)
            (follow-Gives t (solve s.map t) current _ _
              (λ v is_var.
                let smaller = rank-decreases s.map current v t tri bound (rw is_var (==_self v)) in
                rw is_var (
                  visit-Gives n tv v (current ∷ seen) (omega (arith, smaller))
                    (λ u e. ground (arith, e, smaller, above u))))
              (apply_with-Gives _ _ (solution s.map) t (λ v o.
                let smaller = rank-decreases s.map current v t tri bound o in
                visit-Gives n v v [] (omega (arith, smaller)) (λ u e. cc e))))
    ])
  ]

-- On a triangular substitution `apply` ends, with a unit of fuel more than there are bindings, and
-- its result is, but for the effect rows, what the substitution stands for.
pub apply-Gives :
    (s : Subst) (n : ℕ) (t : Ty)
    → IsTriangular s.map
    → length s.map < n
    → Gives (apply n s t) (solve s.map t)
unfolding apply
apply-Gives s n t tri lt =
    apply_with-Gives (λ v. visit n s v v []) (apply_effect_row s) (solution s.map) t
      (λ v o. visit-Gives s tri n v v [] (omega (arith, rank-le-length s.map v)) (λ u e. cc e))
