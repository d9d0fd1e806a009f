-- ===== src/Types/Unify/Agrees.antt =====
-- unify.rs: where unification succeeds, the two types agree under the substitution that it leaves.
use mathlib.Core.Path.{subst}
use nexl.Prelude.{
  ℕ, Option, none, some, List, [], ◌≡◌, refl, ap, ◌∙◌, sym, ◌&&◌, ◌==◌, ==_iff, ==_self, str_eq,
  str_eq_iff,
}
use nexl.Types.{
  TypeVar, Prim, never, Ty, prim, var, fn, adt, rec, tuple, vec, map, set, Tys, Fields, EffectRow,
  occurs_in,
}
use nexl.Types.Equality.{and-both, ty_eq, ty_eq_sound}
use nexl.Types.Subst.{Subst}
use nexl.Types.Subst.Solve.{replace_vars, replace_fields, solution, solve, IsTriangular}
use nexl.Types.Unify.{
  Naming, Unified, ok, err, ◌>>=◌, mismatch, arity_mismatch, normalize, length_tys, length_fields,
  bad_arity, check_arity, unify_effect_rows, from_rows, unify_tys, unify_fields, bind_var,
  unify_apart, unify_applied,
}
use nexl.Types.Unify.Agreement.{
  same, never_left, never_right, both_fn, both_adt, both_rec, both_tuple, both_vec, both_map,
  both_set, length_fields-replace,
}
use nexl.Types.Unify.Extension.{Extends, IsApplied, Agree-Extends, AgreeTys-Extends}
use nexl.Types.Unify.Rows.{KeepsTypes, unify_effect_rows-KeepsTypes}
use nexl.Types.Unify.Sound.{
  Ensures, Ensures-map, Ensures-if, Reaches, Reaches-bind, Reaches-map, Agreeing, AgreeingTys,
  AgreeingFields, IsSoundOn, unify_tys-Ensures, unify_fields-Ensures, bind_var-Ensures,
}

from_rows-Ensures :
    (P : Subst → Type 0) (a b : Ty) (s : Subst) (r : Option Subst) (f : Subst → Unified)
    → KeepsTypes s r
    → ((s' : Subst) → s'.map ≡ s.map → Ensures P (f s'))
    → Ensures P (from_rows a b r f)
from_rows-Ensures P a b s none f h k = tt
from_rows-Ensures P a b s (some s') f h k = k s' h

check_arity-Ensures :
    (P : Subst → Type 0) (bad : Option ℕ) (u : Unified)
    → Ensures P u
    → Ensures P (check_arity bad u)
check_arity-Ensures P none u h = h
check_arity-Ensures P (some n) u h = tt

-- What is reached from a substitution of the same bindings.
Reaches-same :
    (s s' : Subst) (P : List (TypeVar × Ty) → Type 0) (u : Unified)
    → s'.map ≡ s.map
    → Ensures (Reaches s' P) u
    → Ensures (Reaches s P) u
Reaches-same s s' P u e h =
    Ensures-map (Reaches s' P) (Reaches s P) u h
      (λ s'' (tri, ext, p). (tri, subst (λ m. Extends m s''.map) e ext, p))

length-solution :
    (m : List (TypeVar × Ty)) (fs gs : Fields)
    → length_fields fs ≡ length_fields gs
    → length_fields (replace_fields (solution m) fs)
      ≡ length_fields (replace_fields (solution m) gs)
length-solution m fs gs e =
    length_fields-replace (solution m) fs ∙ e ∙ sym (length_fields-replace (solution m) gs)

module _ (naming : Naming) (on_pair : Ty → Ty → Subst → Unified) (sound : IsSoundOn on_pair) where
  -- The parameters and the result of two functions.
  unify_fn-Ensures :
      (pa pb : Tys) (ra rb : Ty) (ea eb : EffectRow) (s : Subst)
      → length_tys pa ≡ length_tys pb
      → IsTriangular s.map
      → Ensures
          (Reaches s (Agreeing (fn pa ra ea) (fn pb rb eb)))
          (unify_tys on_pair pa pb s >>= on_pair ra rb)
  unfolding replace_vars
  unify_fn-Ensures pa pb ra rb ea eb s len tri =
      Reaches-bind s (AgreeingTys pa pb) (Agreeing ra rb) (Agreeing (fn pa ra ea) (fn pb rb eb))
        (unify_tys on_pair pa pb s) (on_pair ra rb)
        (λ m m' ext ps r. both_fn (AgreeTys-Extends m m' pa pb ext ps) r)
        (unify_tys-Ensures on_pair sound pa pb s len tri) (λ s' tri'. sound ra rb s' tri')

  unify_map-Ensures :
      (ka kb va vb : Ty) (s : Subst)
      → IsTriangular s.map
      → Ensures (Reaches s (Agreeing (map ka va) (map kb vb))) (on_pair ka kb s >>= on_pair va vb)
  unfolding replace_vars
  unify_map-Ensures ka kb va vb s tri =
      Reaches-bind s (Agreeing ka kb) (Agreeing va vb) (Agreeing (map ka va) (map kb vb))
        (on_pair ka kb s) (on_pair va vb)
        (λ m m' ext k v. both_map (Agree-Extends m m' ka kb ext k) v) (sound ka kb s tri)
        (λ s' tri'. sound va vb s' tri')

  unify_apart-Ensures :
      (a b : Ty) (s : Subst)
      → IsTriangular s.map
      → IsApplied s.map a
      → IsApplied s.map b
      → Ensures (Reaches s (Agreeing a b)) (unify_apart naming on_pair a b s)
  unfolding unify_apart replace_vars occurs_in
  unify_apart-Ensures (var tv) b s tri ha hb =
      Reaches-map s (λ m. solution m tv ≡ solve m b) (Agreeing (var tv) b) (bind_var tv b s)
        (λ m e. same (ap normalize e)) (bind_var-Ensures tv b s tri (ha tv (==_self tv)) hb)
  unify_apart-Ensures a (var tv) s tri ha hb =
      Reaches-map s (λ m. solution m tv ≡ solve m a) (Agreeing a (var tv)) (bind_var tv a s)
        (λ m e. same (ap normalize (sym e))) (bind_var-Ensures tv a s tri (hb tv (==_self tv)) ha)
  unify_apart-Ensures (prim never) b s tri ha hb = (tri, ([], refl), never_left)
  unify_apart-Ensures a (prim never) s tri ha hb = (tri, ([], refl), never_right)
  unify_apart-Ensures (fn pa ra ea) (fn pb rb eb) s tri ha hb =
      from_rows-Ensures (Reaches s (Agreeing (fn pa ra ea) (fn pb rb eb))) (fn pa ra ea)
        (fn pb rb eb) s (unify_effect_rows naming ea eb s) _
        (unify_effect_rows-KeepsTypes naming ea eb s)
        (λ s' kept. Reaches-same s s' (Agreeing (fn pa ra ea) (fn pb rb eb)) _ kept (
          Ensures-if (Reaches s' (Agreeing (fn pa ra ea) (fn pb rb eb)))
            (length_tys pa == length_tys pb) (unify_tys on_pair pa pb s' >>= on_pair ra rb)
            (err (arity_mismatch (length_tys pa) (length_tys pb)))
            (λ len.
              unify_fn-Ensures pa pb ra rb ea eb s' ((==_iff _ _).0 len)
                (subst IsTriangular (sym kept) tri))
            (λ other. tt)))
  unify_apart-Ensures (adt na aa) (adt nb ab) s tri ha hb =
      Ensures-if (Reaches s (Agreeing (adt na aa) (adt nb ab)))
        (str_eq na nb && (length_tys aa == length_tys ab)) (unify_tys on_pair aa ab s)
        (err (mismatch (adt na aa) (adt nb ab)))
        (λ e.
          let (names, len) = and-both (str_eq na nb) (length_tys aa == length_tys ab) e in
          let same_name = (str_eq_iff na nb).0 names in
          Reaches-map s (AgreeingTys aa ab) (Agreeing (adt na aa) (adt nb ab))
            (unify_tys on_pair aa ab s) (λ m ts. both_adt same_name ts)
            (unify_tys-Ensures on_pair sound aa ab s ((==_iff _ _).0 len) tri))
        (λ other. tt)
  unify_apart-Ensures (rec na fa) (rec nb fb) s tri ha hb =
      let e = mismatch (rec na fa) (rec nb fb) in
      Ensures-if (Reaches s (Agreeing (rec na fa) (rec nb fb)))
        (str_eq na nb && (length_fields fa == length_fields fb)) (unify_fields on_pair fa fb e s)
        (err e)
        (λ h.
          let (names, len) = and-both (str_eq na nb) (length_fields fa == length_fields fb) h in
          Reaches-map s (AgreeingFields fa fb) (Agreeing (rec na fa) (rec nb fb))
            (unify_fields on_pair fa fb e s)
            (λ m fields.
              both_rec ((str_eq_iff na nb).0 names) (length-solution m fa fb ((==_iff _ _).0 len))
                fields)
            (unify_fields-Ensures on_pair sound fa fb e s tri))
        (λ other. tt)
  unify_apart-Ensures (tuple ta) (tuple tb) s tri ha hb =
      Ensures-if (Reaches s (Agreeing (tuple ta) (tuple tb))) (length_tys ta == length_tys tb)
        (unify_tys on_pair ta tb s) (err (mismatch (tuple ta) (tuple tb)))
        (λ len.
          Reaches-map s (AgreeingTys ta tb) (Agreeing (tuple ta) (tuple tb))
            (unify_tys on_pair ta tb s) (λ m ts. both_tuple ts)
            (unify_tys-Ensures on_pair sound ta tb s ((==_iff _ _).0 len) tri))
        (λ other. tt)
  unify_apart-Ensures (vec ea) (vec eb) s tri ha hb =
      Reaches-map s (Agreeing ea eb) (Agreeing (vec ea) (vec eb)) (on_pair ea eb s)
        (λ m a. both_vec a) (sound ea eb s tri)
  unify_apart-Ensures (map ka va) (map kb vb) s tri ha hb = unify_map-Ensures ka kb va vb s tri
  unify_apart-Ensures (set ea) (set eb) s tri ha hb =
      Reaches-map s (Agreeing ea eb) (Agreeing (set ea) (set eb)) (on_pair ea eb s)
        (λ m a. both_set a) (sound ea eb s tri)
  unify_apart-Ensures a b s tri ha hb = tt

  pub unify_applied-Ensures :
      (a b : Ty) (s : Subst)
      → IsTriangular s.map
      → IsApplied s.map a
      → IsApplied s.map b
      → Ensures (Reaches s (Agreeing a b)) (unify_applied naming on_pair a b s)
  unfolding unify_applied
  unify_applied-Ensures a b s tri ha hb = check_arity-Ensures _ (bad_arity a) _ (
      check_arity-Ensures _ (bad_arity b) _ (
        Ensures-if (Reaches s (Agreeing a b)) (ty_eq a b) (ok s) (unify_apart naming on_pair a b s)
          (λ e. (tri, ([], refl), same (ap (λ t. normalize (solve s.map t)) (ty_eq_sound a b e))))
          (λ other. unify_apart-Ensures a b s tri ha hb)))
