-- ===== src/Types/Unify/Cases.antt =====
-- unify.rs: the cases of unification on two types that differ end.
use mathlib.Core.Path.{subst}
use nexl.Prelude.{ℕ, ◌≤◌, refl, sym, inl, ◌==◌, ◌&&◌, ==_self, arith, str_eq, if◌then◌else◌}
use nexl.Types.{
  never, Ty, prim, var, fn, adt, rec, tuple, vec, map, set, Tys, EffectRow, occurs_in,
  occurs_in_tys,
}
use nexl.Types.Equality.{ty_eq}
use nexl.Types.Subst.{Subst}
use nexl.Types.Subst.Solve.{replace_vars, solve, IsTriangular}
use nexl.Types.Unify.{
  Naming, Unified, ok, err, ◌>>=◌, mismatch, arity_mismatch, length_tys, length_fields, bad_arity,
  unify_tys, unify_fields, bind_var, unify_effect_rows, unify_apart, unify_applied,
}
use nexl.Types.Unify.Extension.{IsApplied}
use nexl.Types.Unify.Rows.{unify_effect_rows-KeepsTypes}
use nexl.Types.Unify.Measure.{size, Below, Below-left, Below-right, IsBelow}
use nexl.Types.Unify.Settles.{
  IsGood, Later, Settles, Settles-at, Settles-bind, Settles-if, Settles-check_arity,
  Settles-from_rows,
}
use nexl.Types.Unify.Ends.{EndsBelow, bind_var-Ended, unify_tys-Settles, unify_fields-Settles}

module _ (naming : Naming) (on_pair : ℕ → Ty → Ty → Subst → Unified) (k bound : ℕ) (s : Subst)
    (good : IsGood k s) (ends : EndsBelow k bound s on_pair) where
  unify_fn-Settles :
      (pa pb : Tys) (ra rb : Ty) (ea eb : EffectRow)
      → Below k (λ v. occurs_in v (fn pa ra ea))
      → Below k (λ v. occurs_in v (fn pb rb eb))
      → size (solve s.map (fn pa ra ea)) ≤ bound
      → (s' : Subst) → Later k s s'
      → Settles (Later k s) (λ n. unify_tys (on_pair n) pa pb s' >>= on_pair n ra rb)
  unfolding replace_vars size occurs_in
  unify_fn-Settles pa pb ra rb ea eb ba bb small s' later =
      Settles-bind (Later k s) (Later k s) (λ n. unify_tys (on_pair n) pa pb s')
        (λ n. on_pair n ra rb)
        (unify_tys-Settles on_pair k bound s ends pa pb
          (Below-left k (λ v. occurs_in_tys v pa) (λ v. occurs_in v ra) ba)
          (Below-left k (λ v. occurs_in_tys v pb) (λ v. occurs_in v rb) bb) (omega (arith, small))
          s' later)
        (ends ra rb (Below-right k (λ v. occurs_in_tys v pa) (λ v. occurs_in v ra) ba)
          (Below-right k (λ v. occurs_in_tys v pb) (λ v. occurs_in v rb) bb) (omega (arith, small)))

  unify_map-Settles :
      (ka va kb vb : Ty)
      → Below k (λ v. occurs_in v (map ka va))
      → Below k (λ v. occurs_in v (map kb vb))
      → size (solve s.map (map ka va)) ≤ bound
      → Settles (Later k s) (λ n. on_pair n ka kb s >>= on_pair n va vb)
  unfolding replace_vars size occurs_in
  unify_map-Settles ka va kb vb ba bb small =
      Settles-bind (Later k s) (Later k s) (λ n. on_pair n ka kb s) (λ n. on_pair n va vb)
        (ends ka kb (Below-left k (λ v. occurs_in v ka) (λ v. occurs_in v va) ba)
          (Below-left k (λ v. occurs_in v kb) (λ v. occurs_in v vb) bb) (omega (arith, small)) s
          (good, inl refl))
        (ends va vb (Below-right k (λ v. occurs_in v ka) (λ v. occurs_in v va) ba)
          (Below-right k (λ v. occurs_in v kb) (λ v. occurs_in v vb) bb) (omega (arith, small)))

  pub unify_apart-Settles :
      (a b : Ty)
      → IsApplied s.map a
      → IsApplied s.map b
      → Below k (λ v. occurs_in v a)
      → Below k (λ v. occurs_in v b)
      → size (solve s.map a) ≤ bound
      → Settles (Later k s) (λ n. unify_apart naming (on_pair n) a b s)
  unfolding unify_apart replace_vars size occurs_in
  unify_apart-Settles (var tv) b ha hb ba bb small =
      Settles-at (Later k s) (bind_var tv b s)
        (bind_var-Ended k tv b s good (ha tv (==_self tv)) hb (ba tv (==_self tv)) bb)
  unify_apart-Settles a (var tv) ha hb ba bb small =
      Settles-at (Later k s) (bind_var tv a s)
        (bind_var-Ended k tv a s good (hb tv (==_self tv)) ha (bb tv (==_self tv)) ba)
  unify_apart-Settles (prim never) b ha hb ba bb small =
      Settles-at (Later k s) (ok s) (good, inl refl)
  unify_apart-Settles a (prim never) ha hb ba bb small =
      Settles-at (Later k s) (ok s) (good, inl refl)
  unify_apart-Settles (fn pa ra ea) (fn pb rb eb) ha hb ba bb small =
      let e = arity_mismatch (length_tys pa) (length_tys pb) in
      Settles-from_rows (Later k s) (fn pa ra ea) (fn pb rb eb) s (unify_effect_rows naming ea eb s)
        (λ n s'.
          if length_tys pa == length_tys pb
          then (unify_tys (on_pair n) pa pb s' >>= on_pair n ra rb)
          else err e)
        (unify_effect_rows-KeepsTypes naming ea eb s)
        (λ s' kept.
          let later : Later k s s' =
            (subst (λ m. IsTriangular m × IsBelow k m) (sym kept) good, inl kept) in
          Settles-if (Later k s) (length_tys pa == length_tys pb)
            (λ n. unify_tys (on_pair n) pa pb s' >>= on_pair n ra rb) (λ n. err e)
            (λ len. unify_fn-Settles pa pb ra rb ea eb ba bb small s' later)
            (λ other. Settles-at (Later k s) (err e) tt))
  unify_apart-Settles (adt na aa) (adt nb ab) ha hb ba bb small =
      Settles-if (Later k s) (str_eq na nb && (length_tys aa == length_tys ab))
        (λ n. unify_tys (on_pair n) aa ab s) (λ n. err (mismatch (adt na aa) (adt nb ab)))
        (λ e.
          unify_tys-Settles on_pair k bound s ends aa ab ba bb (omega (arith, small)) s
            (good, inl refl))
        (λ e. Settles-at (Later k s) (err (mismatch (adt na aa) (adt nb ab))) tt)
  unify_apart-Settles (rec na fa) (rec nb fb) ha hb ba bb small =
      let e = mismatch (rec na fa) (rec nb fb) in
      Settles-if (Later k s) (str_eq na nb && (length_fields fa == length_fields fb))
        (λ n. unify_fields (on_pair n) fa fb e s) (λ n. err e)
        (λ h.
          unify_fields-Settles on_pair k bound s ends fa fb e ba bb (omega (arith, small)) s
            (good, inl refl))
        (λ h. Settles-at (Later k s) (err e) tt)
  unify_apart-Settles (tuple ta) (tuple tb) ha hb ba bb small =
      Settles-if (Later k s) (length_tys ta == length_tys tb) (λ n. unify_tys (on_pair n) ta tb s)
        (λ n. err (mismatch (tuple ta) (tuple tb)))
        (λ e.
          unify_tys-Settles on_pair k bound s ends ta tb ba bb (omega (arith, small)) s
            (good, inl refl))
        (λ e. Settles-at (Later k s) (err (mismatch (tuple ta) (tuple tb))) tt)
  unify_apart-Settles (vec ea) (vec eb) ha hb ba bb small =
      ends ea eb ba bb (omega (arith, small)) s (good, inl refl)
  unify_apart-Settles (map ka va) (map kb vb) ha hb ba bb small =
      unify_map-Settles ka va kb vb ba bb small
  unify_apart-Settles (set ea) (set eb) ha hb ba bb small =
      ends ea eb ba bb (omega (arith, small)) s (good, inl refl)
  unify_apart-Settles a b ha hb ba bb small = Settles-at (Later k s) (err (mismatch a b)) tt

  pub unify_applied-Settles :
      (a b : Ty)
      → IsApplied s.map a
      → IsApplied s.map b
      → Below k (λ v. occurs_in v a)
      → Below k (λ v. occurs_in v b)
      → size (solve s.map a) ≤ bound
      → Settles (Later k s) (λ n. unify_applied naming (on_pair n) a b s)
  unfolding unify_applied
  unify_applied-Settles a b ha hb ba bb small = Settles-check_arity (Later k s) (bad_arity a) _ (
      Settles-check_arity (Later k s) (bad_arity b) _ (
        Settles-if (Later k s) (ty_eq a b) (λ n. ok s) (λ n. unify_apart naming (on_pair n) a b s)
          (λ e. Settles-at (Later k s) (ok s) (good, inl refl))
          (λ e. unify_apart-Settles a b ha hb ba bb small)))
