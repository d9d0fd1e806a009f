-- ===== src/Types/Unify/Ends.antt =====
-- unify.rs: the cases of unification end, where it ends on pairs whose left type is smaller.
use mathlib.Core.Path.{subst}
use nexl.Prelude.{
  ℕ, ◌<◌, String, none, some, ◌≡◌, Bool-cases, Option-cases, inl, inr, arith, str_eq,
}
use nexl.Types.{
  TypeVar, Ty, Tys, nil, cons, Fields, end, field, occurs_in, occurs_in_tys, occurs_in_fields,
}
use nexl.Types.Subst.{Subst, insert_var, lookup}
use nexl.Types.Subst.Solve.{replace_tys, replace_fields, solution, solve}
use nexl.Types.Unify.{
  Unified, ok, err, TypeErrorKind, find_field, unify_tys, unify_fields, bind_var,
}
use nexl.Types.Unify.Extension.{IsApplied}
use nexl.Types.Unify.Measure.{
  size, size_tys, size_fields, Below, Below-left, Below-right, unbound-lt,
}
use nexl.Types.Unify.Settles.{IsGood, Later, Ended, Settles, Settles-at, Settles-bind}

find_field-Below :
    (k : ℕ) (name : String) (gs : Fields) (u : Ty)
    → Below k (λ v. occurs_in_fields v gs)
    → find_field name gs ≡ some u
    → Below k (λ v. occurs_in v u)
unfolding find_field occurs_in_fields
find_field-Below k name end u h e = absurd (ground (arith, e))
find_field-Below k name (field m t gs) u h e = elim (Bool-cases (str_eq m name)) [
  | inl found ↦
      let t-is-u : t ≡ u = ground (arith, e, found) in
      subst (λ x. Below k (λ v. occurs_in v x)) t-is-u
        (Below-left k (λ v. occurs_in v t) (λ v. occurs_in_fields v gs) h)
  | inr other ↦
      find_field-Below k name gs u
        (Below-right k (λ v. occurs_in v t) (λ v. occurs_in_fields v gs) h)
        (ground (arith, e, other))
]

pub bind_var-Ended :
    (k : ℕ) (tv : TypeVar) (t : Ty) (s : Subst)
    → IsGood k s
    → lookup s.map tv ≡ none
    → IsApplied s.map t
    → tv < k
    → Below k (λ v. occurs_in v t)
    → Ended (Later k s) (bind_var tv t s)
unfolding bind_var insert_var
bind_var-Ended k tv t s (tri, below) fresh apart lt b = elim (Bool-cases (occurs_in tv t)) [
  | inl occurs ↦ rw occurs tt
  | inr absent ↦
      let good : IsGood k (insert_var tv t s) = ((fresh, absent, apart, tri), (lt, b, below)) in
      rw absent (good, inr (unbound-lt k tv t s.map lt fresh))
]

-- From a substitution `s`, pairs whose left type stands for one of a size below `bound` end.
abbrev pub EndsBelow : ℕ → ℕ → Subst → (ℕ → Ty → Ty → Subst → Unified) → Type 0
EndsBelow k bound s on_pair =
    (t u : Ty)
    → Below k (λ v. occurs_in v t)
    → Below k (λ v. occurs_in v u)
    → size (solve s.map t) < bound
    → (s' : Subst) → Later k s s'
    → Settles (Later k s) (λ n. on_pair n t u s')

module _ (on_pair : ℕ → Ty → Ty → Subst → Unified) (k bound : ℕ) (s : Subst)
    (ends : EndsBelow k bound s on_pair) where
  pub unify_tys-Settles :
      (ts us : Tys)
      → Below k (λ v. occurs_in_tys v ts)
      → Below k (λ v. occurs_in_tys v us)
      → size_tys (replace_tys (solution s.map) ts) < bound
      → (s' : Subst) → Later k s s'
      → Settles (Later k s) (λ n. unify_tys (on_pair n) ts us s')
  unfolding unify_tys replace_tys size_tys occurs_in_tys
  unify_tys-Settles nil us bt bu small s' later = Settles-at (Later k s) (ok s') later
  unify_tys-Settles (cons t ts) nil bt bu small s' later = Settles-at (Later k s) (ok s') later
  unify_tys-Settles (cons t ts) (cons u us) bt bu small s' later =
      Settles-bind (Later k s) (Later k s) (λ n. on_pair n t u s')
        (λ n. unify_tys (on_pair n) ts us)
        (ends t u (Below-left k (λ v. occurs_in v t) (λ v. occurs_in_tys v ts) bt)
          (Below-left k (λ v. occurs_in v u) (λ v. occurs_in_tys v us) bu) (omega (arith, small)) s'
          later)
        (unify_tys-Settles ts us (Below-right k (λ v. occurs_in v t) (λ v. occurs_in_tys v ts) bt)
          (Below-right k (λ v. occurs_in v u) (λ v. occurs_in_tys v us) bu) (omega (arith, small)))

  pub unify_fields-Settles :
      (fs gs : Fields) (e : TypeErrorKind)
      → Below k (λ v. occurs_in_fields v fs)
      → Below k (λ v. occurs_in_fields v gs)
      → size_fields (replace_fields (solution s.map) fs) < bound
      → (s' : Subst) → Later k s s'
      → Settles (Later k s) (λ n. unify_fields (on_pair n) fs gs e s')
  unfolding unify_fields replace_fields size_fields occurs_in_fields
  unify_fields-Settles end gs e bf bg small s' later = Settles-at (Later k s) (ok s') later
  unify_fields-Settles (field m t fs) gs e bf bg small s' later =
      let onward =
        unify_fields-Settles fs gs e
          (Below-right k (λ v. occurs_in v t) (λ v. occurs_in_fields v fs) bf) bg
          (omega (arith, small)) in
      elim (Option-cases (find_field m gs)) [
        | inl missing ↦ rw missing (Settles-at (Later k s) (err e) tt)
        | inr (u, found) ↦ rw found (
            Settles-bind (Later k s) (Later k s) (λ n. on_pair n t u s')
              (λ n. unify_fields (on_pair n) fs gs e)
              (ends t u (Below-left k (λ v. occurs_in v t) (λ v. occurs_in_fields v fs) bf)
                (find_field-Below k m gs u bg found) (omega (arith, small)) s' later)
              onward)
      ]
