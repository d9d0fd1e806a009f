-- ===== src/Tests/Types.antt =====
-- Tests of crates/nexl-types.
use nexl.Prelude.{
  ℕ, suc, Bool, true, false, Option, none, some, String, List, [], ◌∷◌, ◌≡◌, refl, ◌<◌, length,
  arith,
}
use nexl.Types.{
  Prim, int, int64, bool, never, Ty, prim, var, fn, tuple, vec, Tys, nil, cons, EffectRow, new_row,
  empty_row, free_vars, occurs_in,
}
use nexl.Types.FreeVars.{contains-free_vars}
use nexl.Types.Subst.{Subst, empty, insert_var, insert_effect_row, apply, apply_effect_row}
use nexl.Types.Subst.Solve.{replace_vars, solve, IsTriangular}
use nexl.Types.Scheme.{Scheme, instantiate}
use nexl.Types.Scheme.Renaming.{renaming, instantiate-Gives}
use nexl.Types.Subst.Apply.{Gives, apply-Gives}
use nexl.Types.Unify.{Naming, ok, err, infinite_type, unify}
use nexl.Types.Unify.Sound.{Reaches, Agreeing}
use nexl.Types.Unify.Termination.{Ends, unify-Ended}

-- `fn (a, Int) -> b` and `fn (Bool, b) -> Int64`
abbrev left_fn : Ty
left_fn = fn (cons (var 0) (cons (prim int) nil)) (var 1) empty_row

abbrev right_fn : Ty
right_fn = fn (cons (prim bool) (cons (var 1) nil)) (prim int64) empty_row

abbrev names : Naming
names n = "_e"

abbrev two_bound : Subst
two_bound = record {
  map = (1, prim int) ∷ (0, vec (var 1)) ∷ [];
  effect_rows = [];
  next_effect_var = 0;
}

two_bound-IsTriangular : IsTriangular two_bound.map
unfolding nexl.Types.Subst.lookup occurs_in
two_bound-IsTriangular =
    (refl, refl, (λ u e. absurd (ground (arith, e))), (refl, refl, (λ u e. refl), tt))

apply_twice :
    apply 3 two_bound (tuple (cons (var 0) nil)) ≡ some (tuple (cons (vec (prim int)) nil))
unfolding apply
apply_twice = refl

apply-Gives_example : Gives (apply 3 two_bound (var 0)) (solve two_bound.map (var 0))
apply-Gives_example = apply-Gives two_bound 3 (var 0) two_bound-IsTriangular (omega arith)

unify_functions :
    unify 3 names left_fn right_fn empty
    ≡ ok (record {
      map = (1, prim int) ∷ (0, prim bool) ∷ [];
      effect_rows = [];
      next_effect_var = 0;
    })
unfolding unify empty apply empty_row occurs_in
unify_functions = refl

unify_infinite : unify 3 names (var 0) (vec (var 0)) empty ≡ err (infinite_type 0 (vec (var 0)))
unfolding unify empty apply occurs_in
unify_infinite = refl

unify-Ended_example :
    Ends (Reaches empty (Agreeing left_fn right_fn)) (λ n. unify n names left_fn right_fn empty)
unfolding empty
unify-Ended_example = unify-Ended names left_fn right_fn empty tt

contains-free_vars_example : nexl.Prelude.contains (free_vars left_fn []) 1 ≡ occurs_in 1 left_fn
contains-free_vars_example = contains-free_vars left_fn 1

-- `forall t0 t1. (t0, t1)`
abbrev pair_scheme : Scheme
pair_scheme = record { forall_ = 0 ∷ 1 ∷ []; body = tuple (cons (var 0) (cons (var 1) nil)) }

instantiate-Gives_example :
    Gives
      (instantiate pair_scheme 5).0
      (replace_vars (renaming pair_scheme.forall_ 5) pair_scheme.body)
unfolding nexl.Prelude.contains
instantiate-Gives_example =
    instantiate-Gives pair_scheme 5 (omega arith, refl, (omega arith, refl, tt))

-- From a supply that stands at a quantified variable, the two variables become one.
instantiate-collapses :
    (instantiate pair_scheme 1).0 ≡ some (tuple (cons (var 2) (cons (var 2) nil)))
unfolding instantiate apply
instantiate-collapses = refl
