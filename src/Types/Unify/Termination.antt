-- ===== src/Types/Unify/Termination.antt =====
-- unify.rs: with enough fuel unification ends.
use mathlib.Core.Path.{subst}
use nexl.Prelude.{ℕ, zero, suc, ◌+◌, ◌<◌, ◌≤◌, [], ◌≡◌, refl, ap, ◌∙◌, sym, inl, inr, arith}
use nexl.Types.{Ty, prim, occurs_in, int64, f64}
use nexl.Types.Subst.{Subst}
use nexl.Types.Subst.Solve.{solve, IsTriangular}
use nexl.Types.Unify.{Naming, Unified, ok, err, out_of_fuel, unify, normalize}
use nexl.Types.Unify.Measure.{size, Below, IsBelow, unbound}
use nexl.Types.Unify.Settles.{IsGood, Later, Ended, Settles, Settles-map, Settles-suc, Later-trans}
use nexl.Types.Unify.Cases.{unify_applied-Settles}
use nexl.Types.Unify.Ends.{EndsBelow}
use nexl.Types.Unify.Measure.{limit_of, limit_of-Below, solve-Below}
use nexl.Types.Unify.Success.{
  occurs-normalize, Stands, apply_all-Stands, solve-Stands, unify-Ensures,
}
use nexl.Types.Unify.Sound.{Ensures, Reaches, Agreeing}
use nexl.Types.Subst.Triangular.{occurs-erase}

size-normalize : (t : Ty) → size (normalize t) ≡ size t
unfolding normalize size
size-normalize (prim int64) = refl
size-normalize (prim f64) = refl
size-normalize (prim _) = refl
size-normalize _ = refl

-- What a type is replaced with is as large as what the type stands for, and its variables are
-- below the number that the type's and the bindings' are below.
size-Stands :
    (s : Subst) (t t' : Ty)
    → IsTriangular s.map
    → Stands s t t'
    → size (solve s.map (normalize t')) ≡ size (solve s.map t)
size-Stands s t t' tri h =
    sym (size-normalize (solve s.map (normalize t')))
    ∙ sym (ap size (solve-Stands s s.map t t' tri ([], refl) h))
    ∙ size-normalize (solve s.map t)

Stands-Below :
    (k : ℕ) (s : Subst) (t t' : Ty)
    → IsBelow k s.map
    → Below k (λ v. occurs_in v t)
    → Stands s t t'
    → Below k (λ v. occurs_in v (normalize t'))
Stands-Below k s t t' good below (free, e) u o =
    solve-Below k s.map t good below u
      (ap (occurs_in u) (sym e) ∙ occurs-erase u t' ∙ sym (occurs-normalize u t') ∙ o)

-- Where the pairs of smaller left types end, so does this one.
unify-Settles-step :
    (naming : Naming) (k bound : ℕ) (a b : Ty) (s : Subst)
    → IsGood k s
    → Below k (λ v. occurs_in v a)
    → Below k (λ v. occurs_in v b)
    → size (solve s.map a) ≤ bound
    → EndsBelow k bound s (λ n. unify n naming)
    → Settles (Later k s) (λ n. unify n naming a b s)
unfolding unify
unify-Settles-step naming k bound a b s good ba bb small ends =
    let (a', a_given, a_stands) = apply_all-Stands s a good.0 in
    let (b', b_given, b_stands) = apply_all-Stands s b good.0 in
    let size_a = size-Stands s a a' good.0 a_stands in
    Settles-suc (Later k s) (λ n. unify n naming a b s)
      (rw (a_given, b_given)
        (unify_applied-Settles naming (λ n. unify n naming) k bound s good ends (normalize a')
          (normalize b') a_stands.0 b_stands.0 (Stands-Below k s a a' good.1 ba a_stands)
          (Stands-Below k s b b' good.1 bb b_stands) (omega (arith, small, size_a))))

-- By induction on the number of unbound variables, and then on the size of the left type.
unify-Settles :
    (c z k : ℕ) (naming : Naming) (a b : Ty) (s : Subst)
    → IsGood k s
    → Below k (λ v. occurs_in v a)
    → Below k (λ v. occurs_in v b)
    → unbound k s.map < c
    → size (solve s.map a) < z
    → Settles (Later k s) (λ n. unify n naming a b s)
unify-Settles zero z k naming a b s good ba bb few small = absurd (omega (arith, few))
unify-Settles (suc c) zero k naming a b s good ba bb few small = absurd (omega (arith, small))
unify-Settles (suc c) (suc z) k naming a b s good ba bb few small =
    unify-Settles-step naming k z a b s good ba bb (omega (arith, small))
      (λ t u bt bu smaller s' later.
        Settles-map (Later k s') (Later k s) (λ n. unify n naming t u s')
          (λ s''. Later-trans k s s' s'' later)
          (elim later.1 [
            | inl same ↦
                unify-Settles (suc c) z k naming t u s' later.0 bt bu
                  (omega (arith, few, ap (unbound k) same))
                  (omega (arith, smaller, ap (λ m. size (solve m t)) same))
            | inr fewer ↦
                unify-Settles c (suc (size (solve s'.map t))) k naming t u s' later.0 bt bu
                  (omega (arith, few, fewer)) (omega arith)
          ]))

Ended-Ensures : (P Q : Subst → Type 0) (u : Unified) → Ended P u → Ensures Q u → Ended Q u
Ended-Ensures P Q (ok s) h k = k
Ended-Ensures P Q (err e) h k = tt
Ended-Ensures P Q out_of_fuel h k = absurd h

-- From some fuel on a run has the same result, and one that is not a lack of fuel.
abbrev pub Ends : (Subst → Type 0) → (ℕ → Unified) → Type 0
Ends P run = (enough : ℕ) × (u : Unified) × Ended P u × ((extra : ℕ) → run (enough + extra) ≡ u)

-- Unification of two types from a triangular substitution ends: from some fuel on, its result is
-- the same and is not a lack of fuel. Where that result is a substitution, it is triangular again,
-- has the bindings that were there and further ones in front, and under it the two types agree:
-- they are equal up to effect rows, the aliases Int64 and F64, the type Never and the order of
-- record fields.
pub unify-Ended :
    (naming : Naming) (a b : Ty) (s : Subst)
    → IsTriangular s.map
    → Ends (Reaches s (Agreeing a b)) (λ n. unify n naming a b s)
unify-Ended naming a b s tri =
    let k = limit_of a b s.map in
    let (ba, bb, good) = limit_of-Below a b s.map in
    let (enough, u, h, at) =
      unify-Settles (suc (unbound k s.map)) (suc (size (solve s.map a))) k naming a b s (tri, good)
        ba bb (omega arith) (omega arith) in
    let sound =
      subst (Ensures (Reaches s (Agreeing a b))) (at enough (omega arith))
        (unify-Ensures enough naming a b s tri) in
    (
      enough,
      u,
      Ended-Ensures (Later k s) (Reaches s (Agreeing a b)) u h sound,
      λ extra. at (enough + extra) (omega arith),
    )
