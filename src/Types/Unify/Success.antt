-- ===== src/Types/Unify/Success.antt =====
-- unify.rs: where unification succeeds, the two types agree under the substitution that it leaves.
use nexl.Prelude.{ℕ, zero, suc, some, List, ◌≡◌, refl, ap, ◌∙◌, sym, arith, length}
use nexl.Types.{TypeVar, int64, f64, Ty, prim, occurs_in}
use nexl.Types.Subst.{Subst}
use nexl.Types.Subst.Solve.{erase, solution, solve, IsTriangular}
use nexl.Types.Subst.Triangular.{occurs-erase}
use nexl.Types.Subst.Apply.{apply-Gives}
use nexl.Types.Unify.{Naming, normalize, unify_applied, apply_all, unify}
use nexl.Types.Unify.Agreement.{left, right, normalize-replace_lem}
use nexl.Types.Unify.Extension.{Extends, IsApplied, solve-erase, solve-IsApplied, solve-Extends}
use nexl.Types.Unify.Sound.{Ensures, Ensures-map, Reaches, Agreeing}
use nexl.Types.Unify.Agrees.{unify_applied-Ensures}

pub occurs-normalize : (u : TypeVar) (t : Ty) → occurs_in u (normalize t) ≡ occurs_in u t
unfolding normalize occurs_in
occurs-normalize u (prim int64) = refl
occurs-normalize u (prim f64) = refl
occurs-normalize u (prim _) = refl
occurs-normalize u _ = refl

-- What a type is replaced with before it is compared: it mentions no bound variable, and stands
-- for what the type does.
abbrev pub Stands : Subst → Ty → Ty → Type 0
Stands s t t' = IsApplied s.map (normalize t') × (erase t' ≡ solve s.map t)

pub Gives-Stands :
    (s : Subst) (t t' : Ty) → IsTriangular s.map → erase t' ≡ solve s.map t → Stands s t t'
Gives-Stands s t t' tri e = (
  λ u o.
      solve-IsApplied s.map t tri u
        (ap (occurs_in u) (sym e) ∙ occurs-erase u t' ∙ sym (occurs-normalize u t') ∙ o),
  e,
)

pub apply_all-Stands :
    (s : Subst) (t : Ty)
    → IsTriangular s.map
    → (t' : Ty) × (apply_all s t ≡ some t') × Stands s t t'
apply_all-Stands s t tri =
    let (t', given, e) = apply-Gives s (suc (length s.map)) t tri (omega arith) in
    (t', given, Gives-Stands s t t' tri e)

pub solve-Stands :
    (s : Subst) (m : List (TypeVar × Ty)) (t t' : Ty)
    → IsTriangular s.map
    → Extends s.map m
    → Stands s t t'
    → normalize (solve m t) ≡ normalize (solve m (normalize t'))
solve-Stands s m t t' tri ext (free, e) =
    ap normalize (sym (solve-Extends s.map m t tri ext) ∙ ap (solve m) (sym e) ∙ solve-erase m t')
    ∙ normalize-replace_lem (solution m) t'

-- Unification from a triangular substitution, where it succeeds, leaves one that is triangular
-- again, keeps the bindings, and under which the two types agree.
pub unify-Ensures :
    (n : ℕ) (naming : Naming) (a b : Ty) (s : Subst)
    → IsTriangular s.map
    → Ensures (Reaches s (Agreeing a b)) (unify n naming a b s)
unfolding unify
unify-Ensures zero naming a b s tri = tt
unify-Ensures (suc n) naming a b s tri =
    let (a', a_given, a_stands) = apply_all-Stands s a tri in
    let (b', b_given, b_stands) = apply_all-Stands s b tri in
    rw (a_given, b_given)
      (Ensures-map (Reaches s (Agreeing (normalize a') (normalize b'))) (Reaches s (Agreeing a b))
        (unify_applied naming (unify n naming) (normalize a') (normalize b') s)
        (unify_applied-Ensures naming (unify n naming) (unify-Ensures n naming) (normalize a')
          (normalize b') s tri a_stands.0 b_stands.0)
        (λ s' (tri', ext, agree). (
          tri',
          ext,
          left (solve-Stands s s'.map a a' tri ext a_stands)
              (right (solve-Stands s s'.map b b' tri ext b_stands) agree),
        )))
