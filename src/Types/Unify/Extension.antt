-- ===== src/Types/Unify/Extension.antt =====
-- unify.rs: bindings are added to a triangular substitution, which keeps what was solved.
use mathlib.Core.List.{append_assoc}
use nexl.Prelude.{
  ◌==◌, Bool-cases, inl, inr, none, true, List, [], ◌∷◌, ◌++◌, ◌≡◌, refl, ap, ◌∙◌, sym,
}
use nexl.Types.{TypeVar, Ty, var, Tys, nil, cons, occurs_in}
use nexl.Types.Subst.{lookup}
use nexl.Types.Subst.Solve.{
  replace_vars, replace_tys, erase, single, solution, solve, IsTriangular, replace-replace,
  replace-cong,
}
use nexl.Types.Subst.Triangular.{replace-Source, solution-occurs, solve-unbound, solve-step}
use nexl.Types.Unify.Agreement.{Agree, AgreeTys, both_nil, both_cons, Agree-replace}

-- The second substitution has further bindings in front.
abbrev pub Extends : List (TypeVar × Ty) → List (TypeVar × Ty) → Type 0
Extends m m' = (l : List (TypeVar × Ty)) × (m' ≡ l ++ m)

pub Extends-trans : {m m' m'' : List (TypeVar × Ty)} → Extends m m' → Extends m' m'' → Extends m m''
Extends-trans {m} (l, e) (k, e') = (k ++ l, e' ∙ ap (λ x. k ++ x) e ∙ sym (append_assoc k l m))

-- No variable of the type is bound.
abbrev pub IsApplied : List (TypeVar × Ty) → Ty → Type 0
IsApplied m t = (u : TypeVar) → occurs_in u t ≡ true → lookup m u ≡ none

erase-replace :
    (f : TypeVar → Ty)
    → ((v : TypeVar) → erase (f v) ≡ f v)
    → (t : Ty) → erase (replace_vars f t) ≡ replace_vars f t
erase-replace f h t = replace-replace var f t ∙ replace-cong (λ v. erase (f v)) f t (λ v e. h v)

pub erase_idem : (t : Ty) → erase (erase t) ≡ erase t
unfolding replace_vars
erase_idem t = erase-replace var (λ v. refl) t

erase-single :
    (w : TypeVar) (t : Ty) (u : TypeVar) → erase (single w (erase t) u) ≡ single w (erase t) u
unfolding replace_vars
erase-single w t u = elim (Bool-cases (u == w)) [ inl e ↦ rw e (erase_idem t) | inr e ↦ rw e refl ]

erase-solution : (m : List (TypeVar × Ty)) (v : TypeVar) → erase (solution m v) ≡ solution m v
unfolding solution replace_vars
erase-solution [] v = refl
erase-solution ((w, t) ∷ rest) v =
    erase-replace (single w (erase t)) (λ u. erase-single w t u) (solution rest v)

pub solve-erase : (m : List (TypeVar × Ty)) (t : Ty) → solve m (erase t) ≡ solve m t
unfolding replace_vars
solve-erase m t = replace-replace (solution m) var t

pub solve-IsApplied : (m : List (TypeVar × Ty)) (t : Ty) → IsTriangular m → IsApplied m (solve m t)
solve-IsApplied m t tri u o =
    let (x, from, at) = replace-Source (solution m) u t o in solution-occurs m x u tri at

-- Solving twice is solving once.
pub solve_idem :
    (m : List (TypeVar × Ty)) (t : Ty) → IsTriangular m → solve m (solve m t) ≡ solve m t
solve_idem m t tri =
    solve-unbound m (solve m t) (solve-IsApplied m t tri)
    ∙ erase-replace (solution m) (erase-solution m) t

solve-append :
    (l m : List (TypeVar × Ty)) (t : Ty)
    → IsTriangular m
    → solve (l ++ m) (solve m t) ≡ solve (l ++ m) t
solve-append [] m t tri = solve_idem m t tri
solve-append ((w, s) ∷ l) m t tri =
    solve-step w s (l ++ m) (solve m t)
    ∙ ap (replace_vars (single w (erase s))) (solve-append l m t tri)
    ∙ sym (solve-step w s (l ++ m) t)

pub solve-Extends :
    (m m' : List (TypeVar × Ty)) (t : Ty)
    → IsTriangular m
    → Extends m m'
    → solve m' (solve m t) ≡ solve m' t
solve-Extends m m' t tri (l, e) = rw e (solve-append l m t tri)

Agree-append :
    (l m : List (TypeVar × Ty)) (t u : Ty)
    → Agree (solve m t) (solve m u)
    → Agree (solve (l ++ m) t) (solve (l ++ m) u)
Agree-append [] m t u a = a
Agree-append ((w, s) ∷ l) m t u a =
    rw (solve-step w s (l ++ m) t, solve-step w s (l ++ m) u)
      (Agree-replace (single w (erase s)) (Agree-append l m t u a))

pub Agree-Extends :
    (m m' : List (TypeVar × Ty)) (t u : Ty)
    → Extends m m'
    → Agree (solve m t) (solve m u)
    → Agree (solve m' t) (solve m' u)
Agree-Extends m m' t u (l, e) a = rw e (Agree-append l m t u a)

pub AgreeTys-Extends :
    (m m' : List (TypeVar × Ty)) (ts us : Tys)
    → Extends m m'
    → AgreeTys (replace_tys (solution m) ts) (replace_tys (solution m) us)
    → AgreeTys (replace_tys (solution m') ts) (replace_tys (solution m') us)
unfolding replace_tys
AgreeTys-Extends m m' nil nil ext a = both_nil
AgreeTys-Extends m m' nil (cons u us) ext a = elim a [ ]
AgreeTys-Extends m m' (cons t ts) nil ext a = elim a [ ]
AgreeTys-Extends m m' (cons t ts) (cons u us) ext (both_cons a as_) =
    both_cons (Agree-Extends m m' t u ext a) (AgreeTys-Extends m m' ts us ext as_)
