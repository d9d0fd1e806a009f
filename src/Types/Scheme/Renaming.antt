-- ===== src/Types/Scheme/Renaming.antt =====
-- types.rs: instantiation renames the quantified variables apart.
use mathlib.Core.Path.{subst}
use nexl.Prelude.{
  ℕ, suc, ◌<◌, ◌≤◌, true, false, Option, none, some, List, [], ◌∷◌, ◌≡◌, refl, ap, ◌∙◌, sym, ◌==◌,
  Bool-cases, Option-cases, inl, inr, ==_iff, ==_self, contains, length, arith, if◌then◌else◌,
}
use nexl.Types.{TypeVar, Ty, var, occurs_in}
use nexl.Types.Subst.{Subst, empty, insert_var, lookup}
use nexl.Types.Subst.Apply.{Gives, apply-Gives}
use nexl.Types.Subst.Solve.{replace_vars, solution, IsTriangular, replace-cong}
use nexl.Types.Subst.Triangular.{solution-bound, solution-unbound}
use nexl.Types.Unify.{apply_all}
use nexl.Types.Scheme.{Scheme, fresh_but, bind_fresh, instantiate}

-- The number that a variable of a list gets, counted from a first one.
abbrev pub number_of : List TypeVar → ℕ → TypeVar → Option ℕ
number_of [] n u = none
number_of (v ∷ vs) n u = if u == v then some n else number_of vs (suc n) u

abbrev pub or_itself : Option ℕ → TypeVar → Ty
or_itself none u = var u
or_itself (some n) u = var n

-- Each variable of the list becomes a fresh one of its own; the others stay.
abbrev pub renaming : List TypeVar → ℕ → TypeVar → Ty
renaming vs n u = or_itself (number_of vs n u) u

-- Each variable stands once in the list, and below a number.
abbrev pub AreBelow : ℕ → List TypeVar → Type 0
AreBelow k [] = Unit
AreBelow k (v ∷ vs) = (v < k) × (contains vs v ≡ false) × AreBelow k vs

abbrev or_bound : Option ℕ → Option Ty → Option Ty
or_bound none o = o
or_bound (some n) o = some (var n)

number_of-absent :
    (vs : List TypeVar) (n : ℕ) (u : TypeVar) → contains vs u ≡ false → number_of vs n u ≡ none
unfolding contains
number_of-absent [] n u h = refl
number_of-absent (v ∷ vs) n u h = ground (arith, h, number_of-absent vs (suc n) u)

number_of-ge : (vs : List TypeVar) (n : ℕ) (u : TypeVar) (m : ℕ) → number_of vs n u ≡ some m → n ≤ m
number_of-ge [] n u m h = absurd (ground (arith, h))
number_of-ge (v ∷ vs) n u m h = elim (Bool-cases (u == v)) [
  | inl same ↦ let n-is-m : n ≡ m = ground (arith, h, same) in omega (arith, n-is-m)
  | inr other ↦ let le = number_of-ge vs (suc n) u m (ground (arith, h, other)) in omega (arith, le)
]

fresh_but-below : (v n : ℕ) → v < n → fresh_but v n ≡ (n, suc n)
unfolding fresh_but
fresh_but-below v n lt = ground (arith, lt)

bind_fresh-below :
    (v : TypeVar) (vs : List TypeVar) (n : ℕ) (s : Subst)
    → v < n
    → bind_fresh (v ∷ vs) n s ≡ bind_fresh vs (suc n) (insert_var v (var n) s)
unfolding bind_fresh insert_var
bind_fresh-below v vs n s lt =
    ap (λ p. bind_fresh vs p.1 (insert_var v (var p.0) s)) (fresh_but-below v n lt)

lookup-bind_fresh :
    (k : ℕ) (vs : List TypeVar) (n : ℕ) (s : Subst) (u : TypeVar)
    → AreBelow k vs
    → k ≤ n
    → lookup (bind_fresh vs n s).0.map u ≡ or_bound (number_of vs n u) (lookup s.map u)
unfolding bind_fresh lookup insert_var
lookup-bind_fresh k [] n s u h le = refl
lookup-bind_fresh k (v ∷ vs) n s u (lt, once, h) le =
    let s' = insert_var v (var n) s in
    ap (λ x. lookup x.0.map u) (bind_fresh-below v vs n s (omega (arith, lt, le)))
    ∙ (lookup-bind_fresh k vs (suc n) s' u h (omega (arith, le)) ∙ elim (Bool-cases (u == v)) [
      | inl same ↦
          let absent =
            number_of-absent vs (suc n) u (ap (contains vs) ((==_iff u v).0 same) ∙ once) in
          rw (same, absent) refl
      | inr other ↦ rw other refl
    ])

bind_fresh-IsTriangular :
    (k : ℕ) (vs : List TypeVar) (n : ℕ) (s : Subst)
    → AreBelow k vs
    → k ≤ n
    → IsTriangular s.map
    → ((u : TypeVar) → contains vs u ≡ true → lookup s.map u ≡ none)
    → ((u : TypeVar) → k ≤ u → lookup s.map u ≡ none)
    → IsTriangular (bind_fresh vs n s).0.map
unfolding bind_fresh insert_var lookup occurs_in contains
bind_fresh-IsTriangular k [] n s h le tri free above = tri
bind_fresh-IsTriangular k (v ∷ vs) n s (lt, once, h) le tri free above =
    let s' = insert_var v (var n) s in
    subst (λ x. IsTriangular x.0.map) (sym (bind_fresh-below v vs n s (omega (arith, lt, le))))
      (bind_fresh-IsTriangular k vs (suc n) s' h (omega (arith, le))
        (
          free v (rw (==_self v) refl),
          ground (arith, lt, le),
          (λ u e. above u (omega (arith, le, (==_iff n u).0 e))),
          tri,
        )
        (λ u e. elim (Bool-cases (u == v)) [
          | inl same ↦ absurd (ground (arith, e, once, ap (contains vs) ((==_iff u v).0 same)))
          | inr other ↦ rw other (free u (rw (other, e) refl))
        ])
        (λ u ge. let other : (u == v) ≡ false = ground (arith, ge, lt) in rw other (above u ge)))

AreBelow-absent :
    (k : ℕ) (vs : List TypeVar) (u : TypeVar) → AreBelow k vs → k ≤ u → contains vs u ≡ false
unfolding contains
AreBelow-absent k [] u h le = refl
AreBelow-absent k (v ∷ vs) u (lt, once, h) le = ground (arith, lt, le, AreBelow-absent k vs u h le)

-- What the loop leaves from the empty substitution renames.
module _ (vs : List TypeVar) (next : ℕ) (below : AreBelow next vs) where
  left : Subst
  left = (bind_fresh vs next empty).0

  left-IsTriangular : IsTriangular left.map
  unfolding left empty lookup
  left-IsTriangular =
      bind_fresh-IsTriangular next vs next empty below (omega arith) tt (λ u e. refl) (λ u e. refl)

  lookup-left : (u : TypeVar) → lookup left.map u ≡ or_bound (number_of vs next u) none
  unfolding left empty lookup
  lookup-left u = lookup-bind_fresh next vs next empty u below (omega arith)

  solution-left : (u : TypeVar) → solution left.map u ≡ renaming vs next u
  unfolding replace_vars
  solution-left u = elim (Option-cases (number_of vs next u)) [
    | inl absent ↦
        rw absent (solution-unbound left.map u (lookup-left u ∙ ap (λ o. or_bound o none) absent))
    | inr (m, at) ↦
        let fresh =
          number_of-absent vs next m
            (AreBelow-absent next vs m below (number_of-ge vs next u m at)) in
        rw at (
          solution-bound left.map u (var m) left-IsTriangular
            (lookup-left u ∙ ap (λ o. or_bound o none) at)
          ∙ solution-unbound left.map m (lookup-left m ∙ ap (λ o. or_bound o none) fresh))
  ]

  apply-left : (body : Ty) → Gives (apply_all left body) (replace_vars (renaming vs next) body)
  apply-left body =
      subst (Gives (apply_all left body))
        (replace-cong (solution left.map) (renaming vs next) body (λ v e. solution-left v))
        (apply-Gives left (suc (length left.map)) body left-IsTriangular (omega arith))

-- Instantiating a scheme, whose quantified variables are those of a list and lie below the supply,
-- ends; and its result is, but for the effect rows, the body in which each quantified variable is
-- renamed to a fresh variable of its own, counted from the supply's next, and the others stay.
pub instantiate-Gives :
    (scheme : Scheme) (next : ℕ)
    → AreBelow next scheme.forall_
    → Gives (instantiate scheme next).0 (replace_vars (renaming scheme.forall_ next) scheme.body)
unfolding instantiate left
instantiate-Gives scheme next below = by_forall scheme.forall_ below
  where
    by_forall :
        (vs : List TypeVar)
        → AreBelow next vs
        → Gives
            (instantiate (record { forall_ = vs; body = scheme.body }) next).0
            (replace_vars (renaming vs next) scheme.body)
    by_forall [] h = (scheme.body, refl, refl)
    by_forall (v ∷ vs) h = apply-left (v ∷ vs) next h scheme.body
