-- ===== src/Types/Unify/Measure.antt =====
-- unify.rs: what decreases while unification runs, the number of unbound type variables and then
-- the size of the left type.
use nexl.Prelude.{
  ℕ, zero, suc, ◌+◌, ◌<◌, ◌≤◌, Bool, true, Option, none, some, List, [], ◌∷◌, ◌≡◌, ap, ◌∙◌, sym,
  ◌==◌, ◌||◌, Bool-cases, inl, inr, ==_iff, arith,
}
use nexl.Types.{
  TypeVar, Ty, prim, var, fn, adt, rec, tuple, vec, map, set, Tys, nil, cons, Fields, end, field,
  occurs_in, occurs_in_tys, occurs_in_fields,
}
use nexl.Types.Subst.{lookup}
use nexl.Types.Subst.Solve.{erase, single, solution, solve, or-cases}
use nexl.Types.Subst.Triangular.{occurs-erase, replace-Source}

unfoldable mutual
  pub size : Ty → ℕ
  size (prim p) = 1
  size (var v) = 1
  size (fn params ret row) = suc (size_tys params + size ret)
  size (adt name args) = suc (size_tys args)
  size (rec name fields) = suc (size_fields fields)
  size (tuple items) = suc (size_tys items)
  size (vec elem) = suc (size elem)
  size (map key val) = suc (size key + size val)
  size (set elem) = suc (size elem)

  pub size_tys : Tys → ℕ
  size_tys nil = 0
  size_tys (cons t ts) = size t + size_tys ts

  pub size_fields : Fields → ℕ
  size_fields end = 0
  size_fields (field name t fs) = size t + size_fields fs

unfoldable mutual
  -- A number above every variable of a type.
  pub limit : Ty → ℕ
  limit (prim p) = 0
  limit (var v) = suc v
  limit (fn params ret row) = limit_tys params + limit ret
  limit (adt name args) = limit_tys args
  limit (rec name fields) = limit_fields fields
  limit (tuple items) = limit_tys items
  limit (vec elem) = limit elem
  limit (map key val) = limit key + limit val
  limit (set elem) = limit elem

  pub limit_tys : Tys → ℕ
  limit_tys nil = 0
  limit_tys (cons t ts) = limit t + limit_tys ts

  pub limit_fields : Fields → ℕ
  limit_fields end = 0
  limit_fields (field name t fs) = limit t + limit_fields fs

-- The variables that a test picks are below a number.
abbrev pub Below : ℕ → (TypeVar → Bool) → Type 0
Below k test = (u : TypeVar) → test u ≡ true → u < k

pub Below-left : (k : ℕ) (p q : TypeVar → Bool) → Below k (λ u. p u || q u) → Below k p
Below-left k p q h u e = h u (ground (arith, e))

pub Below-right : (k : ℕ) (p q : TypeVar → Bool) → Below k (λ u. p u || q u) → Below k q
Below-right k p q h u e = h u (ground (arith, e))

Below-or :
    (m n : ℕ) (p q : TypeVar → Bool) → Below m p → Below n q → Below (m + n) (λ u. p u || q u)
Below-or m n p q h k u e = elim (or-cases (p u) (q u) e) [
  | inl a ↦ omega (arith, h u a)
  | inr b ↦ omega (arith, k u b)
]

mutual
  unfolding limit limit_tys limit_fields occurs_in occurs_in_tys occurs_in_fields

  pub limit-Below : (t : Ty) → Below (limit t) (λ u. occurs_in u t)
  limit-Below (prim p) = λ u e. absurd (ground (arith, e))
  limit-Below (var v) = λ u e. omega (arith, (==_iff v u).0 e)
  limit-Below (fn params ret row) =
      Below-or _ _ (λ u. occurs_in_tys u params) (λ u. occurs_in u ret) (limit_tys-Below params)
        (limit-Below ret)
  limit-Below (adt name args) = limit_tys-Below args
  limit-Below (rec name fields) = limit_fields-Below fields
  limit-Below (tuple items) = limit_tys-Below items
  limit-Below (vec elem) = limit-Below elem
  limit-Below (map key val) =
      Below-or _ _ (λ u. occurs_in u key) (λ u. occurs_in u val) (limit-Below key) (limit-Below val)
  limit-Below (set elem) = limit-Below elem

  limit_tys-Below : (ts : Tys) → Below (limit_tys ts) (λ u. occurs_in_tys u ts)
  limit_tys-Below nil = λ u e. absurd (ground (arith, e))
  limit_tys-Below (cons t ts) =
      Below-or _ _ (λ u. occurs_in u t) (λ u. occurs_in_tys u ts) (limit-Below t)
        (limit_tys-Below ts)

  limit_fields-Below : (fs : Fields) → Below (limit_fields fs) (λ u. occurs_in_fields u fs)
  limit_fields-Below end = λ u e. absurd (ground (arith, e))
  limit_fields-Below (field name t fs) =
      Below-or _ _ (λ u. occurs_in u t) (λ u. occurs_in_fields u fs) (limit-Below t)
        (limit_fields-Below fs)

-- The bindings mention variables below a number only.
abbrev pub IsBelow : ℕ → List (TypeVar × Ty) → Type 0
IsBelow k [] = Unit
IsBelow k ((w, t) ∷ rest) = (w < k) × Below k (λ u. occurs_in u t) × IsBelow k rest

unfoldable limit_map : List (TypeVar × Ty) → ℕ
limit_map [] = 0
limit_map ((w, t) ∷ rest) = suc w + limit t + limit_map rest

IsBelow-more :
    (m n : ℕ) (entries : List (TypeVar × Ty)) → IsBelow m entries → m ≤ n → IsBelow n entries
IsBelow-more m n [] h le = tt
IsBelow-more m n ((w, t) ∷ rest) (a, b, h) le =
    (omega (arith, a, le), (λ u e. omega (arith, b u e, le)), IsBelow-more m n rest h le)

limit_map-IsBelow : (entries : List (TypeVar × Ty)) → IsBelow (limit_map entries) entries
unfolding limit_map
limit_map-IsBelow [] = tt
limit_map-IsBelow ((w, t) ∷ rest) = (
  omega arith,
  (λ u e. omega (arith, limit-Below t u e)),
  IsBelow-more (limit_map rest) _ rest (limit_map-IsBelow rest) (omega arith),
)

-- What a type below a number stands for is below it.
solution-Below :
    (k : ℕ) (entries : List (TypeVar × Ty)) (v : TypeVar)
    → IsBelow k entries
    → v < k
    → Below k (λ u. occurs_in u (solution entries v))
unfolding solution occurs_in
solution-Below k [] v h lt u e = omega (arith, lt, (==_iff v u).0 e)
solution-Below k ((w, t) ∷ rest) v (a, b, h) lt u e =
    let (x, from, at) = replace-Source (single w (erase t)) u (solution rest v) e in
    let x-lt = solution-Below k rest v h lt x from in
    elim (Bool-cases (x == w)) [
      | inl same ↦ b u (sym (occurs-erase u t) ∙ rw same at at)
      | inr other ↦ omega (arith, x-lt, (==_iff x u).0 (rw other at at))
    ]

pub solve-Below :
    (k : ℕ) (entries : List (TypeVar × Ty)) (t : Ty)
    → IsBelow k entries
    → Below k (λ u. occurs_in u t)
    → Below k (λ u. occurs_in u (solve entries t))
solve-Below k entries t h b u e =
    let (x, from, at) = replace-Source (solution entries) u t e in
    solution-Below k entries x h (b x from) u at

abbrev one_if_unbound : Option Ty → ℕ
one_if_unbound none = 1
one_if_unbound (some t) = 0

-- How many variables below a number are unbound.
unfoldable pub unbound : ℕ → List (TypeVar × Ty) → ℕ
unbound zero entries = 0
unbound (suc v) entries = one_if_unbound (lookup entries v) + unbound v entries

unbound-le :
    (k : ℕ) (w : TypeVar) (t : Ty) (entries : List (TypeVar × Ty))
    → unbound k ((w, t) ∷ entries) ≤ unbound k entries
unfolding unbound lookup
unbound-le zero w t entries = omega arith
unbound-le (suc v) w t entries = elim (Bool-cases (v == w)) [
  | inl same ↦ rw same (omega (arith, unbound-le v w t entries))
  | inr other ↦ rw other (omega (arith, unbound-le v w t entries))
]

pub unbound-lt :
    (k : ℕ) (w : TypeVar) (t : Ty) (entries : List (TypeVar × Ty))
    → w < k
    → lookup entries w ≡ none
    → unbound k ((w, t) ∷ entries) < unbound k entries
unfolding unbound lookup
unbound-lt zero w t entries lt free = absurd (omega arith)
unbound-lt (suc v) w t entries lt free = elim (Bool-cases (v == w)) [
  | inl same ↦
      let at : lookup entries v ≡ none = ap (lookup entries) ((==_iff v w).0 same) ∙ free in
      rw (same, at) (omega (arith, unbound-le v w t entries))
  | inr other ↦
      let below : w < v = ground (arith, lt, other) in
      rw other (omega (arith, unbound-lt v w t entries below free))
]

-- A number above all the variables of two types and of the bindings.
pub limit_of : Ty → Ty → List (TypeVar × Ty) → ℕ
limit_of t u entries = limit t + limit u + limit_map entries

pub limit_of-Below :
    (t u : Ty) (entries : List (TypeVar × Ty))
    → Below (limit_of t u entries) (λ v. occurs_in v t)
      × Below (limit_of t u entries) (λ v. occurs_in v u)
      × IsBelow (limit_of t u entries) entries
unfolding limit_of
limit_of-Below t u entries = (
  (λ v e. omega (arith, limit-Below t v e)),
  (λ v e. omega (arith, limit-Below u v e)),
  IsBelow-more (limit_map entries) _ entries (limit_map-IsBelow entries) (omega arith),
)
