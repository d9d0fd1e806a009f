-- ===== src/Types/Unify/Sound.antt =====
-- unify.rs: where unification succeeds, the two types agree under the substitution that it leaves.
use nexl.Prelude.{
  Bool, true, false, none, some, List, [], ◌∷◌, ◌≡◌, refl, Option-cases, inl, inr, ==_self, arith,
  if◌then◌else◌,
}
use nexl.Types.{TypeVar, Prim, Ty, Tys, nil, cons, Fields, end, field, occurs_in}
use nexl.Types.Subst.{Subst, insert_var, lookup}
use nexl.Types.Subst.Solve.{replace_tys, replace_fields, solution, solve, IsTriangular}
use nexl.Types.Subst.Triangular.{solution-bound}
use nexl.Types.Unify.{
  Unified, ok, err, out_of_fuel, ◌>>=◌, TypeErrorKind, infinite_type, length_tys, unify_tys,
  find_field, unify_fields, bind_var,
}
use nexl.Types.Unify.Agreement.{
  Agree, AgreeTys, both_nil, both_cons, AgreeFields, all_found, next_found, find_field-replace,
}
use nexl.Types.Unify.Extension.{Extends, Extends-trans, IsApplied, Agree-Extends}

-- What holds of the substitution that is left, where there is one.
abbrev pub Ensures : (Subst → Type 0) → Unified → Type 0
Ensures P (ok s) = P s
Ensures P (err e) = Unit
Ensures P out_of_fuel = Unit

pub Ensures-map :
    (P Q : Subst → Type 0) (u : Unified) → Ensures P u → ((s : Subst) → P s → Q s) → Ensures Q u
Ensures-map P Q (ok s) h k = k s h
Ensures-map P Q (err e) h k = tt
Ensures-map P Q out_of_fuel h k = tt

pub Ensures-if :
    (P : Subst → Type 0) (b : Bool) (u v : Unified)
    → (b ≡ true → Ensures P u)
    → (b ≡ false → Ensures P v)
    → Ensures P (if b then u else v)
Ensures-if P true u v h k = h refl
Ensures-if P false u v h k = k refl

-- From a substitution to one that extends it, is triangular again, and has a property.
abbrev pub Reaches : Subst → (List (TypeVar × Ty) → Type 0) → Subst → Type 0
Reaches s P s' = IsTriangular s'.map × Extends s.map s'.map × P s'.map

-- Two types agree under a substitution; so do two lists of types, and of fields.
abbrev pub Agreeing : Ty → Ty → List (TypeVar × Ty) → Type 0
Agreeing t u m = Agree (solve m t) (solve m u)

abbrev pub AgreeingTys : Tys → Tys → List (TypeVar × Ty) → Type 0
AgreeingTys ts us m = AgreeTys (replace_tys (solution m) ts) (replace_tys (solution m) us)

abbrev pub AgreeingFields : Fields → Fields → List (TypeVar × Ty) → Type 0
AgreeingFields fs gs m =
    AgreeFields (replace_fields (solution m) fs) (replace_fields (solution m) gs)

-- Two steps, each of which reaches a property, reach what follows from the two.
pub Reaches-bind :
    (s : Subst) (P Q R : List (TypeVar × Ty) → Type 0) (u : Unified) (f : Subst → Unified)
    → ((m m' : List (TypeVar × Ty)) → Extends m m' → P m → Q m' → R m')
    → Ensures (Reaches s P) u
    → ((s' : Subst) → IsTriangular s'.map → Ensures (Reaches s' Q) (f s'))
    → Ensures (Reaches s R) (u >>= f)
Reaches-bind s P Q R (err e) f both h k = tt
Reaches-bind s P Q R out_of_fuel f both h k = tt
Reaches-bind s P Q R (ok s') f both (tri, ext, p) k =
    Ensures-map (Reaches s' Q) (Reaches s R) (f s') (k s' tri)
      (λ s'' (tri', ext', q). (tri', Extends-trans ext ext', both s'.map s''.map ext' p q))

pub Reaches-map :
    (s : Subst) (P Q : List (TypeVar × Ty) → Type 0) (u : Unified)
    → ((m : List (TypeVar × Ty)) → P m → Q m)
    → Ensures (Reaches s P) u
    → Ensures (Reaches s Q) u
Reaches-map s P Q u f h =
    Ensures-map (Reaches s P) (Reaches s Q) u h (λ s' (tri, ext, p). (tri, ext, f s'.map p))

-- A test of a pair that reaches agreement, from every triangular substitution.
abbrev pub IsSoundOn : (Ty → Ty → Subst → Unified) → Type 0
IsSoundOn on_pair =
    (t u : Ty) (s : Subst) → IsTriangular s.map → Ensures (Reaches s (Agreeing t u)) (on_pair t u s)

module _ (on_pair : Ty → Ty → Subst → Unified) (sound : IsSoundOn on_pair) where
  pub unify_tys-Ensures :
      (ts us : Tys) (s : Subst)
      → length_tys ts ≡ length_tys us
      → IsTriangular s.map
      → Ensures (Reaches s (AgreeingTys ts us)) (unify_tys on_pair ts us s)
  unfolding unify_tys replace_tys
  unify_tys-Ensures nil nil s len tri = (tri, ([], refl), both_nil)
  unify_tys-Ensures nil (cons u us) s len tri = absurd (omega arith)
  unify_tys-Ensures (cons t ts) nil s len tri = absurd (omega arith)
  unify_tys-Ensures (cons t ts) (cons u us) s len tri =
      Reaches-bind s (Agreeing t u) (AgreeingTys ts us) (AgreeingTys (cons t ts) (cons u us))
        (on_pair t u s) (unify_tys on_pair ts us)
        (λ m m' ext a as_. both_cons (Agree-Extends m m' t u ext a) as_) (sound t u s tri)
        (λ s' tri'. unify_tys-Ensures ts us s' (omega arith) tri')

  pub unify_fields-Ensures :
      (fs gs : Fields) (e : TypeErrorKind) (s : Subst)
      → IsTriangular s.map
      → Ensures (Reaches s (AgreeingFields fs gs)) (unify_fields on_pair fs gs e s)
  unfolding unify_fields replace_fields
  unify_fields-Ensures end gs e s tri = (tri, ([], refl), all_found)
  unify_fields-Ensures (field n t fs) gs e s tri = elim (Option-cases (find_field n gs)) [
    | inl missing ↦ rw missing tt
    | inr (u, found) ↦ rw found (
        Reaches-bind s (Agreeing t u) (AgreeingFields fs gs) (AgreeingFields (field n t fs) gs)
          (on_pair t u s) (unify_fields on_pair fs gs e)
          (λ m m' ext a as_.
            next_found (find_field-replace (solution m') n gs u found)
              (Agree-Extends m m' t u ext a) as_)
          (sound t u s tri) (λ s' tri'. unify_fields-Ensures fs gs e s' tri'))
  ]

lookup-front :
    (tv : TypeVar) (t : Ty) (rest : List (TypeVar × Ty)) → lookup ((tv, t) ∷ rest) tv ≡ some t
unfolding lookup
lookup-front tv t rest = rw (==_self tv) refl

-- The variable comes to stand for what the type does.
pub bind_var-Ensures :
    (tv : TypeVar) (t : Ty) (s : Subst)
    → IsTriangular s.map
    → lookup s.map tv ≡ none
    → IsApplied s.map t
    → Ensures (Reaches s (λ m. solution m tv ≡ solve m t)) (bind_var tv t s)
unfolding bind_var insert_var
bind_var-Ensures tv t s tri fresh apart =
    Ensures-if (Reaches s (λ m. solution m tv ≡ solve m t)) (occurs_in tv t)
      (err (infinite_type tv t)) (ok (insert_var tv t s)) (λ e. tt)
      (λ e.
        let entries : List (TypeVar × Ty) = (tv, t) ∷ s.map in
        let tri' : IsTriangular entries = (fresh, e, apart, tri) in
        (tri', ((tv, t) ∷ [], refl), solution-bound entries tv t tri' (lookup-front tv t s.map)))
