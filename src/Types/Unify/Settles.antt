-- ===== src/Types/Unify/Settles.antt =====
-- unify.rs: runs of unification that end, and no longer depend on the fuel from some amount on.
use nexl.Prelude.{
  ℕ, zero, suc, ◌+◌, ◌<◌, ◌≤◌, Bool, true, false, Option, none, some, ◌≡◌, refl, ap, ◌∙◌, inl, inr,
  ◌⊎◌, arith, if◌then◌else◌,
}
use nexl.Types.{Ty}
use nexl.Types.Subst.{Subst}
use nexl.Types.Subst.Solve.{IsTriangular}
use nexl.Types.Unify.{
  Unified, ok, err, out_of_fuel, ◌>>=◌, mismatch, malformed_form, from_rows, check_arity,
}
use nexl.Types.Unify.Rows.{KeepsTypes}
use nexl.Types.Unify.Measure.{IsBelow, unbound}

-- A substitution that unification keeps, whose bindings mention variables below a number.
abbrev pub IsGood : ℕ → Subst → Type 0
IsGood k s = IsTriangular s.map × IsBelow k s.map

-- A later substitution: the same bindings, or fewer unbound variables.
abbrev pub Later : ℕ → Subst → Subst → Type 0
Later k s s' = IsGood k s' × ((s'.map ≡ s.map) ⊎ (unbound k s'.map < unbound k s.map))

-- A result other than a lack of fuel.
abbrev pub Ended : (Subst → Type 0) → Unified → Type 0
Ended P (ok s) = P s
Ended P (err e) = Unit
Ended P out_of_fuel = ⊥

-- From some fuel on the result is the same, and is one.
abbrev pub Settles : (Subst → Type 0) → (ℕ → Unified) → Type 0
Settles P run = (enough : ℕ) × (u : Unified) × Ended P u × ((n : ℕ) → enough ≤ n → run n ≡ u)

pub Settles-at : (P : Subst → Type 0) (u : Unified) → Ended P u → Settles P (λ n. u)
Settles-at P u h = (0, u, h, λ n le. refl)

pub Settles-map :
    (P Q : Subst → Type 0) (run : ℕ → Unified)
    → ((s : Subst) → P s → Q s)
    → Settles P run
    → Settles Q run
Settles-map P Q run f (enough, ok s, h, at) = (enough, ok s, f s h, at)
Settles-map P Q run f (enough, err e, h, at) = (enough, err e, tt, at)
Settles-map P Q run f (enough, out_of_fuel, h, at) = absurd h

-- One more unit of fuel.
pub Settles-suc :
    (P : Subst → Type 0) (run : ℕ → Unified) → Settles P (λ n. run (suc n)) → Settles P run
Settles-suc P run (enough, u, h, at) = (suc enough, u, h, from)
  where
    from : (n : ℕ) → suc enough ≤ n → run n ≡ u
    from zero le = absurd (omega (arith, le))
    from (suc n) le = at n (omega (arith, le))

pub Later-trans : (k : ℕ) (s s' s'' : Subst) → Later k s s' → Later k s' s'' → Later k s s''
Later-trans k s s' s'' (good, inl e) (good', inl e') = (good', inl (e' ∙ e))
Later-trans k s s' s'' (good, inl e) (good', inr lt') =
    (good', inr (omega (arith, lt', ap (unbound k) e)))
Later-trans k s s' s'' (good, inr lt) (good', inl e') =
    (good', inr (omega (arith, lt, ap (unbound k) e')))
Later-trans k s s' s'' (good, inr lt) (good', inr lt') = (good', inr (omega (arith, lt, lt')))

pub Settles-bind :
    (P Q : Subst → Type 0) (run : ℕ → Unified) (next : ℕ → Subst → Unified)
    → Settles P run
    → ((s : Subst) → P s → Settles Q (λ n. next n s))
    → Settles Q (λ n. run n >>= next n)
Settles-bind P Q run next (enough, ok s, h, at) k =
    let (more, u, h', at') = k s h in
    (
      enough + more,
      u,
      h',
      λ n le. ap (λ x. x >>= next n) (at n (omega (arith, le))) ∙ at' n (omega (arith, le)),
    )
Settles-bind P Q run next (enough, err e, h, at) k =
    (enough, err e, tt, λ n le. ap (λ x. x >>= next n) (at n le))
Settles-bind P Q run next (enough, out_of_fuel, h, at) k = absurd h

pub Settles-if :
    (P : Subst → Type 0) (b : Bool) (run other : ℕ → Unified)
    → (b ≡ true → Settles P run)
    → (b ≡ false → Settles P other)
    → Settles P (λ n. if b then run n else other n)
Settles-if P true run other h k = h refl
Settles-if P false run other h k = k refl

pub Settles-check_arity :
    (P : Subst → Type 0) (bad : Option ℕ) (run : ℕ → Unified)
    → Settles P run
    → Settles P (λ n. check_arity bad (run n))
Settles-check_arity P none run h = h
Settles-check_arity P (some m) run h = (0, err (malformed_form m), tt, λ n le. refl)

pub Settles-from_rows :
    (P : Subst → Type 0) (a b : Ty) (s : Subst) (r : Option Subst) (next : ℕ → Subst → Unified)
    → KeepsTypes s r
    → ((s' : Subst) → s'.map ≡ s.map → Settles P (λ n. next n s'))
    → Settles P (λ n. from_rows a b r (next n))
Settles-from_rows P a b s none next kept k = (0, err (mismatch a b), tt, λ n le. refl)
Settles-from_rows P a b s (some s') next kept k = k s' kept
