-- ===== src/Effects/OneShot.antt =====
-- crates/nexl-effects/src/lib.rs: `Resume`, a continuation that is called at most once.
use nexl.Prelude.{ℕ, zero, suc, Bool, true, false, Option, none, some, List, [], ◌∷◌, ◌≡◌, refl, ap}

pub record Resume {ℓ} (F : Type ℓ) : Type ℓ where
  pub called : Bool
  pub f : Option F

module _ {ℓ} {F : Type ℓ} where
  -- `Resume::new`
  unfoldable pub new : F → Resume F
  new f = record { called = false; f = some f }

  abbrev pub unless_called : Bool → Resume F → Option F → Resume F × Option F
  unless_called true r f = (r, none)
  unless_called false r f = (record { called = true; f = none }, f)

  -- `Resume::call`: the state that is left, and the continuation that is then applied to the
  -- arguments, or `none` where the call panics.
  unfoldable pub call : Resume F → Resume F × Option F
  call r = unless_called r.called r r.f

  -- The continuations of a number of calls.
  unfoldable pub calls : ℕ → Resume F → List (Option F)
  unfolding call
  calls zero r = []
  calls (suc n) r = let (r', f) = call r in f ∷ calls n r'

  abbrev pub panics : ℕ → List (Option F)
  panics zero = []
  panics (suc n) = none ∷ panics n

  calls-spent : (n : ℕ) (o : Option F) → calls n (record { called = true; f = o }) ≡ panics n
  unfolding calls
  calls-spent zero o = refl
  calls-spent (suc n) o = ap (λ l. none ∷ l) (calls-spent n o)

  -- Of any number of calls of a fresh handle, the first gets the continuation and the others panic.
  pub calls-new : (f : F) (n : ℕ) → calls (suc n) (new f) ≡ (some f ∷ panics n)
  unfolding calls new call
  calls-new f n = ap (λ l. some f ∷ l) (calls-spent n none)
