-- ===== src/Types/Resource/Balance.antt =====
-- resource.rs: how often a resource is created, consumed and lost on the way to a tracker.
use nexl.Prelude.{
  find_text-insert_entry, ℕ, ◌+◌, Bool, true, false, Option, none, some, String, List, [], ◌∷◌, ◌≡◌,
  refl, ap, ◌∙◌, sym, Bool-cases, inl, inr, arith, str_eq, str_eq_iff, find_text, if◌then◌else◌,
}
use nexl.Types.Resource.{
  ResourceState, live, closed, transferred, Tracker, set_state, create, Tracked, ok, err,
  close_from, close, transfer_from, transfer, is_live,
}

-- What a program does to its resources.
pub data Event : Type 0 where
  created : String → Event
  closing : String → Event
  transferring : String → Event

unfoldable pub step : Event → Tracker → Tracked
unfolding create close transfer
step (created name) t = ok (create name t)
step (closing name) t = close name t
step (transferring name) t = transfer name t

infixl 5 ◌>>=◌
abbrev pub ◌>>=◌ : Tracked → (Tracker → Tracked) → Tracked
ok t >>= f = f t
err e >>= f = err e

-- The events one after the other, up to the first error.
unfoldable pub run : List Event → Tracker → Tracked
unfolding step
run [] t = ok t
run (e ∷ es) t = step e t >>= run es

abbrev pub one_if : Bool → ℕ
one_if true = 1
one_if false = 0

-- Whether the event creates the name, or closes or transfers it.
abbrev pub creates : String → Event → Bool
creates name (created n) = str_eq n name
creates name (closing n) = false
creates name (transferring n) = false

abbrev pub consumes : String → Event → Bool
consumes name (created n) = false
consumes name (closing n) = str_eq n name
consumes name (transferring n) = str_eq n name

-- How often a name is created, and closed or transferred.
abbrev pub creations : String → List Event → ℕ
creations name [] = 0
creations name (e ∷ es) = one_if (creates name e) + creations name es

abbrev pub consumptions : String → List Event → ℕ
consumptions name [] = 0
consumptions name (e ∷ es) = one_if (consumes name e) + consumptions name es

-- One, if the resource is live.
abbrev pub living : String → Tracker → ℕ
living name t = one_if (is_live (find_text t.resources name))

abbrev from_ok : Tracked → (Tracker → ℕ) → ℕ
from_ok (ok t) f = f t
from_ok (err e) f = 0

-- How often a name is created while its resource is live.
unfoldable pub lost : String → List Event → Tracker → ℕ
unfolding step find_text
lost name [] t = 0
lost name (e ∷ es) t =
    (if creates name e then living name t else 0) + from_ok (step e t) (lost name es)

-- One event: what was live or is created, is live or consumed or lost.
abbrev Balanced : String → Event → Tracker → Tracked → Type 0
Balanced name e t (err error) = Unit
Balanced name e t (ok t') =
    living name t + one_if (creates name e)
    ≡ living name t' + one_if (consumes name e) + (if creates name e then living name t else 0)

-- Consuming a live resource.
consumed-Balanced :
    (name m : String) (state : ResourceState) (t : Tracker)
    → is_live (some state) ≡ false
    → find_text t.resources m ≡ some live
    → living name t ≡ living name (set_state m state t) + one_if (str_eq m name)
unfolding set_state
consumed-Balanced name m state t dead at =
    rw (find_text-insert_entry m state t.resources name) (elim (Bool-cases (str_eq m name)) [
      | inl same ↦
          rw (same, dead)
            (ap (λ x. one_if (is_live (find_text t.resources x))) (sym ((str_eq_iff m name).0 same))
              ∙ ap (λ o. one_if (is_live o)) at)
      | inr other ↦ rw other (omega arith)
    ])

close_from-Balanced :
    (name m : String) (t : Tracker) (o : Option ResourceState)
    → find_text t.resources m ≡ o
    → Balanced name (closing m) t (close_from m t o)
unfolding close_from
close_from-Balanced name m t (some live) at =
    let h = consumed-Balanced name m closed t refl at in omega (arith, h)
close_from-Balanced name m t (some closed) at = tt
close_from-Balanced name m t (some transferred) at = tt
close_from-Balanced name m t none at = tt

transfer_from-Balanced :
    (name m : String) (t : Tracker) (o : Option ResourceState)
    → find_text t.resources m ≡ o
    → Balanced name (transferring m) t (transfer_from m t o)
unfolding transfer_from
transfer_from-Balanced name m t (some live) at =
    let h = consumed-Balanced name m transferred t refl at in omega (arith, h)
transfer_from-Balanced name m t (some closed) at = tt
transfer_from-Balanced name m t (some transferred) at = tt
transfer_from-Balanced name m t none at = tt

step-Balanced : (name : String) (e : Event) (t : Tracker) → Balanced name e t (step e t)
unfolding step create set_state close transfer
step-Balanced name (created m) t =
    rw (find_text-insert_entry m live t.resources name) (elim (Bool-cases (str_eq m name)) [
      | inl same ↦ rw same (omega arith)
      | inr other ↦ rw other (omega arith)
    ])
step-Balanced name (closing m) t = close_from-Balanced name m t (find_text t.resources m) refl
step-Balanced name (transferring m) t =
    transfer_from-Balanced name m t (find_text t.resources m) refl

abbrev pub BalancedRun : String → List Event → Tracker → Tracked → Type 0
BalancedRun name es t (err error) = Unit
BalancedRun name es t (ok t') =
    living name t + creations name es ≡ living name t' + consumptions name es + lost name es t

lost-ok :
    (name : String) (e : Event) (es : List Event) (t t' : Tracker)
    → step e t ≡ ok t'
    → lost name (e ∷ es) t ≡ (if creates name e then living name t else 0) + lost name es t'
unfolding lost
lost-ok name e es t t' at = rw at refl

then-Balanced :
    (name : String) (e : Event) (es : List Event) (t : Tracker) (r : Tracked)
    → step e t ≡ r
    → Balanced name e t r
    → ((t' : Tracker) → BalancedRun name es t' (run es t'))
    → BalancedRun name (e ∷ es) t (r >>= run es)
then-Balanced name e es t (err error) at h k = tt
then-Balanced name e es t (ok t') at h k = done (run es t') (k t')
  where
    done : (r : Tracked) → BalancedRun name es t' r → BalancedRun name (e ∷ es) t r
    done (err error) b = tt
    done (ok t'') b = omega (arith, h, b, lost-ok name e es t t' at)

pub run-Balanced :
    (name : String) (es : List Event) (t : Tracker) → BalancedRun name es t (run es t)
unfolding run lost
run-Balanced name [] t = omega arith
run-Balanced name (e ∷ es) t =
    then-Balanced name e es t (step e t) refl (step-Balanced name e t) (run-Balanced name es)
