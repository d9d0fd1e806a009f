-- ===== src/Types/Resource/Failure.antt =====
-- resource.rs: the events that fail.
use mathlib.Core.Path.{subst}
use nexl.Prelude.{
  true, false, Option, none, some, String, List, [], ◌∷◌, ◌++◌, ◌≡◌, refl, ap, ◌∙◌, str_eq_self,
  find_text,
}
use nexl.Types.Resource.{
  ResourceState, live, closed, transferred, ResourceLifecycleError, leaked, double_free,
  use_after_close, Tracker, Tracked, ok, err, close_from, close, transfer_from, transfer, is_live,
}
use nexl.Types.Resource.Balance.{Event, created, closing, transferring, consumes, step, run, ◌>>=◌}

abbrev pub name_of : ResourceLifecycleError → String
name_of (leaked name) = name
name_of (double_free name) = name
name_of (use_after_close name) = name

-- An event that fails closes or transfers a resource that is not live.
abbrev Fails : Event → Tracker → Tracked → Type 0
Fails e t (ok t') = Unit
Fails e t (err error) =
    (consumes (name_of error) e ≡ true) × (is_live (find_text t.resources (name_of error)) ≡ false)

close_from-Fails :
    (m : String) (t : Tracker) (o : Option ResourceState)
    → find_text t.resources m ≡ o
    → Fails (closing m) t (close_from m t o)
unfolding close_from
close_from-Fails m t (some live) at = tt
close_from-Fails m t (some closed) at = (str_eq_self m, ap is_live at)
close_from-Fails m t (some transferred) at = (str_eq_self m, ap is_live at)
close_from-Fails m t none at = (str_eq_self m, ap is_live at)

transfer_from-Fails :
    (m : String) (t : Tracker) (o : Option ResourceState)
    → find_text t.resources m ≡ o
    → Fails (transferring m) t (transfer_from m t o)
unfolding transfer_from
transfer_from-Fails m t (some live) at = tt
transfer_from-Fails m t (some closed) at = (str_eq_self m, ap is_live at)
transfer_from-Fails m t (some transferred) at = (str_eq_self m, ap is_live at)
transfer_from-Fails m t none at = (str_eq_self m, ap is_live at)

step-Fails : (e : Event) (t : Tracker) → Fails e t (step e t)
unfolding step close transfer
step-Fails (created m) t = tt
step-Fails (closing m) t = close_from-Fails m t (find_text t.resources m) refl
step-Fails (transferring m) t = transfer_from-Fails m t (find_text t.resources m) refl

-- Some event is the first to fail.
abbrev pub FailsWithin : List Event → Tracker → Tracked → Type 0
FailsWithin es t (ok t') = Unit
FailsWithin es t (err error) =
    (before : List Event) × (e : Event) × (after : List Event) × (t' : Tracker) × (es
      ≡ before ++ (e ∷ after))
    × (run before t ≡ ok t')
    × (consumes (name_of error) e ≡ true)
    × (is_live (find_text t'.resources (name_of error)) ≡ false)

then-Fails :
    (e : Event) (es : List Event) (t : Tracker) (r : Tracked)
    → step e t ≡ r
    → Fails e t r
    → ((t' : Tracker) → FailsWithin es t' (run es t'))
    → FailsWithin (e ∷ es) t (r >>= run es)
unfolding run
then-Fails e es t (err error) at (same, dead) k = ([], e, es, t, refl, refl, same, dead)
then-Fails e es t (ok t') at h k = later (run es t') (k t')
  where
    later : (r : Tracked) → FailsWithin es t' r → FailsWithin (e ∷ es) t r
    later (ok t'') b = tt
    later (err error) (before, x, after, t'', split, ran, same, dead) = (
      e ∷ before,
      x,
      after,
      t'',
      ap (λ l. e ∷ l) split,
      ap (λ s. s >>= run before) at ∙ ran,
      same,
      dead,
    )

run-FailsWithin : (es : List Event) (t : Tracker) → FailsWithin es t (run es t)
unfolding run
run-FailsWithin [] t = tt
run-FailsWithin (e ∷ es) t = then-Fails e es t (step e t) refl (step-Fails e t) (run-FailsWithin es)

-- Where a sequence of events fails, the error names a resource that some event closes or transfers
-- although it is not live after the events before, all of which succeed.
pub run-error :
    (es : List Event) (t : Tracker) (error : ResourceLifecycleError)
    → run es t ≡ err error
    → FailsWithin es t (err error)
run-error es t error failed = subst (FailsWithin es t) failed (run-FailsWithin es t)
