-- ===== src/Types/Resource/Verify.antt =====
-- resource.rs: what `verify` reports, and what a report of nothing says of the events before it.
use nexl.Prelude.{
  has_text-sort_texts, ◌+◌, Bool, true, false, none, String, List, [], ◌∷◌, ◌≡◌, refl, ap, ◌∙◌, sym,
  Bool-cases, inl, inr, ◌&&◌, arith, str_eq, str_eq_iff, has_text, sort_texts, find_text,
}
use nexl.Types.Resource.{
  ResourceState, ResourceLifecycleError, leaked, double_free, use_after_close, Tracker, fresh, keys,
  ok, is_live, leaks, verify,
}
use nexl.Types.Resource.Balance.{
  Event, run, creations, consumptions, lost, one_if, BalancedRun, run-Balanced,
}
use mathlib.Core.Path.{subst}

has_text-keys :
    (entries : List (String × ResourceState)) (name : String)
    → has_text (keys entries) name ≡ false
    → find_text entries name ≡ none
unfolding has_text find_text
has_text-keys [] name h = refl
has_text-keys ((k, v) ∷ entries) name h = ground (arith, h, has_text-keys entries name)

-- The names that a list of errors speaks of.
abbrev pub names_of : List ResourceLifecycleError → List String
names_of [] = []
names_of (leaked name ∷ errors) = name ∷ names_of errors
names_of (double_free name ∷ errors) = name ∷ names_of errors
names_of (use_after_close name ∷ errors) = name ∷ names_of errors

has_text-leaks :
    (t : Tracker) (names : List String) (name : String)
    → has_text (names_of (leaks t names)) name
      ≡ (has_text names name && is_live (find_text t.resources name))
unfolding has_text leaks
has_text-leaks t [] name = refl
has_text-leaks t (x ∷ names) name = elim (Bool-cases (str_eq x name)) [
  | inl same ↦
      let at = ap (λ y. is_live (find_text t.resources y)) ((str_eq_iff x name).0 same) in
      ground (arith, at, same, has_text-leaks t names name)
  | inr other ↦ ground (arith, other, has_text-leaks t names name)
]

-- `verify` reports a name exactly when its resource is live.
pub has_text-verify :
    (t : Tracker) (name : String)
    → has_text (names_of (verify t)) name ≡ is_live (find_text t.resources name)
unfolding verify has_text
has_text-verify t name =
    has_text-leaks t (sort_texts (keys t.resources)) name
    ∙ ap (λ b. b && is_live (find_text t.resources name))
        (has_text-sort_texts (keys t.resources) name)
    ∙ known (has_text (keys t.resources) name) refl
  where
    known :
        (b : Bool)
        → has_text (keys t.resources) name ≡ b
        → (b && is_live (find_text t.resources name)) ≡ is_live (find_text t.resources name)
    known true e = refl
    known false e = ap is_live (sym (has_text-keys t.resources name e))

-- Where every event succeeds and `verify` then reports nothing, each name was closed or transferred
-- as often as it was created, but for the creations while its resource was live, which are lost.
pub run-verified :
    (name : String) (es : List Event) (t : Tracker)
    → run es fresh ≡ ok t
    → verify t ≡ []
    → creations name es ≡ consumptions name es + lost name es fresh
unfolding has_text find_text
run-verified name es t ran clean =
    let dead : is_live (find_text t.resources name) ≡ false =
      sym (has_text-verify t name) ∙ ap (λ errors. has_text (names_of errors) name) clean in
    balance (subst (BalancedRun name es fresh) ran (run-Balanced name es fresh)) dead
  where
    balance :
        BalancedRun name es fresh (ok t)
        → is_live (find_text t.resources name) ≡ false
        → creations name es ≡ consumptions name es + lost name es fresh
    balance h dead = omega (arith, h, ap one_if dead)
