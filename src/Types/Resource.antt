-- ===== src/Types/Resource.antt =====
-- crates/nexl-types/src/resource.rs: the lifecycle of resources.
pub mod Balance
pub mod Failure
pub mod Verify
use nexl.Prelude.{
  Bool, true, false, Option, none, some, String, List, [], ◌∷◌, str_eq, sort_texts, find_text,
  insert_entry, if◌then◌else◌,
}

pub data ResourceState : Type 0 where
  live : ResourceState
  closed : ResourceState
  transferred : ResourceState

pub data ResourceLifecycleError : Type 0 where
  leaked : String → ResourceLifecycleError
  double_free : String → ResourceLifecycleError
  use_after_close : String → ResourceLifecycleError

-- `ResourceTracker`
pub record Tracker : Type 0 where
  pub resources : List (String × ResourceState)

abbrev pub fresh : Tracker
fresh = record { resources = [] }

abbrev pub keys : List (String × ResourceState) → List String
keys [] = []
keys ((k, v) ∷ entries) = k ∷ keys entries

unfoldable pub set_state : String → ResourceState → Tracker → Tracker
unfolding insert_entry
set_state name state t = record { resources = insert_entry name state t.resources }

unfoldable pub create : String → Tracker → Tracker
unfolding set_state
create name t = set_state name live t

pub data Tracked : Type 0 where
  ok : Tracker → Tracked
  err : ResourceLifecycleError → Tracked

-- The branches of `close`, by the state of the resource.
unfoldable pub close_from : String → Tracker → Option ResourceState → Tracked
unfolding set_state
close_from name t (some live) = ok (set_state name closed t)
close_from name t (some closed) = err (double_free name)
close_from name t (some transferred) = err (use_after_close name)
close_from name t none = err (use_after_close name)

unfoldable pub close : String → Tracker → Tracked
unfolding close_from find_text
close name t = close_from name t (find_text t.resources name)

-- The branches of `transfer`, by the state of the resource.
unfoldable pub transfer_from : String → Tracker → Option ResourceState → Tracked
unfolding set_state
transfer_from name t (some live) = ok (set_state name transferred t)
transfer_from name t (some closed) = err (use_after_close name)
transfer_from name t (some transferred) = err (double_free name)
transfer_from name t none = err (use_after_close name)

unfoldable pub transfer : String → Tracker → Tracked
unfolding transfer_from find_text
transfer name t = transfer_from name t (find_text t.resources name)

abbrev pub is_live : Option ResourceState → Bool
is_live (some live) = true
is_live _ = false

-- The loop of `verify` over the sorted names.
unfoldable pub leaks : Tracker → List String → List ResourceLifecycleError
unfolding find_text
leaks t [] = []
leaks t (name ∷ names) =
    let rest = leaks t names in
    if is_live (find_text t.resources name) then leaked name ∷ rest else rest

unfoldable pub verify : Tracker → List ResourceLifecycleError
unfolding leaks sort_texts
verify t = leaks t (sort_texts (keys t.resources))
