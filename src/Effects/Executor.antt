-- ===== src/Effects/Executor.antt =====
-- crates/nexl-effects/src/sequential_executor.rs: forked tasks run one after the other. A task is
-- a function on the state of the world that its effects act on.
use mathlib.Core.List.{append_assoc, append-nil}
use nexl.Prelude.{ℕ, some, List, [], ◌∷◌, ◌++◌, ◌≡◌, refl, ap, ◌∙◌, sym, length, get_elem?}

abbrev pub Task {ℓ} : Type ℓ → Type ℓ → Type ℓ
Task S T = S → S × T

-- `SequentialExecutor`: its queue.
abbrev pub Executor {ℓ} : Type ℓ → Type ℓ → Type ℓ
Executor S T = List (Task S T)

module _ {ℓ} {S T : Type ℓ} where
  abbrev pub pending : Executor S T → ℕ
  pending tasks = length tasks

  -- `fork`: the executor, and the number of the task.
  unfoldable pub fork : Task S T → Executor S T → Executor S T × ℕ
  fork thunk tasks = (tasks ++ (thunk ∷ []), length tasks)

  -- `run_all`: the state, the results, and the executor that is left.
  unfoldable pub run_all : Executor S T → S → S × List T × Executor S T
  run_all [] s = (s, [], [])
  run_all (task ∷ tasks) s =
      let (s', result) = task s in
      let (s'', results, left) = run_all tasks s' in (s'', result ∷ results, left)

  abbrev pub fork_all : List (Task S T) → Executor S T → Executor S T
  fork_all [] tasks = tasks
  fork_all (thunk ∷ thunks) tasks = fork_all thunks (fork thunk tasks).0

  fork_all-append :
      (thunks : List (Task S T)) (tasks : Executor S T) → fork_all thunks tasks ≡ tasks ++ thunks
  unfolding fork
  fork_all-append [] tasks = sym (append-nil tasks)
  fork_all-append (thunk ∷ thunks) tasks =
      fork_all-append thunks (tasks ++ (thunk ∷ [])) ∙ append_assoc tasks (thunk ∷ []) thunks

  run_all-get :
      (tasks : Executor S T) (thunk : Task S T) (later : List (Task S T)) (s : S)
      → get_elem? (run_all (tasks ++ (thunk ∷ later)) s).1 (length tasks)
        ≡ some (thunk (run_all tasks s).0).1
  unfolding run_all
  run_all-get [] thunk later s = refl
  run_all-get (task ∷ tasks) thunk later s = run_all-get tasks thunk later (task s).0

  run_all-left : (tasks : Executor S T) (s : S) → (run_all tasks s).2 ≡ []
  unfolding run_all
  run_all-left [] s = refl
  run_all-left (task ∷ tasks) s = run_all-left tasks (task s).0

  -- A forked task is run: whatever is forked after it, `run_all` leaves no task, and its result at
  -- the number that `fork` gave is that of the task in the state that the tasks before it leave.
  pub run_all-fork :
      (tasks : Executor S T) (thunk : Task S T) (later : List (Task S T)) (s : S)
      → (pending (run_all (fork_all later (fork thunk tasks).0) s).2 ≡ 0)
        × (get_elem? (run_all (fork_all later (fork thunk tasks).0) s).1 (fork thunk tasks).1
            ≡ some (thunk (run_all tasks s).0).1)
  unfolding fork
  run_all-fork tasks thunk later s =
      rw (fork_all-append later (tasks ++ (thunk ∷ [])), append_assoc tasks (thunk ∷ []) later)
        (ap pending (run_all-left (tasks ++ (thunk ∷ later)) s), run_all-get tasks thunk later s)
