-- ===== src/Tests/Effects.antt =====
-- Tests of crates/nexl-effects.
use nexl.Prelude.{ℕ, suc, some, [], ◌∷◌, ◌≡◌, refl, get_elem?, str_eq, if◌then◌else◌}
use nexl.Effects.{simple, HandlerRecord, single, insert_op, lookup_op, from_records, lookup, extend}
use nexl.Effects.Shadowing.{
  handle_all, no_handlers, extend_all, lookup-from_records, lookup-insert_op,
}
use nexl.Effects.OneShot.{new, calls, panics, calls-new}
use nexl.Effects.Executor.{Task, fork, run_all, fork_all, pending, run_all-fork}

abbrev outer_console : HandlerRecord ℕ
outer_console = record { effect_name = "Console"; operations = ("print", simple 1) ∷ [] }

abbrev state_handler : HandlerRecord ℕ
state_handler = record { effect_name = "State"; operations = ("get", simple 2) ∷ [] }

abbrev inner_console : HandlerRecord ℕ
inner_console = record { effect_name = "Console"; operations = ("print", simple 3) ∷ [] }

innermost_answers :
    lookup
      (extend (from_records (outer_console ∷ state_handler ∷ [])) inner_console)
      "Console"
      "print"
    ≡ some (simple 3)
unfolding lookup extend from_records
innermost_answers = refl

lookup-from_records_example :
    lookup
      (extend_all (from_records (outer_console ∷ state_handler ∷ [])) (inner_console ∷ []))
      "State"
      "get"
    ≡ handle_all
        (inner_console ∷ [])
        (handle_all (outer_console ∷ state_handler ∷ []) no_handlers)
        "State"
        "get"
lookup-from_records_example =
    lookup-from_records (outer_console ∷ state_handler ∷ []) (inner_console ∷ []) "State" "get"

lookup-insert_op_example :
    lookup (extend (single outer_console) (insert_op "read" 4 inner_console)) "Console" "print"
    ≡ (if str_eq "read" "print" then some (simple 4) else lookup_op inner_console "print")
lookup-insert_op_example = lookup-insert_op (single outer_console) inner_console 4 "read" "print"

calls-new_example : calls {F = ℕ} 3 (new 7) ≡ (some 7 ∷ panics 2)
calls-new_example = calls-new 7 2

abbrev count_up : Task ℕ ℕ
count_up n = (suc n, n)

run_all-fork_example :
    (pending (run_all (fork_all (count_up ∷ []) (fork count_up (count_up ∷ [])).0) 5).2 ≡ 0)
    × (get_elem?
          (run_all (fork_all (count_up ∷ []) (fork count_up (count_up ∷ [])).0) 5).1
          (fork count_up (count_up ∷ [])).1
        ≡ some (count_up (run_all (count_up ∷ []) 5).0).1)
run_all-fork_example = run_all-fork (count_up ∷ []) count_up (count_up ∷ []) 5
