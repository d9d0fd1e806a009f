-- ===== src/Tests/Resource.antt =====
-- Tests of crates/nexl-types/src/resource.rs.
use nexl.Prelude.{◌+◌, List, [], ◌∷◌, ◌≡◌, refl}
use nexl.Types.Resource.{Tracker, closed, fresh, ok, err, double_free, verify}
use nexl.Types.Resource.Balance.{Event, created, closing, run, creations, consumptions, lost}
use nexl.Types.Resource.Failure.{FailsWithin, run-error}
use nexl.Types.Resource.Verify.{run-verified}

-- The second creation loses the first connection.
abbrev reopened : List Event
reopened = created "conn" ∷ created "conn" ∷ closing "conn" ∷ []

abbrev after_reopened : Tracker
after_reopened = record { resources = ("conn", closed) ∷ [] }

run-reopened : run reopened fresh ≡ ok after_reopened
unfolding run
run-reopened = refl

verify-reopened : verify after_reopened ≡ []
unfolding verify
verify-reopened = refl

lost-reopened : lost "conn" reopened fresh ≡ 1
unfolding lost
lost-reopened = refl

run-verified_example :
    creations "conn" reopened ≡ consumptions "conn" reopened + lost "conn" reopened fresh
run-verified_example = run-verified "conn" reopened after_reopened run-reopened verify-reopened

abbrev closed_twice : List Event
closed_twice = created "conn" ∷ closing "conn" ∷ closing "conn" ∷ []

run-closed_twice : run closed_twice fresh ≡ err (double_free "conn")
unfolding run
run-closed_twice = refl

run-error_example : FailsWithin closed_twice fresh (err (double_free "conn"))
run-error_example = run-error closed_twice fresh (double_free "conn") run-closed_twice
