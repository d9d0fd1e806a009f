-- ===== src/Tests/Reuse.antt =====
-- reuse.rs: runs, and the theorems at a small block.
use nexl.Ir.Binders.{binders}
use nexl.Prelude.{contains, [], ◌∷◌, ◌≡◌, refl, inl}
use nexl.Ir.{var, atom, make_tuple, project, let_bind, Block, block, ret}
use nexl.Optimize.Reuse.{ReuseOp, own_reuse, analyze_block_reuse}
use nexl.Optimize.Reuse.Once.{AreDistinct, own_reuse-AreDistinct}
use nexl.Optimize.Reuse.Sizes.{FitsIn, BlockBindsOnce, analyze_block_reuse-large_enough}
use nexl.Tests.Samples.{number}

-- %1 = (Pair 5 6); %2 = %1.0; %3 = (Some %2); return %3
abbrev rebuild : Block
rebuild =
    block
      (let_bind 1 (make_tuple "Pair" (number 5 ∷ number 6 ∷ []))
        ∷ let_bind 2 (project (var 1) 0)
        ∷ let_bind 3 (make_tuple "Some" (var 2 ∷ []))
        ∷ [])
      (ret (var 3))

abbrev reused : ReuseOp
reused = record { producer = 1; consumer = 3; producer_fields = 2; consumer_fields = 1 }

-- The pair is dead behind the projection, and its memory is reused.
analyze-rebuild : analyze_block_reuse (λ uses. uses) rebuild ≡ reused ∷ []
unfolding analyze_block_reuse
analyze-rebuild = refl

-- The copy %2 = %1 keeps the tuple in use, which is reused all the same.
analyze_copy :
    analyze_block_reuse
      (λ uses. uses)
      (block
        (let_bind 1 (make_tuple "Some" (number 5 ∷ []))
          ∷ let_bind 2 (atom (var 1))
          ∷ let_bind 3 (make_tuple "Some" (number 7 ∷ []))
          ∷ [])
        (ret (var 2)))
    ≡ record { producer = 1; consumer = 3; producer_fields = 1; consumer_fields = 1 } ∷ []
unfolding analyze_block_reuse
analyze_copy = refl

analyze_block_reuse-large_enough_example : FitsIn reused rebuild
unfolding analyze_block_reuse BlockBindsOnce binders contains
analyze_block_reuse-large_enough_example =
    analyze_block_reuse-large_enough (λ uses. uses) rebuild reused ((refl, (refl, (refl, tt))), tt)
      (inl refl)

-- Two allocations in turn, each dead before the next.
abbrev chain : Block
chain =
    block
      (let_bind 1 (make_tuple "Some" (number 5 ∷ []))
        ∷ let_bind 2 (project (var 1) 0)
        ∷ let_bind 3 (make_tuple "Some" (number 6 ∷ []))
        ∷ let_bind 4 (project (var 3) 0)
        ∷ let_bind 5 (make_tuple "Some" (var 4 ∷ []))
        ∷ [])
      (ret (var 5))

own_reuse-AreDistinct_example :
    AreDistinct (own_reuse (λ uses. uses) chain ((1, 1) ∷ (3, 1) ∷ (5, 1) ∷ []))
own_reuse-AreDistinct_example =
    own_reuse-AreDistinct (λ uses. uses) chain ((1, 1) ∷ (3, 1) ∷ (5, 1) ∷ [])
