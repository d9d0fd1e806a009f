-- ===== src/Optimize/Reuse/Sizes.antt =====
-- reuse.rs: a reused allocation is large enough.
use nexl.Prelude.{ℕ, some, List, [], ◌∷◌, ◌≡◌, ◌⊎◌, inl, inr, In}
use nexl.Ir.{VarId, LetBind, Block, block, Tail, if_else, match, loop, Arms, nil, arm}
use nexl.Ir.Binders.{BindsOnce}
use nexl.Optimize.Reuse.{
  ReuseOp, VarMap, lookup, own_reuse, tuple_producers, analyze_block_reuse, analyze_tail_reuse,
  analyze_arms_reuse,
}
use nexl.Optimize.Reuse.Tuples.{BindsTuple, IsLargeEnough, tuple_producers-known}
use nexl.Optimize.Reuse.Dead.{append-In, scan_binds-IsLargeEnough}

-- In a block, or one below it, no variable is bound twice.
unfoldable mutual
  pub BlockBindsOnce : Block → Type 0
  BlockBindsOnce (block binds tail) = BindsOnce binds × TailBindsOnce tail

  pub TailBindsOnce : Tail → Type 0
  TailBindsOnce (if_else c t e) = BlockBindsOnce t × BlockBindsOnce e
  TailBindsOnce (match a arms) = ArmsBindOnce arms
  TailBindsOnce (loop vars body) = BlockBindsOnce body
  TailBindsOnce _ = Unit

  pub ArmsBindOnce : Arms → Type 0
  ArmsBindOnce nil = Unit
  ArmsBindOnce (arm ctor xs body rest) = BlockBindsOnce body × ArmsBindOnce rest

-- In a block, or one below it, the reuse is large enough.
unfoldable mutual
  pub FitsIn : ReuseOp → Block → Type 0
  FitsIn o (block binds tail) = IsLargeEnough o binds ⊎ FitsInTail o tail

  pub FitsInTail : ReuseOp → Tail → Type 0
  FitsInTail o (if_else c t e) = FitsIn o t ⊎ FitsIn o e
  FitsInTail o (match a arms) = FitsInArms o arms
  FitsInTail o (loop vars body) = FitsIn o body
  FitsInTail o _ = ⊥

  pub FitsInArms : ReuseOp → Arms → Type 0
  FitsInArms o nil = ⊥
  FitsInArms o (arm ctor xs body rest) = FitsIn o body ⊎ FitsInArms o rest

module _ (order : VarMap → VarMap) (o : ReuseOp) where
  own_reuse-IsLargeEnough :
      (binds : List LetBind) (tail : Tail) (producers : VarMap)
      → BindsOnce binds
      → ((v : VarId) (n : ℕ) → lookup producers v ≡ some n → BindsTuple binds v n)
      → In o (own_reuse order (block binds tail) producers)
      → IsLargeEnough o binds
  own_reuse-IsLargeEnough binds tail [] once known i = absurd i
  own_reuse-IsLargeEnough binds tail (p ∷ producers) once known i =
      scan_binds-IsLargeEnough binds once order (p ∷ producers) known _ 0 binds ([], []) (λ b j. j)
        tt o i

  mutual
    unfolding analyze_block_reuse analyze_tail_reuse analyze_arms_reuse BlockBindsOnce TailBindsOnce
        ArmsBindOnce FitsIn FitsInTail FitsInArms

    block-FitsIn : (b : Block) → BlockBindsOnce b → In o (analyze_block_reuse order b) → FitsIn o b
    block-FitsIn (block binds tail) (once, h) i =
        elim (append-In o (own_reuse order (block binds tail) (tuple_producers binds [])) _ i) [
          | inl j ↦ inl (
              own_reuse-IsLargeEnough binds tail (tuple_producers binds []) once
                (tuple_producers-known binds) j)
          | inr j ↦ inr (tail-FitsIn tail h j)
        ]

    tail-FitsIn : (t : Tail) → TailBindsOnce t → In o (analyze_tail_reuse order t) → FitsInTail o t
    tail-FitsIn (if_else c t e) (h, k) i = elim (append-In o (analyze_block_reuse order t) _ i) [
      | inl j ↦ inl (block-FitsIn t h j)
      | inr j ↦ inr (block-FitsIn e k j)
    ]
    tail-FitsIn (match a arms) h i = arms-FitsIn arms h i
    tail-FitsIn (loop vars body) h i = block-FitsIn body h i
    tail-FitsIn _ h i = absurd i

    arms-FitsIn : (l : Arms) → ArmsBindOnce l → In o (analyze_arms_reuse order l) → FitsInArms o l
    arms-FitsIn nil h i = absurd i
    arms-FitsIn (arm ctor xs body rest) (h, k) i =
        elim (append-In o (analyze_block_reuse order body) _ i) [
          | inl j ↦ inl (block-FitsIn body h j)
          | inr j ↦ inr (arms-FitsIn rest k j)
        ]

-- Where no block, at any depth, binds a variable twice, and whatever order the maps are iterated in:
-- every reuse that is found in a block or below it is of a variable that the same block binds to a
-- tuple, and to nothing else, for one that it binds to a tuple with as many fields or fewer; and the
-- numbers of fields that are recorded are those of the two tuples.
pub analyze_block_reuse-large_enough :
    (order : VarMap → VarMap) (b : Block) (o : ReuseOp)
    → BlockBindsOnce b
    → In o (analyze_block_reuse order b)
    → FitsIn o b
analyze_block_reuse-large_enough order b o once i = block-FitsIn order o b once i
