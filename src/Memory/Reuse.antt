-- ===== src/Memory/Reuse.antt =====
-- crates/nexl-memory/src/lib.rs: what the reuse analysis finds.
use nexl.Prelude.{
  ℕ, Option, none, some, List, [], ◌∷◌, ◌++◌, map, ◌≡◌, refl, inl, inr, Bool-cases, ◌∙◌, ap,
}
use nexl.Ir.{VarId, LetBind, let_bind, Block, block, FuncDef, Module}
use nexl.Memory.{
  RcStep, bind, heap_vars, returned, is_returned, drops, annotate_block, annotate_func,
  run_dup_drop, ReuseToken, ReuseMap, alloc_slot_count, SlotCounts, take_token, take_for,
  tokens_left, record_reuse, scan, analyze_block_for_reuse, analyze_funcs, run_reuse,
}

take_for-nil : (o : Option ℕ) → take_for o [] ≡ none
unfolding take_token
take_for-nil none = refl
take_for-nil (some n) = refl

-- Bindings with no token at hand record nothing, and neither do drops with no binding behind them.
scan-binds :
    (slots : SlotCounts) (bs : List LetBind) (rest : List RcStep) (reuse : ReuseMap)
    → scan slots (map bind bs ++ rest) [] reuse ≡ scan slots rest [] reuse
unfolding scan
scan-binds slots [] rest reuse = refl
scan-binds slots (let_bind x rhs ∷ bs) rest reuse =
    ap (λ t. scan slots (map bind bs ++ rest) (tokens_left t []) (record_reuse x t reuse))
      (take_for-nil (alloc_slot_count rhs))
    ∙ scan-binds slots bs rest reuse

scan-drops :
    (slots : SlotCounts) (r : Option VarId) (vs : List VarId) (available : List ReuseToken)
    (reuse : ReuseMap)
    → scan slots (drops r vs) available reuse ≡ reuse
unfolding scan drops
scan-drops slots r [] available reuse = refl
scan-drops slots r (v ∷ vs) available reuse = elim (Bool-cases (is_returned r v)) [
  | inl kept ↦ rw kept (scan-drops slots r vs available reuse)
  | inr dropped ↦ rw dropped (scan-drops slots r vs _ reuse)
]

analyze-annotate_block :
    (b : Block) (reuse : ReuseMap) → analyze_block_for_reuse (annotate_block b) reuse ≡ reuse
unfolding analyze_block_for_reuse annotate_block
analyze-annotate_block (block binds tail) reuse =
    let ds = drops (returned tail) (heap_vars binds) in
    scan-binds _ binds ds reuse ∙ scan-drops _ (returned tail) (heap_vars binds) [] reuse

analyze_funcs-annotate :
    (fs : List FuncDef) (reuse : ReuseMap) → analyze_funcs (map annotate_func fs) reuse ≡ reuse
unfolding analyze_funcs annotate_func
analyze_funcs-annotate [] reuse = refl
analyze_funcs-annotate (f ∷ fs) reuse =
    ap (analyze_funcs (map annotate_func fs)) (analyze-annotate_block f.body reuse)
    ∙ analyze_funcs-annotate fs reuse

-- The reuse analysis finds nothing in what the dup/drop pass makes of any module: the drops stand
-- behind all the bindings of their block, so no allocation follows one.
pub run_reuse-run_dup_drop : (m : Module) → run_reuse (run_dup_drop m) ≡ []
unfolding run_reuse run_dup_drop
run_reuse-run_dup_drop m = analyze_funcs-annotate m.funcs []
