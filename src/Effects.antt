-- ===== src/Effects.antt =====
-- crates/nexl-effects/src/lib.rs: evidence vectors, which hold the handlers of the effects, and
-- one-shot continuations; and sequential_executor.rs, in the module Executor.
pub mod Executor
pub mod OneShot
pub mod Shadowing
use nexl.Prelude.{
  Bool, true, false, Option, none, some, String, List, [], ◌∷◌, ◌++◌, str_eq, find_text,
  insert_entry, if◌then◌else◌,
}

pub data HandlerOp {ℓ} (F : Type ℓ) : Type ℓ where
  simple : F → HandlerOp F
  continuation : F → HandlerOp F

pub record HandlerRecord {ℓ} (F : Type ℓ) : Type ℓ where
  pub effect_name : String
  pub operations : List (String × HandlerOp F)

pub data EvidenceVector {ℓ} (F : Type ℓ) : Type ℓ where
  empty : EvidenceVector F
  single : HandlerRecord F → EvidenceVector F
  multi : List (HandlerRecord F) → EvidenceVector F

module _ {ℓ} {F : Type ℓ} where
  -- `HandlerRecord::new`
  unfoldable pub new_record : String → HandlerRecord F
  new_record effect_name = record { effect_name = effect_name; operations = [] }

  unfoldable pub insert_op : String → F → HandlerRecord F → HandlerRecord F
  unfolding insert_entry
  insert_op op_name f r = record r { operations = insert_entry op_name (simple f) r.operations }

  unfoldable pub insert_continuation_op : String → F → HandlerRecord F → HandlerRecord F
  unfolding insert_entry
  insert_continuation_op op_name f r = record r {
    operations = insert_entry op_name (continuation f) r.operations;
  }

  -- `HandlerRecord::lookup`
  unfoldable pub lookup_op : HandlerRecord F → String → Option (HandlerOp F)
  unfolding find_text
  lookup_op r op_name = find_text r.operations op_name

  unfoldable pub from_records : List (HandlerRecord F) → EvidenceVector F
  from_records [] = empty
  from_records (r ∷ []) = single r
  from_records (r ∷ q ∷ rs) = multi (r ∷ q ∷ rs)

  abbrev or_if : Option (HandlerRecord F) → Bool → HandlerRecord F → Option (HandlerRecord F)
  or_if (some found) b r = some found
  or_if none b r = if b then some r else none

  -- `iter().rev().find(..)`: the last record of the effect.
  unfoldable pub find_innermost : List (HandlerRecord F) → String → Option (HandlerRecord F)
  find_innermost [] e = none
  find_innermost (r ∷ rs) e = or_if (find_innermost rs e) (str_eq r.effect_name e) r

  abbrev pub and_lookup : Option (HandlerRecord F) → String → Option (HandlerOp F)
  unfolding lookup_op
  and_lookup none op_name = none
  and_lookup (some r) op_name = lookup_op r op_name

  -- `EvidenceVector::lookup`
  unfoldable pub lookup : EvidenceVector F → String → String → Option (HandlerOp F)
  unfolding find_innermost lookup_op
  lookup empty effect_name op_name = none
  lookup (single r) effect_name op_name =
      if str_eq r.effect_name effect_name then lookup_op r op_name else none
  lookup (multi rs) effect_name op_name = and_lookup (find_innermost rs effect_name) op_name

  unfoldable pub extend : EvidenceVector F → HandlerRecord F → EvidenceVector F
  extend empty r = single r
  extend (single existing) r = multi (existing ∷ r ∷ [])
  extend (multi rs) r = multi (rs ++ (r ∷ []))
