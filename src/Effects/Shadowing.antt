-- ===== src/Effects/Shadowing.antt =====
-- crates/nexl-effects/src/lib.rs: an evidence vector stands for the handlers in scope, of which the
-- innermost answers.
use mathlib.Core.List.{append_assoc, append-nil}
use nexl.Prelude.{
  str_eq_self, Option, none, some, String, List, [], ◌∷◌, ◌++◌, ◌≡◌, refl, ap, ◌∙◌, sym, str_eq,
  find_text-insert_entry, Bool-cases, inl, inr, if◌then◌else◌,
}
use nexl.Effects.{
  HandlerOp, simple, HandlerRecord, EvidenceVector, empty, single, multi, insert_op, lookup_op,
  from_records, find_innermost, lookup, extend,
}

-- The handlers in scope: what answers an operation of an effect.
abbrev pub Scope {ℓ} : Type ℓ → Type ℓ
Scope F = String → String → Option (HandlerOp F)

module _ {ℓ} {F : Type ℓ} where
  abbrev pub no_handlers : Scope F
  no_handlers effect_name op_name = none

  -- A handler form answers for its effect, and leaves the others to the forms around it.
  abbrev pub handle : HandlerRecord F → Scope F → Scope F
  handle r outer effect_name op_name =
      if str_eq r.effect_name effect_name then lookup_op r op_name else outer effect_name op_name

  -- The forms of a list are entered in its order, the outermost first.
  abbrev pub handle_all : List (HandlerRecord F) → Scope F → Scope F
  handle_all [] outer = outer
  handle_all (r ∷ rs) outer = handle_all rs (handle r outer)

  abbrev pub extend_all : EvidenceVector F → List (HandlerRecord F) → EvidenceVector F
  extend_all v [] = v
  extend_all v (r ∷ rs) = extend_all (extend v r) rs

  find_innermost-snoc :
      (rs : List (HandlerRecord F)) (r : HandlerRecord F) (e : String)
      → find_innermost (rs ++ (r ∷ [])) e
        ≡ (if str_eq r.effect_name e then some r else find_innermost rs e)
  unfolding find_innermost
  find_innermost-snoc [] r e = refl
  find_innermost-snoc (q ∷ rs) r e =
      rw (find_innermost-snoc rs r e) (elim (Bool-cases (str_eq r.effect_name e)) [
        | inl same ↦ rw same refl
        | inr other ↦ rw other refl
      ])

  -- The handler that is entered last shadows those of its effect, and no others.
  pub lookup-extend :
      (v : EvidenceVector F) (r : HandlerRecord F) (e op : String)
      → lookup (extend v r) e op ≡ handle r (lookup v) e op
  unfolding lookup extend find_innermost
  lookup-extend empty r e op = refl
  lookup-extend (single q) r e op = elim (Bool-cases (str_eq r.effect_name e)) [
    | inl same ↦ rw same refl
    | inr other ↦ rw other (elim (Bool-cases (str_eq q.effect_name e)) [
      | inl at ↦ rw at refl
      | inr apart ↦ rw apart refl
    ])
  ]
  lookup-extend (multi rs) r e op =
      rw (find_innermost-snoc rs r e) (elim (Bool-cases (str_eq r.effect_name e)) [
        | inl same ↦ rw same refl
        | inr other ↦ rw other refl
      ])

  handle-cong :
      (r : HandlerRecord F) (f g : Scope F)
      → ((e op : String) → f e op ≡ g e op)
      → (e op : String) → handle r f e op ≡ handle r g e op
  handle-cong r f g h e op = rw (h e op) refl

  handle_all-cong :
      (rs : List (HandlerRecord F)) (f g : Scope F)
      → ((e op : String) → f e op ≡ g e op)
      → (e op : String) → handle_all rs f e op ≡ handle_all rs g e op
  handle_all-cong [] f g h e op = h e op
  handle_all-cong (r ∷ rs) f g h e op =
      handle_all-cong rs (handle r f) (handle r g) (handle-cong r f g h) e op

  lookup-extend_all :
      (rs : List (HandlerRecord F)) (v : EvidenceVector F) (e op : String)
      → lookup (extend_all v rs) e op ≡ handle_all rs (lookup v) e op
  lookup-extend_all [] v e op = refl
  lookup-extend_all (r ∷ rs) v e op =
      lookup-extend_all rs (extend v r) e op
      ∙ handle_all-cong rs (lookup (extend v r)) (handle r (lookup v)) (lookup-extend v r) e op

  extend_all-multi : (rs qs : List (HandlerRecord F)) → extend_all (multi rs) qs ≡ multi (rs ++ qs)
  unfolding extend
  extend_all-multi rs [] = ap multi (sym (append-nil rs))
  extend_all-multi rs (q ∷ qs) =
      extend_all-multi (rs ++ (q ∷ [])) qs ∙ ap multi (append_assoc rs (q ∷ []) qs)

  -- The vector of a list of records is the one that entering them in turn gives.
  pub extend_all-from_records :
      (rs : List (HandlerRecord F)) → extend_all empty rs ≡ from_records rs
  unfolding extend from_records
  extend_all-from_records [] = refl
  extend_all-from_records (r ∷ []) = refl
  extend_all-from_records (r ∷ q ∷ rs) = extend_all-multi (r ∷ q ∷ []) rs

  lookup-empty : (e op : String) → lookup {F = F} empty e op ≡ no_handlers e op
  unfolding lookup
  lookup-empty e op = refl

  -- A vector that is built of a list of records, the outermost first, and then extended by others,
  -- answers every operation of every effect as the nested handler forms do: the innermost form of
  -- the effect answers, and it alone.
  pub lookup-from_records :
      (rs qs : List (HandlerRecord F)) (e op : String)
      → lookup (extend_all (from_records rs) qs) e op
        ≡ handle_all qs (handle_all rs no_handlers) e op
  lookup-from_records rs qs e op =
      lookup-extend_all qs (from_records rs) e op
      ∙ handle_all-cong qs (lookup (from_records rs)) (handle_all rs no_handlers)
          (λ e op.
            ap (λ v. lookup v e op) (sym (extend_all-from_records rs))
            ∙ lookup-extend_all rs empty e op
            ∙ handle_all-cong rs (lookup empty) no_handlers lookup-empty e op)
          e op

  -- In a vector that is extended by a record in which an operation is registered, looking that
  -- operation up finds its implementation, and looking another operation of the effect up finds
  -- what the record had.
  pub lookup-insert_op :
      (v : EvidenceVector F) (r : HandlerRecord F) (f : F) (op_name op : String)
      → lookup (extend v (insert_op op_name f r)) r.effect_name op
        ≡ (if str_eq op_name op then some (simple f) else lookup_op r op)
  unfolding insert_op lookup_op
  lookup-insert_op v r f op_name op =
      lookup-extend v (insert_op op_name f r) r.effect_name op
      ∙ rw (str_eq_self r.effect_name) (find_text-insert_entry op_name (simple f) r.operations op)
