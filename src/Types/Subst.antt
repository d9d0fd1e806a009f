-- ===== src/Types/Subst.antt =====
-- crates/nexl-types/src/subst.rs: substitutions and their application.
pub mod Apply
pub mod Solve
pub mod Triangular
use nexl.Prelude.{
  ℕ, zero, suc, Bool, true, false, Option, none, some, String, List, [], ◌∷◌, ◌++◌, ◌==◌, Ids,
  contains, length, has_text, find_text, if◌then◌else◌,
}
use nexl.Types.{
  TypeVar, Ty, prim, var, fn, adt, rec, tuple, vec, map, set, Tys, nil, cons, Fields, end, field,
  EffectRow, new_row,
}

-- The maps are association lists whose first entry of a key counts.
pub record Subst : Type 0 where
  pub map : List (TypeVar × Ty)
  pub effect_rows : List (String × EffectRow)
  pub next_effect_var : ℕ

unfoldable pub empty : Subst
empty = record { map = []; effect_rows = []; next_effect_var = 0 }

-- `Subst::insert`
unfoldable pub insert_var : TypeVar → Ty → Subst → Subst
insert_var tv ty s = record s { map = (tv, ty) ∷ s.map }

unfoldable pub insert_effect_row : String → EffectRow → Subst → Subst
insert_effect_row v row s = record s { effect_rows = (v, row) ∷ s.effect_rows }

-- `HashMap<TypeVar, Type>::get`
unfoldable pub lookup : List (TypeVar × Ty) → TypeVar → Option Ty
lookup [] v = none
lookup ((w, t) ∷ rest) v = if v == w then some t else lookup rest v

-- The loop of `apply_effect_row`; a row is visited once, so the fuel is one more than there are.
unfoldable pub follow_rows :
    ℕ → List (String × EffectRow) → List String → List String → Option String → EffectRow
unfolding new_row has_text find_text
follow_rows zero rows seen effects tail = new_row effects tail
follow_rows (suc n) rows seen effects none = new_row effects none
follow_rows (suc n) rows seen effects (some v) = elim (has_text seen v) [
  | true ↦ new_row effects (some v)
  | false ↦ elim (find_text rows v) [
    | none ↦ new_row effects (some v)
    | some bound ↦ follow_rows n rows (v ∷ seen) (effects ++ bound.effects) bound.tail
  ]
]

unfoldable pub apply_effect_row : Subst → EffectRow → EffectRow
unfolding follow_rows
apply_effect_row s row =
    follow_rows (suc (length s.effect_rows)) s.effect_rows [] row.effects row.tail

abbrev pub bind_ty {ℓ κ} : {A : Type ℓ} {B : Type κ} → Option A → (A → Option B) → Option B
bind_ty none f = none
bind_ty (some a) f = f a

-- The recursion of `apply` over a type; `none` is what `on_var` gives where it runs out of fuel.
unfoldable mutual
  pub apply_with : (TypeVar → Option Ty) → (EffectRow → EffectRow) → Ty → Option Ty
  apply_with on_var on_row (prim p) = some (prim p)
  apply_with on_var on_row (var v) = on_var v
  apply_with on_var on_row (fn params ret row) =
      bind_ty (apply_tys on_var on_row params) λ params'.
        bind_ty (apply_with on_var on_row ret) λ ret'. some (fn params' ret' (on_row row))
  apply_with on_var on_row (adt name args) =
      bind_ty (apply_tys on_var on_row args) λ args'. some (adt name args')
  apply_with on_var on_row (rec name fields) =
      bind_ty (apply_fields on_var on_row fields) λ fields'. some (rec name fields')
  apply_with on_var on_row (tuple items) =
      bind_ty (apply_tys on_var on_row items) λ items'. some (tuple items')
  apply_with on_var on_row (vec elem) =
      bind_ty (apply_with on_var on_row elem) λ elem'. some (vec elem')
  apply_with on_var on_row (map key val) =
      bind_ty (apply_with on_var on_row key)
        λ key'. bind_ty (apply_with on_var on_row val) λ val'. some (map key' val')
  apply_with on_var on_row (set elem) =
      bind_ty (apply_with on_var on_row elem) λ elem'. some (set elem')

  pub apply_tys : (TypeVar → Option Ty) → (EffectRow → EffectRow) → Tys → Option Tys
  apply_tys on_var on_row nil = some nil
  apply_tys on_var on_row (cons t ts) =
      bind_ty (apply_with on_var on_row t)
        λ t'. bind_ty (apply_tys on_var on_row ts) λ ts'. some (cons t' ts')

  pub apply_fields : (TypeVar → Option Ty) → (EffectRow → EffectRow) → Fields → Option Fields
  apply_fields on_var on_row end = some end
  apply_fields on_var on_row (field name t fs) =
      bind_ty (apply_with on_var on_row t)
        λ t'. bind_ty (apply_fields on_var on_row fs) λ fs'. some (field name t' fs')

-- What a variable is bound to: the next variable, or a type to go on with.
abbrev pub follow : Option Ty → TypeVar → (TypeVar → Option Ty) → (Ty → Option Ty) → Option Ty
follow none current next other = some (var current)
follow (some (var v)) current next other = next v
follow (some t) current next other = other t

-- The loop of `apply` on a variable `tv`, a unit of fuel for each binding that is followed.
unfoldable pub visit : ℕ → Subst → TypeVar → TypeVar → Ids → Option Ty
unfolding contains lookup apply_with
visit zero s tv current seen = none
visit (suc n) s tv current seen =
    let onward =
      follow (lookup s.map current) current (λ v. visit n s tv v (current ∷ seen))
        (λ t. apply_with (λ v. visit n s v v []) (apply_effect_row s) t) in
    if contains seen current then some (var tv) else onward

-- `Subst::apply`
unfoldable pub apply : ℕ → Subst → Ty → Option Ty
unfolding visit
apply n s t = apply_with (λ v. visit n s v v []) (apply_effect_row s) t
