-- ===== src/Types.antt =====
-- crates/nexl-types/src/types.rs: the types of the language.
pub mod Equality
pub mod FreeVars
pub mod Resource
pub mod Scheme
pub mod Subst
pub mod Unify
use nexl.Prelude.{
  ℕ, suc, Bool, true, false, Option, none, some, String, List, [], ◌∷◌, ◌||◌, ◌==◌, Ids, insert,
  sort_texts, str_eq, str_eq_iff, has_text,
}

-- `TypeVar`: the number of a unification variable.
abbrev pub TypeVar : Type 0
TypeVar = ℕ

-- The constructors of `Type` that hold nothing.
pub data Prim : Type 0 where
  int float ratio bool char str keyword symbol unit never any : Prim
  int8 int16 int32 int64 u8 u16 u32 u64 f32 f64 : Prim

pub record EffectRow : Type 0 where
  pub effects : List String
  pub tail : Option String

-- `EffectRow::new`
unfoldable pub new_row : List String → Option String → EffectRow
unfolding sort_texts
new_row effects tail = record { effects = sort_texts effects; tail = tail }

unfoldable pub empty_row : EffectRow
unfolding new_row
empty_row = new_row [] none

-- `Type`, with its vectors of types as `Tys` and of named types as `Fields`.
mutual
  pub data Ty : Type 0 where
    prim : Prim → Ty
    var : TypeVar → Ty
    fn : Tys → Ty → EffectRow → Ty
    adt : String → Tys → Ty
    rec : String → Fields → Ty
    tuple : Tys → Ty
    vec : Ty → Ty
    map : Ty → Ty → Ty
    set : Ty → Ty

  pub data Tys : Type 0 where
    nil : Tys
    cons : Ty → Tys → Tys

  pub data Fields : Type 0 where
    end : Fields
    field : String → Ty → Fields → Fields

unfoldable mutual
  -- `collect_free_vars`
  pub free_vars : Ty → Ids → Ids
  free_vars (prim p) out = out
  free_vars (var v) out = insert v out
  free_vars (fn params ret row) out = free_vars ret (free_vars_tys params out)
  free_vars (adt name args) out = free_vars_tys args out
  free_vars (rec name fields) out = free_vars_fields fields out
  free_vars (tuple items) out = free_vars_tys items out
  free_vars (vec elem) out = free_vars elem out
  free_vars (map key val) out = free_vars val (free_vars key out)
  free_vars (set elem) out = free_vars elem out

  pub free_vars_tys : Tys → Ids → Ids
  free_vars_tys nil out = out
  free_vars_tys (cons t ts) out = free_vars_tys ts (free_vars t out)

  pub free_vars_fields : Fields → Ids → Ids
  free_vars_fields end out = out
  free_vars_fields (field name t fs) out = free_vars_fields fs (free_vars t out)

unfoldable mutual
  -- `occurs_in`
  pub occurs_in : TypeVar → Ty → Bool
  occurs_in tv (prim p) = false
  occurs_in tv (var v) = v == tv
  occurs_in tv (fn params ret row) = occurs_in_tys tv params || occurs_in tv ret
  occurs_in tv (adt name args) = occurs_in_tys tv args
  occurs_in tv (rec name fields) = occurs_in_fields tv fields
  occurs_in tv (tuple items) = occurs_in_tys tv items
  occurs_in tv (vec elem) = occurs_in tv elem
  occurs_in tv (map key val) = occurs_in tv key || occurs_in tv val
  occurs_in tv (set elem) = occurs_in tv elem

  pub occurs_in_tys : TypeVar → Tys → Bool
  occurs_in_tys tv nil = false
  occurs_in_tys tv (cons t ts) = occurs_in tv t || occurs_in_tys tv ts

  pub occurs_in_fields : TypeVar → Fields → Bool
  occurs_in_fields tv end = false
  occurs_in_fields tv (field name t fs) = occurs_in tv t || occurs_in_fields tv fs

pub Prim-discrete : Discrete Prim
Prim-discrete = hlevel
