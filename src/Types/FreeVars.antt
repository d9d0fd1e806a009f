-- ===== src/Types/FreeVars.antt =====
-- types.rs: the free variables of a type.
use nexl.Prelude.{◌||◌, ◌≡◌, refl, Ids, [], contains, contains-insert, arith}
use nexl.Types.{
  TypeVar, Ty, prim, var, fn, adt, rec, tuple, vec, map, set, Tys, nil, cons, Fields, end, field,
  free_vars, free_vars_tys, free_vars_fields, occurs_in, occurs_in_tys, occurs_in_fields,
}

module _ (v : TypeVar) where
  mutual
    unfolding free_vars free_vars_tys free_vars_fields occurs_in occurs_in_tys occurs_in_fields

    contains-free_vars_from :
        (t : Ty) (out : Ids) → contains (free_vars t out) v ≡ (occurs_in v t || contains out v)
    contains-free_vars_from (prim p) out = refl
    contains-free_vars_from (var u) out = ground (arith, contains-insert u v out)
    contains-free_vars_from (fn params ret row) out = ground (
      arith,
      contains-free_vars_from ret (free_vars_tys params out),
      contains-free_vars_tys params out,
    )
    contains-free_vars_from (adt name args) out = contains-free_vars_tys args out
    contains-free_vars_from (rec name fields) out = contains-free_vars_fields fields out
    contains-free_vars_from (tuple items) out = contains-free_vars_tys items out
    contains-free_vars_from (vec elem) out = contains-free_vars_from elem out
    contains-free_vars_from (map key val) out =
        ground
          (arith, contains-free_vars_from val (free_vars key out), contains-free_vars_from key out)
    contains-free_vars_from (set elem) out = contains-free_vars_from elem out

    contains-free_vars_tys :
        (ts : Tys) (out : Ids)
        → contains (free_vars_tys ts out) v ≡ (occurs_in_tys v ts || contains out v)
    contains-free_vars_tys nil out = refl
    contains-free_vars_tys (cons t ts) out =
        ground (arith, contains-free_vars_tys ts (free_vars t out), contains-free_vars_from t out)

    contains-free_vars_fields :
        (fs : Fields) (out : Ids)
        → contains (free_vars_fields fs out) v ≡ (occurs_in_fields v fs || contains out v)
    contains-free_vars_fields end out = refl
    contains-free_vars_fields (field name t fs) out =
        ground
          (arith, contains-free_vars_fields fs (free_vars t out), contains-free_vars_from t out)

-- The free variables that are collected from a type are those that occur in it by the occurs check.
pub contains-free_vars : (t : Ty) (v : TypeVar) → contains (free_vars t []) v ≡ occurs_in v t
unfolding contains
contains-free_vars t v = ground (arith, contains-free_vars_from v t [])
