-- ===== src/Types/Unify.antt =====
-- crates/nexl-types/src/unify.rs: unification. Source spans, help texts and contexts are added to
-- an error by the callers.
pub mod Agreement
pub mod Agrees
pub mod Cases
pub mod Ends
pub mod Extension
pub mod Measure
pub mod Rows
pub mod Settles
pub mod Sound
pub mod Success
pub mod Termination
use nexl.Prelude.{
  ℕ, zero, suc, ◌+◌, Bool, true, false, not, Option, none, some, String, List, [], ◌∷◌, ◌++◌, ◌==◌,
  ◌&&◌, ◌||◌, length, leb, str_eq, has_text, sort_texts, if◌then◌else◌,
}
use nexl.Types.{
  TypeVar, Prim, int, float, int64, f64, never, Ty, prim, var, fn, adt, rec, tuple, vec, map, set,
  Tys, nil, cons, Fields, end, field, EffectRow, new_row, occurs_in,
}
use nexl.Types.Equality.{ty_eq, texts_eq, tail_eq}
use nexl.Types.Subst.{Subst, insert_var, insert_effect_row, apply_effect_row, apply}

-- `TypeErrorKind`. Of the description of a malformed form, the tuple's length is kept.
pub data TypeErrorKind : Type 0 where
  mismatch : Ty → Ty → TypeErrorKind
  infinite_type : TypeVar → Ty → TypeErrorKind
  arity_mismatch : ℕ → ℕ → TypeErrorKind
  unbound_variable : String → TypeErrorKind
  malformed_form : ℕ → TypeErrorKind

-- The substitution that `unify` leaves, or its error.
pub data Unified : Type 0 where
  ok : Subst → Unified
  err : TypeErrorKind → Unified
  out_of_fuel : Unified

-- The `?` of the source.
infixl 5 ◌>>=◌
abbrev pub ◌>>=◌ : Unified → (Subst → Unified) → Unified
ok s >>= f = f s
err e >>= f = err e
out_of_fuel >>= f = out_of_fuel

unfoldable pub normalize : Ty → Ty
normalize (prim int64) = prim int
normalize (prim f64) = prim float
normalize other = other

abbrev pub length_tys : Tys → ℕ
length_tys nil = 0
length_tys (cons t ts) = suc (length_tys ts)

abbrev pub length_fields : Fields → ℕ
length_fields end = 0
length_fields (field name t fs) = suc (length_fields fs)

-- The length of a tuple outside 2..=8.
unfoldable pub bad_arity : Ty → Option ℕ
bad_arity (tuple items) =
    if leb 2 (length_tys items) && leb (length_tys items) 8 then none else some (length_tys items)
bad_arity _ = none

-- `BTreeSet::difference`
unfoldable pub only_in : List String → List String → List String
unfolding has_text
only_in [] bs = []
only_in (a ∷ as_) bs = let rest = only_in as_ bs in if has_text bs a then rest else a ∷ rest

unfoldable pub is_empty : List String → Bool
is_empty [] = true
is_empty (a ∷ as_) = false

-- The name of a fresh row variable is that of its number, `_e0`, `_e1` and so on.
abbrev pub Naming : Type 0
Naming = ℕ → String

abbrev pub bind_row : String → List String → Option String → Subst → Option Subst
bind_row v effects tail s = some (insert_effect_row v (new_row effects tail) s)

-- The two open rows of different tails: what each has alone goes to the other.
unfoldable pub unify_open_rows :
    Naming → String → String → List String → List String → Subst → Option Subst
unfolding insert_effect_row new_row is_empty
unify_open_rows naming a_var b_var only_a only_b s =
    let fresh = naming s.next_effect_var in
    let s' = record s { next_effect_var = suc s.next_effect_var } in
    let crossed =
      insert_effect_row b_var (new_row only_a (some fresh))
        (insert_effect_row a_var (new_row only_b (some fresh)) s') in
    if str_eq a_var b_var
    then (if is_empty only_a && is_empty only_b then some s else none)
    else (if is_empty only_a && is_empty only_b
        then bind_row a_var [] (some b_var) s
        else if is_empty only_a
        then bind_row a_var only_b (some b_var) s
        else if is_empty only_b
        then bind_row b_var only_a (some a_var) s
        else some crossed)

unfoldable pub unify_tails :
    Naming → Option String → Option String → List String → List String → Subst → Option Subst
unfolding unify_open_rows
unify_tails naming (some a_var) none only_a only_b s =
    if is_empty only_a then bind_row a_var only_b none s else none
unify_tails naming none (some b_var) only_a only_b s =
    if is_empty only_b then bind_row b_var only_a none s else none
unify_tails naming (some a_var) (some b_var) only_a only_b s =
    unify_open_rows naming a_var b_var only_a only_b s
unify_tails naming none none only_a only_b s = none

-- `none` where the source answers false.
unfoldable pub unify_effect_rows : Naming → EffectRow → EffectRow → Subst → Option Subst
unfolding unify_tails only_in apply_effect_row texts_eq tail_eq
unify_effect_rows naming a b s =
    let a' = apply_effect_row s a in
    let b' = apply_effect_row s b in
    let a_set = sort_texts a'.effects in
    let b_set = sort_texts b'.effects in
    if tail_eq a'.tail b'.tail
    then (if texts_eq a_set b_set then some s else none)
    else unify_tails naming a'.tail b'.tail (only_in a_set b_set) (only_in b_set a_set) s

abbrev pub from_rows : Ty → Ty → Option Subst → (Subst → Unified) → Unified
from_rows a b none f = err (mismatch a b)
from_rows a b (some s) f = f s

-- The calls of `unify` below, pair by pair, as far as both lists go.
unfoldable pub unify_tys : (Ty → Ty → Subst → Unified) → Tys → Tys → Subst → Unified
unify_tys on_pair nil us s = ok s
unify_tys on_pair (cons t ts) nil s = ok s
unify_tys on_pair (cons t ts) (cons u us) s = on_pair t u s >>= unify_tys on_pair ts us

unfoldable pub find_field : String → Fields → Option Ty
find_field name end = none
find_field name (field m u gs) = if str_eq m name then some u else find_field name gs

abbrev pub unify_found :
    (Ty → Ty → Subst → Unified) → Ty → Option Ty → TypeErrorKind → Subst → Unified
unify_found on_pair t none e s = err e
unify_found on_pair t (some u) e s = on_pair t u s

-- The fields of the left record, each against the first of its name on the right.
unfoldable pub unify_fields :
    (Ty → Ty → Subst → Unified) → Fields → Fields → TypeErrorKind → Subst → Unified
unfolding find_field
unify_fields on_pair end gs e s = ok s
unify_fields on_pair (field name t fs) gs e s =
    unify_found on_pair t (find_field name gs) e s >>= unify_fields on_pair fs gs e

-- A variable is bound to the other type, unless that mentions it.
unfoldable pub bind_var : TypeVar → Ty → Subst → Unified
unfolding insert_var
bind_var tv t s = if occurs_in tv t then err (infinite_type tv t) else ok (insert_var tv t s)

-- The cases of `unify` on two types that differ.
unfoldable pub unify_apart : Naming → (Ty → Ty → Subst → Unified) → Ty → Ty → Subst → Unified
unfolding bind_var unify_effect_rows unify_tys unify_fields
unify_apart naming on_pair (var tv) b s = bind_var tv b s
unify_apart naming on_pair a (var tv) s = bind_var tv a s
unify_apart naming on_pair (prim never) b s = ok s
unify_apart naming on_pair a (prim never) s = ok s
unify_apart naming on_pair (fn pa ra ea) (fn pb rb eb) s =
    from_rows (fn pa ra ea) (fn pb rb eb) (unify_effect_rows naming ea eb s) λ s'.
      if length_tys pa == length_tys pb
      then (unify_tys on_pair pa pb s' >>= on_pair ra rb)
      else err (arity_mismatch (length_tys pa) (length_tys pb))
unify_apart naming on_pair (adt na aa) (adt nb ab) s =
    if str_eq na nb && (length_tys aa == length_tys ab)
    then unify_tys on_pair aa ab s
    else err (mismatch (adt na aa) (adt nb ab))
unify_apart naming on_pair (rec na fa) (rec nb fb) s =
    if str_eq na nb && (length_fields fa == length_fields fb)
    then unify_fields on_pair fa fb (mismatch (rec na fa) (rec nb fb)) s
    else err (mismatch (rec na fa) (rec nb fb))
unify_apart naming on_pair (tuple ta) (tuple tb) s =
    if length_tys ta == length_tys tb
    then unify_tys on_pair ta tb s
    else err (mismatch (tuple ta) (tuple tb))
unify_apart naming on_pair (vec ea) (vec eb) s = on_pair ea eb s
unify_apart naming on_pair (map ka va) (map kb vb) s = on_pair ka kb s >>= on_pair va vb
unify_apart naming on_pair (set ea) (set eb) s = on_pair ea eb s
unify_apart naming on_pair a b s = err (mismatch a b)

abbrev pub check_arity : Option ℕ → Unified → Unified
check_arity none next = next
check_arity (some n) next = err (malformed_form n)

-- `unify` on two types that the substitution is applied to.
unfoldable pub unify_applied : Naming → (Ty → Ty → Subst → Unified) → Ty → Ty → Subst → Unified
unfolding unify_apart bad_arity ty_eq
unify_applied naming on_pair a b s =
    check_arity (bad_arity a)
      (check_arity (bad_arity b) (if ty_eq a b then ok s else unify_apart naming on_pair a b s))

abbrev pub applied : Option Ty → (Ty → Unified) → Unified
applied none f = out_of_fuel
applied (some t) f = f t

-- The substitution is applied with a unit of fuel more than it has bindings.
abbrev pub apply_all : Subst → Ty → Option Ty
apply_all s t = apply (suc (length s.map)) s t

-- `unify`, a unit of fuel for each level of the two types.
unfoldable pub unify : ℕ → Naming → Ty → Ty → Subst → Unified
unfolding unify_applied normalize
unify zero naming a b s = out_of_fuel
unify (suc n) naming a b s = applied (apply_all s a) λ a'.
    applied (apply_all s b)
      λ b'. unify_applied naming (unify n naming) (normalize a') (normalize b') s
