-- ===== src/Types/Scheme.antt =====
-- crates/nexl-types/src/types.rs: type schemes and their instantiation.
pub mod Renaming
use nexl.Prelude.{
  ℕ, suc, Bool, true, false, Option, none, some, List, [], ◌∷◌, ◌==◌, if◌then◌else◌, Ids,
}
use nexl.Types.{TypeVar, Ty, var}
use nexl.Types.Subst.{Subst, empty, insert_var}
use nexl.Types.Unify.{apply_all}

-- The members of `forall`, in the order in which the set is iterated.
pub record Scheme : Type 0 where
  pub forall_ : Ids
  pub body : Ty

-- `TypeVarSupply::fresh`: the variable, and the next one.
abbrev pub fresh_var : ℕ → TypeVar × ℕ
fresh_var next = (next, suc next)

-- Fresh variables are taken until one is not `tv`; the second differs from the first.
unfoldable pub fresh_but : TypeVar → ℕ → TypeVar × ℕ
fresh_but tv next = if next == tv then fresh_var (suc next) else fresh_var next

-- The loop of `instantiate`.
unfoldable pub bind_fresh : List TypeVar → ℕ → Subst → Subst × ℕ
unfolding fresh_but insert_var
bind_fresh [] next s = (s, next)
bind_fresh (tv ∷ tvs) next s =
    let (fresh, next') = fresh_but tv next in bind_fresh tvs next' (insert_var tv (var fresh) s)

abbrev apply_bound : Ty → Subst × ℕ → Option Ty × ℕ
apply_bound body (s, next) = (apply_all s body, next)

-- `Scheme::instantiate`: the type, and the next variable of the supply.
unfoldable pub instantiate : Scheme → ℕ → Option Ty × ℕ
unfolding bind_fresh empty
instantiate scheme next = instantiate_all scheme.forall_
  where
    instantiate_all : List TypeVar → Option Ty × ℕ
    instantiate_all [] = (some scheme.body, next)
    instantiate_all (tv ∷ tvs) = apply_bound scheme.body (bind_fresh (tv ∷ tvs) next empty)
