-- ===== src/Types/Unify/Rows.antt =====
-- unify.rs: unifying effect rows binds row variables only.
use nexl.Prelude.{
  Bool, true, false, Option, none, some, String, List, ◌≡◌, refl, ◌&&◌, str_eq, sort_texts,
  if◌then◌else◌,
}
use nexl.Types.{EffectRow}
use nexl.Types.Equality.{texts_eq, tail_eq}
use nexl.Types.Subst.{Subst, insert_effect_row, apply_effect_row}
use nexl.Types.Unify.{
  Naming, is_empty, only_in, bind_row, unify_open_rows, unify_tails, unify_effect_rows,
}

-- The substitution that is left, if there is one, binds the type variables as before.
abbrev pub KeepsTypes : Subst → Option Subst → Type 0
KeepsTypes s none = Unit
KeepsTypes s (some s') = s'.map ≡ s.map

KeepsTypes-if :
    (s : Subst) (b : Bool) (p q : Option Subst)
    → KeepsTypes s p
    → KeepsTypes s q
    → KeepsTypes s (if b then p else q)
KeepsTypes-if s true p q h k = h
KeepsTypes-if s false p q h k = k

bind_row-KeepsTypes :
    (v : String) (effects : List String) (tail : Option String) (s : Subst)
    → KeepsTypes s (bind_row v effects tail s)
unfolding insert_effect_row
bind_row-KeepsTypes v effects tail s = refl

unify_open_rows-KeepsTypes :
    (naming : Naming) (a b : String) (only_a only_b : List String) (s : Subst)
    → KeepsTypes s (unify_open_rows naming a b only_a only_b s)
unfolding unify_open_rows insert_effect_row
unify_open_rows-KeepsTypes naming a b only_a only_b s =
    KeepsTypes-if s (str_eq a b) _ _
      (KeepsTypes-if s (is_empty only_a && is_empty only_b) _ _ refl tt)
      (KeepsTypes-if s (is_empty only_a && is_empty only_b) _ _ refl (
        KeepsTypes-if s (is_empty only_a) _ _ refl
          (KeepsTypes-if s (is_empty only_b) _ _ refl refl)))

unify_tails-KeepsTypes :
    (naming : Naming) (a b : Option String) (only_a only_b : List String) (s : Subst)
    → KeepsTypes s (unify_tails naming a b only_a only_b s)
unfolding unify_tails insert_effect_row
unify_tails-KeepsTypes naming (some a) none only_a only_b s =
    KeepsTypes-if s (is_empty only_a) _ _ refl tt
unify_tails-KeepsTypes naming none (some b) only_a only_b s =
    KeepsTypes-if s (is_empty only_b) _ _ refl tt
unify_tails-KeepsTypes naming (some a) (some b) only_a only_b s =
    unify_open_rows-KeepsTypes naming a b only_a only_b s
unify_tails-KeepsTypes naming none none only_a only_b s = tt

pub unify_effect_rows-KeepsTypes :
    (naming : Naming) (a b : EffectRow) (s : Subst) → KeepsTypes s (unify_effect_rows naming a b s)
unfolding unify_effect_rows
unify_effect_rows-KeepsTypes naming a b s =
    let a' = apply_effect_row s a in
    let b' = apply_effect_row s b in
    let a_set = sort_texts a'.effects in
    let b_set = sort_texts b'.effects in
    KeepsTypes-if s (tail_eq a'.tail b'.tail) (if texts_eq a_set b_set then some s else none)
      (unify_tails naming a'.tail b'.tail (only_in a_set b_set) (only_in b_set a_set) s)
      (KeepsTypes-if s (texts_eq a_set b_set) (some s) none refl tt)
      (unify_tails-KeepsTypes naming a'.tail b'.tail (only_in a_set b_set) (only_in b_set a_set) s)
