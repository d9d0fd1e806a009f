-- ===== src/Prelude/Texts.antt =====
-- Texts as keys, and sorted lists of texts.
use Prim.Native.Nat.{Ordering}
use Prim.Native.String.{String, compare}
use mathlib.Core.Bool.{Bool, true, false, ◌||◌}
use mathlib.Core.List.{List, [], ◌∷◌, ◌++◌}
use mathlib.Core.Option.{Option, none, some}
use mathlib.Core.Path.{◌≡◌, refl, sym, ap, ◌∙◌}
use mathlib.Core.Logic.{◌↔◌, inl, inr}
use native.Mathlib.Omega.{arith}
use text.Mathlib.Text.{◌==◌ as str_eq}
use text.Mathlib.TextEquality.{eq_iff}
use nexl.Prelude.Tests.{Bool-cases, if◌then◌else◌}

abbrev pub str_ltb : String → String → Bool
str_ltb a b = elim (compare a b) [ Ordering.lt ↦ true | _ ↦ false ]

pub str_eq_iff : (a b : String) → (str_eq a b ≡ true) ↔ (a ≡ b)
str_eq_iff a b = eq_iff a b

pub str_eq_self : (a : String) → str_eq a a ≡ true
str_eq_self a = (eq_iff a a).1 refl

-- `contains` of a list or a set of texts
unfoldable pub has_text : List String → String → Bool
has_text [] a = false
has_text (x ∷ xs) a = str_eq x a || has_text xs a

-- `BTreeSet::insert` on the ascending list of the members
unfoldable pub insert_text : String → List String → List String
insert_text a [] = a ∷ []
insert_text a (x ∷ xs) =
    let rest = x ∷ insert_text a xs in
    if str_eq a x then x ∷ xs else if str_ltb a x then a ∷ x ∷ xs else rest

-- `sort` and `dedup`
unfoldable pub sort_texts : List String → List String
unfolding insert_text
sort_texts [] = []
sort_texts (x ∷ xs) = insert_text x (sort_texts xs)

-- `HashMap<String, V>::get`
unfoldable pub find_text {ℓ} : {V : Type ℓ} → List (String × V) → String → Option V
find_text [] k = none
find_text ((j, v) ∷ entries) k = if str_eq j k then some v else find_text entries k

-- `HashMap<String, V>::insert`: a key stands once.
unfoldable pub insert_entry {ℓ} : {V : Type ℓ} → String → V → List (String × V) → List (String × V)
insert_entry k v [] = (k, v) ∷ []
insert_entry k v ((j, w) ∷ entries) =
    let rest = (j, w) ∷ insert_entry k v entries in if str_eq j k then (j, v) ∷ entries else rest

different_keys : (j k n : String) → str_eq j k ≡ false → str_eq j n ≡ true → str_eq k n ≡ false
different_keys j k n other at = elim (Bool-cases (str_eq k n)) [
  | inl at' ↦ absurd (
      ground
        (arith, other, (str_eq_iff j k).1 ((str_eq_iff j n).0 at ∙ sym ((str_eq_iff k n).0 at'))))
  | inr apart ↦ apart
]

pub find_text-insert_entry {ℓ} :
    {V : Type ℓ} (k : String) (v : V) (entries : List (String × V)) (n : String)
    → find_text (insert_entry k v entries) n ≡ (if str_eq k n then some v else find_text entries n)
unfolding insert_entry find_text
find_text-insert_entry k v [] n = refl
find_text-insert_entry k v ((j, w) ∷ entries) n = elim (Bool-cases (str_eq j k)) [
  | inl same ↦
      let j-is-k = ap (λ x. str_eq x n) ((str_eq_iff j k).0 same) in ground (arith, same, j-is-k)
  | inr other ↦
      ground (arith, other, find_text-insert_entry k v entries n, different_keys j k n other)
]

has_text-insert_text :
    (a b : String) (xs : List String)
    → has_text (insert_text a xs) b ≡ (str_eq a b || has_text xs b)
unfolding has_text insert_text
has_text-insert_text a b [] = refl
has_text-insert_text a b (x ∷ xs) =
    let same : str_eq a x ≡ true → str_eq a b ≡ str_eq x b =
      λ e. ap (λ y. str_eq y b) ((str_eq_iff a x).0 e) in
    ground (arith, same, has_text-insert_text a b xs)

pub has_text-sort_texts :
    (xs : List String) (b : String) → has_text (sort_texts xs) b ≡ has_text xs b
unfolding has_text sort_texts
has_text-sort_texts [] b = refl
has_text-sort_texts (x ∷ xs) b =
    has_text-insert_text x b (sort_texts xs) ∙ ap (λ y. str_eq x b || y) (has_text-sort_texts xs b)

pub has_text-append :
    (xs ys : List String) (b : String) → has_text (xs ++ ys) b ≡ (has_text xs b || has_text ys b)
unfolding has_text
has_text-append [] ys b = refl
has_text-append (x ∷ xs) ys b = ground (arith, has_text-append xs ys b)
