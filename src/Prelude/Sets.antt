-- ===== src/Prelude/Sets.antt =====
-- A `HashSet` of identifiers as the list of its members: only membership is observed.
use Prim.Native.Nat.{ℕ}
use mathlib.Core.Path.{◌≡◌, refl}
use mathlib.Core.Bool.{Bool, true, false, ◌||◌}
use mathlib.Core.List.{List, [], ◌∷◌, ◌++◌}
use native.Mathlib.Omega.{arith}
use nexl.Prelude.Tests.{◌==◌, if◌then◌else◌}

abbrev pub Ids : Type 0
Ids = List ℕ

unfoldable pub contains : Ids → ℕ → Bool
contains [] v = false
contains (x ∷ xs) v = v == x || contains xs v

-- `HashSet::insert`
unfoldable pub insert : ℕ → Ids → Ids
insert x s = if contains s x then s else x ∷ s

pub contains-insert : (x v : ℕ) (s : Ids) → contains (insert x s) v ≡ (v == x || contains s v)
unfolding insert contains
contains-insert x v s = ground arith

-- A smaller set.
abbrev pub Within : Ids → Ids → Type 0
Within s t = (v : ℕ) → contains s v ≡ true → contains t v ≡ true

pub Within-insert : (x : ℕ) (s : Ids) → Within s (insert x s)
Within-insert x s v h = ground (arith, contains-insert x v s)

pub contains-insert_self : (x : ℕ) (s : Ids) → contains (insert x s) x ≡ true
contains-insert_self x s = ground (arith, contains-insert x x s)

pub contains-append : (s t : Ids) (v : ℕ) → contains (s ++ t) v ≡ (contains s v || contains t v)
unfolding contains
contains-append [] t v = refl
contains-append (x ∷ s) t v = ground (arith, contains-append s t v)
