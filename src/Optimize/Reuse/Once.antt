-- ===== src/Optimize/Reuse/Once.antt =====
-- reuse.rs: no allocation is reused twice among the bindings of a block.
use nexl.Prelude.{
  ℕ, suc, Bool, true, false, Option, none, some, List, [], ◌∷◌, ◌++◌, ◌≡◌, refl, ap, ◌||◌, ◌&&◌,
  not, ◌==◌, Ids, contains, contains-insert, length, leb, ltb, Bool-cases, inl, inr, ==_iff, arith,
  if◌then◌else◌,
}
use nexl.Ir.{VarId, atom, call, make_closure, make_tuple, project, LetBind, let_bind, Block, block}
use nexl.Optimize.Reuse.{
  ReuseOp, VarMap, Dead, lookup, add_dead, smaller, best, remove_var, take_best, reuse_bind,
  mark_dead, scan_binds, own_reuse,
}

unfoldable holds : VarMap → VarId → Bool
holds [] v = false
holds ((x, n) ∷ dead) v = v == x || holds dead v

-- Dead and not taken yet, or not dead so far.
abbrev available : Dead → VarId → Bool
available s v = holds s.0 v || not (contains s.1 v)

-- Every dead producer is marked as used.
abbrev IsMarked : Dead → Type 0
IsMarked s = (v : VarId) → holds s.0 v ≡ true → contains s.1 v ≡ true

-- No variable becomes available.
abbrev Shrinks : Dead → Dead → Type 0
Shrinks s t = (v : VarId) → available t v ≡ true → available s v ≡ true

holds-append :
    (dead : VarMap) (x : VarId) (n : ℕ) (v : VarId)
    → holds (dead ++ (x, n) ∷ []) v ≡ (v == x || holds dead v)
unfolding holds
holds-append [] x n v = refl
holds-append ((y, k) ∷ dead) x n v = ground (arith, holds-append dead x n v)

holds-remove_var :
    (x : VarId) (dead : VarMap) (v : VarId)
    → holds (remove_var x dead) v ≡ (not (v == x) && holds dead v)
unfolding holds remove_var
holds-remove_var x [] v = ground arith
holds-remove_var x ((y, k) ∷ dead) v = elim (Bool-cases (y == x)) [
  | inl same ↦ rw same (ground (arith, holds-remove_var x dead v))
  | inr other ↦ rw other (ground (arith, holds-remove_var x dead v))
]

module _ (v : VarId) (s : Dead) (marked : IsMarked s) (new : contains s.1 v ≡ false) where
  IsMarked-add : (n : Option ℕ) → IsMarked (add_dead v n s)
  IsMarked-add none x h = marked x h
  IsMarked-add (some n) x h =
      ground (arith, marked x, contains-insert v x s.1, holds-append s.0 v n x)

  Shrinks-add : (n : Option ℕ) → Shrinks s (add_dead v n s)
  Shrinks-add none x h = h
  Shrinks-add (some n) x h = ground (arith, contains-insert v x s.1, holds-append s.0 v n x)

IsMarked-step :
    (b : Bool) (x : VarId) (n : Option ℕ) (s : Dead)
    → (b ≡ true → contains s.1 x ≡ false)
    → IsMarked s
    → IsMarked (if b then add_dead x n s else s) × Shrinks s (if b then add_dead x n s else s)
IsMarked-step true x n s new h = (IsMarked-add x s h (new refl) n, Shrinks-add x s h (new refl) n)
IsMarked-step false x n s new h = (h, λ v e. e)

mark_dead-IsMarked :
    (producers uses : VarMap) (i : ℕ) (s : Dead)
    → IsMarked s
    → IsMarked (mark_dead producers i uses s) × Shrinks s (mark_dead producers i uses s)
unfolding mark_dead
mark_dead-IsMarked producers [] i s h = (h, λ v e. e)
mark_dead-IsMarked producers ((x, last) ∷ uses) i s h =
    let step =
      IsMarked-step (ltb last i && not (contains s.1 x)) x (lookup producers x) s
        (λ e. ground (arith, e)) h in
    let rest = mark_dead-IsMarked producers uses i _ step.0 in
    (rest.0, λ v e. step.1 v (rest.1 v e))

abbrev IsHeld : VarMap → Option (VarId × ℕ) → Type 0
IsHeld dead none = Unit
IsHeld dead (some p) = holds dead p.0 ≡ true

IsHeld-smaller :
    (dead : VarMap) (p : VarId × ℕ) (o : Option (VarId × ℕ))
    → holds dead p.0 ≡ true
    → IsHeld dead o
    → IsHeld dead (smaller p o)
IsHeld-smaller dead p none h k = h
IsHeld-smaller dead p (some q) h k = elim (Bool-cases (leb p.1 q.1)) [
  | inl e ↦ rw e h
  | inr e ↦ rw e k
]

IsHeld-more :
    (dead : VarMap) (p : VarId × ℕ) (o : Option (VarId × ℕ)) → IsHeld dead o → IsHeld (p ∷ dead) o
unfolding holds
IsHeld-more dead p none h = tt
IsHeld-more dead (x, n) (some q) h = ground (arith, h)

best-IsHeld : (needed : ℕ) (dead : VarMap) → IsHeld dead (best needed dead)
unfolding best holds
best-IsHeld needed [] = tt
best-IsHeld needed ((x, n) ∷ dead) =
    let later = IsHeld-more dead (x, n) (best needed dead) (best-IsHeld needed dead) in
    elim (Bool-cases (leb needed n)) [
      | inl e ↦ rw e (IsHeld-smaller ((x, n) ∷ dead) (x, n) (best needed dead) (ground arith) later)
      | inr e ↦ rw e later
    ]

-- The producers of some reuses were available, and each of them is used once.
abbrev AllAvailable : Dead → List ReuseOp → Type 0
AllAvailable s [] = Unit
AllAvailable s (o ∷ ops) = (available s o.producer ≡ true) × AllAvailable s ops

abbrev pub AllApart : VarId → List ReuseOp → Type 0
AllApart v [] = Unit
AllApart v (o ∷ ops) = ((o.producer == v) ≡ false) × AllApart v ops

abbrev pub AreDistinct : List ReuseOp → Type 0
AreDistinct [] = Unit
AreDistinct (o ∷ ops) = AllApart o.producer ops × AreDistinct ops

AllAvailable-Shrinks :
    (s t : Dead) (ops : List ReuseOp) → Shrinks s t → AllAvailable t ops → AllAvailable s ops
AllAvailable-Shrinks s t [] le h = tt
AllAvailable-Shrinks s t (o ∷ ops) le h = (le o.producer h.0, AllAvailable-Shrinks s t ops le h.1)

-- A producer that is taken is available no more.
AllApart-taken :
    (v : VarId) (dead : VarMap) (used : Ids) (ops : List ReuseOp)
    → contains used v ≡ true
    → AllAvailable (remove_var v dead, used) ops
    → AllApart v ops
AllApart-taken v dead used [] h k = tt
AllApart-taken v dead used (o ∷ ops) h k = (
  elim (Bool-cases (o.producer == v)) [
    | inl same ↦ absurd (
        ground (
          arith,
          k.0,
          holds-remove_var v dead o.producer,
          ap (contains used) ((==_iff o.producer v).0 same),
        ))
    | inr other ↦ other
  ],
  AllApart-taken v dead used ops h k.1,
)

-- What is known of the reuses that a scan finds from a state.
abbrev IsOnce : Dead → List ReuseOp → Type 0
IsOnce s ops = AllAvailable s ops × AreDistinct ops

module _ (dead : VarMap) (used : Ids) (marked : IsMarked (dead, used)) where
  IsMarked-remove : (v : VarId) → IsMarked (remove_var v dead, used)
  IsMarked-remove v x h = ground (arith, marked x, holds-remove_var v dead x)

  Shrinks-remove : (v : VarId) → Shrinks (dead, used) (remove_var v dead, used)
  Shrinks-remove v x h = ground (arith, holds-remove_var v dead x)

  IsOnce-take :
      (x : VarId) (needed : ℕ) (o : Option (VarId × ℕ)) (rest : VarMap → List ReuseOp)
      → IsHeld dead o
      → ((dead' : VarMap) → IsMarked (dead', used) → IsOnce (dead', used) (rest dead'))
      → IsOnce (dead, used) ((take_best x needed o dead).0 ++ rest (take_best x needed o dead).1)
  IsOnce-take x needed none rest held later = later dead marked
  IsOnce-take x needed (some (v, n)) rest held later =
      let k = later (remove_var v dead) (IsMarked-remove v) in
      (
        (
          ground (arith, held),
          AllAvailable-Shrinks (dead, used) (remove_var v dead, used) _ (Shrinks-remove v) k.0,
        ),
        (AllApart-taken v dead used _ (marked v held) k.0, k.1),
      )

  IsOnce-bind :
      (b : LetBind) (rest : VarMap → List ReuseOp)
      → ((dead' : VarMap) → IsMarked (dead', used) → IsOnce (dead', used) (rest dead'))
      → IsOnce (dead, used) ((reuse_bind b dead).0 ++ rest (reuse_bind b dead).1)
  unfolding reuse_bind
  IsOnce-bind (let_bind x (make_tuple ctor fields)) rest later =
      IsOnce-take x (length fields) (best (length fields) dead) rest
        (best-IsHeld (length fields) dead) later
  IsOnce-bind (let_bind x (atom _)) rest later = later dead marked
  IsOnce-bind (let_bind x (call _ _)) rest later = later dead marked
  IsOnce-bind (let_bind x (make_closure _ _)) rest later = later dead marked
  IsOnce-bind (let_bind x (project _ _)) rest later = later dead marked

module _ (order : VarMap → VarMap) where
  scan_binds-IsOnce :
      (producers uses : VarMap) (i : ℕ) (bs : List LetBind) (s : Dead)
      → IsMarked s
      → IsOnce s (scan_binds order producers uses i bs s)
  unfolding scan_binds
  scan_binds-IsOnce producers uses i [] s h = (tt, tt)
  scan_binds-IsOnce producers uses i (b ∷ bs) s h =
      let t = mark_dead producers i (order uses) s in
      let marked = mark_dead-IsMarked producers (order uses) i s h in
      let found =
        IsOnce-bind t.0 t.1 marked.0 b
          (λ dead. scan_binds order producers uses (suc i) bs (dead, t.1))
          (λ dead m. scan_binds-IsOnce producers uses (suc i) bs (dead, t.1) m) in
      (AllAvailable-Shrinks s t _ marked.1 found.0, found.1)

  -- Whatever order the maps are iterated in: the reuses among the bindings of a block are of
  -- allocations that differ from one another.
  pub own_reuse-AreDistinct :
      (b : Block) (producers : VarMap) → AreDistinct (own_reuse order b producers)
  unfolding holds
  own_reuse-AreDistinct b [] = tt
  own_reuse-AreDistinct (block binds tail) (p ∷ producers) =
      (scan_binds-IsOnce (p ∷ producers) _ 0 binds ([], []) (λ v e. absurd (ground (arith, e)))).1
