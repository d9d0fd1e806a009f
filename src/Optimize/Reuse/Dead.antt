-- ===== src/Optimize/Reuse/Dead.antt =====
-- reuse.rs: what is reused among the bindings of a block.
use nexl.Prelude.{
  ℕ, suc, ◌≤◌, Option, none, some, List, [], ◌∷◌, ◌++◌, ◌≡◌, refl, sym, ◌⊎◌, ◌==◌, ◌&&◌, not,
  length, leb, ltb, Bool-cases, inl, inr, arith, In, contains,
}
use mathlib.Core.Path.{subst}
use nexl.Ir.{VarId, make_tuple, LetBind, let_bind}
use nexl.Ir.Binders.{BindsOnce, BindsOnce-one}
use nexl.Optimize.Reuse.{
  ReuseOp, VarMap, Dead, lookup, smaller, best, remove_var, add_dead, take_best, reuse_bind,
  mark_dead, scan_binds,
}
use nexl.Optimize.Reuse.Tuples.{BindsTuple, IsLargeEnough}

pub append-In : (o : ReuseOp) (xs ys : List ReuseOp) → In o (xs ++ ys) → In o xs ⊎ In o ys
append-In o [] ys i = inr i
append-In o (x ∷ xs) ys (inl e) = inl (inl e)
append-In o (x ∷ xs) ys (inr i) = elim (append-In o xs ys i) [ inl j ↦ inl (inr j) | inr j ↦ inr j ]

-- The dead producers are among the tuples of the block.
module _ (binds : List LetBind) where
  abbrev AllBound : VarMap → Type 0
  AllBound [] = Unit
  AllBound ((v, n) ∷ dead) = BindsTuple binds v n × AllBound dead

  AllBound-snoc :
      (dead : VarMap) (v : VarId) (n : ℕ)
      → AllBound dead
      → BindsTuple binds v n
      → AllBound (dead ++ (v, n) ∷ [])
  AllBound-snoc [] v n h b = (b, tt)
  AllBound-snoc ((w, m) ∷ dead) v n (c, h) b = (c, AllBound-snoc dead v n h b)

  add_dead-AllBound :
      (v : VarId) (o : Option ℕ) (s : Dead)
      → ((n : ℕ) → o ≡ some n → BindsTuple binds v n)
      → AllBound s.0
      → AllBound (add_dead v o s).0
  add_dead-AllBound v none s known h = h
  add_dead-AllBound v (some n) (dead, used) known h = AllBound-snoc dead v n h (known n refl)

  remove_var-AllBound : (v : VarId) (dead : VarMap) → AllBound dead → AllBound (remove_var v dead)
  unfolding remove_var
  remove_var-AllBound v [] h = tt
  remove_var-AllBound v ((x, n) ∷ dead) (b, h) = elim (Bool-cases (x == v)) [
    | inl same ↦ rw same (remove_var-AllBound v dead h)
    | inr other ↦ rw other (b, remove_var-AllBound v dead h)
  ]

  -- The producer that is chosen, if there is one.
  abbrev IsChosen : ℕ → Option (VarId × ℕ) → Type 0
  IsChosen needed none = Unit
  IsChosen needed (some (v, n)) = BindsTuple binds v n × (needed ≤ n)

  smaller-IsChosen :
      (needed : ℕ) (v : VarId) (n : ℕ) (o : Option (VarId × ℕ))
      → BindsTuple binds v n
      → needed ≤ n
      → IsChosen needed o
      → IsChosen needed (smaller (v, n) o)
  smaller-IsChosen needed v n none b le h = (b, le)
  smaller-IsChosen needed v n (some (w, m)) b le h = elim (Bool-cases (leb n m)) [
    | inl e ↦ rw e (b, le)
    | inr e ↦ rw e h
  ]

  best-IsChosen : (needed : ℕ) (dead : VarMap) → AllBound dead → IsChosen needed (best needed dead)
  unfolding best
  best-IsChosen needed [] h = tt
  best-IsChosen needed ((v, n) ∷ dead) (b, h) = elim (Bool-cases (leb needed n)) [
    | inl e ↦ rw e (
        smaller-IsChosen needed v n (best needed dead) b (ground (arith, e))
          (best-IsChosen needed dead h))
    | inr e ↦ rw e (best-IsChosen needed dead h)
  ]

  module _ (once : BindsOnce binds) where
    large_enough :
        (x v : VarId) (n m : ℕ)
        → BindsTuple binds x n
        → BindsTuple binds v m
        → n ≤ m
        → IsLargeEnough
            (record { producer = v; consumer = x; producer_fields = m; consumer_fields = n })
            binds
    large_enough x v n m made (ctor, fields, at, size) le = (
      (ctor, fields, at, size),
      made,
      le,
      λ rhs i. (
        ctor,
        fields,
        BindsOnce-one binds v rhs (make_tuple ctor fields) once i at,
        omega (arith, le, size),
      ),
    )

    -- What one binding reuses.
    abbrev Reuses : List ReuseOp × VarMap → Type 0
    Reuses (ops, left) = ((o : ReuseOp) → In o ops → IsLargeEnough o binds) × AllBound left

    take_best-Reuses :
        (x : VarId) (needed : ℕ) (o : Option (VarId × ℕ)) (dead : VarMap)
        → BindsTuple binds x needed
        → AllBound dead
        → IsChosen needed o
        → Reuses (take_best x needed o dead)
    take_best-Reuses x needed none dead made h c = (λ o i. absurd i, h)
    take_best-Reuses x needed (some (v, n)) dead made h (b, le) =
        (one, remove_var-AllBound v dead h)
      where
        one : (o : ReuseOp) → In o (take_best x needed (some (v, n)) dead).0 → IsLargeEnough o binds
        one o (inl e) =
            subst (λ q. IsLargeEnough q binds) (sym e) (large_enough x v needed n made b le)
        one o (inr i) = absurd i

    reuse_bind-Reuses :
        (b : LetBind) (dead : VarMap) → In b binds → AllBound dead → Reuses (reuse_bind b dead)
    unfolding reuse_bind
    reuse_bind-Reuses (let_bind x (make_tuple ctor fields)) dead i h =
        take_best-Reuses x (length fields) (best (length fields) dead) dead (ctor, fields, i, refl)
          h (best-IsChosen (length fields) dead h)
    reuse_bind-Reuses b dead i h = (λ o j. absurd j, h)

    module _ (order : VarMap → VarMap) (producers : VarMap)
        (known : (v : VarId) (n : ℕ) → lookup producers v ≡ some n → BindsTuple binds v n) where
      mark_dead-AllBound :
          (i : ℕ) (uses : VarMap) (s : Dead)
          → AllBound s.0
          → AllBound (mark_dead producers i uses s).0
      unfolding mark_dead
      mark_dead-AllBound i [] s h = h
      mark_dead-AllBound i ((v, last) ∷ uses) s h =
          mark_dead-AllBound i uses _ (elim (Bool-cases (ltb last i && not (contains s.1 v))) [
            | inl e ↦ rw e (add_dead-AllBound v (lookup producers v) s (known v) h)
            | inr e ↦ rw e h
          ])

      pub scan_binds-IsLargeEnough :
          (uses : VarMap) (i : ℕ) (bs : List LetBind) (s : Dead)
          → ((b : LetBind) → In b bs → In b binds)
          → AllBound s.0
          → (o : ReuseOp) → In o (scan_binds order producers uses i bs s)
          → IsLargeEnough o binds
      unfolding scan_binds
      scan_binds-IsLargeEnough uses i [] s within h o j = absurd j
      scan_binds-IsLargeEnough uses i (b ∷ bs) s within h o j =
          let marked = mark_dead producers i (order uses) s in
          let reused =
            reuse_bind-Reuses b marked.0 (within b (inl refl))
              (mark_dead-AllBound i (order uses) s h) in
          elim (append-In o (reuse_bind b marked.0).0 _ j) [
            | inl here ↦ reused.0 o here
            | inr later ↦
                scan_binds-IsLargeEnough uses (suc i) bs ((reuse_bind b marked.0).1, marked.1)
                  (λ c k. within c (inr k)) reused.1 o later
          ]
