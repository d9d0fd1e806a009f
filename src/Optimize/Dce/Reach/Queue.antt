-- ===== src/Optimize/Dce/Reach/Queue.antt =====
-- dce.rs: what queueing the new ones of a list does to the visited set and to the queue.
use nexl.Prelude.{
  ℕ, suc, ◌+◌, ◌≤◌, true, false, List, [], ◌∷◌, ◌++◌, ◌≡◌, ◌⊎◌, refl, inl, inr, ◌||◌, ◌==◌, Ids,
  Within, contains, insert, contains-insert, contains-append, length, length-append, arith,
  if◌then◌else◌, Bool-cases, ==_iff,
}
use nexl.Ir.{FuncId}
use nexl.Optimize.Dce.Reach.{visit_all}

contains-snoc :
    (q : List FuncId) (r v : FuncId) → contains (q ++ r ∷ []) v ≡ (contains q v || v == r)
unfolding contains
contains-snoc q r v = ground (arith, contains-append q (r ∷ []) v)

pub contains-visit_all :
    (refs : List FuncId) (visited : Ids) (queue : List FuncId) (v : FuncId)
    → contains (visit_all refs visited queue).0 v ≡ (contains refs v || contains visited v)
unfolding visit_all contains
contains-visit_all [] visited queue v = refl
contains-visit_all (r ∷ refs) visited queue v = ground (
  arith,
  contains-visit_all refs (insert r visited) (if contains visited r then queue else queue ++ r ∷ [])
      v,
  contains-insert r v visited,
)

-- What was queued stays queued.
pub queue-visit_all :
    (refs : List FuncId) (visited : Ids) (queue : List FuncId)
    → Within queue (visit_all refs visited queue).1
unfolding visit_all
queue-visit_all [] visited queue v h = h
queue-visit_all (r ∷ refs) visited queue v h =
    queue-visit_all refs (insert r visited) _ v (ground (arith, contains-snoc queue r v))

-- The queue grows by references alone.
pub queued-visit_all :
    (refs : List FuncId) (visited : Ids) (queue : List FuncId) (v : FuncId)
    → contains (visit_all refs visited queue).1 v ≡ true
    → (contains refs v ≡ true) ⊎ (contains queue v ≡ true)
unfolding visit_all contains
queued-visit_all [] visited queue v h = inr h
queued-visit_all (r ∷ refs) visited queue v h =
    elim (queued-visit_all refs (insert r visited)
      (if contains visited r then queue else queue ++ r ∷ []) v h) [
        | inl later ↦ inl (ground arith)
        | inr now ↦ ground (arith, contains-snoc queue r v)
      ]

-- What is newly visited is queued.
pub visited-visit_all :
    (refs : List FuncId) (visited : Ids) (queue : List FuncId) (v : FuncId)
    → contains (visit_all refs visited queue).0 v ≡ true
    → (contains visited v ≡ true) ⊎ (contains (visit_all refs visited queue).1 v ≡ true)
unfolding visit_all
visited-visit_all [] visited queue v h = inl h
visited-visit_all (r ∷ refs) visited queue v h =
    let queue' = if contains visited r then queue else queue ++ r ∷ [] in
    elim (visited-visit_all refs (insert r visited) queue' v h) [
      | inr queued ↦ inr queued
      | inl old ↦ elim (Bool-cases (contains visited v)) [
        | inl before ↦ inl before
        | inr new ↦ inr (
            queue-visit_all refs (insert r visited) queue' v
              (ground (arith, contains-insert r v visited, contains-snoc queue r v)))
      ]
    ]

-- How many of a list are not visited.
pub unseen : List FuncId → Ids → ℕ
unseen [] visited = 0
unseen (u ∷ us) visited = if contains visited u then unseen us visited else suc (unseen us visited)

unseen-insert_le :
    (us : List FuncId) (r : FuncId) (visited : Ids)
    → unseen us (insert r visited) ≤ unseen us visited
unfolding unseen
unseen-insert_le [] r visited = omega arith
unseen-insert_le (u ∷ us) r visited =
    ground (arith, unseen-insert_le us r visited, contains-insert r u visited)

unseen-insert_lt :
    (us : List FuncId) (r : FuncId) (visited : Ids)
    → contains us r ≡ true
    → contains visited r ≡ false
    → suc (unseen us (insert r visited)) ≤ unseen us visited
unfolding unseen contains
unseen-insert_lt [] r visited h new = ground arith
unseen-insert_lt (u ∷ us) r visited h new = elim (Bool-cases (r == u)) [
  | inl same ↦
      ground (arith, unseen-insert_le us r visited, contains-insert r u visited, ==_iff r u)
  | inr other ↦ ground (
    arith,
    unseen-insert_lt us r visited (ground arith) new,
    contains-insert r u visited,
    ==_iff r u,
  )
]

unseen-visit :
    (us : List FuncId) (r : FuncId) (visited : Ids) (queue : List FuncId)
    → contains us r ≡ true
    → unseen us (insert r visited) + length (if contains visited r then queue else queue ++ r ∷ [])
      ≤ unseen us visited + length queue
unseen-visit us r visited queue h = ground (
  arith,
  unseen-insert_le us r visited,
  unseen-insert_lt us r visited h,
  length-append queue (r ∷ []),
)

pub unseen-visit_all :
    (us refs : List FuncId) (visited : Ids) (queue : List FuncId)
    → Within refs us
    → unseen us (visit_all refs visited queue).0 + length (visit_all refs visited queue).1
      ≤ unseen us visited + length queue
unfolding visit_all contains
unseen-visit_all us [] visited queue le = omega arith
unseen-visit_all us (r ∷ refs) visited queue le = omega (
  arith,
  unseen-visit_all us refs (insert r visited)
      (if contains visited r then queue else queue ++ r ∷ []) (λ v h. le v (ground arith)),
  unseen-visit us r visited queue (le r (ground arith)),
)

pub unseen-le-length : (us : List FuncId) (visited : Ids) → unseen us visited ≤ length us
unfolding unseen
unseen-le-length [] visited = omega arith
unseen-le-length (u ∷ us) visited = ground (arith, unseen-le-length us visited)
