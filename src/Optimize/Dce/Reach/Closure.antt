-- ===== src/Optimize/Dce/Reach/Closure.antt =====
-- dce.rs: `reachable_funcs` finds exactly the functions that the entry points reach.
use nexl.Prelude.{
  ℕ, zero, suc, ◌+◌, ◌≤◌, true, List, [], ◌∷◌, ◌++◌, ◌≡◌, ◌↔◌, ◌⊎◌, inl, inr, Ids, Within, contains,
  contains-append, length, arith, Bool-cases, ==_iff, ◌==◌,
}
use nexl.Ir.{FuncId}
use nexl.Optimize.Dce.Refs.{CallGraph, refs_of, graph_refs}
use nexl.Optimize.Dce.Reach.{visit_all, bfs, rounds, reachable_from}
use nexl.Optimize.Dce.Reach.Queue.{
  contains-visit_all, queue-visit_all, queued-visit_all, visited-visit_all, unseen,
  unseen-visit_all, unseen-le-length,
}

module _ (graph : CallGraph) (entries : List FuncId) where
  -- An entry point, or a function that a reachable one refers to.
  pub data Reachable : FuncId → Type 0 where
    entry : {f : FuncId} → contains entries f ≡ true → Reachable f
    refers : {f g : FuncId} → Reachable f → contains (refs_of graph f) g ≡ true → Reachable g

  -- The invariant of the search.
  record Searching (visited : Ids) (queue : List FuncId) : Type 0 where
    sound : (v : FuncId) → contains visited v ≡ true → Reachable v
    pending : Within queue visited
    entered : Within entries visited
    closed :
        (f : FuncId)
        → contains visited f ≡ true
        → (contains queue f ≡ true) ⊎ Within (refs_of graph f) visited

  Searching-start : Searching (visit_all entries [] []).0 (visit_all entries [] []).1
  unfolding contains
  Searching-start = record {
    sound = λ v h. entry (ground (arith, contains-visit_all entries [] [] v));
    pending = λ v h. elim (queued-visit_all entries [] [] v h) [
      | inl e ↦ ground (arith, contains-visit_all entries [] [] v)
      | inr e ↦ cc
    ];
    entered = λ v h. ground (arith, contains-visit_all entries [] [] v);
    closed = λ f h. elim (visited-visit_all entries [] [] f h) [ inl e ↦ cc | inr e ↦ inl e ];
  }

  module _ (visited : Ids) (fid : FuncId) (queue : List FuncId)
      (s : Searching visited (fid ∷ queue)) where
    abbrev refs : List FuncId
    refs = refs_of graph fid

    Searching-round : Searching (visit_all refs visited queue).0 (visit_all refs visited queue).1
    unfolding contains
    Searching-round = record {
      sound = λ v h. elim (Bool-cases (contains visited v)) [
        | inl old ↦ s.sound v old
        | inr new ↦
            refers (s.sound fid (s.pending fid (ground arith)))
              (ground (arith, contains-visit_all refs visited queue v))
      ];
      pending = λ v h. elim (queued-visit_all refs visited queue v h) [
        | inl e ↦ ground (arith, contains-visit_all refs visited queue v)
        | inr e ↦
            ground (arith, contains-visit_all refs visited queue v, s.pending v (ground arith))
      ];
      entered = λ v h. ground (arith, contains-visit_all refs visited queue v, s.entered v h);
      closed = λ f h. elim (visited-visit_all refs visited queue f h) [
        | inr queued ↦ inl queued
        | inl old ↦ elim (s.closed f old) [
          | inr done ↦
              inr (λ v e. ground (arith, contains-visit_all refs visited queue v, done v e))
          | inl waiting ↦ elim (Bool-cases (f == fid)) [
            | inl same ↦
                inr (λ v e. ground (arith, contains-visit_all refs visited queue v, ==_iff f fid))
            | inr other ↦ inl (queue-visit_all refs visited queue f (ground arith))
          ]
        ]
      ];
    }

  refs_of-Within : (g : CallGraph) (f : FuncId) → Within (refs_of g f) (graph_refs g)
  unfolding refs_of graph_refs contains
  refs_of-Within [] f v h = h
  refs_of-Within ((id, refs) ∷ g) f v h = elim (Bool-cases (f == id)) [
    | inl same ↦ ground (arith, contains-append refs (graph_refs g) v)
    | inr other ↦
        ground (arith, contains-append refs (graph_refs g) v, refs_of-Within g f v (rw other at h))
  ]

  abbrev everything : List FuncId
  everything = entries ++ graph_refs graph

  refs_of-everything : (f : FuncId) → Within (refs_of graph f) everything
  refs_of-everything f v h =
      ground (arith, contains-append entries (graph_refs graph) v, refs_of-Within graph f v h)

  -- The fuel covers the queue and all that can still be queued, so the search ends with no queue.
  Searching-bfs :
      (n : ℕ) (visited : Ids) (queue : List FuncId)
      → unseen everything visited + length queue ≤ n
      → Searching visited queue
      → Searching (bfs n graph (visited, queue)).0 []
  unfolding bfs
  Searching-bfs zero visited [] d s = s
  Searching-bfs zero visited (f ∷ queue) d s = absurd (omega arith)
  Searching-bfs (suc n) visited [] d s = s
  Searching-bfs (suc n) visited (fid ∷ queue) d s =
      Searching-bfs n _ _
        (omega (
          arith,
          unseen-visit_all everything (refs_of graph fid) visited queue (refs_of-everything fid),
        ))
        (Searching-round visited fid queue s)

  Searching-end : Searching (reachable_from graph entries) []
  unfolding reachable_from rounds
  Searching-end =
      Searching-bfs (rounds graph entries) _ _
        (omega (
          arith,
          unseen-visit_all everything entries [] []
              (λ v h. ground (arith, contains-append entries (graph_refs graph) v)),
          unseen-le-length everything [],
        ))
        Searching-start

  reaches : {f : FuncId} → Reachable f → contains (reachable_from graph entries) f ≡ true
  unfolding contains
  reaches {f} (entry h) = Searching-end.entered f h
  reaches {f = g} (refers {f} r h) = elim (Searching-end.closed f (reaches r)) [
    | inl waiting ↦ cc
    | inr done ↦ done g h
  ]

-- The search ends with exactly the functions reached from the entry points, whatever the graph:
-- all of them are found, and nothing else is.
pub reachable_from_iff :
    (graph : CallGraph) (entries : List FuncId) (f : FuncId)
    → (contains (reachable_from graph entries) f ≡ true) ↔ Reachable graph entries f
reachable_from_iff graph entries f = ((Searching-end graph entries).sound f, reaches graph entries)
