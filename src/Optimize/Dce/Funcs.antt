-- ===== src/Optimize/Dce/Funcs.antt =====
-- dce.rs: which functions `eliminate_dead_funcs` keeps.
use mathlib.Core.Path.{subst}
use nexl.Prelude.{
  Option-cases, ◌⊎◌, ◌||◌, ◌==◌, sym, true, some, String, List, [], ◌∷◌, ◌≡◌, ◌≢◌, ◌↔◌, refl, ap,
  ◌∙◌, inl, inr, Ids, In, contains, arith, Bool-cases, ==_iff, ==_self,
}
use nexl.Ir.{FuncId, FuncDef, Module}
use nexl.Ir.Mentions.{block_mentions}
use nexl.Optimize.Dce.{entry_points, keep_funcs, eliminate_dead_funcs}
use nexl.Optimize.Dce.Refs.{CallGraph, build_call_graph, refs_of, collect_func_refs_block}
use nexl.Optimize.Dce.Refs.Collect.{contains-collect_func_refs_block}
use nexl.Optimize.Dce.Reach.Closure.{Reachable, entry, refers, reachable_from_iff}

-- No two functions have one identifier.
abbrev pub DistinctIds : List FuncDef → Type 0
DistinctIds [] = Unit
DistinctIds (f ∷ fs) = ((g : FuncDef) → In g fs → f.id ≢ g.id) × DistinctIds fs

In-keep_funcs :
    (s : Ids) (f : FuncDef) (fs : List FuncDef)
    → contains s f.id ≡ true
    → In f fs
    → In f (keep_funcs s fs)
unfolding keep_funcs
In-keep_funcs s f (g ∷ fs) h i = elim (Bool-cases (contains s g.id)) [
  | inl kept ↦ rw kept (elim i [ inl e ↦ inl e | inr j ↦ inr (In-keep_funcs s f fs h j) ])
  | inr gone ↦ rw gone (elim i [
    | inl e ↦ cc (ap (λ (k : FuncDef). contains s k.id) e)
    | inr j ↦ In-keep_funcs s f fs h j
  ])
]
In-keep_funcs s f [] h i = elim i [ ]

keep_funcs-In :
    (s : Ids) (f : FuncDef) (fs : List FuncDef)
    → In f (keep_funcs s fs)
    → (contains s f.id ≡ true) × In f fs
unfolding keep_funcs
keep_funcs-In s f [] i = elim i [ ]
keep_funcs-In s f (g ∷ fs) i = elim (Bool-cases (contains s g.id)) [
  | inl kept ↦
      let i' : In f (g ∷ keep_funcs s fs) = rw kept at i in
      elim i' [
        | inl e ↦ (ap (λ (k : FuncDef). contains s k.id) e ∙ kept, inl e)
        | inr j ↦ let (c, k) = keep_funcs-In s f fs j in (c, inr k)
      ]
  | inr gone ↦
      let i' : In f (keep_funcs s fs) = rw gone at i in
      let (c, k) = keep_funcs-In s f fs i' in (c, inr k)
]

-- What is kept, by the call graph and the entry points.
In-eliminate_dead_funcs :
    (m : Module) (f : FuncDef)
    → In f (eliminate_dead_funcs m).funcs
      ↔ (In f m.funcs × Reachable (build_call_graph m.funcs []) (entry_points m.funcs) f.id)
unfolding eliminate_dead_funcs
In-eliminate_dead_funcs m f =
    let found = reachable_from_iff (build_call_graph m.funcs []) (entry_points m.funcs) f.id in
    (
      λ i. let (c, k) = keep_funcs-In _ f m.funcs i in (k, found.0 c),
      λ p. In-keep_funcs _ f m.funcs (found.1 p.1) p.0,
    )

refs_of-other :
    (fs : List FuncDef) (g : CallGraph) (id : FuncId)
    → ((f : FuncDef) → In f fs → id ≢ f.id)
    → refs_of (build_call_graph fs g) id ≡ refs_of g id
unfolding build_call_graph refs_of
refs_of-other [] g id h = refl
refs_of-other (f ∷ fs) g id h =
    refs_of-other fs _ id (λ k i. h k (inr i)) ∙ ground (arith, h f (inl refl), ==_iff id f.id)

refs_of-build_call_graph :
    (fs : List FuncDef) (g : CallGraph) (f : FuncDef)
    → DistinctIds fs
    → In f fs
    → refs_of (build_call_graph fs g) f.id ≡ collect_func_refs_block f.body []
unfolding build_call_graph refs_of
refs_of-build_call_graph [] g f d i = elim i [ ]
refs_of-build_call_graph (k ∷ fs) g f d i = elim i [
  | inl e ↦ rw e (refs_of-other fs _ k.id d.0 ∙ rw (==_self k.id))
  | inr j ↦ refs_of-build_call_graph fs _ f d.1 j
]

-- Where identifiers are distinct, a function that a kept one mentions, anywhere in its body, is
-- kept too: no reference dangles.
pub eliminate_dead_funcs_closed :
    (m : Module) (f g : FuncDef)
    → DistinctIds m.funcs
    → In f (eliminate_dead_funcs m).funcs
    → block_mentions g.id f.body ≡ true
    → In g m.funcs
    → In g (eliminate_dead_funcs m).funcs
eliminate_dead_funcs_closed m f g d i mentioned j =
    let (k, r) = (In-eliminate_dead_funcs m f).0 i in
    (In-eliminate_dead_funcs m g).1 (
      j,
      refers r (
          rw (refs_of-build_call_graph m.funcs [] f d k)
            (contains-collect_func_refs_block g.id f.body ∙ mentioned)),
    )

entry_points-named :
    (fs : List FuncDef) (f : FuncDef) (s : String)
    → In f fs
    → f.name ≡ some s
    → contains (entry_points fs) f.id ≡ true
unfolding entry_points contains
entry_points-named [] f s i h = elim i [ ]
entry_points-named (g ∷ fs) f s i h = elim i [
  | inl e ↦ let h' : g.name ≡ some s = rw e at h in rw (e, h') (ground arith)
  | inr j ↦ ground (arith, entry_points-named fs f s j h)
]

-- Every named function is kept.
pub eliminate_dead_funcs_named :
    (m : Module) (f : FuncDef) (s : String)
    → In f m.funcs
    → f.name ≡ some s
    → In f (eliminate_dead_funcs m).funcs
eliminate_dead_funcs_named m f s i h =
    (In-eliminate_dead_funcs m f).1 (i, entry (entry_points-named m.funcs f s i h))

-- The functions that a run from a named one can get to: the named ones, and those that are mentioned
-- anywhere in the body of a live one.
pub data IsLive (fs : List FuncDef) : FuncDef → Type 0 where
  named : {f : FuncDef} {s : String} → In f fs → f.name ≡ some s → IsLive fs f
  mentioned :
      {f g : FuncDef} → IsLive fs f → In g fs → block_mentions g.id f.body ≡ true → IsLive fs g

IsLive-In : {fs : List FuncDef} {f : FuncDef} → IsLive fs f → In f fs
IsLive-In (named i h) = i
IsLive-In (mentioned l i h) = i

IsLive-kept :
    (m : Module) {f : FuncDef}
    → DistinctIds m.funcs
    → IsLive m.funcs f
    → In f (eliminate_dead_funcs m).funcs
IsLive-kept m d (named {f} {s} i h) = eliminate_dead_funcs_named m f s i h
IsLive-kept m d (mentioned {f} {g} l i h) =
    eliminate_dead_funcs_closed m f g d (IsLive-kept m d l) h i

-- Functions of one identifier are one.
same_id :
    (fs : List FuncDef) (f g : FuncDef) → DistinctIds fs → In f fs → In g fs → f.id ≡ g.id → f ≡ g
same_id [] f g d i j e = absurd i
same_id (k ∷ fs) f g d (inl i) (inl j) e = i ∙ sym j
same_id (k ∷ fs) f g d (inl i) (inr j) e = absurd (d.0 g j (sym (ap (λ (x : FuncDef). x.id) i) ∙ e))
same_id (k ∷ fs) f g d (inr i) (inl j) e =
    absurd (d.0 f i (sym (ap (λ (x : FuncDef). x.id) j) ∙ sym e))
same_id (k ∷ fs) f g d (inr i) (inr j) e = same_id fs f g d.1 i j e

entry_points-In :
    (fs : List FuncDef) (id : FuncId)
    → contains (entry_points fs) id ≡ true
    → (f : FuncDef) × (s : String) × In f fs × (f.name ≡ some s) × (f.id ≡ id)
unfolding entry_points contains
entry_points-In [] id h = absurd (ground (arith, h))
entry_points-In (g ∷ fs) id h = elim (Option-cases g.name) [
  | inl none_ ↦ let (f, s, i, e, k) = entry_points-In fs id (rw none_ at h) in (f, s, inr i, e, k)
  | inr (s, some_) ↦
      let h' : (id == g.id || contains (entry_points fs) id) ≡ true = rw some_ at h in
      elim (Bool-cases (id == g.id)) [
        | inl same ↦ (g, s, inl refl, some_, sym ((==_iff id g.id).0 same))
        | inr other ↦
            let (f, s, i, e, k) = entry_points-In fs id (ground (arith, h', other)) in
            (f, s, inr i, e, k)
      ]
]

-- Only a function of the module has references.
refs_of-In :
    (fs : List FuncDef) (g : CallGraph) (id v : FuncId)
    → contains (refs_of (build_call_graph fs g) id) v ≡ true
    → ((f : FuncDef) × In f fs × (f.id ≡ id)) ⊎ (contains (refs_of g id) v ≡ true)
unfolding build_call_graph refs_of
refs_of-In [] g id v h = inr h
refs_of-In (k ∷ fs) g id v h = elim (refs_of-In fs _ id v h) [
  | inl (f, i, e) ↦ inl (f, inr i, e)
  | inr here ↦ elim (Bool-cases (id == k.id)) [
    | inl same ↦ inl (k, inl refl, sym ((==_iff id k.id).0 same))
    | inr other ↦ inr (rw other at here)
  ]
]

Reachable-IsLive :
    (fs : List FuncDef) {id : FuncId}
    → DistinctIds fs
    → Reachable (build_call_graph fs []) (entry_points fs) id
    → (f : FuncDef) → In f fs
    → f.id ≡ id
    → IsLive fs f
unfolding refs_of contains
Reachable-IsLive fs {id} d (entry h) f i e =
    let (g, s, j, n, k) = entry_points-In fs id h in
    subst (IsLive fs) (same_id fs g f d j i (k ∙ sym e)) (named j n)
Reachable-IsLive fs d (refers {f = id} {g = v} r h) f i e = elim (refs_of-In fs [] id v h) [
  | inr nothing ↦ absurd (ground (arith, nothing))
  | inl (k, j, n) ↦ mentioned (Reachable-IsLive fs d r k j n) i (
      sym (contains-collect_func_refs_block f.id k.body)
      ∙ ap (λ l. contains l f.id) (sym (refs_of-build_call_graph fs [] k d j))
      ∙ ap (λ x. contains (refs_of (build_call_graph fs []) x) f.id) n
      ∙ ap (contains (refs_of (build_call_graph fs []) id)) e
      ∙ h)
]

-- Where identifiers are distinct, elimination keeps exactly the live functions: the functions with a
-- name, those that are mentioned in the body of a named function, in theirs, and so on.
pub eliminate_dead_funcs_iff :
    (m : Module) (f : FuncDef)
    → DistinctIds m.funcs
    → In f (eliminate_dead_funcs m).funcs ↔ IsLive m.funcs f
eliminate_dead_funcs_iff m f d = (
  λ i. let (k, r) = (In-eliminate_dead_funcs m f).0 i in Reachable-IsLive m.funcs d r f k refl,
  λ l. IsLive-kept m d l,
)
