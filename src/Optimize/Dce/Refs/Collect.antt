-- ===== src/Optimize/Dce/Refs/Collect.antt =====
-- dce.rs: the collected functions are those that the body mentions.
use nexl.Prelude.{List, [], ◌∷◌, ◌≡◌, refl, ◌||◌, Ids, contains, insert, contains-insert, arith}
use nexl.Ir.{
  VarId, FuncId, Atom, func_ref, Rhs, atom, call, make_closure, make_tuple, project, LetBind,
  let_bind, Block, block, Tail, ret, if_else, tail_call, match, panic, loop, recur, Arms, nil, arm,
}
use nexl.Ir.Mentions.{
  atom_mentions, atoms_mention, pairs_mention, rhs_mentions, binds_mention, block_mentions,
  tail_mentions, arms_mention,
}
use nexl.Optimize.Dce.Refs.{
  collect_func_refs_atom, collect_func_refs_atoms, collect_func_refs_pairs, collect_func_refs_rhs,
  collect_func_refs_binds, collect_func_refs_block, collect_func_refs_tail, collect_func_refs_arms,
}

module _ (id : FuncId) where
  collect-atom :
      (a : Atom) (out : Ids)
      → contains (collect_func_refs_atom a out) id ≡ (atom_mentions id a || contains out id)
  unfolding collect_func_refs_atom atom_mentions
  collect-atom (func_ref f) out = contains-insert f id out
  collect-atom _ out = refl

  collect-atoms :
      (l : List Atom) (out : Ids)
      → contains (collect_func_refs_atoms l out) id ≡ (atoms_mention id l || contains out id)
  unfolding collect_func_refs_atoms atoms_mention
  collect-atoms [] out = refl
  collect-atoms (a ∷ l) out =
      ground (arith, collect-atoms l (collect_func_refs_atom a out), collect-atom a out)

  collect-pairs :
      (l : List (VarId × Atom)) (out : Ids)
      → contains (collect_func_refs_pairs l out) id ≡ (pairs_mention id l || contains out id)
  unfolding collect_func_refs_pairs pairs_mention
  collect-pairs [] out = refl
  collect-pairs ((x, a) ∷ l) out =
      ground (arith, collect-pairs l (collect_func_refs_atom a out), collect-atom a out)

  collect-rhs :
      (rhs : Rhs) (out : Ids)
      → contains (collect_func_refs_rhs rhs out) id ≡ (rhs_mentions id rhs || contains out id)
  unfolding collect_func_refs_rhs rhs_mentions
  collect-rhs (atom a) out = collect-atom a out
  collect-rhs (call f args) out =
      ground (arith, collect-atoms args (collect_func_refs_atom f out), collect-atom f out)
  collect-rhs (make_closure f captures) out =
      ground (arith, collect-pairs captures (insert f out), contains-insert f id out)
  collect-rhs (make_tuple ctor fields) out = collect-atoms fields out
  collect-rhs (project base index) out = collect-atom base out

  collect-binds :
      (bs : List LetBind) (out : Ids)
      → contains (collect_func_refs_binds bs out) id ≡ (binds_mention id bs || contains out id)
  unfolding collect_func_refs_binds binds_mention
  collect-binds [] out = refl
  collect-binds (let_bind x rhs ∷ bs) out =
      ground (arith, collect-binds bs (collect_func_refs_rhs rhs out), collect-rhs rhs out)

  mutual
    unfolding collect_func_refs_block block_mentions

    collect-block :
        (b : Block) (out : Ids)
        → contains (collect_func_refs_block b out) id ≡ (block_mentions id b || contains out id)
    collect-block (block binds tail) out =
        ground
          (arith, collect-tail tail (collect_func_refs_binds binds out), collect-binds binds out)

    collect-tail :
        (t : Tail) (out : Ids)
        → contains (collect_func_refs_tail t out) id ≡ (tail_mentions id t || contains out id)
    collect-tail (ret a) out = collect-atom a out
    collect-tail (if_else c t e) out =
        let out' = collect_func_refs_atom c out in
        ground (
          arith,
          collect-block e (collect_func_refs_block t out'),
          collect-block t out',
          collect-atom c out,
        )
    collect-tail (tail_call f args) out =
        ground (arith, collect-atoms args (collect_func_refs_atom f out), collect-atom f out)
    collect-tail (match a arms) out =
        ground (arith, collect-arms arms (collect_func_refs_atom a out), collect-atom a out)
    collect-tail (panic a) out = collect-atom a out
    collect-tail (loop vars body) out =
        ground
          (arith, collect-block body (collect_func_refs_pairs vars out), collect-pairs vars out)
    collect-tail (recur args) out = collect-atoms args out

    collect-arms :
        (arms : Arms) (out : Ids)
        → contains (collect_func_refs_arms arms out) id ≡ (arms_mention id arms || contains out id)
    collect-arms nil out = refl
    collect-arms (arm c xs b rest) out =
        ground (arith, collect-arms rest (collect_func_refs_block b out), collect-block b out)

  pub contains-collect_func_refs_block :
      (b : Block) → contains (collect_func_refs_block b []) id ≡ block_mentions id b
  unfolding contains
  contains-collect_func_refs_block b = ground (arith, collect-block b [])
