-- ===== src/Optimize/Dce/Vars/Mono.antt =====
-- dce.rs: collecting adds to the set and takes nothing away.
use nexl.Prelude.{List, [], ◌∷◌, Ids, Within, Within-insert}
use nexl.Ir.{
  VarId, Atom, var, Rhs, atom, call, make_closure, make_tuple, project, LetBind, let_bind, Block,
  block, Tail, ret, if_else, tail_call, match, panic, loop, recur, Arms, nil, arm,
}
use nexl.Optimize.Dce.Vars.{
  collect_used_vars_atom, collect_used_vars_atoms, collect_used_vars_pairs, collect_used_vars_rhs,
  collect_used_vars_binds, collect_used_vars_block, collect_used_vars_tail, collect_used_vars_arms,
}

Within-atom : (a : Atom) (out : Ids) → Within out (collect_used_vars_atom a out)
unfolding collect_used_vars_atom
Within-atom (var x) out = Within-insert x out
Within-atom _ out = λ v h. h

pub Within-atoms : (l : List Atom) (out : Ids) → Within out (collect_used_vars_atoms l out)
unfolding collect_used_vars_atoms
Within-atoms [] out v h = h
Within-atoms (a ∷ l) out v h = Within-atoms l _ v (Within-atom a out v h)

pub Within-pairs :
    (l : List (VarId × Atom)) (out : Ids) → Within out (collect_used_vars_pairs l out)
unfolding collect_used_vars_pairs
Within-pairs [] out v h = h
Within-pairs ((x, a) ∷ l) out v h = Within-pairs l _ v (Within-atom a out v h)

pub Within-rhs : (rhs : Rhs) (out : Ids) → Within out (collect_used_vars_rhs rhs out)
unfolding collect_used_vars_rhs
Within-rhs (atom a) out = Within-atom a out
Within-rhs (call f args) out = λ v h. Within-atoms args _ v (Within-atom f out v h)
Within-rhs (make_closure id captures) out = Within-pairs captures out
Within-rhs (make_tuple ctor fields) out = Within-atoms fields out
Within-rhs (project base index) out = Within-atom base out

pub Within-binds : (bs : List LetBind) (out : Ids) → Within out (collect_used_vars_binds bs out)
unfolding collect_used_vars_binds
Within-binds [] out v h = h
Within-binds (let_bind x rhs ∷ bs) out v h = Within-binds bs _ v (Within-rhs rhs out v h)

mutual
  unfolding collect_used_vars_block

  pub Within-block : (b : Block) (out : Ids) → Within out (collect_used_vars_block b out)
  Within-block (block binds tail) out v h = Within-tail tail _ v (Within-binds binds out v h)

  pub Within-tail : (t : Tail) (out : Ids) → Within out (collect_used_vars_tail t out)
  Within-tail (ret a) out v h = Within-atom a out v h
  Within-tail (if_else c t e) out v h =
      Within-block e _ v (Within-block t _ v (Within-atom c out v h))
  Within-tail (tail_call f args) out v h = Within-atoms args _ v (Within-atom f out v h)
  Within-tail (match a arms) out v h = Within-arms arms _ v (Within-atom a out v h)
  Within-tail (panic a) out v h = Within-atom a out v h
  Within-tail (loop vars body) out v h = Within-block body _ v (Within-pairs vars out v h)
  Within-tail (recur args) out v h = Within-atoms args out v h

  pub Within-arms : (arms : Arms) (out : Ids) → Within out (collect_used_vars_arms arms out)
  Within-arms nil out v h = h
  Within-arms (arm c xs b rest) out v h = Within-arms rest _ v (Within-block b out v h)
