-- ===== src/Ir/Mentions.antt =====
-- Where a block of crates/nexl-ir/src/lib.rs names a function: as a reference, or as the code of a
-- closure. The description that the collectors of the passes are held to.
use nexl.Prelude.{Bool, false, List, [], ◌∷◌, ◌||◌, ◌==◌}
use nexl.Ir.{
  VarId, FuncId, Atom, func_ref, Rhs, atom, call, make_closure, make_tuple, project, LetBind,
  let_bind, Block, block, Tail, ret, if_else, tail_call, match, panic, loop, recur, Arms, nil, arm,
}

module _ (id : FuncId) where
  unfoldable pub atom_mentions : Atom → Bool
  atom_mentions (func_ref f) = id == f
  atom_mentions _ = false

  unfoldable pub atoms_mention : List Atom → Bool
  atoms_mention [] = false
  atoms_mention (a ∷ l) = atom_mentions a || atoms_mention l

  unfoldable pub pairs_mention : List (VarId × Atom) → Bool
  pairs_mention [] = false
  pairs_mention ((x, a) ∷ l) = atom_mentions a || pairs_mention l

  unfoldable pub rhs_mentions : Rhs → Bool
  rhs_mentions (atom a) = atom_mentions a
  rhs_mentions (call f args) = atom_mentions f || atoms_mention args
  rhs_mentions (make_closure f captures) = id == f || pairs_mention captures
  rhs_mentions (make_tuple ctor fields) = atoms_mention fields
  rhs_mentions (project base index) = atom_mentions base

  unfoldable pub binds_mention : List LetBind → Bool
  binds_mention [] = false
  binds_mention (let_bind x rhs ∷ bs) = rhs_mentions rhs || binds_mention bs

  unfoldable mutual
    pub block_mentions : Block → Bool
    block_mentions (block binds tail) = binds_mention binds || tail_mentions tail

    pub tail_mentions : Tail → Bool
    tail_mentions (ret a) = atom_mentions a
    tail_mentions (if_else c t e) = atom_mentions c || (block_mentions t || block_mentions e)
    tail_mentions (tail_call f args) = atom_mentions f || atoms_mention args
    tail_mentions (match a arms) = atom_mentions a || arms_mention arms
    tail_mentions (panic a) = atom_mentions a
    tail_mentions (loop vars body) = pairs_mention vars || block_mentions body
    tail_mentions (recur args) = atoms_mention args

    pub arms_mention : Arms → Bool
    arms_mention nil = false
    arms_mention (arm ctor binds body rest) = block_mentions body || arms_mention rest
