-- ===== src/Optimize/Escape/Leaks.antt =====
-- escape.rs: the escaping variables are those that a block hands on at any depth.
use nexl.Prelude.{
  Bool, false, List, [], ◌∷◌, ◌≡◌, refl, ◌||◌, ◌==◌, Ids, contains, contains-insert, arith,
}
use nexl.Ir.{
  VarId, Atom, var, Rhs, atom, call, make_closure, make_tuple, project, LetBind, let_bind, Block,
  block, Tail, ret, if_else, tail_call, match, panic, loop, recur, Arms, nil, arm,
}
use nexl.Optimize.Escape.{
  mark_if_var, mark_atoms, mark_captures, escaping_binds, collect_escaping_block,
  collect_escaping_tail, collect_escaping_arms,
}

module _ (v : VarId) where
  unfoldable pub is_var : Atom → Bool
  is_var (var x) = v == x
  is_var _ = false

  unfoldable pub among : List Atom → Bool
  unfolding is_var
  among [] = false
  among (a ∷ l) = is_var a || among l

  unfoldable pub captured : List (VarId × Atom) → Bool
  unfolding is_var
  captured [] = false
  captured ((x, a) ∷ l) = is_var a || captured l

  -- Called or passed to a call, or stored in a closure or a tuple.
  unfoldable pub rhs_hands_on : Rhs → Bool
  unfolding among captured
  rhs_hands_on (call f args) = is_var f || among args
  rhs_hands_on (make_closure id captures) = captured captures
  rhs_hands_on (make_tuple ctor fields) = among fields
  rhs_hands_on (project base index) = false
  rhs_hands_on (atom a) = false

  unfoldable pub binds_hand_on : List LetBind → Bool
  unfolding rhs_hands_on
  binds_hand_on [] = false
  binds_hand_on (let_bind x rhs ∷ bs) = rhs_hands_on rhs || binds_hand_on bs

  unfoldable mutual
    unfolding binds_hand_on

    pub block_hands_on : Block → Bool
    block_hands_on (block binds tail) = binds_hand_on binds || tail_hands_on tail

    -- Returned, called or passed to a tail call, or handed on in a block below.
    pub tail_hands_on : Tail → Bool
    tail_hands_on (ret a) = is_var a
    tail_hands_on (tail_call f args) = is_var f || among args
    tail_hands_on (if_else c t e) = block_hands_on t || block_hands_on e
    tail_hands_on (match a arms) = arms_hand_on arms
    tail_hands_on (loop vars body) = block_hands_on body
    tail_hands_on (panic a) = false
    tail_hands_on (recur args) = false

    pub arms_hand_on : Arms → Bool
    arms_hand_on nil = false
    arms_hand_on (arm ctor binds body rest) = block_hands_on body || arms_hand_on rest

  contains-mark :
      (a : Atom) (out : Ids) → contains (mark_if_var a out) v ≡ (is_var a || contains out v)
  unfolding mark_if_var is_var
  contains-mark (var x) out = contains-insert x v out
  contains-mark _ out = refl

  contains-atoms :
      (l : List Atom) (out : Ids) → contains (mark_atoms l out) v ≡ (among l || contains out v)
  unfolding mark_atoms among
  contains-atoms [] out = refl
  contains-atoms (a ∷ l) out =
      ground (arith, contains-atoms l (mark_if_var a out), contains-mark a out)

  contains-captures :
      (l : List (VarId × Atom)) (out : Ids)
      → contains (mark_captures l out) v ≡ (captured l || contains out v)
  unfolding mark_captures captured
  contains-captures [] out = refl
  contains-captures ((x, a) ∷ l) out =
      ground (arith, contains-captures l (mark_if_var a out), contains-mark a out)

  contains-escaping_binds :
      (bs : List LetBind) (out : Ids)
      → contains (escaping_binds bs out) v ≡ (binds_hand_on bs || contains out v)
  unfolding escaping_binds binds_hand_on rhs_hands_on
  contains-escaping_binds [] out = refl
  contains-escaping_binds (let_bind x (call f args) ∷ bs) out = ground (
    arith,
    contains-escaping_binds bs (mark_atoms args (mark_if_var f out)),
    contains-atoms args (mark_if_var f out),
    contains-mark f out,
  )
  contains-escaping_binds (let_bind x (make_closure id captures) ∷ bs) out = ground (
    arith,
    contains-escaping_binds bs (mark_captures captures out),
    contains-captures captures out,
  )
  contains-escaping_binds (let_bind x (make_tuple ctor fields) ∷ bs) out =
      ground (arith, contains-escaping_binds bs (mark_atoms fields out), contains-atoms fields out)
  contains-escaping_binds (let_bind x (project base index) ∷ bs) out =
      contains-escaping_binds bs out
  contains-escaping_binds (let_bind x (atom a) ∷ bs) out = contains-escaping_binds bs out

  mutual
    unfolding collect_escaping_block collect_escaping_tail collect_escaping_arms block_hands_on
        tail_hands_on arms_hand_on

    pub contains-collect_escaping_block :
        (b : Block) (out : Ids)
        → contains (collect_escaping_block b out) v ≡ (block_hands_on b || contains out v)
    contains-collect_escaping_block (block binds tail) out = ground (
      arith,
      contains-collect_escaping_tail tail (escaping_binds binds out),
      contains-escaping_binds binds out,
    )

    contains-collect_escaping_tail :
        (t : Tail) (out : Ids)
        → contains (collect_escaping_tail t out) v ≡ (tail_hands_on t || contains out v)
    contains-collect_escaping_tail (ret a) out = contains-mark a out
    contains-collect_escaping_tail (tail_call f args) out =
        ground (arith, contains-atoms args (mark_if_var f out), contains-mark f out)
    contains-collect_escaping_tail (if_else c t e) out = ground (
      arith,
      contains-collect_escaping_block e (collect_escaping_block t out),
      contains-collect_escaping_block t out,
    )
    contains-collect_escaping_tail (match a arms) out = contains-collect_escaping_arms arms out
    contains-collect_escaping_tail (loop vars body) out = contains-collect_escaping_block body out
    contains-collect_escaping_tail (panic a) out = refl
    contains-collect_escaping_tail (recur args) out = refl

    contains-collect_escaping_arms :
        (l : Arms) (out : Ids)
        → contains (collect_escaping_arms l out) v ≡ (arms_hand_on l || contains out v)
    contains-collect_escaping_arms nil out = refl
    contains-collect_escaping_arms (arm ctor binds body rest) out = ground (
      arith,
      contains-collect_escaping_arms rest (collect_escaping_block body out),
      contains-collect_escaping_block body out,
    )
