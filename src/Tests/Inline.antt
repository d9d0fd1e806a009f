-- ===== src/Tests/Inline.antt =====
-- inline.rs: runs, and the theorems at small functions.
use nexl.Prelude.{
  ℕ, List, length, none, some, [], ◌∷◌, ◌≡◌, refl, true, contains, insert, ◌≤◌, arith, suc, inl,
}
use nexl.Ir.{
  VarId, var, func_ref, atom, call, let_bind, Block, block, ret, tail_call, FuncDef, bool, if_else,
}
use nexl.Ir.Semantics.{
  Machine, Env, returned, done, run_block, run_tail, run_atom, run_atoms, run_rhs, run_binds,
  answer,
}
use nexl.Ir.Semantics.Program.{run_func}
use nexl.Optimize.Inline.{get_func, splice, inline_block, inline_tail_call}
use nexl.Optimize.Inline.Analysis.{find_inlinable, find_max_var, block_cost}
use nexl.Optimize.Inline.MaxVar.{IdsBelow, BlockBelow, find_max_var-BlockBelow}
use nexl.Optimize.Inline.Rename.{rename_block}
use nexl.Optimize.Inline.Calls.{Fits}
use nexl.Optimize.Inline.Blocks.{BlockFits, run_block-inline_block}
use nexl.Optimize.Inline.Tails.{call_count, call_count-splice, run_tail-inline_tail_call}
use nexl.Tests.Samples.{Value, of_atom, counter, first, number, main, program, helper}

-- `counter` whose calls leave the world alone, as `helper` does.
abbrev answering : Machine
answering = record counter { apply = λ f vs w. returned (first vs) w }

-- %10 = call @f1(%9); return %10
abbrev caller : Block
caller = block (let_bind 10 (call (func_ref 1) (var 9 ∷ [])) ∷ []) (ret (var 10))

inline_caller :
    inline_block (helper ∷ []) caller 11
    ≡ (block (let_bind 11 (atom (var 9)) ∷ let_bind 10 (atom (var 11)) ∷ []) (ret (var 10)), 12)
unfolding inline_block splice rename_block
inline_caller = refl

answers_helper :
    (vs : List Value) (w : ℕ)
    → length vs ≡ length helper.params
    → answer (answering.apply (of_atom (func_ref 1)) vs w) ≡ run_func answering 0 helper vs w
unfolding run_func run_block run_tail run_atom run_binds
answers_helper [] w e = absurd (omega arith)
answers_helper (v ∷ []) w e = refl
answers_helper (v ∷ u ∷ vs) w e = absurd (omega arith)

helper-Fits : Fits answering 0 11 helper 1 (var 9 ∷ [])
helper-Fits = record {
  binds = [];
  result = var 4;
  returns = refl;
  scoped = (tt, refl);
  arity = refl;
  answers = answers_helper;
}

caller-BlockFits : BlockFits answering 0 11 (helper ∷ []) caller
unfolding BlockFits get_func
caller-BlockFits = (((tt, (refl, tt)), helper-Fits, tt), refl)

run_block-inline_block_example :
    run_block answering 3 (inline_block (helper ∷ []) caller 11).0 (λ x. of_atom (number x)) 5
    ≡ done (of_atom (number 9)) 5
unfolding run_block run_binds run_rhs run_atom run_atoms
run_block-inline_block_example =
    run_block-inline_block answering 0 11 (helper ∷ []) caller caller-BlockFits 3
      (λ x. of_atom (number x)) 5

-- f3(%4) = %5 = call @f9(%4); if true then { return %5 } else { return %4 }
abbrev chooser : FuncDef
chooser = record {
  id = 3;
  name = none;
  params = 4 ∷ [];
  body =
      block (let_bind 5 (call (func_ref 9) (var 4 ∷ [])) ∷ [])
        (if_else (bool true) (block [] (ret (var 5))) (block [] (ret (var 4))));
}

-- The call of f9 is made twice.
call_count-splice_example : call_count (splice chooser 10 3 (var 9 ∷ []) 11).0 ≡ 2
unfolding call_count
call_count-splice_example = call_count-splice chooser 10 3 (var 9 ∷ []) 11 _ _ refl tt

-- %10 = call @f3(%9) becomes %11 = %9; %12 = call @f9(%11); %10 = call @f3(%9).
splice-chooser : splice chooser 10 3 (var 9 ∷ []) 11 ≡ (
  let_bind 11 (atom (var 9))
      ∷ let_bind 12 (call (func_ref 9) (var 11 ∷ []))
      ∷ let_bind 10 (call (func_ref 3) (var 9 ∷ []))
      ∷ [],
  13,
)
unfolding splice rename_block
splice-chooser = refl

run_tail-inline_tail_call_example :
    (y : VarId) × (11 ≤ y)
    × ((r : ℕ) (ρ : Env Value) (w : ℕ)
        → run_tail counter r
            (inline_tail_call helper (tail_call (func_ref 1) (var 9 ∷ [])) (var 9 ∷ []) 11).0
            ρ
            w
          ≡ done (ρ y) w)
run_tail-inline_tail_call_example =
    run_tail-inline_tail_call counter helper (tail_call (func_ref 1) (var 9 ∷ [])) (var 9 ∷ []) 11
      [] 4 refl (tt, refl) refl

-- Two functions that call each other: both are found.
abbrev ping : FuncDef
ping = record {
  id = 0;
  name = some "ping";
  params = [];
  body = block [] (tail_call (func_ref 1) []);
}

abbrev pong : FuncDef
pong = record { id = 1; name = none; params = []; body = block [] (tail_call (func_ref 0) []) }

find_ping-pong : find_inlinable (record { name = "m"; funcs = ping ∷ pong ∷ [] }) ≡ 1 ∷ 0 ∷ []
unfolding find_inlinable insert contains block_cost
find_ping-pong = refl

find_max_var-program : find_max_var program ≡ 4
unfolding find_max_var
find_max_var-program = refl

find_max_var-BlockBelow_example :
    IdsBelow (suc (find_max_var program)) main.params
    × BlockBelow (suc (find_max_var program)) main.body
find_max_var-BlockBelow_example = find_max_var-BlockBelow program main (inl refl)
