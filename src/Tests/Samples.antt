-- ===== src/Tests/Samples.antt =====
-- A machine that counts its calls, and small programs for crates/nexl-ir.
use nexl.Prelude.{ℕ, zero, suc, Bool, Option, none, some, String, List, [], ◌∷◌, refl, pos, true}
use nexl.Ir.{
  FuncId, Atom, var, int, bool, unit, func_ref, atom, call, make_tuple, project, let_bind, Block,
  block, ret, if_else, FuncDef, Module,
}
use nexl.Ir.Semantics.{returned, Machine}

mutual
  pub data Value : Type 0 where
    of_atom : Atom → Value
    closure : FuncId → Values → Value
    tuple : String → Values → Value

  pub data Values : Type 0 where
    empty : Values
    more : Value → Values → Values

abbrev to_values : List Value → Values
to_values [] = empty
to_values (v ∷ vs) = more v (to_values vs)

abbrev of_values : Values → List Value
of_values empty = []
of_values (more v vs) = v ∷ of_values vs

abbrev nth : Values → ℕ → Value
nth empty i = of_atom unit
nth (more v vs) zero = v
nth (more v vs) (suc i) = nth vs i

abbrev field : Value → ℕ → Value
field (tuple c vs) i = nth vs i
field v i = of_atom unit

abbrev parts : Value → Option (String × List Value)
parts (tuple c vs) = some (c, of_values vs)
parts _ = none

abbrev truth : Value → Option Bool
truth (of_atom (bool b)) = some b
truth _ = none

-- A call answers its first argument, and the world counts the calls.
abbrev pub first : List Value → Value
first [] = of_atom unit
first (v ∷ vs) = v

abbrev pub counter : Machine
counter = record {
  Value = Value;
  World = ℕ;
  constant = of_atom;
  closure = λ id captures. closure id (to_values captures);
  tuple = λ c vs. tuple c (to_values vs);
  field = field;
  parts = parts;
  truth = truth;
  apply = λ f vs w. returned (first vs) (suc w);
  truth-bool = λ b. refl;
}

abbrev pub callee : Value → Option FuncId
callee (of_atom (func_ref id)) = some id
callee _ = none

abbrev pub number : ℕ → Atom
number n = int (pos n)

-- %1 = %0; %2 = true; if %2 then { %3 = call @f1(%1); return %3 } else return 7
abbrev pub copies : Block
copies = block (let_bind 1 (atom (var 0)) ∷ let_bind 2 (atom (bool true)) ∷ []) (
    if_else (var 2) (block (let_bind 3 (call (func_ref 1) (var 1 ∷ [])) ∷ []) (ret (var 3)))
      (block [] (ret (number 7))))

-- %1 = (Pair %0 5); %2 = %1.0; %3 = call @f1(%0); return %0
abbrev pub unused : Block
unused =
    block
      (let_bind 1 (make_tuple "Pair" (var 0 ∷ number 5 ∷ []))
        ∷ let_bind 2 (project (var 1) 0)
        ∷ let_bind 3 (call (func_ref 1) (var 0 ∷ []))
        ∷ [])
      (ret (var 0))

abbrev pub main : FuncDef
main = record { id = 0; name = some "main"; params = 0 ∷ []; body = copies }

abbrev pub helper : FuncDef
helper = record { id = 1; name = none; params = 4 ∷ []; body = block [] (ret (var 4)) }

abbrev pub orphan : FuncDef
orphan = record { id = 2; name = none; params = []; body = block [] (ret unit) }

abbrev pub program : Module
program = record { name = "sample"; funcs = main ∷ helper ∷ orphan ∷ [] }
