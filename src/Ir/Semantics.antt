-- ===== src/Ir/Semantics.antt =====
-- The meaning of the intermediate representation of crates/nexl-ir/src/lib.rs, as the comments
-- on its types give it: the specification that the passes are held to.
-- The variables are registers, each of which holds a value from the start.
-- What a backend chooses is the parameter `Machine`: how a value is represented, and what a call
-- does, which may change the world, panic or never answer.
pub mod Pass
pub mod Program
use nexl.Prelude.{
  ℕ, zero, suc, Bool, true, false, String, Option, none, some, List, [], ◌∷◌, ◌≡◌, ◌==◌, str_eq,
  if◌then◌else◌,
}
use nexl.Ir.{
  VarId, FuncId, Atom, var, bool, Rhs, atom, call, make_closure, make_tuple, project, LetBind,
  let_bind, Block, block, Tail, ret, if_else, tail_call, match, panic, loop, recur, Arms, nil, arm,
}
use nexl.Ir.Scope.{bound_names}

pub data Reply (V W : Type 0) : Type 0 where
  returned panicked : V → W → Reply V W
  silent : Reply V W

pub record Machine : Type 1 where
  pub Value : Type 0
  pub World : Type 0
  pub constant : Atom → Value
  -- the captured values by position
  pub closure : FuncId → List Value → Value
  pub tuple : String → List Value → Value
  -- the read of a slot, whatever it gives where the value has none
  pub field : Value → ℕ → Value
  -- the constructor of a value and its fields
  pub parts : Value → Option (String × List Value)
  pub truth : Value → Option Bool
  pub apply : Value → List Value → World → Reply Value World
  pub truth-bool : (b : Bool) → truth (constant (bool b)) ≡ some b

-- How a block ends. `recurs` is a jump to the enclosing loop, and `stuck` an ill-typed step.
pub data Outcome (V W : Type 0) : Type 0 where
  done panics : V → W → Outcome V W
  recurs : List V → W → Outcome V W
  stuck no_answer out_of_fuel : Outcome V W

abbrev pub Env : Type 0 → Type 0
Env V = VarId → V

abbrev pub update : {V : Type 0} → VarId → V → Env V → Env V
update x v ρ y = if y == x then v else ρ y

-- `none` where the numbers of names and values differ.
abbrev pub update_all : {V : Type 0} → List VarId → List V → Env V → Option (Env V)
update_all [] [] ρ = some ρ
update_all (x ∷ xs) (v ∷ vs) ρ = update_all xs vs (update x v ρ)
update_all [] (v ∷ vs) ρ = none
update_all (x ∷ xs) [] ρ = none

module _ {V W : Type 0} where
  abbrev pub next : Outcome V W → (V → W → Outcome V W) → Outcome V W
  next (done v w) k = k v w
  next (panics v w) k = panics v w
  next (recurs vs w) k = recurs vs w
  next stuck k = stuck
  next no_answer k = no_answer
  next out_of_fuel k = out_of_fuel

  abbrev pub answer : Reply V W → Outcome V W
  answer (returned v w) = done v w
  answer (panicked v w) = panics v w
  answer silent = no_answer

  abbrev pub choose : Option Bool → Outcome V W → Outcome V W → Outcome V W
  choose none t e = stuck
  choose (some true) t e = t
  choose (some false) t e = e

  abbrev pub enter : Option (Env V) → (Env V → W → Outcome V W) → W → Outcome V W
  enter none body w = stuck
  enter (some ρ) body w = body ρ w

  -- A round of a loop for each unit of fuel.
  abbrev pub again : (List V → W → Outcome V W) → Outcome V W → Outcome V W
  again round (recurs vs w) = round vs w
  again round (done v w) = done v w
  again round (panics v w) = panics v w
  again round stuck = stuck
  again round no_answer = no_answer
  again round out_of_fuel = out_of_fuel

  unfoldable pub iterate :
      ℕ → List VarId → (Env V → W → Outcome V W) → Env V → List V → W → Outcome V W
  iterate zero xs body ρ vs w = out_of_fuel
  iterate (suc n) xs body ρ vs w = again (iterate n xs body ρ) (enter (update_all xs vs ρ) body w)

module _ (m : Machine) where
  open m use {Value, World, constant, closure, tuple, field, parts, truth, apply}

  unfoldable pub run_atom : Env Value → Atom → Value
  run_atom ρ (var v) = ρ v
  run_atom ρ a = constant a

  unfoldable pub run_atoms : Env Value → List Atom → List Value
  run_atoms ρ [] = []
  run_atoms ρ (a ∷ as_) = run_atom ρ a ∷ run_atoms ρ as_

  unfoldable pub run_inits : Env Value → List (VarId × Atom) → List Value
  run_inits ρ [] = []
  run_inits ρ ((x, a) ∷ r) = run_atom ρ a ∷ run_inits ρ r

  unfoldable pub run_rhs : Env Value → Rhs → World → Outcome Value World
  run_rhs ρ (atom a) w = done (run_atom ρ a) w
  run_rhs ρ (call f args) w = answer (apply (run_atom ρ f) (run_atoms ρ args) w)
  run_rhs ρ (make_closure id captures) w = done (closure id (run_inits ρ captures)) w
  run_rhs ρ (make_tuple ctor fields) w = done (tuple ctor (run_atoms ρ fields)) w
  run_rhs ρ (project base index) w = done (field (run_atom ρ base) index) w

  unfoldable pub run_binds :
      List LetBind
      → Env Value
      → World
      → (Env Value → World → Outcome Value World)
      → Outcome Value World
  run_binds [] ρ w k = k ρ w
  run_binds (let_bind x rhs ∷ bs) ρ w k =
      next (run_rhs ρ rhs w) (λ v w'. run_binds bs (update x v ρ) w' k)

  unfoldable mutual
    pub run_block : ℕ → Block → Env Value → World → Outcome Value World
    run_block n (block binds tail) ρ w = run_binds binds ρ w (run_tail n tail)

    pub run_tail : ℕ → Tail → Env Value → World → Outcome Value World
    run_tail n (ret a) ρ w = done (run_atom ρ a) w
    run_tail n (if_else c t e) ρ w =
        choose (truth (run_atom ρ c)) (run_block n t ρ w) (run_block n e ρ w)
    run_tail n (tail_call f args) ρ w = answer (apply (run_atom ρ f) (run_atoms ρ args) w)
    run_tail n (match a arms) ρ w = run_arms n arms (parts (run_atom ρ a)) ρ w
    run_tail n (panic a) ρ w = panics (run_atom ρ a) w
    run_tail n (loop vars body) ρ w =
        iterate n (bound_names vars) (run_block n body) ρ (run_inits ρ vars) w
    run_tail n (recur args) ρ w = recurs (run_atoms ρ args) w

    -- The first arm of the value's constructor is taken.
    pub run_arms : ℕ → Arms → Option (String × List Value) → Env Value → World → Outcome Value World
    run_arms n nil p ρ w = stuck
    run_arms n (arm ctor binds body rest) none ρ w = stuck
    run_arms n (arm ctor binds body rest) (some (c, vs)) ρ w =
        if str_eq c ctor
        then enter (update_all binds vs ρ) (run_block n body) w
        else run_arms n rest (some (c, vs)) ρ w
