-- ===== src/Ir.antt =====
-- crates/nexl-ir/src/lib.rs: the ANF intermediate representation.
pub mod Binders
pub mod Mentions
pub mod Scope
pub mod Semantics
use nexl.Prelude.{ℕ, ℤ, Bool, String, Option, List}

-- `VarId(u32)` and `FuncId(u32)`.
abbrev pub VarId : Type 0
VarId = ℕ

abbrev pub FuncId : Type 0
FuncId = ℕ

-- `Float` carries the 64 bits of the constant.
pub data Atom : Type 0 where
  var : VarId → Atom
  int : ℤ → Atom
  float : ℕ → Atom
  bool : Bool → Atom
  unit : Atom
  str : String → Atom
  func_ref : FuncId → Atom

pub data Rhs : Type 0 where
  atom : Atom → Rhs
  call : Atom → List Atom → Rhs
  make_closure : FuncId → List (VarId × Atom) → Rhs
  make_tuple : String → List Atom → Rhs
  project : Atom → ℕ → Rhs

-- `let var = rhs`
pub data LetBind : Type 0 where
  let_bind : VarId → Rhs → LetBind

-- `arm ctor binds body rest` is a `MatchArm` before the remaining arms.
mutual
  pub data Block : Type 0 where
    block : List LetBind → Tail → Block

  pub data Tail : Type 0 where
    ret : Atom → Tail
    if_else : Atom → Block → Block → Tail
    tail_call : Atom → List Atom → Tail
    match : Atom → Arms → Tail
    panic : Atom → Tail
    loop : List (VarId × Atom) → Block → Tail
    recur : List Atom → Tail

  pub data Arms : Type 0 where
    nil : Arms
    arm : String → List VarId → Block → Arms → Arms

pub record FuncDef : Type 0 where
  pub id : FuncId
  pub name : Option String
  pub params : List VarId
  pub body : Block

pub record Module : Type 0 where
  pub name : String
  pub funcs : List FuncDef
