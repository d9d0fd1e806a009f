-- ===== src/Lib.antt =====
-- Nexl, a statically typed Lisp: the intermediate representation of its compiler and the passes
-- over it; the types and their unification; effects at run time; and the resolution of names.
--
-- The compiler lowers the typed program to an ANF representation (crates/nexl-ir/src/lib.rs),
-- optimises it (crates/nexl-ir/src/optimize/mod.rs) and hands it to the reference-counting passes
-- and the code generators. Each pass is a function from modules to modules or to annotations.
--
-- Files:
-- - Prelude: the names that all files share; Prelude/Sets models a HashSet of identifiers by the
--   list of its members, since only membership is observed, and Prelude/Texts sets and maps of
--   strings.
-- - Ir: the data types of crates/nexl-ir/src/lib.rs with the source's constructors, in snake case
--   (Tail::Return is `ret`). A MatchArm and the arms behind it are one constructor of `Arms`.
-- - Ir/Scope: well-scoped blocks, as VarGen makes them. Ir/Mentions: where a block names a
--   function. Ir/Binders: which variables it binds. Ir/Semantics: the meaning of the
--   representation, which the passes are held to; what a backend decides (values, calls, the
--   outside world) is the record `Machine`, so that a theorem on all machines covers every
--   backend and every meaning of calls. Ir/Semantics/Program links the functions of a module;
--   Ir/Semantics/Pass carries what holds of each function over to the program. Ir/Semantics gives
--   the initial values of a loop in the registers around it, together, where the backends go one
--   after the other; well-scoped loops, whose initial values do not read the loop's own
--   variables, have one meaning. An arm `_`, which lowering makes of a wildcard, is matched as a
--   constructor of that name.
-- - Optimize/ConstFold: crates/nexl-ir/src/optimize/const_fold.rs.
-- - Optimize/Dce: crates/nexl-ir/src/optimize/dce.rs.
-- - Optimize/Inline: crates/nexl-ir/src/optimize/inline.rs. A HashMap is an association list whose
--   first entry of a key counts, and VarGen the next unused number, which functions take and return.
-- - Optimize/Escape, Optimize/Reuse: escape.rs and reuse.rs of crates/nexl-ir/src/optimize. Where
--   reuse.rs iterates over a HashMap, the order is a parameter.
-- - Memory: crates/nexl-memory/src/lib.rs, the dup/drop pass and the reuse analysis.
-- - Types: crates/nexl-types/src/types.rs; Types/Subst and Types/Unify are subst.rs and unify.rs.
--   The constructors of Type without arguments are the type `Prim`. A HashMap of a substitution is
--   an association list whose first entry of a key counts. The
--   proofs are on types without their effect rows: Types/Subst/Solve says what a substitution
--   stands for, Types/Unify/Agreement when two types count as one, Types/Unify/Measure what
--   decreases. Types/Scheme is the instantiation of schemes in types.rs, with the order in which
--   the set of quantified variables is iterated; Types/Resource is resource.rs: the tracker, and
--   sequences of events on it.
-- - Effects: crates/nexl-effects/src/lib.rs; Effects/OneShot is `Resume` and Effects/Executor
--   sequential_executor.rs. The operation type F is a parameter. A task is a function on the state
--   that its effects act on.
-- - Modules: crates/nexl-modules/src/lib.rs (`has_prefix` and, in Modules/Graph,
--   `build_module_graph`) and, in Modules/Resolver, resolver.rs;
--   an `expect` that fails is the outcome `panicked`. A HashMap is an association list in which a
--   key stands once.
-- - Tests: runs of the models, and the theorems at concrete inputs.
--
-- Fuel and bounds: `fold_block` recurs on the result of a substitution, so it takes fuel, one
-- unit for each level of nested blocks; `fold_func` gives the depth of the body. The search of
-- dce.rs takes a round for each entry point and reference, which suffices since no function is
-- queued twice. In the semantics `fuel` bounds the rounds of one
-- loop and `depth` the nesting of calls; equalities of runs are stated for every such bound.
-- `Subst::apply` recurs through bound variables: a unit of fuel more than there are bindings is
-- enough where no binding leads back to itself. `unify` takes a unit of fuel for each level of the
-- types, which is bounded in Types/Unify/Termination by the unbound variables and the sizes.
--
-- Not modelled: lowering and specialisation, composition of substitutions, source spans and help
-- texts of errors, the topological sort of the module graph, packages, the reader, type
-- inference, macros, evaluator, code generators, the standard library, the language server and
-- the command line.
-- Floats are carried as bit patterns and never computed with; the identifiers (u32) are natural
-- numbers, so a VarGen and a supply of type variables never run out, nor do the fresh row
-- variables, whose naming is a parameter.
pub mod Effects
pub mod Ir
pub mod Memory
pub mod Modules
pub mod Optimize
pub mod Prelude
pub mod Tests
pub mod Types
