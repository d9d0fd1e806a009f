-- ===== src/Modules/Graph.antt =====
-- crates/nexl-modules/src/lib.rs: the graph of module dependencies, as it is built.
use nexl.Prelude.{
  ℕ, ◌+◌, ◌<◌, ◌≤◌, Bool, true, false, Option, none, some, String, List, [], ◌∷◌, ◌++◌, ◌≡◌, refl,
  ap, ◌∙◌, sym, Bool-cases, Option-cases, inl, inr, arith, str_eq, str_eq_iff, str_eq_self,
  find_text, insert_entry, find_text-insert_entry, if◌then◌else◌,
}
use mathlib.Core.List.{append_assoc, append-nil}
use mathlib.Core.Path.{subst}
use nexl.Modules.{ImportDecl}

pub record ModuleInfo : Type 0 where
  pub name : String
  pub imports : List ImportDecl

pub record ModuleGraph : Type 0 where
  pub edges : List (String × List String)

pub data ModuleGraphError : Type 0 where
  duplicate_module : String → ModuleGraphError
  cycle_detected : List String → ModuleGraphError

pub data Built : Type 0 where
  graph : ModuleGraph → Built
  failed : ModuleGraphError → Built

unfoldable pub dependencies : ModuleGraph → String → Option (List String)
unfolding find_text
dependencies g m = find_text g.edges m

abbrev pub module_paths : List ImportDecl → List String
module_paths [] = []
module_paths (import ∷ imports) = import.module_path ∷ module_paths imports

-- An entry is refused where the key is there.
abbrev unless_there : Option (List String) → String → Built → Built
unless_there none name next = next
unless_there (some deps) name next = failed (duplicate_module name)

-- The loop over the modules.
unfoldable pub add_modules : List ModuleInfo → List (String × List String) → Built
unfolding find_text insert_entry
add_modules [] edges = graph (record { edges = edges })
add_modules (m ∷ modules) edges =
    unless_there (find_text edges m.name) m.name
      (add_modules modules (insert_entry m.name (module_paths m.imports) edges))

unfoldable pub build_module_graph : List ModuleInfo → Built
unfolding add_modules
build_module_graph modules = add_modules modules []

abbrev one_if : Bool → ℕ
one_if true = 1
one_if false = 0

-- How many of the modules have the name.
abbrev pub times : String → List ModuleInfo → ℕ
times name [] = 0
times name (m ∷ modules) = one_if (str_eq m.name name) + times name modules

-- The imports of the first module of the name.
abbrev pub declared : String → List ModuleInfo → Option (List String)
declared name [] = none
declared name (m ∷ modules) =
    let rest = declared name modules in
    if str_eq m.name name then some (module_paths m.imports) else rest

times-append :
    (name : String) (ms ns : List ModuleInfo)
    → times name (ms ++ ns) ≡ times name ms + times name ns
times-append name [] ns = omega arith
times-append name (m ∷ ms) ns = omega (arith, times-append name ms ns)

declared-none : (name : String) (ms : List ModuleInfo) → declared name ms ≡ none → times name ms ≡ 0
declared-none name [] h = refl
declared-none name (m ∷ ms) h = ground (arith, h, declared-none name ms)

declared-some :
    (name : String) (ms : List ModuleInfo) (deps : List String)
    → declared name ms ≡ some deps
    → 0 < times name ms
declared-some name [] deps h = absurd (ground (arith, h))
declared-some name (m ∷ ms) deps h = elim (Bool-cases (str_eq m.name name)) [
  | inl same ↦ rw same (omega arith)
  | inr other ↦
      let more = declared-some name ms deps (ground (arith, h, other)) in omega (arith, more)
]

declared-snoc :
    (name : String) (ms : List ModuleInfo) (m : ModuleInfo)
    → declared m.name ms ≡ none
    → declared name (ms ++ (m ∷ []))
      ≡ (if str_eq m.name name then some (module_paths m.imports) else declared name ms)
declared-snoc name [] m h = refl
declared-snoc name (n ∷ ms) m h = elim (Bool-cases (str_eq n.name m.name)) [
  | inl same ↦ absurd (ground (arith, h, same))
  | inr other ↦
      let ih = declared-snoc name ms m (ground (arith, h, other)) in
      elim (Bool-cases (str_eq n.name name)) [
        | inl at ↦ let apart = different m.name n.name name other at in rw (at, apart) refl
        | inr off ↦ rw off ih
      ]
]
  where
    different : (a b c : String) → str_eq b a ≡ false → str_eq b c ≡ true → str_eq a c ≡ false
    different a b c off at = elim (Bool-cases (str_eq a c)) [
      | inl on ↦ absurd (
          ground
            (arith, off, (str_eq_iff b a).1 ((str_eq_iff b c).0 at ∙ sym ((str_eq_iff a c).0 on))))
      | inr out ↦ out
    ]

-- A graph has the dependencies that the modules declare, and each name is declared once; a refusal
-- names a module that is declared more than once.
abbrev pub Says : List ModuleInfo → Built → Type 0
Says modules (graph g) =
    (name : String) → (dependencies g name ≡ declared name modules) × (times name modules ≤ 1)
Says modules (failed (duplicate_module name)) = 1 < times name modules
Says modules (failed (cycle_detected nodes)) = ⊥

-- What the modules so far have put into the map.
abbrev IsSoFar : List ModuleInfo → List (String × List String) → Type 0
IsSoFar done edges =
    (name : String) → (find_text edges name ≡ declared name done) × (times name done ≤ 1)

next-IsSoFar :
    (done : List ModuleInfo) (m : ModuleInfo) (edges : List (String × List String))
    → find_text edges m.name ≡ none
    → IsSoFar done edges
    → IsSoFar (done ++ (m ∷ [])) (insert_entry m.name (module_paths m.imports) edges)
next-IsSoFar done m edges new so_far name =
    let unseen : declared m.name done ≡ none = sym (so_far m.name).0 ∙ new in
    (
      find_text-insert_entry m.name (module_paths m.imports) edges name
          ∙ rw (so_far name).0 (sym (declared-snoc name done m unseen)),
      elim (Bool-cases (str_eq m.name name)) [
        | inl same ↦
            let none_yet =
              ap (λ x. times x done) (sym ((str_eq_iff m.name name).0 same))
              ∙ declared-none m.name done unseen in
            omega (arith, times-append name done (m ∷ []), none_yet, ap one_if same)
        | inr other ↦
            omega (arith, times-append name done (m ∷ []), (so_far name).1, ap one_if other)
      ],
    )

add_modules-Says :
    (done modules : List ModuleInfo) (edges : List (String × List String))
    → IsSoFar done edges
    → Says (done ++ modules) (add_modules modules edges)
unfolding add_modules dependencies
add_modules-Says done [] edges so_far =
    subst (λ ms. IsSoFar ms edges) (sym (append-nil done)) so_far
add_modules-Says done (m ∷ modules) edges so_far = elim (Option-cases (find_text edges m.name)) [
  | inl new ↦ rw new (
      subst
        (λ ms. Says ms (add_modules modules (insert_entry m.name (module_paths m.imports) edges)))
        (append_assoc done (m ∷ []) modules)
        (add_modules-Says (done ++ (m ∷ [])) modules _ (next-IsSoFar done m edges new so_far)))
  | inr (deps, there) ↦
      let some_yet = declared-some m.name done deps (sym (so_far m.name).0 ∙ there) in
      rw there (
        omega
          (arith, times-append m.name done (m ∷ modules), some_yet, ap one_if (str_eq_self m.name)))
]

-- Where a graph is built of modules, no two of them have the same name, and the dependencies of a
-- name are the paths that its module imports, in their order; a name that no module has, has none.
-- Where it is refused, the error names a module that is declared more than once.
pub build_module_graph-Says :
    (modules : List ModuleInfo) → Says modules (build_module_graph modules)
unfolding build_module_graph find_text
build_module_graph-Says modules = add_modules-Says [] modules [] (λ name. (refl, omega arith))
