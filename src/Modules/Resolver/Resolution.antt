-- ===== src/Modules/Resolver/Resolution.antt =====
-- resolver.rs: what the references of a module resolve to.
use mathlib.Core.Path.{subst}
use nexl.Prelude.{
  Bool, true, String, List, [], ◌&&◌, not, ◌≡◌, refl, ap, ◌∙◌, sym, inl, inr, In, Bool-cases,
  Option-cases, arith, has_text, find_text,
}
use nexl.Modules.{ImportDecl, has_prefix}
use nexl.Modules.Resolver.{
  ModuleExports, Outcome, ok, err, panicked, Candidates, Aliases, NameResolver, decide,
  resolve_qualified, resolve_unqualified, add_imports, ◌>>=◌, collapse, no_aliases,
  build_name_resolver,
}
use nexl.Modules.Resolver.Safety.{Holds, Holds-map, is_visible, named}
use nexl.Modules.Resolver.Visibility.{
  IsVisible, Stands, IsGood, Allows, add_imports-Good, collapse-Holds,
}

decide-Holds :
    (m name : String) (exports : ModuleExports) (same_package : Bool)
    → Holds
        (λ r. (r ≡ named m name) × (is_visible exports same_package name ≡ true))
        (decide m name (has_text exports.public name) (has_text exports.package_ name) same_package)
unfolding decide
decide-Holds m name exports same_package =
    elim (Bool-cases (is_visible exports same_package name)) [
      | inl seen ↦ rw seen (refl, refl)
      | inr hidden ↦
          rw hidden (elim (Bool-cases (has_text exports.package_ name && not same_package)) [
            | inl private ↦ rw private tt
            | inr absent ↦ rw absent tt
          ])
    ]

-- An import of the list, by its module's path, its exports and whether its package is the importer's.
abbrev IsImport :
    String → List (ImportDecl × ModuleExports) → String → ModuleExports → Bool → Type 0
IsImport home imports m exports same_package =
    (import : ImportDecl) × In (import, exports) imports
    × (m ≡ import.module_path)
    × (same_package ≡ has_prefix import.module_path home)

imports-Allows :
    (home : String) (imports : List (ImportDecl × ModuleExports)) (import : ImportDecl)
    (exports : ModuleExports)
    → In (import, exports) imports
    → Allows
        (IsVisible home imports)
        (IsImport home imports)
        import.module_path
        exports
        (has_prefix import.module_path home)
imports-Allows home imports import exports at =
    ((import, at, refl, refl), λ name e. (import, exports, at, refl, e))

-- What holds of a resolver that was built.
abbrev IsBuilt : String → List (ImportDecl × ModuleExports) → NameResolver → Type 0
IsBuilt home imports r =
    ((a : String) → Stands (IsImport home imports) r.aliases a)
    × ((name : String) → Holds (IsVisible home imports) (resolve_unqualified r name))

finish :
    (home : String) (imports : List (ImportDecl × ModuleExports))
    (o : Outcome (Aliases × Candidates))
    → Holds (IsGood (IsVisible home imports) (IsImport home imports)) o
    → Holds
        (IsBuilt home imports)
        (o >>= λ (t, candidates). ok (record { aliases = t; unqualified = collapse candidates }))
unfolding resolve_unqualified
finish home imports (ok (t, candidates)) (h, c) =
    (h, λ name. collapse-Holds (IsVisible home imports) (IsImport home imports) candidates name c)
finish home imports (err e) h = tt
finish home imports panicked h = absurd h

build-Holds :
    (home : String) (imports : List (ImportDecl × ModuleExports))
    → Holds (IsBuilt home imports) (build_name_resolver home imports)
unfolding build_name_resolver find_text
build-Holds home imports = finish home imports (add_imports home imports (no_aliases, [])) (
    add_imports-Good (IsVisible home imports) (IsImport home imports) home imports (no_aliases, [])
      (imports-Allows home imports) ((λ a m at. absurd (ground (arith, at))), tt))

-- With a resolver that was built from imports, a bare name resolves, if at all, to a name that one of
-- the imported modules lets the importer use; and nothing panics.
pub resolve_unqualified-IsVisible :
    (home : String) (imports : List (ImportDecl × ModuleExports)) (r : NameResolver)
    → build_name_resolver home imports ≡ ok r
    → (name : String) → Holds (IsVisible home imports) (resolve_unqualified r name)
resolve_unqualified-IsVisible home imports r built name =
    (subst (Holds (IsBuilt home imports)) built (build-Holds home imports)).1 name

-- With a resolver that was built from imports, a reference through an alias resolves, if at all, to
-- the name it mentions, in a module that is imported and lets the importer use the name; and none of
-- the tables lacks the alias where another has it, so nothing panics.
pub resolve_qualified-IsVisible :
    (home : String) (imports : List (ImportDecl × ModuleExports)) (r : NameResolver)
    → build_name_resolver home imports ≡ ok r
    → (a name : String)
    → Holds (λ q. IsVisible home imports q × (q.name ≡ name)) (resolve_qualified r a name)
unfolding resolve_qualified
resolve_qualified-IsVisible home imports r built a name =
    let good = (subst (Holds (IsBuilt home imports)) built (build-Holds home imports)).0 in
    elim (Option-cases (find_text r.aliases.alias_to_module a)) [
      | inl missing ↦ rw missing tt
      | inr (m, at) ↦
          let (exports, same_package, (import, in_, m-is, same-is), p, q, s) = good a m at in
          rw (at, p, q, s)
            (Holds-map (λ q. (q ≡ named m name) × (is_visible exports same_package name ≡ true))
              (λ q. IsVisible home imports q × (q.name ≡ name))
              (decide m name (has_text exports.public name) (has_text exports.package_ name)
                same_package)
              (decide-Holds m name exports same_package)
              (λ resolved (is, seen).
                let seen' = ap (λ b. is_visible exports b name) (sym same-is) ∙ seen in
                (
                  (
                    import,
                    exports,
                    in_,
                    ap (λ x. x.module_path) is ∙ m-is,
                    ap (λ x. is_visible exports (has_prefix import.module_path home) x.name) is
                        ∙ seen',
                  ),
                  ap (λ x. x.name) is,
                )))
    ]
