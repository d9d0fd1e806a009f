-- ===== src/Modules/Resolver/Qualified.antt =====
-- resolver.rs: the answer to every reference through an alias.
use mathlib.Core.Path.{subst}
use nexl.Prelude.{
  Bool, true, false, Option, none, some, String, List, [], ◌∷◌, ◌≡◌, refl, ◌∙◌, inl, inr,
  Bool-cases, arith, str_eq, has_text, find_text, find_text-insert_entry, if◌then◌else◌,
}
use nexl.Modules.{ImportKind, alias, refer, exclude, rename, all, ImportDecl, has_prefix}
use nexl.Modules.Resolver.{
  ResolvedName, ModuleExports, Outcome, ok, err, panicked, ResolveError, unknown_alias,
  name_not_exported, package_private_not_visible, Candidates, Aliases, NameResolver, decide,
  checked, resolve_qualified, add_imports, add_import, insert_alias, with_aliases, ◌>>=◌, collapse,
  no_aliases, build_name_resolver, add_referred, add_renamed, add_all, validate_all,
  visible_exports,
}
use nexl.Modules.Resolver.Safety.{is_visible, named}

-- What an alias stands for: a module, its exports, and whether its package is the importer's.
abbrev pub Target : Type 0
Target = String × ModuleExports × Bool

abbrev pub aliases_to : ImportKind → String → Bool
aliases_to (alias b) a = str_eq b a
aliases_to _ a = false

-- The last import of an alias, or an earlier target where there is none.
abbrev pub last_import :
    String → String → List (ImportDecl × ModuleExports) → Option Target → Option Target
last_import home a [] earlier = earlier
last_import home a ((import, exports) ∷ imports) earlier =
    let m = import.module_path in
    last_import home a imports
      (if aliases_to import.kind a then some (m, exports, has_prefix m home) else earlier)

-- What a reference through an alias should give.
abbrev pub answer : String → String → Option Target → Outcome ResolvedName
answer a name none = err (unknown_alias a)
answer a name (some (m, exports, same_package)) =
    if is_visible exports same_package name
    then ok (named m name)
    else (if has_text exports.package_ name
        then err (package_private_not_visible m name)
        else err (name_not_exported m name))

-- The four tables tell a target of an alias.
abbrev Tells : String → Aliases → Option Target → Type 0
Tells a t none = find_text t.alias_to_module a ≡ none
Tells a t (some (m, exports, same_package)) =
    (find_text t.alias_to_module a ≡ some m)
    × (find_text t.alias_public_exports a ≡ some exports.public)
    × (find_text t.alias_package_exports a ≡ some exports.package_)
    × (find_text t.alias_same_package a ≡ some same_package)

insert_alias-other :
    (a b m : String) (exports : ModuleExports) (same_package : Bool) (t : Aliases)
    (o : Option Target)
    → str_eq b a ≡ false
    → Tells a t o
    → Tells a (insert_alias b m exports same_package t) o
unfolding insert_alias
insert_alias-other a b m exports same_package t none other h =
    find_text-insert_entry b m t.alias_to_module a ∙ rw other h
insert_alias-other a b m exports same_package t (some target) other (h, p, q, s) = (
  find_text-insert_entry b m t.alias_to_module a ∙ rw other h,
  find_text-insert_entry b exports.public t.alias_public_exports a ∙ rw other p,
  find_text-insert_entry b exports.package_ t.alias_package_exports a ∙ rw other q,
  find_text-insert_entry b same_package t.alias_same_package a ∙ rw other s,
)

insert_alias-same :
    (a b m : String) (exports : ModuleExports) (same_package : Bool) (t : Aliases)
    → str_eq b a ≡ true
    → Tells a (insert_alias b m exports same_package t) (some (m, exports, same_package))
unfolding insert_alias
insert_alias-same a b m exports same_package t same = (
  find_text-insert_entry b m t.alias_to_module a ∙ rw same refl,
  find_text-insert_entry b exports.public t.alias_public_exports a ∙ rw same refl,
  find_text-insert_entry b exports.package_ t.alias_package_exports a ∙ rw same refl,
  find_text-insert_entry b same_package t.alias_same_package a ∙ rw same refl,
)

-- The tables of a result, if there is one, tell the target.
abbrev Tell : String → Option Target → Outcome (Aliases × Candidates) → Type 0
Tell a o (ok (t, candidates)) = Tells a t o
Tell a o (err e) = Unit
Tell a o panicked = Unit

with_aliases-Tell :
    (a : String) (o : Option Target) (t : Aliases) (c : Outcome Candidates)
    → Tells a t o
    → Tell a o (with_aliases t c)
with_aliases-Tell a o t (ok c) h = h
with_aliases-Tell a o t (err e) h = tt
with_aliases-Tell a o t panicked h = tt

add_import-Tell :
    (a : String) (o : Option Target) (kind : ImportKind) (m : String) (exports : ModuleExports)
    (same_package : Bool) (t : Aliases) (c : Candidates)
    → Tells a t o
    → Tell a
        (if aliases_to kind a then some (m, exports, same_package) else o)
        (add_import kind m exports same_package (t, c))
unfolding add_import
add_import-Tell a o (alias b) m exports same_package t c h = elim (Bool-cases (str_eq b a)) [
  | inl same ↦ rw same (insert_alias-same a b m exports same_package t same)
  | inr other ↦ rw other (insert_alias-other a b m exports same_package t o other h)
]
add_import-Tell a o (refer names) m exports same_package t c h =
    with_aliases-Tell a o t (add_referred m exports same_package names c) h
add_import-Tell a o all m exports same_package t c h = h
add_import-Tell a o (exclude excluded) m exports same_package t c h =
    checked-Tell (validate_all m exports same_package excluded)
  where
    checked-Tell :
        (e : Option ResolveError)
        → Tell a o (checked e (ok (t, add_all m excluded (visible_exports exports same_package) c)))
    checked-Tell none = h
    checked-Tell (some e) = tt
add_import-Tell a o (rename renames) m exports same_package t c h =
    with_aliases-Tell a o t (add_renamed m exports same_package renames c) h

then-Tell :
    (a : String) (o p : Option Target) (r : Outcome (Aliases × Candidates))
    (f : Aliases × Candidates → Outcome (Aliases × Candidates))
    → Tell a o r
    → ((t : Aliases) (c : Candidates) → Tells a t o → Tell a p (f (t, c)))
    → Tell a p (r >>= f)
then-Tell a o p (ok (t, c)) f h k = k t c h
then-Tell a o p (err e) f h k = tt
then-Tell a o p panicked f h k = tt

add_imports-Tell :
    (home a : String) (imports : List (ImportDecl × ModuleExports)) (o : Option Target)
    (t : Aliases) (c : Candidates)
    → Tells a t o
    → Tell a (last_import home a imports o) (add_imports home imports (t, c))
unfolding add_imports
add_imports-Tell home a [] o t c h = h
add_imports-Tell home a ((import, exports) ∷ imports) o t c h =
    let same_package = has_prefix import.module_path home in
    then-Tell a
      (if aliases_to import.kind a then some (import.module_path, exports, same_package) else o) _ _
      (add_imports home imports)
      (add_import-Tell a o import.kind import.module_path exports same_package t c h)
      (λ t' c' h'. add_imports-Tell home a imports _ t' c' h')

abbrev BuiltTell : String → Option Target → Outcome NameResolver → Type 0
BuiltTell a o (ok r) = Tells a r.aliases o
BuiltTell a o (err e) = Unit
BuiltTell a o panicked = Unit

finish-Tell :
    (a : String) (o : Option Target) (x : Outcome (Aliases × Candidates))
    → Tell a o x
    → BuiltTell a o
        (x >>= λ (t, candidates). ok (record { aliases = t; unqualified = collapse candidates }))
finish-Tell a o (ok (t, c)) h = h
finish-Tell a o (err e) h = tt
finish-Tell a o panicked h = tt

build-Tell :
    (home a : String) (imports : List (ImportDecl × ModuleExports))
    → BuiltTell a (last_import home a imports none) (build_name_resolver home imports)
unfolding build_name_resolver find_text
build-Tell home a imports =
    finish-Tell a (last_import home a imports none) (add_imports home imports (no_aliases, []))
      (add_imports-Tell home a imports none no_aliases [] refl)

decide_lem :
    (a m name : String) (exports : ModuleExports) (same_package : Bool)
    → decide m name (has_text exports.public name) (has_text exports.package_ name) same_package
      ≡ answer a name (some (m, exports, same_package))
unfolding decide
decide_lem a m name exports true = ground arith
decide_lem a m name exports false = ground arith

Tells-answer :
    (r : NameResolver) (a name : String) (o : Option Target)
    → Tells a r.aliases o
    → resolve_qualified r a name ≡ answer a name o
unfolding resolve_qualified
Tells-answer r a name none h = rw h refl
Tells-answer r a name (some (m, exports, same_package)) (h, p, q, s) =
    rw (h, p, q, s) (decide_lem a m name exports same_package)

-- With a resolver that was built from imports, a reference through an alias gives the name in the
-- module that the last import of the alias names, where that module lets the importer use the name;
-- an error that says that the name is package-private or not exported, where it does not; and an
-- error that says that the alias is unknown, where no import has it.
pub resolve_qualified-answer :
    (home : String) (imports : List (ImportDecl × ModuleExports)) (r : NameResolver)
    → build_name_resolver home imports ≡ ok r
    → (a name : String)
    → resolve_qualified r a name ≡ answer a name (last_import home a imports none)
resolve_qualified-answer home imports r built a name =
    Tells-answer r a name (last_import home a imports none)
      (subst (BuiltTell a (last_import home a imports none)) built (build-Tell home a imports))
