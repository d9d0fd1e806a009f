-- ===== src/Modules/Resolver.antt =====
-- crates/nexl-modules/src/resolver.rs: the resolution of names.
pub mod Qualified
pub mod Resolution
pub mod Safety
pub mod Visibility
use nexl.Prelude.{
  Bool, true, false, not, Option, none, some, String, List, [], ◌∷◌, ◌++◌, ◌||◌, ◌&&◌, map,
  has_text, sort_texts, find_text, insert_entry, if◌then◌else◌,
}
use nexl.Modules.{ImportKind, alias, refer, exclude, rename, all, ImportDecl, has_prefix}

pub record ResolvedName : Type 0 where
  pub module_path : String
  pub name : String

pub record ModuleExports : Type 0 where
  pub public : List String
  pub package_ : List String

pub data ResolveError : Type 0 where
  unknown_alias : String → ResolveError
  name_not_exported : String → String → ResolveError
  package_private_not_visible : String → String → ResolveError
  ambiguous_name : String → List String → ResolveError
  unknown_name : String → ResolveError

pub data UnqualifiedEntry : Type 0 where
  unique : ResolvedName → UnqualifiedEntry
  ambiguous : List String → UnqualifiedEntry

-- `Result`, and `panicked` where an `expect` fails.
pub data Outcome {ℓ} (A : Type ℓ) : Type ℓ where
  ok : A → Outcome A
  err : ResolveError → Outcome A
  panicked : Outcome A

abbrev pub Candidates : Type 0
Candidates = List (String × List ResolvedName)

-- The tables of `NameResolver` that speak of aliases.
pub record Aliases : Type 0 where
  pub alias_to_module : List (String × String)
  pub alias_public_exports : List (String × List String)
  pub alias_package_exports : List (String × List String)
  pub alias_same_package : List (String × Bool)

pub record NameResolver : Type 0 where
  pub aliases : Aliases
  pub unqualified : List (String × UnqualifiedEntry)

-- Whether a name may be used, the last decision of `resolve_qualified`.
unfoldable pub decide : String → String → Bool → Bool → Bool → Outcome ResolvedName
decide m name is_public is_package same_package =
    if is_public || (same_package && is_package)
    then ok (record { module_path = m; name = name })
    else (if is_package && not same_package
        then err (package_private_not_visible m name)
        else err (name_not_exported m name))

-- `get`, which an `expect` or an error follows.
abbrev pub get_or {ℓ ℓ'} :
    {A : Type ℓ} {B : Type ℓ'} → Option A → Outcome B → (A → Outcome B) → Outcome B
get_or none other f = other
get_or (some a) other f = f a

unfoldable pub resolve_qualified : NameResolver → String → String → Outcome ResolvedName
unfolding decide find_text has_text
resolve_qualified r alias_ name =
    get_or (find_text r.aliases.alias_to_module alias_) (err (unknown_alias alias_)) λ m.
      get_or (find_text r.aliases.alias_public_exports alias_) panicked λ public_exports.
        get_or (find_text r.aliases.alias_package_exports alias_) panicked λ package_exports.
          get_or (find_text r.aliases.alias_same_package alias_) panicked λ same_package.
            decide m name (has_text public_exports name) (has_text package_exports name)
              same_package

abbrev pub from_entry : String → Option UnqualifiedEntry → Outcome ResolvedName
from_entry name none = err (unknown_name name)
from_entry name (some (unique resolved)) = ok resolved
from_entry name (some (ambiguous modules)) = err (ambiguous_name name modules)

unfoldable pub resolve_unqualified : NameResolver → String → Outcome ResolvedName
unfolding find_text
resolve_unqualified r name = from_entry name (find_text r.unqualified name)

-- `none` where the source answers Ok.
unfoldable pub validate_visibility : String → String → ModuleExports → Bool → Option ResolveError
unfolding has_text
validate_visibility m name exports same_package =
    if has_text exports.public name
    then none
    else if has_text exports.package_ name
    then (if same_package then none else some (package_private_not_visible m name))
    else some (name_not_exported m name)

-- The names in ascending order, each once.
unfoldable pub visible_exports : ModuleExports → Bool → List String
unfolding sort_texts
visible_exports exports same_package =
    sort_texts (if same_package then exports.public ++ exports.package_ else exports.public)

abbrev pub or_empty : Option (List ResolvedName) → List ResolvedName
or_empty none = []
or_empty (some rs) = rs

-- `candidates.entry(..).or_default().push(..)`
unfoldable pub push : String → String → String → Candidates → Candidates
unfolding find_text insert_entry
push key m name candidates =
    insert_entry key
      (or_empty (find_text candidates key) ++ (record { module_path = m; name = name } ∷ []))
      candidates

abbrev pub checked {ℓ} : {A : Type ℓ} → Option ResolveError → Outcome A → Outcome A
checked none next = next
checked (some e) next = err e

-- The loops of `build_name_resolver`, one for each kind of import.
unfoldable pub add_referred :
    String → ModuleExports → Bool → List String → Candidates → Outcome Candidates
unfolding validate_visibility push
add_referred m exports same_package [] candidates = ok candidates
add_referred m exports same_package (name ∷ names) candidates =
    checked (validate_visibility m name exports same_package)
      (add_referred m exports same_package names (push name m name candidates))

-- All of the names but the excluded ones.
unfoldable pub add_all : String → List String → List String → Candidates → Candidates
unfolding push has_text
add_all m excluded [] candidates = candidates
add_all m excluded (name ∷ names) candidates =
    add_all m excluded names
      (if has_text excluded name then candidates else push name m name candidates)

unfoldable pub validate_all : String → ModuleExports → Bool → List String → Option ResolveError
unfolding validate_visibility
validate_all m exports same_package [] = none
validate_all m exports same_package (name ∷ names) =
    let rest = validate_all m exports same_package names in
    first (validate_visibility m name exports same_package) rest
  where
    first : Option ResolveError → Option ResolveError → Option ResolveError
    first none rest = rest
    first (some e) rest = some e

unfoldable pub add_renamed :
    String → ModuleExports → Bool → List (String × String) → Candidates → Outcome Candidates
unfolding validate_visibility push
add_renamed m exports same_package [] candidates = ok candidates
add_renamed m exports same_package ((old, new) ∷ renames) candidates =
    checked (validate_visibility m old exports same_package)
      (add_renamed m exports same_package renames (push new m old candidates))

unfoldable pub insert_alias : String → String → ModuleExports → Bool → Aliases → Aliases
unfolding insert_entry
insert_alias a m exports same_package t = record {
  alias_to_module = insert_entry a m t.alias_to_module;
  alias_public_exports = insert_entry a exports.public t.alias_public_exports;
  alias_package_exports = insert_entry a exports.package_ t.alias_package_exports;
  alias_same_package = insert_entry a same_package t.alias_same_package;
}

abbrev pub with_aliases : Aliases → Outcome Candidates → Outcome (Aliases × Candidates)
with_aliases t (ok candidates) = ok (t, candidates)
with_aliases t (err e) = err e
with_aliases t panicked = panicked

-- One import.
unfoldable pub add_import :
    ImportKind
    → String
    → ModuleExports
    → Bool
    → Aliases × Candidates
    → Outcome (Aliases × Candidates)
unfolding insert_alias add_referred add_all validate_all add_renamed visible_exports
add_import (alias a) m exports same_package (t, candidates) =
    ok (insert_alias a m exports same_package t, candidates)
add_import (refer names) m exports same_package (t, candidates) =
    with_aliases t (add_referred m exports same_package names candidates)
add_import all m exports same_package (t, candidates) =
    ok (t, add_all m [] (visible_exports exports same_package) candidates)
add_import (exclude excluded) m exports same_package (t, candidates) =
    checked (validate_all m exports same_package excluded)
      (ok (t, add_all m excluded (visible_exports exports same_package) candidates))
add_import (rename renames) m exports same_package (t, candidates) =
    with_aliases t (add_renamed m exports same_package renames candidates)

infixl 5 ◌>>=◌
abbrev pub ◌>>=◌ {ℓ ℓ'} : {A : Type ℓ} {B : Type ℓ'} → Outcome A → (A → Outcome B) → Outcome B
ok a >>= f = f a
err e >>= f = err e
panicked >>= f = panicked

unfoldable pub add_imports :
    String
    → List (ImportDecl × ModuleExports)
    → Aliases × Candidates
    → Outcome (Aliases × Candidates)
unfolding add_import has_prefix
add_imports package_ [] tables = ok tables
add_imports package_ ((import, exports) ∷ imports) tables =
    add_import import.kind import.module_path exports (has_prefix import.module_path package_)
      tables
    >>= add_imports package_ imports

abbrev pub modules_of : List ResolvedName → List String
modules_of [] = []
modules_of (r ∷ rs) = r.module_path ∷ modules_of rs

abbrev pub entry_of : List ResolvedName → UnqualifiedEntry
entry_of (r ∷ []) = unique r
entry_of rs = ambiguous (sort_texts (modules_of rs))

-- The candidates become unique entries or ambiguous ones.
unfoldable pub collapse : Candidates → List (String × UnqualifiedEntry)
unfolding sort_texts
collapse [] = []
collapse ((name, rs) ∷ candidates) = (name, entry_of rs) ∷ collapse candidates

abbrev pub no_aliases : Aliases
no_aliases = record {
  alias_to_module = [];
  alias_public_exports = [];
  alias_package_exports = [];
  alias_same_package = [];
}

unfoldable pub build_name_resolver :
    String → List (ImportDecl × ModuleExports) → Outcome NameResolver
unfolding add_imports collapse
build_name_resolver package_ imports =
    add_imports package_ imports (no_aliases, []) >>= λ (t, candidates).
    ok (record { aliases = t; unqualified = collapse candidates })
