-- ===== src/Modules/Resolver/Visibility.antt =====
-- resolver.rs: a resolver resolves to visible names of the imported modules only, and never panics.
use mathlib.Core.Path.{subst}
use nexl.Prelude.{
  Bool, true, Option, none, some, String, List, [], ◌∷◌, ◌≡◌, refl, ◌∙◌, inl, inr, In, Bool-cases,
  arith, find_text, find_text-insert_entry, str_eq,
}
use nexl.Modules.{ImportKind, alias, refer, exclude, rename, all, ImportDecl, has_prefix}
use nexl.Modules.Resolver.{
  ResolvedName, ModuleExports, ResolveError, Outcome, ok, err, panicked, Candidates, Aliases,
  from_entry, checked, validate_all, insert_alias, with_aliases, add_import, ◌>>=◌, add_imports,
  entry_of, collapse,
}
use nexl.Modules.Resolver.Safety.{
  Holds, is_visible, named, AllOf, AllIn, add_referred-AllIn, add_renamed-AllIn, add_visible-AllIn,
}

-- The name is one that some import's module lets its importer use.
abbrev pub IsVisible : String → List (ImportDecl × ModuleExports) → ResolvedName → Type 0
IsVisible home imports r =
    (import : ImportDecl) × (exports : ModuleExports) × In (import, exports) imports
    × (r.module_path ≡ import.module_path)
    × (is_visible exports (has_prefix import.module_path home) r.name ≡ true)

-- What an alias stands for, if anything: the four tables have it, and tell the same import of it.
abbrev pub Stands : (String → ModuleExports → Bool → Type 0) → Aliases → String → Type 0
Stands K t a =
    (m : String)
    → find_text t.alias_to_module a ≡ some m
    → (exports : ModuleExports) × (same_package : Bool) × K m exports same_package
      × (find_text t.alias_public_exports a ≡ some exports.public)
      × (find_text t.alias_package_exports a ≡ some exports.package_)
      × (find_text t.alias_same_package a ≡ some same_package)

insert_alias-Stands :
    (K : String → ModuleExports → Bool → Type 0) (a m : String) (exports : ModuleExports)
    (same_package : Bool) (t : Aliases)
    → K m exports same_package
    → ((b : String) → Stands K t b)
    → (b : String) → Stands K (insert_alias a m exports same_package t) b
unfolding insert_alias
insert_alias-Stands K a m exports same_package t k h b m' at = elim (Bool-cases (str_eq a b)) [
  | inl same ↦
      let m-is : m ≡ m' =
        ground (arith, same, at, find_text-insert_entry a m t.alias_to_module b) in
      (
        exports,
        same_package,
        subst (λ x. K x exports same_package) m-is k,
        find_text-insert_entry a exports.public t.alias_public_exports b ∙ rw same refl,
        find_text-insert_entry a exports.package_ t.alias_package_exports b ∙ rw same refl,
        find_text-insert_entry a same_package t.alias_same_package b ∙ rw same refl,
      )
  | inr other ↦
      let at' : find_text t.alias_to_module b ≡ some m' =
        ground (arith, other, at, find_text-insert_entry a m t.alias_to_module b) in
      let (exports', same', k', p, q, r) = h b m' at' in
      (
        exports',
        same',
        k',
        find_text-insert_entry a exports.public t.alias_public_exports b ∙ rw other p,
        find_text-insert_entry a exports.package_ t.alias_package_exports b ∙ rw other q,
        find_text-insert_entry a same_package t.alias_same_package b ∙ rw other r,
      )
]

-- Where every import that is added is known, and its visible names have a property.
module _ (P : ResolvedName → Type 0) (K : String → ModuleExports → Bool → Type 0) where
  abbrev pub IsGood : Aliases × Candidates → Type 0
  IsGood (t, candidates) = ((a : String) → Stands K t a) × AllIn P candidates

  abbrev pub Allows : String → ModuleExports → Bool → Type 0
  Allows m exports same_package =
      K m exports same_package
      × ((name : String) → is_visible exports same_package name ≡ true → P (named m name))

  with_aliases-Good :
      (t : Aliases) (candidates : Outcome Candidates)
      → ((a : String) → Stands K t a)
      → Holds (AllIn P) candidates
      → Holds IsGood (with_aliases t candidates)
  with_aliases-Good t (ok candidates) h k = (h, k)
  with_aliases-Good t (err e) h k = tt
  with_aliases-Good t panicked h k = absurd k

  checked-Holds :
      (o : Option ResolveError) (next : Outcome (Aliases × Candidates))
      → Holds IsGood next
      → Holds IsGood (checked o next)
  checked-Holds none next h = h
  checked-Holds (some e) next h = tt

  add_import-Good :
      (kind : ImportKind) (m : String) (exports : ModuleExports) (same_package : Bool)
      (tables : Aliases × Candidates)
      → Allows m exports same_package
      → IsGood tables
      → Holds IsGood (add_import kind m exports same_package tables)
  unfolding add_import
  add_import-Good (alias a) m exports same_package (t, candidates) (k, has) (h, c) =
      (insert_alias-Stands K a m exports same_package t k h, c)
  add_import-Good (refer names) m exports same_package (t, candidates) (k, has) (h, c) =
      with_aliases-Good t _ h (add_referred-AllIn P m exports same_package has names candidates c)
  add_import-Good all m exports same_package (t, candidates) (k, has) (h, c) =
      (h, add_visible-AllIn P m exports same_package has [] candidates c)
  add_import-Good (exclude excluded) m exports same_package (t, candidates) (k, has) (h, c) =
      checked-Holds (validate_all m exports same_package excluded) _
        (h, add_visible-AllIn P m exports same_package has excluded candidates c)
  add_import-Good (rename renames) m exports same_package (t, candidates) (k, has) (h, c) =
      with_aliases-Good t _ h (add_renamed-AllIn P m exports same_package has renames candidates c)

  then-Good :
      (o : Outcome (Aliases × Candidates))
      (f : Aliases × Candidates → Outcome (Aliases × Candidates))
      → Holds IsGood o
      → ((x : Aliases × Candidates) → IsGood x → Holds IsGood (f x))
      → Holds IsGood (o >>= f)
  then-Good (ok x) f h k = k x h
  then-Good (err e) f h k = tt
  then-Good panicked f h k = absurd h

  pub add_imports-Good :
      (home : String) (imports : List (ImportDecl × ModuleExports)) (tables : Aliases × Candidates)
      → ((import : ImportDecl) (exports : ModuleExports)
          → In (import, exports) imports
          → Allows import.module_path exports (has_prefix import.module_path home))
      → IsGood tables
      → Holds IsGood (add_imports home imports tables)
  unfolding add_imports
  add_imports-Good home [] tables each h = h
  add_imports-Good home ((import, exports) ∷ imports) tables each h =
      then-Good _ (add_imports home imports)
        (add_import-Good import.kind import.module_path exports (has_prefix import.module_path home)
          tables (each import exports (inl refl)) h)
        (λ x good. add_imports-Good home imports x (λ i e at. each i e (inr at)) good)

  entry_of-Holds :
      (name : String) (rs : List ResolvedName)
      → AllOf P rs
      → Holds P (from_entry name (some (entry_of rs)))
  entry_of-Holds name [] h = tt
  entry_of-Holds name (r ∷ []) (h, hs) = h
  entry_of-Holds name (r ∷ q ∷ rs) h = tt

  pub collapse-Holds :
      (candidates : Candidates) (name : String)
      → AllIn P candidates
      → Holds P (from_entry name (find_text (collapse candidates) name))
  unfolding collapse find_text
  collapse-Holds [] name h = tt
  collapse-Holds ((key, rs) ∷ candidates) name (h, hs) = elim (Bool-cases (str_eq key name)) [
    | inl same ↦ rw same (entry_of-Holds name rs h)
    | inr other ↦ rw other (collapse-Holds candidates name hs)
  ]
