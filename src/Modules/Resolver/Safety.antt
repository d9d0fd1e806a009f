-- ===== src/Modules/Resolver/Safety.antt =====
-- resolver.rs: what a resolver resolves to.
use nexl.Prelude.{
  Bool, true, false, none, String, List, [], ◌∷◌, ◌++◌, ◌||◌, ◌&&◌, ◌≡◌, refl, ◌∙◌, sym, inl, inr,
  Bool-cases, Option-cases, arith, has_text, find_text, insert_entry, has_text-sort_texts,
  has_text-append, str_eq, str_eq_self,
}
use nexl.Modules.Resolver.{
  ResolvedName, ModuleExports, Outcome, ok, err, panicked, Candidates, validate_visibility,
  visible_exports, or_empty, push, add_referred, add_all, add_renamed,
}

-- A result has the property, and nothing panicked.
abbrev pub Holds {ℓ} : {A : Type ℓ} → (A → Type 0) → Outcome A → Type 0
Holds P (ok a) = P a
Holds P (err e) = Unit
Holds P panicked = ⊥

pub Holds-map {ℓ} :
    {A : Type ℓ} (P Q : A → Type 0) (o : Outcome A) → Holds P o → ((a : A) → P a → Q a) → Holds Q o
Holds-map P Q (ok a) h k = k a h
Holds-map P Q (err e) h k = tt
Holds-map P Q panicked h k = absurd h

-- Whether a module with the exports lets a name be used: the package-private names in the package only.
abbrev pub is_visible : ModuleExports → Bool → String → Bool
is_visible exports same_package name =
    has_text exports.public name || (same_package && has_text exports.package_ name)

abbrev pub named : String → String → ResolvedName
named m name = record { module_path = m; name = name }

validate-visible :
    (m name : String) (exports : ModuleExports) (same_package : Bool)
    → validate_visibility m name exports same_package ≡ none
    → is_visible exports same_package name ≡ true
unfolding validate_visibility
validate-visible m name exports same_package h = ground (arith, h)

visible_exports-visible :
    (exports : ModuleExports) (same_package : Bool) (name : String)
    → has_text (visible_exports exports same_package) name ≡ is_visible exports same_package name
unfolding visible_exports
visible_exports-visible exports true name =
    has_text-sort_texts (exports.public ++ exports.package_) name
    ∙ has_text-append exports.public exports.package_ name
visible_exports-visible exports false name =
    has_text-sort_texts exports.public name ∙ sym (ground arith)

-- Every candidate has a property.
module _ (P : ResolvedName → Type 0) where
  abbrev pub AllOf : List ResolvedName → Type 0
  AllOf [] = Unit
  AllOf (r ∷ rs) = P r × AllOf rs

  abbrev pub AllIn : Candidates → Type 0
  AllIn [] = Unit
  AllIn ((name, rs) ∷ candidates) = AllOf rs × AllIn candidates

  AllOf-snoc : (rs : List ResolvedName) (r : ResolvedName) → AllOf rs → P r → AllOf (rs ++ (r ∷ []))
  AllOf-snoc [] r h p = (p, tt)
  AllOf-snoc (q ∷ rs) r (h, hs) p = (h, AllOf-snoc rs r hs p)

  find_text-AllIn :
      (candidates : Candidates) (key : String)
      → AllIn candidates
      → AllOf (or_empty (find_text candidates key))
  unfolding find_text
  find_text-AllIn [] key h = tt
  find_text-AllIn ((name, rs) ∷ candidates) key (h, hs) = elim (Bool-cases (str_eq name key)) [
    | inl same ↦ rw same h
    | inr other ↦ rw other (find_text-AllIn candidates key hs)
  ]

  insert_entry-AllIn :
      (key : String) (rs : List ResolvedName) (candidates : Candidates)
      → AllOf rs
      → AllIn candidates
      → AllIn (insert_entry key rs candidates)
  unfolding insert_entry
  insert_entry-AllIn key rs [] p h = (p, tt)
  insert_entry-AllIn key rs ((name, qs) ∷ candidates) p (h, hs) =
      elim (Bool-cases (str_eq name key)) [
        | inl same ↦ rw same (p, hs)
        | inr other ↦ rw other (h, insert_entry-AllIn key rs candidates p hs)
      ]

  push-AllIn :
      (key m name : String) (candidates : Candidates)
      → P (named m name)
      → AllIn candidates
      → AllIn (push key m name candidates)
  unfolding push
  push-AllIn key m name candidates p h =
      insert_entry-AllIn key _ candidates
        (AllOf-snoc (or_empty (find_text candidates key)) (named m name)
          (find_text-AllIn candidates key h) p)
        h

  -- What an import's visible names have is kept by its loop.
  module _ (m : String) (exports : ModuleExports) (same_package : Bool)
      (has : (name : String) → is_visible exports same_package name ≡ true → P (named m name)) where
    pub add_referred-AllIn :
        (names : List String) (candidates : Candidates)
        → AllIn candidates
        → Holds AllIn (add_referred m exports same_package names candidates)
    unfolding add_referred
    add_referred-AllIn [] candidates h = h
    add_referred-AllIn (name ∷ names) candidates h =
        elim (Option-cases (validate_visibility m name exports same_package)) [
          | inl valid ↦
              let p = has name (validate-visible m name exports same_package valid) in
              rw valid (add_referred-AllIn names _ (push-AllIn name m name candidates p h))
          | inr (e, refused) ↦ rw refused tt
        ]

    pub add_renamed-AllIn :
        (renames : List (String × String)) (candidates : Candidates)
        → AllIn candidates
        → Holds AllIn (add_renamed m exports same_package renames candidates)
    unfolding add_renamed
    add_renamed-AllIn [] candidates h = h
    add_renamed-AllIn ((old, new) ∷ renames) candidates h =
        elim (Option-cases (validate_visibility m old exports same_package)) [
          | inl valid ↦
              let p = has old (validate-visible m old exports same_package valid) in
              rw valid (add_renamed-AllIn renames _ (push-AllIn new m old candidates p h))
          | inr (e, refused) ↦ rw refused tt
        ]

    add_all-AllIn :
        (excluded names : List String) (candidates : Candidates)
        → ((name : String) → has_text names name ≡ true → P (named m name))
        → AllIn candidates
        → AllIn (add_all m excluded names candidates)
    unfolding add_all has_text
    add_all-AllIn excluded [] candidates each h = h
    add_all-AllIn excluded (name ∷ names) candidates each h =
        add_all-AllIn excluded names _ (λ n e. each n (ground (arith, e)))
          (elim (Bool-cases (has_text excluded name)) [
            | inl out ↦ rw out h
            | inr in_ ↦
                rw in_
                  (push-AllIn name m name candidates (each name (rw (str_eq_self name) refl)) h)
          ])

    pub add_visible-AllIn :
        (excluded : List String) (candidates : Candidates)
        → AllIn candidates
        → AllIn (add_all m excluded (visible_exports exports same_package) candidates)
    add_visible-AllIn excluded candidates h =
        add_all-AllIn excluded (visible_exports exports same_package) candidates
          (λ n e. has n (sym (visible_exports-visible exports same_package n) ∙ e)) h
