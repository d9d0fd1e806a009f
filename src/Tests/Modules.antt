-- ===== src/Tests/Modules.antt =====
-- Tests of crates/nexl-modules/src/resolver.rs.
use nexl.Prelude.{none, false, List, [], ◌∷◌, ◌≡◌, refl}
use nexl.Modules.{all, alias, rename, ImportDecl}
use nexl.Modules.Graph.{ModuleInfo, graph, build_module_graph, Says, build_module_graph-Says}
use nexl.Modules.Resolver.{
  ModuleExports, NameResolver, ok, err, unique, package_private_not_visible, build_name_resolver,
  resolve_qualified, resolve_unqualified,
}
use nexl.Modules.Resolver.Safety.{Holds}
use nexl.Modules.Resolver.Visibility.{IsVisible}
use nexl.Modules.Resolver.Qualified.{last_import, answer, resolve_qualified-answer}
use nexl.Modules.Resolver.Resolution.{resolve_unqualified-IsVisible, resolve_qualified-IsVisible}

abbrev http : ModuleExports
http = record { public = "get" ∷ "post" ∷ []; package_ = "socket" ∷ [] }

abbrev two_imports : List (ImportDecl × ModuleExports)
two_imports =
    (record { module_path = "lib.http"; kind = alias "h" }, http)
    ∷ (record { module_path = "app.util"; kind = rename (("socket", "sock") ∷ []) }, http)
    ∷ []

abbrev resolver : NameResolver
resolver = record {
  aliases = record {
    alias_to_module = ("h", "lib.http") ∷ [];
    alias_public_exports = ("h", http.public) ∷ [];
    alias_package_exports = ("h", http.package_) ∷ [];
    alias_same_package = ("h", false) ∷ [];
  };
  unqualified = ("sock", unique (record { module_path = "app.util"; name = "socket" })) ∷ [];
}

build_two : build_name_resolver "app" two_imports ≡ ok resolver
unfolding build_name_resolver
build_two = refl

bare_name :
    resolve_unqualified resolver "sock" ≡ ok (record { module_path = "app.util"; name = "socket" })
unfolding resolve_unqualified
bare_name = refl

private_name :
    resolve_qualified resolver "h" "socket" ≡ err (package_private_not_visible "lib.http" "socket")
unfolding resolve_qualified
private_name = refl

resolve_unqualified-IsVisible_example :
    Holds (IsVisible "app" two_imports) (resolve_unqualified resolver "sock")
resolve_unqualified-IsVisible_example =
    resolve_unqualified-IsVisible "app" two_imports resolver build_two "sock"

resolve_qualified-IsVisible_example :
    Holds
      (λ q. IsVisible "app" two_imports q × (q.name ≡ "get"))
      (resolve_qualified resolver "h" "get")
resolve_qualified-IsVisible_example =
    resolve_qualified-IsVisible "app" two_imports resolver build_two "h" "get"

resolve_qualified-answer_example :
    resolve_qualified resolver "h" "socket"
    ≡ answer "h" "socket" (last_import "app" "h" two_imports none)
resolve_qualified-answer_example =
    resolve_qualified-answer "app" two_imports resolver build_two "h" "socket"

abbrev two_modules : List ModuleInfo
two_modules =
    (record { name = "app"; imports = (record { module_path = "app.util"; kind = all }) ∷ [] })
    ∷ (record { name = "app.util"; imports = [] })
    ∷ []

built_two :
    build_module_graph two_modules
    ≡ graph (record { edges = ("app", "app.util" ∷ []) ∷ ("app.util", []) ∷ [] })
unfolding build_module_graph
built_two = refl

build_module_graph-Says_example : Says two_modules (build_module_graph two_modules)
build_module_graph-Says_example = build_module_graph-Says two_modules
