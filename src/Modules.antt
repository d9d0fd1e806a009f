-- ===== src/Modules.antt =====
-- crates/nexl-modules: how the names of a module's imports resolve. The paths of source files are
-- not modelled.
pub mod Graph
pub mod Resolver
use nexl.Prelude.{
  ℕ, Bool, true, false, Option, none, some, String, List, ◌||◌, str_eq, if◌then◌else◌,
}
use Prim.Native.String.{len}
use text.Mathlib.Text.{starts_with, get?}

-- crates/nexl-ast/src/module.rs
pub data ImportKind : Type 0 where
  alias : String → ImportKind
  refer : List String → ImportKind
  exclude : List String → ImportKind
  rename : List (String × String) → ImportKind
  all : ImportKind

pub record ImportDecl : Type 0 where
  pub module_path : String
  pub kind : ImportKind

-- `str::strip_prefix`
abbrev strip_prefix : String → String → Option String
strip_prefix s p = if starts_with s p then get? s (len p) (len s) else none

abbrev dot_next : Option String → Bool
dot_next none = false
dot_next (some rest) = starts_with rest "."

unfoldable pub has_prefix : String → String → Bool
has_prefix module_path prefix_ =
    str_eq module_path prefix_ || dot_next (strip_prefix module_path prefix_)
