-- ===== src/Macros.antt =====
-- src/macros.rs: the macro `static_detour!`, whose rules read the tokens of a block from the left and
-- hand what they have read to one another, and `impl_hookable!` (Macros/Hookable). A piece that rustc
-- itself reads (an attribute, a path, a type, the types between the parentheses of a prototype) is one
-- token here.
pub mod Syntax
pub mod Expand
pub mod Printed
pub mod Front
pub mod Expanded
pub mod Refused
pub mod Typed
pub mod Hookable
pub mod Implemented
pub mod Tests
use detour_rs.Base.{
  ℕ, suc, Bool, true, false, not, ◌&&◌, Option, none, some, List, [], ◌∷◌, ◌++◌, if◌then◌else◌,
}
use Prim.Native.String.{String}
pub use Syntax.*

-- __arg_0 to __arg_13
abbrev pub arg_names : List String
arg_names =
    "__arg_0" ∷ "__arg_1" ∷ "__arg_2" ∷ "__arg_3" ∷ "__arg_4" ∷ "__arg_5" ∷ "__arg_6" ∷ "__arg_7"
    ∷ "__arg_8" ∷ "__arg_9" ∷ "__arg_10" ∷ "__arg_11" ∷ "__arg_12" ∷ "__arg_13" ∷ []

-- pub(in $vis:path) static, pub($vis:tt) static, pub static, or static.
unfoldable pub access_modifier : List Token → Option (Visibility × List Token)
access_modifier (kw_pub ∷ in_path path ∷ kw_static ∷ rest) = some (within path, rest)
access_modifier (kw_pub ∷ scope vis ∷ kw_static ∷ rest) = some (restricted vis, rest)
access_modifier (kw_pub ∷ kw_static ∷ rest) = some (public, rest)
access_modifier (kw_static ∷ rest) = some (inherited, rest)
access_modifier _ = none

-- extern $cc:tt fn, or extern fn
unfoldable pub after_extern : List Token → Option (Convention × List Token)
after_extern (t ∷ u ∷ rest) =
    if is_tt t && is_fn u
    then some (extern_cc t, rest)
    else if is_fn t
    then some (extern_default, u ∷ rest)
    else none
after_extern (t ∷ []) = if is_fn t then some (extern_default, []) else none
after_extern [] = none

unfoldable pub calling_convention : List Token → Option (Convention × List Token)
unfolding after_extern
calling_convention (kw_extern ∷ rest) = after_extern rest
calling_convention (kw_fn ∷ rest) = some (rust, rest)
calling_convention _ = none

-- The argument types, the return type, and what follows them: a semicolon where there is an arrow.
unfoldable pub prototype : List Token → Option (List String × String × List Token)
prototype (parameters types ∷ arrow ∷ ty type ∷ semicolon ∷ rest) =
    some (types, type, semicolon ∷ rest)
prototype (parameters types ∷ rest) = some (types, "()", rest)
prototype _ = none

abbrev pub with_first :
    String × String → Option (List (String × String)) → Option (List (String × String))
with_first x none = none
with_first x (some rest) = some (x ∷ rest)

-- $($argument_name: $argument_type),* repeats the two together, which have to be as many.
unfoldable pub zipped : List String → List String → Option (List (String × String))
zipped [] [] = some []
zipped (name ∷ names) (type ∷ types) = with_first (name, type) (zipped names types)
zipped _ _ = none

abbrev pub created :
    Entry → FnPointer → (names : List String) → Option (List (String × String)) → Option Expansion
created e f names none = none
created e f names (some arguments) = some (
    call (
      generate (record {
        attributes = e.attributes;
        visibility = e.visibility;
        name = e.name;
        fn_type = f;
        modifier = e.modifier;
        ffi_arguments = arguments;
        return_type = e.return_type;
        passed_on = names;
      })))

-- The rule that matches a call; `none` where only the last one does, which matches anything.
unfoldable pub rule : Invocation → Option Expansion
unfolding access_modifier calling_convention prototype zipped
rule (boot []) = none
rule (boot (t ∷ tokens)) = some (call (parse_attributes [] (t ∷ tokens)))
rule (parse_attributes attributes (attribute meta ∷ rest)) =
    some (call (parse_attributes (attributes ++ (meta ∷ [])) rest))
rule (parse_attributes attributes []) = none
rule (parse_attributes attributes (t ∷ rest)) =
    some (call (parse_access_modifier attributes (t ∷ rest)))
rule (parse_access_modifier attributes tokens) = elim (access_modifier tokens) [
  | none ↦ none
  | some (visibility, rest) ↦ some (call (parse_name attributes visibility rest))
]
rule (parse_name attributes visibility (ident name ∷ colon ∷ rest)) =
    some (call (parse_unsafe attributes visibility name rest))
rule (parse_name attributes visibility _) = none
rule (parse_unsafe attributes visibility name (kw_unsafe ∷ rest)) =
    some (call (parse_calling_convention attributes visibility name true rest))
rule (parse_unsafe attributes visibility name rest) =
    some (call (parse_calling_convention attributes visibility name false rest))
rule (parse_calling_convention attributes visibility name is_unsafe tokens) =
    elim (calling_convention tokens) [
      | none ↦ none
      | some (convention, rest) ↦
          let modifier : Modifier = record { is_unsafe = is_unsafe; convention = convention } in
          some (call (parse_prototype attributes visibility name modifier rest))
    ]
rule (parse_prototype attributes visibility name modifier tokens) = elim (prototype tokens) [
  | none ↦ none
  | some (types, type, rest) ↦
      let e : Entry = record {
        attributes = attributes;
        visibility = visibility;
        name = name;
        modifier = modifier;
        argument_types = types;
        return_type = type;
      } in
      some (call (parse_terminator e rest))
]
rule (parse_terminator e (semicolon ∷ rest)) = some (call (parse_entries e rest))
rule (parse_terminator e _) = none
rule (parse_entries e []) = some (call (aggregate e))
rule (parse_entries e (t ∷ rest)) = some (calls (aggregate e) (boot (t ∷ rest)))
rule (aggregate e) = some (call (argument_names e (fn_type_of e)))
rule (argument_names e f) = some (call (argument_names_loop e f arg_names (e.argument_types) []))
rule (argument_names_loop e f (name ∷ names) (type ∷ types) acc) =
    some (call (argument_names_loop e f names types (acc ++ (name ∷ []))))
rule (argument_names_loop e f names [] acc) = some (call (create_detour acc e f))
rule (argument_names_loop e f [] (type ∷ types) acc) = none
rule (create_detour names e f) = created e f names (zipped names e.argument_types)
rule (generate made) = some (item made)
