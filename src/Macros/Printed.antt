-- ===== src/Macros/Printed.antt =====
-- A block of `static_detour!` of src/macros.rs as it is written: the tokens of its entries, what each
-- entry is to become, and how deep its expansion goes.
use detour_rs.Base.{
  ℕ, ◌+◌, ◌≤◌, ◌≡◌, Bool, true, false, Option, none, some, List, [], ◌∷◌, length, take, max,
}
use Prim.Native.String.{String}
use detour_rs.Macros.{
  Token, attribute, kw_pub, kw_static, kw_unsafe, kw_extern, kw_fn, in_path, scope, ident, colon,
  arrow, semicolon, parameters, ty, is_tt, Visibility, inherited, public, restricted, within,
  Convention, rust, extern_default, extern_cc, Modifier, Entry, Item, arg_names,
}

-- [pub] static NAME: [unsafe] [extern "cc"] fn([argument]...) [-> ret];
pub record Written : Type 0 where
  pub attributes : List String
  pub visibility : Visibility
  pub name : String
  pub modifier : Modifier
  pub argument_types : List String
  pub return_type : Option String

abbrev pub print_attributes : List String → List Token → List Token
print_attributes [] rest = rest
print_attributes (meta ∷ metas) rest = attribute meta ∷ print_attributes metas rest

abbrev pub print_visibility : Visibility → List Token → List Token
print_visibility inherited rest = rest
print_visibility public rest = kw_pub ∷ rest
print_visibility (restricted vis) rest = kw_pub ∷ scope vis ∷ rest
print_visibility (within path) rest = kw_pub ∷ in_path path ∷ rest

abbrev pub print_unsafe : Bool → List Token → List Token
print_unsafe true rest = kw_unsafe ∷ rest
print_unsafe false rest = rest

abbrev pub print_convention : Convention → List Token → List Token
print_convention rust rest = rest
print_convention extern_default rest = kw_extern ∷ rest
print_convention (extern_cc cc) rest = kw_extern ∷ cc ∷ rest

abbrev pub print_return : Option String → List Token → List Token
print_return none rest = rest
print_return (some type) rest = arrow ∷ ty type ∷ rest

abbrev pub print_prototype : Written → List Token → List Token
print_prototype w rest =
    parameters (w.argument_types) ∷ print_return w.return_type (semicolon ∷ rest)

abbrev pub print_function : Written → List Token → List Token
print_function w rest = print_convention w.modifier.convention (kw_fn ∷ print_prototype w rest)

abbrev pub print_static : Written → List Token → List Token
print_static w rest =
    print_visibility w.visibility (
      kw_static
      ∷ ident (w.name)
      ∷ colon
      ∷ print_unsafe w.modifier.is_unsafe (print_function w rest))

-- The tokens of an entry, and then the rest.
unfoldable pub print_entry : Written → List Token → List Token
print_entry w rest = print_attributes w.attributes (print_static w rest)

unfoldable pub print : List Written → List Token
unfolding print_entry
print [] = []
print (w ∷ ws) = print_entry w (print ws)

-- A return type that is not written is the unit.
abbrev pub return_of : Option String → String
return_of none = "()"
return_of (some type) = type

abbrev pub entry_of : Written → Entry
entry_of w = record {
  attributes = w.attributes;
  visibility = w.visibility;
  name = w.name;
  modifier = w.modifier;
  argument_types = w.argument_types;
  return_type = return_of w.return_type;
}

abbrev pub paired : List String → List String → List (String × String)
paired (name ∷ names) (type ∷ types) = (name, type) ∷ paired names types
paired _ _ = []

-- The item that an entry stands for: the static and its wrapper have the modifier, the types and the
-- return type that were written, each argument of the wrapper has its own name, and all are passed on in
-- their order.
abbrev pub item_of : Written → Item
item_of w =
    let names = take (length w.argument_types) arg_names in
    record {
      attributes = w.attributes;
      visibility = w.visibility;
      name = w.name;
      fn_type = record {
        modifier = w.modifier;
        argument_types = w.argument_types;
        return_type = return_of w.return_type;
      };
      modifier = w.modifier;
      ffi_arguments = paired names w.argument_types;
      return_type = return_of w.return_type;
      passed_on = names;
    }

abbrev pub IsConvention : Convention → Type 0
IsConvention (extern_cc cc) = is_tt cc ≡ true
IsConvention _ = Unit

-- The calling convention is one token, and there is a name for each argument.
abbrev pub IsAllowed : Written → Type 0
IsAllowed w = IsConvention w.modifier.convention × (length w.argument_types ≤ 14)

abbrev pub AllAllowed : List Written → Type 0
AllAllowed [] = Unit
AllAllowed (w ∷ ws) = IsAllowed w × AllAllowed ws

-- How many calls stand inside one another: nine for an entry and one for each attribute, and then
-- those of its item, five and one for each argument, or those of the entries that follow.
unfoldable pub depth : List Written → ℕ
depth [] = 0
depth (w ∷ ws) = length w.attributes + 9 + max (length w.argument_types + 5) (depth ws)
