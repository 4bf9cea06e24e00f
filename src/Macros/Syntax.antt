-- ===== src/Macros/Syntax.antt =====
-- What the rules of `static_detour!` of src/macros.rs read and hand to one another: tokens, what is read
-- of an entry, and the calls of the macro.
use detour_rs.Base.{Bool, true, false, List}
use Prim.Native.String.{String}

pub data Token : Type 0 where
  attribute : (meta : String) → Token  -- #[meta]
  kw_pub kw_static kw_unsafe kw_extern kw_fn : Token
  in_path : (path : String) → Token  -- (in path)
  scope : (vis : String) → Token  -- (crate), (self) or (super)
  ident : (name : String) → Token
  literal : (text : String) → Token
  colon arrow semicolon : Token
  parameters : (types : List String) → Token  -- (type, type)
  ty : (type : String) → Token

-- One token tree, which `tt` matches; the other tokens are several.
abbrev pub is_tt : Token → Bool
is_tt (attribute meta) = false
is_tt (ty type) = false
is_tt _ = true

abbrev pub is_fn : Token → Bool
is_fn kw_fn = true
is_fn _ = false

pub data Visibility : Type 0 where
  inherited public : Visibility
  restricted : (vis : String) → Visibility
  within : (path : String) → Visibility

pub data Convention : Type 0 where
  rust : Convention
  extern_default : Convention
  extern_cc : (cc : Token) → Convention

-- $($modifier:tt)*
pub record Modifier : Type 0 where
  pub is_unsafe : Bool
  pub convention : Convention

-- $fn_type: the type of function pointers $($modifier)* fn ($($argument_type),*) -> $return_type.
pub record FnPointer : Type 0 where
  pub modifier : Modifier
  pub argument_types : List String
  pub return_type : String

-- What @aggregate takes.
pub record Entry : Type 0 where
  pub attributes : List String
  pub visibility : Visibility
  pub name : String
  pub modifier : Modifier
  pub argument_types : List String
  pub return_type : String

abbrev pub fn_type_of : Entry → FnPointer
fn_type_of e = record {
  modifier = e.modifier;
  argument_types = e.argument_types;
  return_type = e.return_type;
}

-- The item that @create_detour makes: the static, of type StaticDetour<fn_type>, with the function
-- __ffi_detour inside: its modifier, its arguments by name and type, its return type, and the names
-- that it passes on.
pub record Item : Type 0 where
  pub attributes : List String
  pub visibility : Visibility
  pub name : String
  pub fn_type : FnPointer
  pub modifier : Modifier
  pub ffi_arguments : List (String × String)
  pub return_type : String
  pub passed_on : List String

-- A call of the macro, by the rule that its label asks for. `boot` is one without a label.
pub data Invocation : Type 0 where
  boot : List Token → Invocation
  parse_attributes : (attributes : List String) → List Token → Invocation
  parse_access_modifier : (attributes : List String) → List Token → Invocation
  parse_name : (attributes : List String) → Visibility → List Token → Invocation
  parse_unsafe : (attributes : List String) → Visibility → (name : String) → List Token → Invocation
  parse_calling_convention :
      (attributes : List String)
      → Visibility
      → (name : String) → (is_unsafe : Bool) → List Token
      → Invocation
  parse_prototype :
      (attributes : List String) → Visibility → (name : String) → Modifier → List Token → Invocation
  parse_terminator : Entry → List Token → Invocation
  parse_entries : Entry → List Token → Invocation
  aggregate : Entry → Invocation
  argument_names : Entry → FnPointer → Invocation
  argument_names_loop : Entry → FnPointer → (names types acc : List String) → Invocation
  create_detour : (names : List String) → Entry → FnPointer → Invocation
  generate : Item → Invocation

-- What a rule expands to.
pub data Expansion : Type 0 where
  item : Item → Expansion
  call : Invocation → Expansion
  calls : Invocation → Invocation → Expansion
