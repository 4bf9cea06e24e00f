-- ===== src/Macros/Tests.antt =====
-- Concrete blocks of `static_detour!`, and an instance of `impl_hookable!`, of src/macros.rs.
use detour_rs.Base.{
  ℕ, ◌≤◌, ◌≡◌, ◌↔◌, refl, true, false, Option, none, some, List, [], ◌∷◌, map, take, leb,
  if◌then◌else◌, arith,
}
use Prim.Native.String.{String}
use detour_rs.Arch.{x86_64}
use detour_rs.Macros.{
  kw_pub, kw_static, kw_unsafe, kw_extern, kw_fn, scope, ident, literal, colon, semicolon,
  parameters, rule, inherited, public, restricted, rust, extern_cc,
}
use detour_rs.Macros.Expand.{static_detour}
use detour_rs.Macros.Printed.{Written, print, depth, item_of}
use detour_rs.Macros.Expanded.{static_detour-print}
use detour_rs.Macros.Refused.{static_detour-refuses}
use detour_rs.Macros.Typed.{AllTyped, static_detour-AllTyped}
use detour_rs.Macros.Hookable.{function, impl_hookable, conventions}
use detour_rs.Macros.Implemented.{Has, Wanted, impl_hookable_iff}

-- static Foo: fn();
abbrev foo : Written
foo = record {
  attributes = [];
  visibility = inherited;
  name = "Foo";
  modifier = record { is_unsafe = false; convention = rust };
  argument_types = [];
  return_type = none;
}

-- pub static PubFoo: unsafe extern "C" fn(i32) -> i32;
abbrev pub_foo : Written
pub_foo = record {
  attributes = "doc" ∷ [];
  visibility = public;
  name = "PubFoo";
  modifier = record { is_unsafe = true; convention = extern_cc (literal "C") };
  argument_types = "i32" ∷ [];
  return_type = some "i32";
}

abbrev fifteen : List String
fifteen =
    "u8" ∷ "u8" ∷ "u8" ∷ "u8" ∷ "u8" ∷ "u8" ∷ "u8" ∷ "u8" ∷ "u8" ∷ "u8" ∷ "u8" ∷ "u8" ∷ "u8" ∷ "u8"
    ∷ "u8" ∷ []

-- The example of the macro's documentation.
documented :
    static_detour 128 (
      kw_static
      ∷ ident "Foo"
      ∷ colon
      ∷ kw_fn
      ∷ parameters []
      ∷ semicolon
      ∷ kw_pub
      ∷ scope "crate"
      ∷ kw_static
      ∷ ident "PubSelf"
      ∷ colon
      ∷ kw_unsafe
      ∷ kw_extern
      ∷ literal "C"
      ∷ kw_fn
      ∷ parameters []
      ∷ semicolon
      ∷ [])
    ≡ some (
        item_of foo
        ∷ item_of (record foo {
          visibility = restricted "crate";
          name = "PubSelf";
          modifier = record { is_unsafe = true; convention = extern_cc (literal "C") };
        })
        ∷ [])
unfolding static_detour rule
documented = refl

static_detour-print_example : static_detour 128 (print (foo ∷ pub_foo ∷ [])) ≡ (
    if leb (depth (foo ∷ pub_foo ∷ [])) 128 then some (map item_of (foo ∷ pub_foo ∷ [])) else none)
static_detour-print_example =
    static_detour-print 128 foo (pub_foo ∷ []) ((tt, omega arith), ((refl, omega arith), tt))

static_detour-refuses_example :
    static_detour 128 (print (foo ∷ record foo { argument_types = fifteen } ∷ [])) ≡ none
static_detour-refuses_example =
    static_detour-refuses 128 (foo ∷ []) (record foo { argument_types = fifteen }) [] (tt, (tt, tt))
      (omega arith)

expanded : static_detour 128 (print (pub_foo ∷ [])) ≡ some (item_of pub_foo ∷ [])
unfolding static_detour print rule
expanded = refl

static_detour-AllTyped_example : AllTyped (item_of pub_foo ∷ [])
static_detour-AllTyped_example =
    static_detour-AllTyped 128 (print (pub_foo ∷ [])) (item_of pub_foo ∷ []) expanded

impl_hookable_iff_example :
    Has
      (function (record { is_unsafe = false; convention = some "win64"; types = "A" ∷ [] }))
      (impl_hookable x86_64 true ("A" ∷ "B" ∷ []))
    ↔ ((n : ℕ) × (n ≤ 2)
        × ((c : Option String) × Has c (conventions x86_64 true)
            × Wanted x86_64 true (take n ("A" ∷ "B" ∷ [])) c (
                function
                  (record { is_unsafe = false; convention = some "win64"; types = "A" ∷ [] }))))
impl_hookable_iff_example =
    impl_hookable_iff x86_64 true ("A" ∷ "B" ∷ [])
      (function (record { is_unsafe = false; convention = some "win64"; types = "A" ∷ [] }))
