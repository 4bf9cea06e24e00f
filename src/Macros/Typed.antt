-- ===== src/Macros/Typed.antt =====
-- The wrapper `__ffi_detour` that `static_detour!` of src/macros.rs generates has the type that was
-- asked for, and calls the closure with its arguments, whatever the tokens are.
use detour_rs.Base.{
  ℕ, zero, suc, ◌≡◌, refl, sym, subst, ap, ◌∙◌, Option, none, some, List, [], ◌∷◌, ◌++◌,
  Option-cases, inl, inr,
}
use Prim.Native.String.{String}
use mathlib.Core.List.{append_assoc}
use detour_rs.Macros.{
  Token, attribute, kw_unsafe, ident, colon, semicolon, Entry, FnPointer, Item, arg_names,
  fn_type_of, Invocation, boot, parse_attributes, parse_access_modifier, parse_name, parse_unsafe,
  parse_calling_convention, parse_prototype, parse_terminator, parse_entries, aggregate,
  argument_names, argument_names_loop, create_detour, generate, Expansion, item, call, calls, rule,
  access_modifier, calling_convention, prototype, zipped, with_first, created,
}
use detour_rs.Macros.Expand.{expand, static_detour, appended}

abbrev names_of : List (String × String) → List String
names_of [] = []
names_of ((name, type) ∷ rest) = name ∷ names_of rest

abbrev types_of : List (String × String) → List String
types_of [] = []
types_of ((name, type) ∷ rest) = type ∷ types_of rest

-- The first of __arg_0 to __arg_13, in their order; no two of these are the same.
abbrev pub AreFirst : List String → Type 0
AreFirst names = (rest : List String) × (names ++ rest ≡ arg_names)

-- The wrapper is of the type of function pointers that the static asks for: its modifier, the types of
-- its arguments and its return type. Its arguments have names of their own, which it passes on.
pub record IsTyped (i : Item) : Type 0 where
  pub modified : i.modifier ≡ i.fn_type.modifier
  pub typed : types_of i.ffi_arguments ≡ i.fn_type.argument_types
  pub returns : i.return_type ≡ i.fn_type.return_type
  pub named : names_of i.ffi_arguments ≡ i.passed_on
  pub first : AreFirst i.passed_on

abbrev pub AllTyped : List Item → Type 0
AllTyped [] = Unit
AllTyped (i ∷ items) = IsTyped i × AllTyped items

abbrev Expands : Option (List Item) → Type 0
Expands none = Unit
Expands (some items) = AllTyped items

abbrev Ready : Invocation → Type 0
Ready (generate i) = IsTyped i
Ready (argument_names e f) = f ≡ fn_type_of e
Ready (argument_names_loop e f names types acc) = (f ≡ fn_type_of e) × (acc ++ names ≡ arg_names)
Ready (create_detour names e f) = (f ≡ fn_type_of e) × AreFirst names
Ready _ = Unit

abbrev Readies : Option Expansion → Type 0
Readies none = Unit
Readies (some (item i)) = IsTyped i
Readies (some (call c)) = Ready c
Readies (some (calls c c')) = Ready c × Ready c'

Created : List String → List String → Option (List (String × String)) → Type 0
Created names types none = Unit
Created names types (some l) = (names_of l ≡ names) × (types_of l ≡ types)

first-Created :
    (name type : String) (names types : List String) (l : Option (List (String × String)))
    → Created names types l
    → Created (name ∷ names) (type ∷ types) (with_first (name, type) l)
unfolding Created
first-Created name type names types none h = tt
first-Created name type names types (some l) h =
    (ap (λ ns. name ∷ ns) h.0, ap (λ ts. type ∷ ts) h.1)

zipped-Created : (names types : List String) → Created names types (zipped names types)
unfolding zipped Created
zipped-Created [] [] = (refl, refl)
zipped-Created [] (type ∷ types) = tt
zipped-Created (name ∷ names) [] = tt
zipped-Created (name ∷ names) (type ∷ types) =
    first-Created name type names types (zipped names types) (zipped-Created names types)

created_ready :
    (e : Entry) (f : FnPointer) (names : List String) (l : Option (List (String × String)))
    → f ≡ fn_type_of e
    → AreFirst names
    → Created names e.argument_types l
    → Readies (created e f names l)
unfolding Created
created_ready e f names none is first h = tt
created_ready e f names (some l) is first h = record {
  modified = ap (λ g. g.modifier) (sym is);
  typed = h.1 ∙ ap (λ g. g.argument_types) (sym is);
  returns = ap (λ g. g.return_type) (sym is);
  named = h.0;
  first = first;
}

rule-Readies : (c : Invocation) → Ready c → Readies (rule c)
unfolding rule
rule-Readies (boot []) h = tt
rule-Readies (boot (t ∷ tokens)) h = tt
rule-Readies (parse_attributes attributes []) h = tt
rule-Readies (parse_attributes attributes (attribute meta ∷ rest)) h = tt
rule-Readies (parse_attributes attributes (t ∷ rest)) h = tt
rule-Readies (parse_access_modifier attributes tokens) h =
    elim (Option-cases (access_modifier tokens)) [
      | inl e ↦ rw (rule, e) tt
      | inr (x, e) ↦ rw (rule, e) tt
    ]
rule-Readies (parse_name attributes v (ident name ∷ colon ∷ rest)) h = tt
rule-Readies (parse_name attributes v _) h = tt
rule-Readies (parse_unsafe attributes v name (kw_unsafe ∷ rest)) h = tt
rule-Readies (parse_unsafe attributes v name _) h = tt
rule-Readies (parse_calling_convention attributes v name u tokens) h =
    elim (Option-cases (calling_convention tokens)) [
      | inl e ↦ rw (rule, e) tt
      | inr (x, e) ↦ rw (rule, e) tt
    ]
rule-Readies (parse_prototype attributes v name m tokens) h =
    elim (Option-cases (prototype tokens)) [
      | inl e ↦ rw (rule, e) tt
      | inr (x, e) ↦ rw (rule, e) tt
    ]
rule-Readies (parse_terminator e (semicolon ∷ rest)) h = tt
rule-Readies (parse_terminator e _) h = tt
rule-Readies (parse_entries e []) h = tt
rule-Readies (parse_entries e (t ∷ tokens)) h = (tt, tt)
rule-Readies (aggregate e) h = refl
rule-Readies (argument_names e f) h = (h, refl)
rule-Readies (argument_names_loop e f (name ∷ names) (type ∷ types) acc) (is, all) =
    (is, append_assoc acc (name ∷ []) names ∙ all)
rule-Readies (argument_names_loop e f [] [] acc) (is, all) = (is, ([], all))
rule-Readies (argument_names_loop e f (name ∷ names) [] acc) (is, all) = (is, (name ∷ names, all))
rule-Readies (argument_names_loop e f [] (type ∷ types) acc) h = tt
rule-Readies (create_detour names e f) (is, first) =
    created_ready e f names (zipped names e.argument_types) is first
      (zipped-Created names e.argument_types)
rule-Readies (generate i) h = h

AllTyped-append : (xs ys : List Item) → AllTyped xs → AllTyped ys → AllTyped (xs ++ ys)
AllTyped-append [] ys h k = k
AllTyped-append (x ∷ xs) ys h k = (h.0, AllTyped-append xs ys h.1 k)

appended-Expands : (r r' : Option (List Item)) → Expands r → Expands r' → Expands (appended r r')
appended-Expands none r' h k = tt
appended-Expands (some xs) none h k = tt
appended-Expands (some xs) (some ys) h k = AllTyped-append xs ys h k

-- One call, given the calls that it expands to.
expanded :
    (limit : ℕ) (c : Invocation) (r : Option Expansion)
    → rule c ≡ r
    → Readies r
    → ((c' : Invocation) → Ready c' → Expands (expand limit c'))
    → Expands (expand (suc limit) c)
unfolding expand
expanded limit c none e h ih = rw (expand, e) tt
expanded limit c (some (item i)) e h ih = rw (expand, e) (h, tt)
expanded limit c (some (call c')) e h ih = rw (expand, e) (ih c' h)
expanded limit c (some (calls c' c'')) e h ih =
    rw (expand, e) (appended-Expands (expand limit c') (expand limit c'') (ih c' h.0) (ih c'' h.1))

expand-Expands : (limit : ℕ) (c : Invocation) → Ready c → Expands (expand limit c)
unfolding expand
expand-Expands zero c h = tt
expand-Expands (suc limit) c h =
    expanded limit c (rule c) refl (rule-Readies c h) (λ c' h'. expand-Expands limit c' h')

-- Whatever the tokens of a block and the limit are, each static that it expands to has a wrapper of the
-- type of function pointers that the static asks for: with its modifier, with arguments of its types in
-- their order, and with its return type. The arguments are named by the first of __arg_0 to __arg_13 in
-- their order, so each has a name of its own, and the wrapper passes on all of them in their order.
pub static_detour-AllTyped :
    (limit : ℕ) (tokens : List Token) (items : List Item)
    → static_detour limit tokens ≡ some items
    → AllTyped items
unfolding static_detour
static_detour-AllTyped limit tokens items e =
    subst Expands e (expand-Expands limit (boot tokens) tt)
