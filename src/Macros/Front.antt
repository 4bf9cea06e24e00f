-- ===== src/Macros/Front.antt =====
-- How the rules of `static_detour!` in src/macros.rs read one entry from the front of a block.
use detour_rs.Base.{
  ℕ, suc, ◌+◌, ◌≡◌, refl, sym, subst, Bool, true, false, Option, none, some, List, [], ◌∷◌, ◌++◌,
  length, arith,
}
use Prim.Native.String.{String}
use mathlib.Core.List.{append_assoc, append-nil}
use detour_rs.Macros.{
  Token, kw_static, kw_fn, ident, colon, semicolon, parameters, Visibility, inherited, public,
  restricted, within, Convention, rust, extern_default, extern_cc, Entry, Invocation, boot,
  parse_attributes, parse_access_modifier, parse_name, parse_unsafe, parse_calling_convention,
  parse_prototype, parse_terminator, parse_entries, aggregate, call, calls, rule, access_modifier,
  calling_convention, prototype,
}
use detour_rs.Macros.Expand.{Leads, next, Leads-eq}
use detour_rs.Macros.Printed.{
  Written, print_visibility, print_unsafe, print_convention, print_return, print_prototype,
  print_function, print_static, print_entry, print_attributes, return_of, entry_of, IsConvention,
}

access_modifier-print :
    (v : Visibility) (rest : List Token)
    → access_modifier (print_visibility v (kw_static ∷ rest)) ≡ some (v, rest)
unfolding access_modifier
access_modifier-print inherited rest = refl
access_modifier-print public rest = refl
access_modifier-print (restricted vis) rest = refl
access_modifier-print (within path) rest = refl

prototype-print :
    (types : List String) (type : Option String) (rest : List Token)
    → prototype (parameters types ∷ print_return type (semicolon ∷ rest))
      ≡ some (types, return_of type, semicolon ∷ rest)
unfolding prototype
prototype-print types none rest = refl
prototype-print types (some type) rest = refl

-- What follows the `fn` is in parentheses, so it is not another `fn`.
calling_convention-print :
    (c : Convention) (types : List String) (rest : List Token)
    → IsConvention c
    → calling_convention (print_convention c (kw_fn ∷ parameters types ∷ rest))
      ≡ some (c, parameters types ∷ rest)
unfolding calling_convention
calling_convention-print rust types rest h = refl
calling_convention-print extern_default types rest h = refl
calling_convention-print (extern_cc cc) types rest h = rw h refl

-- A prototype that is not `unsafe` does not start with it.
rule-unsafe :
    (attributes : List String) (v : Visibility) (name : String) (u : Bool) (c : Convention)
    (rest : List Token)
    → rule (parse_unsafe attributes v name (print_unsafe u (print_convention c (kw_fn ∷ rest))))
      ≡ some
          (call (parse_calling_convention attributes v name u (print_convention c (kw_fn ∷ rest))))
unfolding rule
rule-unsafe attributes v name true c rest = refl
rule-unsafe attributes v name false rust rest = refl
rule-unsafe attributes v name false extern_default rest = refl
rule-unsafe attributes v name false (extern_cc cc) rest = refl

rule-attributes :
    (attributes : List String) (v : Visibility) (rest : List Token)
    → rule (parse_attributes attributes (print_visibility v (kw_static ∷ rest)))
      ≡ some (call (parse_access_modifier attributes (print_visibility v (kw_static ∷ rest))))
unfolding rule
rule-attributes attributes inherited rest = refl
rule-attributes attributes public rest = refl
rule-attributes attributes (restricted vis) rest = refl
rule-attributes attributes (within path) rest = refl

-- From the visibility of an entry to what follows its semicolon.
static_leads :
    (w : Written) (rest : List Token) (n : ℕ) (c : Invocation)
    → IsConvention w.modifier.convention
    → Leads n (parse_entries (entry_of w) rest) c
    → Leads
        (suc (suc (suc (suc (suc (suc n))))))
        (parse_access_modifier w.attributes (print_static w rest))
        c
unfolding rule
static_leads w rest n c h l =
    let body = print_prototype w rest in
    let named =
      ident (w.name) ∷ colon ∷ print_unsafe w.modifier.is_unsafe (print_function w rest) in
    let access : rule (parse_access_modifier w.attributes (print_static w rest))
        ≡ some (call (parse_name w.attributes w.visibility named)) =
      rw (rule, access_modifier-print w.visibility named) refl in
    let convention : rule (
          parse_calling_convention w.attributes w.visibility w.name w.modifier.is_unsafe
            (print_function w rest))
        ≡ some (call (parse_prototype w.attributes w.visibility w.name w.modifier body)) =
      rw
        (
          rule,
          calling_convention-print w.modifier.convention w.argument_types
              (print_return w.return_type (semicolon ∷ rest)) h,
        )
        refl in
    let types : rule (parse_prototype w.attributes w.visibility w.name w.modifier body)
        ≡ some (call (parse_terminator (entry_of w) (semicolon ∷ rest))) =
      rw (rule, prototype-print w.argument_types w.return_type rest) refl in
    next access (
      next refl (
        next
          (rule-unsafe w.attributes w.visibility w.name w.modifier.is_unsafe w.modifier.convention
            body)
          (next convention (next types (next refl l)))))

attributes_leads :
    (metas acc : List String) (v : Visibility) (rest : List Token) (n : ℕ) (c : Invocation)
    → Leads n (parse_access_modifier (acc ++ metas) (print_visibility v (kw_static ∷ rest))) c
    → Leads
        (length metas + suc n)
        (parse_attributes acc (print_attributes metas (print_visibility v (kw_static ∷ rest))))
        c
unfolding rule
attributes_leads [] acc v rest n c l =
    Leads-eq (omega arith) (next (rule-attributes acc v rest) (rw append-nil at l))
attributes_leads (meta ∷ metas) acc v rest n c l = Leads-eq (omega arith) (
    next refl (
      attributes_leads metas (acc ++ meta ∷ []) v rest n c (
        subst
          (λ acc'. Leads n (parse_access_modifier acc' (print_visibility v (kw_static ∷ rest))) c)
          (sym (append_assoc acc (meta ∷ []) metas)) l)))

rule-boot :
    (metas : List String) (v : Visibility) (rest : List Token)
    → let tokens = print_attributes metas (print_visibility v (kw_static ∷ rest)) in
      rule (boot tokens) ≡ some (call (parse_attributes [] tokens))
unfolding rule
rule-boot [] inherited rest = refl
rule-boot [] public rest = refl
rule-boot [] (restricted vis) rest = refl
rule-boot [] (within path) rest = refl
rule-boot (meta ∷ metas) v rest = refl

pub rule-entries :
    (e : Entry) (metas : List String) (v : Visibility) (rest : List Token)
    → let tokens = print_attributes metas (print_visibility v (kw_static ∷ rest)) in
      rule (parse_entries e tokens) ≡ some (calls (aggregate e) (boot tokens))
unfolding rule
rule-entries e [] inherited rest = refl
rule-entries e [] public rest = refl
rule-entries e [] (restricted vis) rest = refl
rule-entries e [] (within path) rest = refl
rule-entries e (meta ∷ metas) v rest = refl

pub entry_leads :
    (w : Written) (rest : List Token) (n : ℕ) (c : Invocation)
    → IsConvention w.modifier.convention
    → Leads n (parse_entries (entry_of w) rest) c
    → Leads (length w.attributes + 8 + n) (boot (print_entry w rest)) c
unfolding print_entry
entry_leads w rest n c h l = Leads-eq (omega arith) (
    next (rule-boot w.attributes w.visibility _)
      (attributes_leads w.attributes [] w.visibility _ _ c (static_leads w rest n c h l)))
