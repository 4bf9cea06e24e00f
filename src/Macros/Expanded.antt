-- ===== src/Macros/Expanded.antt =====
-- What `static_detour!` of src/macros.rs makes of the blocks that it accepts.
use detour_rs.Base.{
  ℕ, ◌+◌, ◌≤◌, ◌≡◌, refl, subst, none, some, List, [], ◌∷◌, ◌++◌, map, length, length-append, take,
  arith, if◌then◌else◌, leb,
}
use Prim.Native.String.{String}
use mathlib.Core.List.{append_assoc, append-nil}
use detour_rs.Macros.{
  Entry, Item, arg_names, fn_type_of, boot, parse_entries, aggregate, argument_names_loop,
  create_detour, generate, call, rule, zipped,
}
use detour_rs.Macros.Expand.{
  static_detour, Yields, Yields-item, Yields-call, Yields-calls, Yields-eq, here, Leads-Yields,
}
use detour_rs.Macros.Printed.{Written, print, entry_of, paired, item_of, AllAllowed, depth}
use detour_rs.Macros.Front.{entry_leads, rule-entries}

zipped-paired :
    (names types : List String)
    → length names ≡ length types
    → zipped names types ≡ some (paired names types)
unfolding zipped
zipped-paired [] [] h = refl
zipped-paired [] (type ∷ types) h = absurd (omega arith)
zipped-paired (name ∷ names) [] h = absurd (omega arith)
zipped-paired (name ∷ names) (type ∷ types) h = rw (zipped-paired names types (omega arith)) refl

-- The item that is made of an entry with these names.
abbrev made : Entry → List String → Item
made e names = record {
  attributes = e.attributes;
  visibility = e.visibility;
  name = e.name;
  fn_type = fn_type_of e;
  modifier = e.modifier;
  ffi_arguments = paired names e.argument_types;
  return_type = e.return_type;
  passed_on = names;
}

create-Yields :
    (e : Entry) (names : List String)
    → length names ≡ length e.argument_types
    → Yields 2 (create_detour names e (fn_type_of e)) (made e names ∷ [])
unfolding rule
create-Yields e names h =
    let made_call : rule (create_detour names e (fn_type_of e))
        ≡ some (call (generate (made e names))) =
      rw (zipped-paired names e.argument_types h) refl in
    Yields-call made_call (Yields-item refl)

loop_ends :
    (e : Entry) (names acc : List String)
    → rule (argument_names_loop e (fn_type_of e) names [] acc)
      ≡ some (call (create_detour acc e (fn_type_of e)))
unfolding rule
loop_ends e [] acc = refl
loop_ends e (name ∷ names) acc = refl

-- The names are handed out one for each type.
loop-Yields :
    (types names acc : List String) (e : Entry)
    → length types ≤ length names
    → length acc + length types ≡ length e.argument_types
    → Yields
        (length types + 3)
        (argument_names_loop e (fn_type_of e) names types acc)
        (made e (acc ++ take (length types) names) ∷ [])
unfolding rule
loop-Yields [] names acc e h k =
    rw (append-nil acc) (Yields-call (loop_ends e names acc) (create-Yields e acc (omega arith)))
loop-Yields (type ∷ types) [] acc e h k = absurd (omega arith)
loop-Yields (type ∷ types) (name ∷ names) acc e h k =
    let longer : length (acc ++ name ∷ []) ≡ length acc + 1 = length-append acc (name ∷ []) in
    let rest = loop-Yields types names (acc ++ name ∷ []) e (omega arith) (omega (arith, longer)) in
    Yields-eq (omega arith) (
      Yields-call refl (
        subst
          (λ l.
            Yields (length types + 3)
              (argument_names_loop e (fn_type_of e) names types (acc ++ name ∷ [])) (made e l ∷ []))
          (append_assoc acc (name ∷ []) (take (length types) names)) rest))

-- The item of an entry.
aggregate-Yields :
    (w : Written)
    → length w.argument_types ≤ 14
    → Yields (length w.argument_types + 5) (aggregate (entry_of w)) (item_of w ∷ [])
unfolding rule
aggregate-Yields w few = Yields-eq (omega arith) (
    Yields-call refl
      (Yields-call refl (loop-Yields w.argument_types arg_names [] (entry_of w) few (omega arith))))

block-Yields :
    (w : Written) (ws : List Written)
    → AllAllowed (w ∷ ws)
    → Yields (depth (w ∷ ws)) (boot (print (w ∷ ws))) (map item_of (w ∷ ws))
unfolding print depth rule
block-Yields w [] ((h, few), rest) = Yields-eq (omega arith) (
    Leads-Yields (entry_leads w [] 0 (parse_entries (entry_of w) []) h here)
      (Yields-call refl (aggregate-Yields w few)))
block-Yields w (w' ∷ ws) ((h, few), rest) =
    let after = print (w' ∷ ws) in
    Yields-eq (omega arith) (
      Leads-Yields (entry_leads w after 0 (parse_entries (entry_of w) after) h here) (
        Yields-calls (rule-entries (entry_of w) w'.attributes w'.visibility _)
          (aggregate-Yields w few) (block-Yields w' ws rest)))

-- A block that is not empty, with no more than 14 arguments in each of its entries and one token for
-- each calling convention, expands where its depth is within the limit, to one item for each entry in
-- their order, each with what was written for it; where it is not, rustc refuses it.
pub static_detour-print :
    (limit : ℕ) (w : Written) (ws : List Written)
    → AllAllowed (w ∷ ws)
    → static_detour limit (print (w ∷ ws))
      ≡ (if leb (depth (w ∷ ws)) limit then some (map item_of (w ∷ ws)) else none)
unfolding static_detour
static_detour-print limit w ws h = (block-Yields w ws h).yields limit
