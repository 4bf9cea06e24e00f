-- ===== src/Macros/Refused.antt =====
-- What `static_detour!` of src/macros.rs refuses, and what no block makes it generate.
use detour_rs.Base.{ℕ, ◌<◌, ◌≡◌, ◌≢◌, ◌⊎◌, inl, inr, refl, none, List, [], ◌∷◌, ◌++◌, length, arith}
use Prim.Native.String.{String}
use detour_rs.Macros.{
  Entry, FnPointer, arg_names, fn_type_of, boot, parse_entries, aggregate, argument_names_loop,
  rule,
}
use detour_rs.Macros.Expand.{
  static_detour, Refuses, Refuses-none, Refuses-call, Refuses-calls, here, Leads-Refuses,
}
use detour_rs.Macros.Printed.{Written, print, entry_of, IsConvention}
use detour_rs.Macros.Front.{entry_leads, rule-entries}

-- The calling convention of every entry is one token.
abbrev pub AllConventions : List Written → Type 0
AllConventions [] = Unit
AllConventions (w ∷ ws) = IsConvention w.modifier.convention × AllConventions ws

-- The names run out before the types do.
loop-Refuses :
    (types names acc : List String) (e : Entry) (f : FnPointer)
    → length names < length types
    → Refuses (argument_names_loop e f names types acc)
unfolding rule
loop-Refuses [] names acc e f h = absurd (omega arith)
loop-Refuses (type ∷ types) [] acc e f h = Refuses-none refl
loop-Refuses (type ∷ types) (name ∷ names) acc e f h =
    Refuses-call refl (loop-Refuses types names (acc ++ name ∷ []) e f (omega arith))

aggregate-Refuses : (e : Entry) → 14 < length e.argument_types → Refuses (aggregate e)
unfolding rule
aggregate-Refuses e h =
    Refuses-call refl
      (Refuses-call refl (loop-Refuses e.argument_types arg_names [] e (fn_type_of e) h))

entries_refuse :
    (w : Written) (ws : List Written)
    → Refuses (aggregate (entry_of w)) ⊎ ((Refuses (boot (print ws))) × (ws ≢ []))
    → Refuses (parse_entries (entry_of w) (print ws))
unfolding rule print
entries_refuse w [] (inl h) = Refuses-call refl h
entries_refuse w [] (inr (h, some_entry)) = absurd (some_entry refl)
entries_refuse w (v ∷ ws) (inl h) =
    Refuses-calls (rule-entries (entry_of w) v.attributes v.visibility _) (inl h)
entries_refuse w (v ∷ ws) (inr (h, some_entry)) =
    Refuses-calls (rule-entries (entry_of w) v.attributes v.visibility _) (inr h)

append-ne-nil : (us : List Written) (w : Written) (ws : List Written) → us ++ w ∷ ws ≢ []
append-ne-nil [] w ws = λ h. cc
append-ne-nil (u ∷ us) w ws = λ h. cc

block-Refuses :
    (us : List Written) (w : Written) (ws : List Written)
    → AllConventions (us ++ w ∷ ws)
    → 14 < length w.argument_types
    → Refuses (boot (print (us ++ w ∷ ws)))
unfolding print
block-Refuses [] w ws (h, rest) many =
    Leads-Refuses (entry_leads w (print ws) 0 (parse_entries (entry_of w) (print ws)) h here)
      (entries_refuse w ws (inl (aggregate-Refuses (entry_of w) many)))
block-Refuses (u ∷ us) w ws (h, rest) many =
    let after = us ++ w ∷ ws in
    Leads-Refuses (entry_leads u (print after) 0 (parse_entries (entry_of u) (print after)) h here)
      (entries_refuse u after (inr (block-Refuses us w ws rest many, append-ne-nil us w ws)))

-- A block with an entry of more than 14 arguments is refused as a whole, wherever the entry stands and
-- whatever the limit is; the calling convention of each entry is one token.
pub static_detour-refuses :
    (limit : ℕ) (us : List Written) (w : Written) (ws : List Written)
    → AllConventions (us ++ w ∷ ws)
    → 14 < length w.argument_types
    → static_detour limit (print (us ++ w ∷ ws)) ≡ none
unfolding static_detour
static_detour-refuses limit us w ws h many = (block-Refuses us w ws h many).refuses limit
