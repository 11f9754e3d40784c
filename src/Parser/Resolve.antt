-- ===== src/Parser/Resolve.antt =====
-- src/parser.c: the globals table and the resolution of names.
pub mod Innermost
pub mod Scoping
pub mod Upvalues
use lua2wasm.Prelude.{
  ℕ, zero, suc, ◌+◌, Bytes, codes, equal, length, List, [], ◌∷◌, ◌++◌, Bool, true, false, not, ◌&&◌,
  ◌||◌, ◌==◌, leb, if◌then◌else◌, Option, none, some,
}
use lua2wasm.Builtins.{lookup_builtin}
use lua2wasm.Lexer.Scan.{Token}
use lua2wasm.Parser.Ast.{
  VarKind, local, upval, builtin, global, UpvalSource, from_local, from_upval,
}
use lua2wasm.Parser.Scope.{
  FuncFrame, LocalSlot, FreeNames, all_none, all_rw, all_const, frame_search, frame_add_upvalue,
}
use lua2wasm.Parser.State.{
  Parser, Action, Complaint, plain, not_declared, pure, gets, modify, branch, beyond_marks,
  on_option, set_error, ◌>>=◌, ◌>>◌,
}

abbrev pub max_globals : ℕ
max_globals = 256

-- The first index, counted from `i`; -1 is `none`.
unfoldable pub globals_lookup : List Bytes → Bytes → ℕ → Option ℕ
globals_lookup [] name i = none
globals_lookup (g ∷ gs) name i = if equal g name then some i else globals_lookup gs name (i + 1)

-- The table and the index of the name.
unfoldable pub globals_declare : List Bytes → Bytes → List Bytes × Option ℕ
globals_declare gs name = elim (globals_lookup gs name 0) [
  | some i ↦ (gs, some i)
  | none ↦ if leb max_globals (length gs) then (gs, none) else (gs ++ name ∷ [], some (length gs))
]

-- What a search for a name leaves: the frames from the one it began in, the globals, whether the
-- name is a read-only global, what it is, the error that was reported, and whether a mark beyond
-- the array would be set; then the rest is not used.
pub record Lookup : Type 0 where
  pub frame : FuncFrame
  pub outer : List FuncFrame
  pub globals : List Bytes
  pub ro : Bool
  pub found : Option (VarKind × ℕ)
  pub complaint : Option Complaint
  pub overrun : Bool

-- resolve_global, in the frames given. Its global_index reports a full table.
unfoldable pub resolve_global : ℕ → Bytes → FuncFrame → List FuncFrame → List Bytes → Bool → Lookup
resolve_global builtin_len name f outer gs ro = elim (lookup_builtin name builtin_len) [
  | some b ↦ record {
    frame = f;
    outer = outer;
    globals = gs;
    ro = ro;
    found = some (builtin, b);
    complaint = none;
    overrun = false;
  }
  | none ↦
      let (gs', g) = globals_declare gs name in
      elim g [
        | some i ↦ record {
          frame = f;
          outer = outer;
          globals = gs';
          ro = ro;
          found = some (global, i);
          complaint = none;
          overrun = false;
        }
        | none ↦ record {
          frame = f;
          outer = outer;
          globals = gs';
          ro = ro;
          found = none;
          complaint = some (plain (codes "too many globals"));
          overrun = false;
        }
      ]
]

-- A name that no declaration of the chunk resolves.
unfoldable pub resolve_free : Bytes → FuncFrame → FreeNames → List Bytes → Lookup
unfolding resolve_global
resolve_free name f fn gs =
    let env = equal name (codes "_ENV") in
    let implicit : Bool = elim fn.collective [
      | all_none ↦ true
      | all_rw ↦ false
      | all_const ↦ false
    ] in
    let read_only : Bool = elim fn.collective [
      | all_none ↦ false
      | all_rw ↦ false
      | all_const ↦ true
    ] in
    if not env && implicit && fn.voided
    then record {
      frame = f;
      outer = [];
      globals = gs;
      ro = false;
      found = none;
      complaint = some (not_declared name);
      overrun = false;
    }
    else resolve_global (length name) name f [] gs (not env && read_only)

-- captured[slot] = 1, on an array of MAX_LOCALS_PER_FN marks.
unfoldable pub set_mark : List Bool → ℕ → List Bool
set_mark [] i = []
set_mark (b ∷ bs) zero = true ∷ bs
set_mark (b ∷ bs) (suc i) = b ∷ set_mark bs i

unfoldable pub mark_captured : FuncFrame → ℕ → FuncFrame
unfolding set_mark
mark_captured f slot = record f { captured = set_mark f.captured slot }

-- What frame_add_upvalue answers, as the result.
unfoldable pub as_upvalue : FuncFrame → Lookup → FuncFrame → Bool → Option ℕ → Lookup
as_upvalue f r parent over (some i) = record r {
  frame = f;
  outer = parent ∷ r.outer;
  found = some (upval, i);
  overrun = r.overrun || over;
}
as_upvalue f r parent over none = record r {
  frame = f;
  outer = parent ∷ r.outer;
  found = none;
  complaint = some (plain (codes "too many upvalues"));
  overrun = r.overrun || over;
}

-- The name was found in the enclosing frame: the inner frame `f` reaches it by an upvalue.
unfoldable pub capture : FuncFrame → Lookup → FuncFrame → UpvalSource → ℕ → Bool → Lookup
unfolding as_upvalue
capture f r parent src idx over =
    as_upvalue (frame_add_upvalue f src idx).0 r parent over (frame_add_upvalue f src idx).1

unfoldable pub through_parent : FuncFrame → Lookup → Lookup
unfolding capture mark_captured
through_parent f r = elim r.found [
  | none ↦ record r { frame = f; outer = r.frame ∷ r.outer }
  | some (builtin, i) ↦ record r { frame = f; outer = r.frame ∷ r.outer }
  | some (global, i) ↦ record r { frame = f; outer = r.frame ∷ r.outer }
  | some (local, i) ↦
      capture f r (mark_captured r.frame i) from_local i (leb (length r.frame.captured) i)
  | some (upval, i) ↦ capture f r r.frame from_upval i false
]

-- A declaration with a slot is a local.
unfoldable pub at_slot : Bytes → FuncFrame → List FuncFrame → List Bytes → ℕ → Option ℕ → Lookup
at_slot name f outer gs attrib (some slot) = record {
  frame = f;
  outer = outer;
  globals = gs;
  ro = false;
  found = some (local, slot);
  complaint = none;
  overrun = false;
}
at_slot name f outer gs attrib none = resolve_global (length name) name f outer gs (attrib == 1)

-- The declaration that the search of a frame found, or else `other`.
unfoldable pub declared_or :
    Bytes → FuncFrame → List FuncFrame → List Bytes → Option LocalSlot → Lookup → Lookup
unfolding at_slot
declared_or name f outer gs (some d) other = at_slot name f outer gs d.attrib d.slot
declared_or name f outer gs none other = other

unfoldable pub resolve_in_frame :
    Bytes → FuncFrame → List FuncFrame → FreeNames → List Bytes → Lookup
unfolding resolve_free through_parent declared_or
resolve_in_frame name f [] fn gs =
    let (d, fn') = frame_search f name fn in declared_or name f [] gs d (resolve_free name f fn' gs)
resolve_in_frame name f (parent ∷ outer) fn gs =
    let (d, fn') = frame_search f name fn in
    declared_or name f (parent ∷ outer) gs d
      (through_parent f (resolve_in_frame name parent outer fn' gs))

module _ {F : Type 0} (toks : List (Token F)) where
  -- What the search leaves, as the parser's.
  unfoldable pub store : Lookup → Parser F → Parser F
  store r p = record p { frame = r.frame; outer = r.outer; globals = r.globals }

  unfoldable pub report : Option Complaint → Action F (Unit {0})
  report why = on_option why (pure tt) (set_error toks)

  unfoldable pub look_up : Bytes → Action F Lookup
  look_up name = do
    r ← gets (λ p.
        resolve_in_frame name p.frame p.outer (record { collective = all_none; voided = false })
          p.globals)
    branch r.overrun beyond_marks (modify (store r))
    pure r

  -- The kind, the index, and whether it is read-only; `none` is the return value 0.
  unfoldable pub resolve_name : Bytes → Action F (Option (VarKind × ℕ) × Bool)
  resolve_name name = do r ← look_up name; report r.complaint; pure (r.found, r.ro)

  unfoldable pub declare_name : Bytes → Action F (Option ℕ)
  declare_name name = do
    r ← gets (λ p. globals_declare p.globals name)
    modify (λ p. record p { globals = r.0 })
    pure r.1

  unfoldable pub global_index : Bytes → Action F (Option ℕ)
  global_index name = do
    g ← declare_name name
    on_option g (do set_error toks (plain (codes "too many globals")); pure none)
        (λ i. pure (some i))
