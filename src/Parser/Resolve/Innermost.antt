-- ===== src/Parser/Resolve/Innermost.antt =====
-- Names are resolved to their innermost declaration (src/parser.c).
use lua2wasm.Prelude.{
  ◌⊎◌, codes, ℕ, Bytes, equal, length, List, [], ◌∷◌, Bool, true, false, not, ◌&&◌, ◌==◌, Option,
  none, some, ◌≡◌, refl, arith, Bool-cases, Option-cases, inl, inr,
}
use lua2wasm.Builtins.{lookup_builtin}
use lua2wasm.Parser.Ast.{VarKind, builtin, global}
use lua2wasm.Parser.Scope.{
  FuncFrame, LocalSlot, FreeNames, all_none, all_rw, all_const, frame_search, search_locals,
}
use lua2wasm.Parser.State.{Complaint, plain, not_declared}
use lua2wasm.Parser.Resolve.{
  Lookup, globals_declare, resolve_global, resolve_free, through_parent, at_slot, declared_or,
  resolve_in_frame,
}
use lua2wasm.Parser.Resolve.Scoping.{
  declared, deeper, own_slot, own_or, innermost, denote, StandsFor,
}
use lua2wasm.Parser.Resolve.Upvalues.{through_parent-StandsFor}

search_locals-declared :
    (ds : List LocalSlot) (name : Bytes) (fn : FreeNames)
    → (search_locals ds name fn).0 ≡ declared ds name
unfolding search_locals
search_locals-declared [] name fn = refl
search_locals-declared (d ∷ ds) name fn = let ih = search_locals-declared ds name fn in ground arith

error-StandsFor :
    (r : Lookup) (s : Option (ℕ × ℕ)) (why : Complaint)
    → r.found ≡ none
    → r.complaint ≡ some why
    → StandsFor r s
error-StandsFor r s why e c = rw (e) (why, c)

global-StandsFor :
    (r : Lookup) (v : VarKind × ℕ)
    → r.found ≡ some v
    → ((f : FuncFrame) (outer : List FuncFrame) → denote f outer v ≡ none)
    → StandsFor r none
global-StandsFor r v e c = rw (e) (c r.frame r.outer)

resolve_global-StandsFor :
    (len : ℕ) (name : Bytes) (f : FuncFrame) (outer : List FuncFrame) (gs : List Bytes) (ro : Bool)
    → StandsFor (resolve_global len name f outer gs ro) none
unfolding resolve_global
resolve_global-StandsFor len name f outer gs ro = elim (Option-cases (lookup_builtin name len)) [
  | inr (b, e) ↦
      global-StandsFor (resolve_global len name f outer gs ro) (builtin, b) (ground arith)
        (λ g o. refl)
  | inl e ↦ elim (Option-cases (globals_declare gs name).1) [
    | inr (i, d) ↦
        global-StandsFor (resolve_global len name f outer gs ro) (global, i) (ground arith)
          (λ g o. refl)
    | inl d ↦
        error-StandsFor (resolve_global len name f outer gs ro) none
          (plain (codes "too many globals")) (ground arith) (ground arith)
  ]
]

-- By an undeclared name's error, or as a global.
resolve_free-cases :
    (name : Bytes) (f : FuncFrame) (fn : FreeNames) (gs : List Bytes)
    → ((resolve_free name f fn gs).found ≡ none)
        × ((resolve_free name f fn gs).complaint ≡ some (not_declared name))
      ⊎ (ro : Bool) × (resolve_free name f fn gs ≡ resolve_global (length name) name f [] gs ro)
unfolding resolve_free
resolve_free-cases name f fn gs =
    let implicit : Bool = elim fn.collective [
      | all_none ↦ true
      | all_rw ↦ false
      | all_const ↦ false
    ] in
    let read_only : Bool = elim fn.collective [
      | all_none ↦ false
      | all_rw ↦ false
      | all_const ↦ true
    ] in
    let env = equal name (codes "_ENV") in
    elim (Bool-cases (not env && implicit && fn.voided)) [
      | inl e ↦ inl (rw (e) refl, rw (e) refl)
      | inr e ↦ inr (not env && read_only, rw (e) refl)
    ]

resolve_free-StandsFor :
    (name : Bytes) (f : FuncFrame) (fn : FreeNames) (gs : List Bytes)
    → StandsFor (resolve_free name f fn gs) none
resolve_free-StandsFor name f fn gs = elim (resolve_free-cases name f fn gs) [
  | inl (e, c) ↦ error-StandsFor (resolve_free name f fn gs) none (not_declared name) e c
  | inr (ro, e) ↦ rw (e) (resolve_global-StandsFor (length name) name f [] gs ro)
]

at_slot-StandsFor :
    (name : Bytes) (f : FuncFrame) (outer : List FuncFrame) (gs : List Bytes) (attrib : ℕ)
    (slot : Option ℕ)
    → StandsFor (at_slot name f outer gs attrib slot) (own_slot slot)
unfolding at_slot
at_slot-StandsFor name f outer gs attrib (some slot) = refl
at_slot-StandsFor name f outer gs attrib none =
    resolve_global-StandsFor (length name) name f outer gs (attrib == 1)

declared_or-StandsFor :
    (name : Bytes) (f : FuncFrame) (outer : List FuncFrame) (gs : List Bytes) (d : Option LocalSlot)
    (other : Lookup) (s : Option (ℕ × ℕ))
    → StandsFor other s
    → StandsFor (declared_or name f outer gs d other) (own_or d s)
unfolding declared_or
declared_or-StandsFor name f outer gs (some d) other s h =
    at_slot-StandsFor name f outer gs d.attrib d.slot
declared_or-StandsFor name f outer gs none other s h = h

-- Either resolve_in_frame answers with an error to report, or what it finds for the name is what
-- the rules of scope say: a local or an upvalue comes, through the frames as they are left, to the
-- slot of the innermost declaration of the name in the function it belongs to, and for a global or
-- a builtin the innermost declaration is no local.
pub resolve_in_frame-StandsFor :
    (name : Bytes) (f : FuncFrame) (outer : List FuncFrame) (fn : FreeNames) (gs : List Bytes)
    → StandsFor (resolve_in_frame name f outer fn gs) (innermost name f outer)
unfolding resolve_in_frame frame_search
resolve_in_frame-StandsFor name f [] fn gs =
    let found = search_locals f.locals name fn in
    rw⁻¹ (search_locals-declared f.locals name fn) (
      declared_or-StandsFor name f [] gs found.0 (resolve_free name f found.1 gs) none
        (resolve_free-StandsFor name f found.1 gs))
resolve_in_frame-StandsFor name f (parent ∷ outer) fn gs =
    let found = search_locals f.locals name fn in
    let above = resolve_in_frame name parent outer found.1 gs in
    rw⁻¹ (search_locals-declared f.locals name fn) (
      declared_or-StandsFor name f (parent ∷ outer) gs found.0 (through_parent f above)
        (deeper (innermost name parent outer))
        (through_parent-StandsFor f above (innermost name parent outer)
          (resolve_in_frame-StandsFor name parent outer found.1 gs)))
