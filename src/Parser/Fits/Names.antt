-- ===== src/Parser/Fits/Names.antt =====
-- The resolution of names keeps the tables within their length.
use lua2wasm.Prelude.{
  ◌==◌, Option, none, some, ℕ, zero, suc, ◌≤◌, Bytes, length, List, [], ◌∷◌, Bool, true, false, leb,
  ◌≡◌, refl, arith, Option-cases, inl, inr,
}
use lua2wasm.Parser.Ast.{local, upval, builtin, global, UpvalSource, from_local, from_upval}
use lua2wasm.Parser.Scope.{LocalSlot, FuncFrame, FreeNames, frame_search}
use lua2wasm.Parser.Resolve.{
  Lookup, globals_declare, resolve_global, resolve_free, set_mark, mark_captured, capture,
  through_parent, at_slot, declared_or, resolve_in_frame,
}
use lua2wasm.Parser.Fits.{FrameFits, AllFit, frame_add_upvalue-Fits, length-snoc}

abbrev pub LookupFits : Lookup → Type 0
LookupFits r = FrameFits r.frame × AllFit r.outer × (length r.globals ≤ 256)

pub globals_declare-Fits :
    (gs : List Bytes) (name : Bytes) → length gs ≤ 256 → length (globals_declare gs name).0 ≤ 256
unfolding globals_declare
globals_declare-Fits gs name h = let longer = length-snoc gs name in ground arith

resolve_global-Fits :
    (len : ℕ) (name : Bytes) (f : FuncFrame) (outer : List FuncFrame) (gs : List Bytes) (ro : Bool)
    → FrameFits f
    → AllFit outer
    → length gs ≤ 256
    → LookupFits (resolve_global len name f outer gs ro)
unfolding resolve_global
resolve_global-Fits len name f outer gs ro hf ho hg =
    let within = globals_declare-Fits gs name hg in ground arith

resolve_free-Fits :
    (name : Bytes) (f : FuncFrame) (fn : FreeNames) (gs : List Bytes)
    → FrameFits f
    → length gs ≤ 256
    → LookupFits (resolve_free name f fn gs)
unfolding resolve_free
resolve_free-Fits name f fn gs hf hg =
    let r = resolve_global-Fits (length name) name f [] gs false hf tt hg in
    let s = resolve_global-Fits (length name) name f [] gs true hf tt hg in ground arith

length-set_mark : (bs : List Bool) (i : ℕ) → length (set_mark bs i) ≡ length bs
unfolding set_mark
length-set_mark [] i = refl
length-set_mark (b ∷ bs) zero = refl
length-set_mark (b ∷ bs) (suc i) = let ih = length-set_mark bs i in omega arith

mark_captured-Fits : (f : FuncFrame) (i : ℕ) → FrameFits f → FrameFits (mark_captured f i)
unfolding mark_captured
mark_captured-Fits f i (l, u, c, s) =
    let same = length-set_mark f.captured i in (l, u, omega arith, s)

capture-Fits :
    (f : FuncFrame) (r : Lookup) (parent : FuncFrame) (src : UpvalSource) (idx : ℕ) (over : Bool)
    → FrameFits f
    → FrameFits parent
    → LookupFits r
    → LookupFits (capture f r parent src idx over)
unfolding capture
capture-Fits f r parent src idx over hf hp (h, ho, hg) =
    let hf' = frame_add_upvalue-Fits f src idx hf in ground arith

through_parent-Fits :
    (f : FuncFrame) (r : Lookup) → FrameFits f → LookupFits r → LookupFits (through_parent f r)
unfolding through_parent
through_parent-Fits f r hf (h, ho, hg) = elim (Option-cases r.found) [
  | inl e ↦ rw e (hf, (h, ho), hg)
  | inr ((builtin, i), e) ↦ rw e (hf, (h, ho), hg)
  | inr ((global, i), e) ↦ rw e (hf, (h, ho), hg)
  | inr ((upval, i), e) ↦ rw e (capture-Fits f r r.frame from_upval i false hf h (h, ho, hg))
  | inr ((local, i), e) ↦
      let marked = mark_captured-Fits r.frame i h in
      rw e (
        capture-Fits f r (mark_captured r.frame i) from_local i (leb (length r.frame.captured) i) hf
          marked (h, ho, hg))
]

at_slot-Fits :
    (name : Bytes) (f : FuncFrame) (outer : List FuncFrame) (gs : List Bytes) (attrib : ℕ)
    (slot : Option ℕ)
    → FrameFits f
    → AllFit outer
    → length gs ≤ 256
    → LookupFits (at_slot name f outer gs attrib slot)
unfolding at_slot
at_slot-Fits name f outer gs attrib (some slot) hf ho hg = (hf, ho, hg)
at_slot-Fits name f outer gs attrib none hf ho hg =
    resolve_global-Fits (length name) name f outer gs (attrib == 1) hf ho hg

declared_or-Fits :
    (name : Bytes) (f : FuncFrame) (outer : List FuncFrame) (gs : List Bytes) (d : Option LocalSlot)
    (other : Lookup)
    → FrameFits f
    → AllFit outer
    → length gs ≤ 256
    → LookupFits other
    → LookupFits (declared_or name f outer gs d other)
unfolding declared_or
declared_or-Fits name f outer gs (some d) other hf ho hg h =
    at_slot-Fits name f outer gs d.attrib d.slot hf ho hg
declared_or-Fits name f outer gs none other hf ho hg h = h

pub resolve_in_frame-Fits :
    (name : Bytes) (f : FuncFrame) (outer : List FuncFrame) (fn : FreeNames) (gs : List Bytes)
    → FrameFits f
    → AllFit outer
    → length gs ≤ 256
    → LookupFits (resolve_in_frame name f outer fn gs)
unfolding resolve_in_frame
resolve_in_frame-Fits name f [] fn gs hf ho hg =
    declared_or-Fits name f [] gs (frame_search f name fn).0 _ hf tt hg
      (resolve_free-Fits name f (frame_search f name fn).1 gs hf hg)
resolve_in_frame-Fits name f (parent ∷ outer) fn gs hf (hp, ho) hg =
    let fn' = (frame_search f name fn).1 in
    declared_or-Fits name f (parent ∷ outer) gs (frame_search f name fn).0 _ hf (hp, ho) hg
      (through_parent-Fits f (resolve_in_frame name parent outer fn' gs) hf
        (resolve_in_frame-Fits name parent outer fn' gs hp ho hg))
