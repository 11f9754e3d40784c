-- ===== src/Parser/Fits/Marks.antt =====
-- A mark beyond captured[] is to be set only in a frame of more slots than marks.
use lua2wasm.Prelude.{
  equal, if◌then◌else◌, Bool-cases, ◌<◌, ◌==◌, Option, none, some, ℕ, ◌≤◌, Bytes, length, List, [],
  ◌∷◌, Bool, true, false, leb, ◌≡◌, refl, arith, Option-cases, inl, inr,
}
use lua2wasm.Parser.Ast.{local, upval, builtin, global, UpvalSource, from_local, from_upval}
use lua2wasm.Parser.Scope.{
  visit, or_visit, search_locals, LocalSlot, FuncFrame, FreeNames, frame_search, DeclKind,
  decl_local, decl_global, decl_global_all,
}
use lua2wasm.Parser.Resolve.{
  as_upvalue, Lookup, resolve_global, resolve_free, mark_captured, capture, through_parent, at_slot,
  declared_or, resolve_in_frame,
}
use lua2wasm.Parser.Fits.{FrameFits, AllFit, AnyWide, SlotBelow, SlotsBelow}
use lua2wasm.Parser.Fits.Names.{LookupFits, resolve_in_frame-Fits}

-- The declaration that a search finds has a slot that was handed out.
abbrev FoundBelow : ℕ → Option LocalSlot → Type 0
FoundBelow n none = Unit
FoundBelow n (some d) = SlotBelow n d.slot

choose-FoundBelow :
    (n : ℕ) (c : LocalSlot) (b : Bool) (fn fn' : FreeNames)
    → SlotBelow n c.slot
    → FoundBelow n (if◌then◌else◌ {A = Option LocalSlot × FreeNames} b (some c, fn) (none, fn')).0
choose-FoundBelow n c true fn fn' h = h
choose-FoundBelow n c false fn fn' h = tt

visit-FoundBelow :
    (n : ℕ) (c : LocalSlot) (name : Bytes) (fn : FreeNames)
    → SlotBelow n c.slot
    → FoundBelow n (visit c name fn).0
visit-FoundBelow n c name fn h = of_kind c.kind refl
  where
    of_kind : (k : DeclKind) → c.kind ≡ k → FoundBelow n (visit c name fn).0
    of_kind decl_local e =
        rw e (choose-FoundBelow n (record c { kind = decl_local }) (equal c.name name) fn fn h)
    of_kind decl_global e = rw e (
        choose-FoundBelow n (record c { kind = decl_global }) (equal c.name name) fn
          (record fn { voided = true }) h)
    of_kind decl_global_all e = rw e tt

search_locals-FoundBelow :
    (n : ℕ) (ds : List LocalSlot) (name : Bytes) (fn : FreeNames)
    → SlotsBelow n ds
    → FoundBelow n (search_locals ds name fn).0
unfolding search_locals
search_locals-FoundBelow n [] name fn h = tt
search_locals-FoundBelow n (c ∷ ds) name fn (first, h) =
    later (search_locals ds name fn) (search_locals-FoundBelow n ds name fn h)
  where
    later :
        (r : Option LocalSlot × FreeNames) → FoundBelow n r.0 → FoundBelow n (or_visit r c name).0
    later (some found, fn') ih = ih
    later (none, fn') ih = visit-FoundBelow n c name fn' first

-- Where a mark beyond the array is to be set, the frame has more slots than marks.
record IsOverrun (f : FuncFrame) (outer : List FuncFrame) (r : Lookup) : Type 0 where
  wide : r.overrun ≡ true → AnyWide (f ∷ outer)
  slot : (i : ℕ) → r.found ≡ some (local, i) → i < f.next_slot

-- A search that sets no mark and finds no local.
marks_none :
    (f : FuncFrame) (outer : List FuncFrame) (r : Lookup)
    → r.overrun ≡ false
    → ((i : ℕ) → r.found ≡ some (local, i) → ⊥)
    → IsOverrun f outer r
marks_none f outer r e n = record {
  wide = λ h. absurd (ground arith);
  slot = λ i h. absurd (n i h);
}

resolve_global-IsOverrun :
    (len : ℕ) (name : Bytes) (f : FuncFrame) (outer frames : List FuncFrame) (gs : List Bytes)
    (ro : Bool)
    → IsOverrun f outer (resolve_global len name f frames gs ro)
unfolding resolve_global
resolve_global-IsOverrun len name f outer frames gs ro =
    marks_none f outer (resolve_global len name f frames gs ro) (ground arith) (λ i h. ground arith)

resolve_free-IsOverrun :
    (name : Bytes) (f : FuncFrame) (fn : FreeNames) (gs : List Bytes)
    → IsOverrun f [] (resolve_free name f fn gs)
unfolding resolve_free
resolve_free-IsOverrun name f fn gs =
    let r = resolve_global-IsOverrun (length name) name f [] [] gs false in
    let s = resolve_global-IsOverrun (length name) name f [] [] gs true in
    marks_none f [] (resolve_free name f fn gs) (ground arith) (λ i h. ground arith)

at_slot-IsOverrun :
    (name : Bytes) (f : FuncFrame) (outer frames : List FuncFrame) (gs : List Bytes) (attrib : ℕ)
    (slot : Option ℕ)
    → SlotBelow f.next_slot slot
    → IsOverrun f outer (at_slot name f frames gs attrib slot)
unfolding at_slot
at_slot-IsOverrun name f outer frames gs attrib (some slot) h = record {
  wide = λ e. absurd (ground arith);
  slot = λ i e. ground arith;
}
at_slot-IsOverrun name f outer frames gs attrib none h =
    resolve_global-IsOverrun (length name) name f outer frames gs (attrib == 1)

declared_or-IsOverrun :
    (name : Bytes) (f : FuncFrame) (outer : List FuncFrame) (gs : List Bytes) (d : Option LocalSlot)
    (other : Lookup)
    → FoundBelow f.next_slot d
    → IsOverrun f outer other
    → IsOverrun f outer (declared_or name f outer gs d other)
unfolding declared_or
declared_or-IsOverrun name f outer gs (some d) other h o =
    at_slot-IsOverrun name f outer outer gs d.attrib d.slot h
declared_or-IsOverrun name f outer gs none other h o = o

capture-IsOverrun :
    (f : FuncFrame) (outer : List FuncFrame) (r : Lookup) (parent : FuncFrame) (src : UpvalSource)
    (idx : ℕ) (over : Bool)
    → (r.overrun ≡ true → AnyWide outer)
    → (over ≡ true → AnyWide outer)
    → IsOverrun f outer (capture f r parent src idx over)
unfolding capture as_upvalue
capture-IsOverrun f outer r parent src idx over before now = record {
  wide = λ e. elim (Bool-cases r.overrun) [
    | inl w ↦ inr (before w)
    | inr n ↦ inr (now (ground arith))
  ];
  slot = λ i e. absurd (ground arith);
}

through_parent-IsOverrun :
    (f parent : FuncFrame) (outer : List FuncFrame) (r : Lookup)
    → LookupFits r
    → IsOverrun parent outer r
    → IsOverrun f (parent ∷ outer) (through_parent f r)
unfolding through_parent
through_parent-IsOverrun f parent outer r fits o = elim (Option-cases r.found) [
  | inl e ↦ rw e (record { wide = λ w. inr (o.wide w); slot = λ i h. absurd (ground arith) })
  | inr ((builtin, i), e) ↦
      rw e (record { wide = λ w. inr (o.wide w); slot = λ j h. absurd (ground arith) })
  | inr ((global, i), e) ↦
      rw e (record { wide = λ w. inr (o.wide w); slot = λ j h. absurd (ground arith) })
  | inr ((upval, i), e) ↦ rw e (
      capture-IsOverrun f (parent ∷ outer) r r.frame from_upval i false o.wide
        (λ h. absurd (ground arith)))
  | inr ((local, i), e) ↦
      let below = o.slot i e in
      let marks = fits.0.2 in
      rw e (
        capture-IsOverrun f (parent ∷ outer) r (mark_captured r.frame i) from_local i
          (leb (length r.frame.captured) i) o.wide (λ h. inl (ground arith)))
]

resolve_in_frame-IsOverrun :
    (name : Bytes) (f : FuncFrame) (outer : List FuncFrame) (fn : FreeNames) (gs : List Bytes)
    → FrameFits f
    → AllFit outer
    → length gs ≤ 256
    → IsOverrun f outer (resolve_in_frame name f outer fn gs)
unfolding resolve_in_frame frame_search
resolve_in_frame-IsOverrun name f [] fn gs hf ho hg =
    declared_or-IsOverrun name f [] gs (frame_search f name fn).0 _
      (search_locals-FoundBelow f.next_slot f.locals name fn hf.3)
      (resolve_free-IsOverrun name f (frame_search f name fn).1 gs)
resolve_in_frame-IsOverrun name f (parent ∷ outer) fn gs hf (hp, ho) hg =
    let fn' = (frame_search f name fn).1 in
    declared_or-IsOverrun name f (parent ∷ outer) gs (frame_search f name fn).0 _
      (search_locals-FoundBelow f.next_slot f.locals name fn hf.3)
      (through_parent-IsOverrun f parent outer (resolve_in_frame name parent outer fn' gs)
        (resolve_in_frame-Fits name parent outer fn' gs hp ho hg)
        (resolve_in_frame-IsOverrun name parent outer fn' gs hp ho hg))

-- A mark beyond the array is to be set only where a frame has more slots than marks.
pub resolve_in_frame-Wide :
    (name : Bytes) (f : FuncFrame) (outer : List FuncFrame) (fn : FreeNames) (gs : List Bytes)
    → FrameFits f
    → AllFit outer
    → length gs ≤ 256
    → (resolve_in_frame name f outer fn gs).overrun ≡ true
    → AnyWide (f ∷ outer)
resolve_in_frame-Wide name f outer fn gs hf ho hg =
    (resolve_in_frame-IsOverrun name f outer fn gs hf ho hg).wide
