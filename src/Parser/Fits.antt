-- ===== src/Parser/Fits.antt =====
-- What every step of the parser keeps: the tables of fixed length are not filled beyond their
-- length, and a recorded error stays.
pub mod Names
pub mod Marks
use lua2wasm.Prelude.{
  sym, All, All-append, ◌⊎◌, ℕ, zero, suc, ◌+◌, ◌≤◌, ◌<◌, Bytes, equal, length, take, replicate,
  List, [], ◌∷◌, ◌++◌, Bool, true, false, leb, if◌then◌else◌, Option, none, some, ◌≡◌, refl, ◌∙◌,
  arith, Bool-cases, Option-cases, inl, inr,
}
use mathlib.Core.Path.{subst}
use lua2wasm.Parser.Ast.{LuaFunc, UpvalSource, UpvalueRef}
use lua2wasm.Parser.Scope.{
  FuncFrame, LocalSlot, decl_local, decl_global, decl_global_all, frame_init, frame_declare,
  frame_declare_global, frame_mark_last_const, set_last_attrib, frame_rewind, frame_add_upvalue,
  find_upvalue, max_locals_per_fn, max_upvals_per_fn,
}
use lua2wasm.Parser.State.{Parser, Complaint, is_ok}

-- Slots are handed out in order.
abbrev pub SlotBelow : ℕ → Option ℕ → Type 0
SlotBelow n none = Unit
SlotBelow n (some slot) = slot < n

abbrev pub SlotsBelow : ℕ → List LocalSlot → Type 0
SlotsBelow n ds = All (λ d. SlotBelow n d.slot) ds

-- A frame's arrays: declarations, upvalues, and the marks of captured slots; and its slots.
abbrev pub FrameFits : FuncFrame → Type 0
FrameFits f =
    (length f.locals ≤ 256)
    × (length f.upvalues ≤ 64)
    × (length f.captured ≡ 256)
    × SlotsBelow f.next_slot f.locals

abbrev pub AllFit : List FuncFrame → Type 0
AllFit [] = Unit
AllFit (f ∷ fs) = FrameFits f × AllFit fs

-- A function that was read: its upvalues, and a mark for each of its slots.
abbrev pub FuncFits : {F : Type 0} → LuaFunc F → Type 0
FuncFits fn = (length fn.upvalues ≤ 64) × (length fn.captured ≡ fn.n_locals) × (fn.n_locals ≤ 256)

abbrev pub Fits : {F : Type 0} → Parser F → Type 0
Fits p = FrameFits p.frame × AllFit p.outer × (length p.globals ≤ 256) × All FuncFits p.funcs

-- A function has used more slots than captured[] has marks.
abbrev pub AnyWide : List FuncFrame → Type 0
AnyWide [] = ⊥
AnyWide (f ∷ fs) = (256 < f.next_slot) ⊎ AnyWide fs

abbrev pub Wide : {F : Type 0} → Parser F → Type 0
Wide p = AnyWide (p.frame ∷ p.outer)

pub record Follows {F : Type 0} (p q : Parser F) : Type 0 where
  pub fits : Fits p → Fits q
  pub keeps : (e : ℕ × Complaint) → p.error ≡ some e → q.error ≡ some e

pub Follows-refl : {F : Type 0} (p : Parser F) → Follows p p
Follows-refl p = record { fits = λ h. h; keeps = λ e h. h }

pub Follows-trans : {F : Type 0} (p q r : Parser F) → Follows p q → Follows q r → Follows p r
Follows-trans p q r s t = record {
  fits = λ h. t.fits (s.fits h);
  keeps = λ e h. t.keeps e (s.keeps e h);
}

pub recorded :
    {F : Type 0} (p : Parser F) (e : ℕ × Complaint) → p.error ≡ some e → is_ok p ≡ true → ⊥
recorded p e g h = ground arith

length-set_last_attrib :
    (ds : List LocalSlot) (attrib : ℕ) → length (set_last_attrib ds attrib) ≡ length ds
unfolding set_last_attrib
length-set_last_attrib [] attrib = refl
length-set_last_attrib (d ∷ []) attrib = refl
length-set_last_attrib (d ∷ e ∷ ds) attrib =
    let ih = length-set_last_attrib (e ∷ ds) attrib in omega arith

pub length-snoc : {A : Type 0} (xs : List A) (x : A) → length (xs ++ x ∷ []) ≡ length xs + 1
length-snoc [] x = refl
length-snoc (y ∷ xs) x = let ih = length-snoc xs x in omega arith

length-take : {A : Type 0} (n : ℕ) (xs : List A) → length (take n xs) ≤ length xs
length-take zero xs = omega arith
length-take (suc n) [] = omega arith
length-take (suc n) (x ∷ xs) = let ih = length-take n xs in omega arith

pub length-take_exact : {A : Type 0} (n : ℕ) (xs : List A) → n ≤ length xs → length (take n xs) ≡ n
length-take_exact zero xs h = refl
length-take_exact (suc n) [] h = absurd (omega arith)
length-take_exact (suc n) (x ∷ xs) h = let ih = length-take_exact n xs (omega arith) in omega arith

pub frame_init-Fits : FrameFits frame_init
unfolding frame_init
frame_init-Fits = (omega arith, omega arith, refl, tt)

SlotBelow-suc : (n : ℕ) (slot : Option ℕ) → SlotBelow n slot → SlotBelow (n + 1) slot
SlotBelow-suc n none h = tt
SlotBelow-suc n (some slot) h = omega arith

SlotsBelow-suc : (n : ℕ) (ds : List LocalSlot) → SlotsBelow n ds → SlotsBelow (n + 1) ds
SlotsBelow-suc n [] h = tt
SlotsBelow-suc n (d ∷ ds) (first, h) = (SlotBelow-suc n d.slot first, SlotsBelow-suc n ds h)

SlotsBelow-snoc :
    (n : ℕ) (ds : List LocalSlot) (d : LocalSlot)
    → SlotsBelow n ds
    → SlotBelow n d.slot
    → SlotsBelow n (ds ++ d ∷ [])
SlotsBelow-snoc n ds d h g = All-append (λ e. SlotBelow n e.slot) ds (d ∷ []) h (g, tt)

SlotsBelow-take : (n k : ℕ) (ds : List LocalSlot) → SlotsBelow n ds → SlotsBelow n (take k ds)
SlotsBelow-take n zero ds h = tt
SlotsBelow-take n (suc k) [] h = tt
SlotsBelow-take n (suc k) (d ∷ ds) (first, h) = (first, SlotsBelow-take n k ds h)

SlotsBelow-set_last_attrib :
    (n attrib : ℕ) (ds : List LocalSlot)
    → SlotsBelow n ds
    → SlotsBelow n (set_last_attrib ds attrib)
unfolding set_last_attrib
SlotsBelow-set_last_attrib n attrib [] h = tt
SlotsBelow-set_last_attrib n attrib (d ∷ []) h = h
SlotsBelow-set_last_attrib n attrib (d ∷ e ∷ ds) (first, h) =
    (first, SlotsBelow-set_last_attrib n attrib (e ∷ ds) h)

pub frame_declare-Fits :
    (f : FuncFrame) (name : Bytes) → FrameFits f → FrameFits (frame_declare f name).0
unfolding frame_declare
frame_declare-Fits f name (l, u, c, s) =
    elim (Bool-cases (leb max_locals_per_fn (length f.locals))) [
      | inl e ↦ rw e (l, u, c, s)
      | inr e ↦
          let below =
            SlotsBelow-snoc (f.next_slot + 1) f.locals
              (record { name = name; slot = some f.next_slot; attrib = 0; kind = decl_local })
              (SlotsBelow-suc f.next_slot f.locals s) (omega arith) in
          let longer =
            length-snoc f.locals
              (record { name = name; slot = some f.next_slot; attrib = 0; kind = decl_local }) in
          rw e (ground arith, u, c, below)
    ]

pub frame_declare_global-Fits :
    (f : FuncFrame) (name : Option Bytes) (attrib : ℕ)
    → FrameFits f
    → FrameFits (frame_declare_global f name attrib).0
unfolding frame_declare_global
frame_declare_global-Fits f (some n) attrib (l, u, c, s) =
    elim (Bool-cases (leb max_locals_per_fn (length f.locals))) [
      | inl e ↦ rw e (l, u, c, s)
      | inr e ↦
          let d : LocalSlot = record {
            name = n;
            slot = none;
            attrib = attrib;
            kind = decl_global;
          } in
          let longer = length-snoc f.locals d in
          rw e (ground arith, u, c, SlotsBelow-snoc f.next_slot f.locals d s tt)
    ]
frame_declare_global-Fits f none attrib (l, u, c, s) =
    elim (Bool-cases (leb max_locals_per_fn (length f.locals))) [
      | inl e ↦ rw e (l, u, c, s)
      | inr e ↦
          let d : LocalSlot = record {
            name = [];
            slot = none;
            attrib = attrib;
            kind = decl_global_all;
          } in
          let longer = length-snoc f.locals d in
          rw e (ground arith, u, c, SlotsBelow-snoc f.next_slot f.locals d s tt)
    ]

pub set_last_attrib-Fits :
    (f : FuncFrame) (attrib : ℕ)
    → FrameFits f
    → FrameFits (record f { locals = set_last_attrib f.locals attrib })
set_last_attrib-Fits f attrib (l, u, c, s) =
    let same = length-set_last_attrib f.locals attrib in
    (omega arith, u, c, SlotsBelow-set_last_attrib f.next_slot attrib f.locals s)

pub frame_rewind-Fits : (f : FuncFrame) (mark : ℕ) → FrameFits f → FrameFits (frame_rewind f mark)
unfolding frame_rewind
frame_rewind-Fits f mark (l, u, c, s) =
    let less = length-take mark f.locals in
    (omega arith, u, c, SlotsBelow-take f.next_slot mark f.locals s)

pub frame_add_upvalue-Fits :
    (f : FuncFrame) (src : UpvalSource) (idx : ℕ)
    → FrameFits f
    → FrameFits (frame_add_upvalue f src idx).0
unfolding frame_add_upvalue
frame_add_upvalue-Fits f src idx (l, u, c, s) =
    let longer = length-snoc f.upvalues (record { src = src; idx = idx }) in
    let same_locals : (frame_add_upvalue f src idx).0.locals ≡ f.locals = ground arith in
    let same_slot : (frame_add_upvalue f src idx).0.next_slot ≡ f.next_slot = ground arith in
    (
      ground arith,
      ground arith,
      ground arith,
      subst (λ n. SlotsBelow n (frame_add_upvalue f src idx).0.locals) (sym same_slot)
          (subst (SlotsBelow f.next_slot) (sym same_locals) s),
    )

-- A change to other fields.
pub Follows-same :
    {F : Type 0} {p q : Parser F}
    → q.frame ≡ p.frame
    → q.outer ≡ p.outer
    → q.globals ≡ p.globals
    → q.funcs ≡ p.funcs
    → q.error ≡ p.error
    → Follows p q
Follows-same f o g fn e = record { fits = λ h. rw (f, o, g, fn) h; keeps = λ err h. e ∙ h }

-- A change to the innermost frame.
pub Follows-frame :
    {F : Type 0} {p q : Parser F}
    → (FrameFits p.frame → FrameFits q.frame)
    → q.outer ≡ p.outer
    → q.globals ≡ p.globals
    → q.funcs ≡ p.funcs
    → q.error ≡ p.error
    → Follows p q
Follows-frame f o g fn e = record {
  fits = λ h. (f h.0, rw o h.1, rw g h.2, rw fn h.3);
  keeps = λ err h. e ∙ h;
}
