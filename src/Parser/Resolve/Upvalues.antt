-- ===== src/Parser/Resolve/Upvalues.antt =====
-- The upvalue by which a frame reaches a variable of its parent (src/parser.c).
use lua2wasm.Prelude.{
  codes, ℕ, suc, ◌+◌, Bytes, length, List, [], ◌∷◌, ◌++◌, Bool, true, false, ◌&&◌, ◌==◌, leb,
  Option, none, some, ◌≡◌, refl, ap, arith, Bool-cases, Option-cases, inl, inr,
}
use mathlib.Core.Path.{subst}
use lua2wasm.Parser.Ast.{
  VarKind, local, upval, builtin, global, UpvalSource, from_local, from_upval, UpvalueRef,
}
use lua2wasm.Parser.Scope.{FuncFrame, frame_add_upvalue, find_upvalue, get_elem?, same_source}
use lua2wasm.Parser.State.{Complaint, plain}
use lua2wasm.Parser.Resolve.{Lookup, mark_captured, as_upvalue, capture, through_parent}
use lua2wasm.Parser.Resolve.Scoping.{origin, deeper, StandsFor}

get_elem?-last : {A : Type 0} (xs : List A) (x : A) → get_elem? (xs ++ x ∷ []) (length xs) ≡ some x
get_elem?-last [] x = refl
get_elem?-last (y ∷ xs) x = get_elem?-last xs x

same_source-eq : (a b : UpvalSource) → same_source a b ≡ true → a ≡ b
same_source-eq a b h = ground arith

same_upvalue :
    (u : UpvalueRef) (src : UpvalSource) (idx : ℕ)
    → (same_source u.src src && u.idx == idx) ≡ true
    → some u ≡ some (record { src = src; idx = idx })
same_upvalue u src idx h =
    let a : u.src ≡ src = same_source-eq u.src src (ground arith) in
    let b : u.idx ≡ idx = ground arith in λ i. some (record { src = a i; idx = b i })

-- The upvalue that is found is the one asked for.
find_upvalue-get_elem? :
    (us : List UpvalueRef) (src : UpvalSource) (idx i k : ℕ)
    → find_upvalue us src idx k ≡ some i
    → (j : ℕ) × (i ≡ k + j) × (get_elem? us j ≡ some (record { src = src; idx = idx }))
unfolding find_upvalue
find_upvalue-get_elem? [] src idx i k e = absurd (ground arith)
find_upvalue-get_elem? (u ∷ us) src idx i k e =
    elim (Bool-cases (same_source u.src src && u.idx == idx)) [
      | inl m ↦ (0, ground arith, same_upvalue u src idx m)
      | inr m ↦
          let (j, a, b) = find_upvalue-get_elem? us src idx i (k + 1) (ground arith) in
          (suc j, omega arith, b)
    ]

add_upvalue-get_elem? :
    (f : FuncFrame) (src : UpvalSource) (idx u : ℕ)
    → (frame_add_upvalue f src idx).1 ≡ some u
    → get_elem? (frame_add_upvalue f src idx).0.upvalues u ≡ some (record { src = src; idx = idx })
unfolding frame_add_upvalue
add_upvalue-get_elem? f src idx u e = elim (Option-cases (find_upvalue f.upvalues src idx 0)) [
  | inr (i, h) ↦ let (j, a, b) = find_upvalue-get_elem? f.upvalues src idx i 0 h in grind arith
  | inl h ↦ let last = get_elem?-last f.upvalues (record { src = src; idx = idx }) in grind arith
]

as_upvalue-StandsFor :
    (f : FuncFrame) (r : Lookup) (parent : FuncFrame) (over : Bool) (u : Option ℕ)
    (s : Option (ℕ × ℕ))
    → ((i : ℕ) → u ≡ some i → origin f (parent ∷ r.outer) i ≡ s)
    → StandsFor (as_upvalue f r parent over u) s
unfolding as_upvalue
as_upvalue-StandsFor f r parent over none s h = (plain (codes "too many upvalues"), refl)
as_upvalue-StandsFor f r parent over (some i) s h = h i refl

-- The parent's variable, reached by an upvalue.
local-capture :
    (f : FuncFrame) (r : Lookup) (parent : FuncFrame) (i : ℕ) (over : Bool)
    → StandsFor (capture f r parent from_local i over) (some (1, i))
unfolding capture
local-capture f r parent i over =
    as_upvalue-StandsFor _ r parent over _ _
      (λ u e. rw (add_upvalue-get_elem? f from_local i u e, origin) refl)

upval-capture :
    (f : FuncFrame) (r : Lookup) (i : ℕ) (over : Bool)
    → StandsFor (capture f r r.frame from_upval i over) (deeper (origin r.frame r.outer i))
unfolding capture
upval-capture f r i over =
    as_upvalue-StandsFor _ r r.frame over _ _
      (λ u e. rw (add_upvalue-get_elem? f from_upval i u e, origin) refl)

abbrev looked_up :
    FuncFrame
    → List FuncFrame
    → List Bytes
    → Bool
    → Option (VarKind × ℕ)
    → Option Complaint
    → Bool
    → Lookup
looked_up f outer gs ro found why over = record {
  frame = f;
  outer = outer;
  globals = gs;
  ro = ro;
  found = found;
  complaint = why;
  overrun = over;
}

through_parent-cases :
    (f g : FuncFrame) (outer : List FuncFrame) (gs : List Bytes) (ro : Bool)
    (found : Option (VarKind × ℕ)) (why : Option Complaint) (over : Bool) (s : Option (ℕ × ℕ))
    → StandsFor (looked_up g outer gs ro found why over) s
    → StandsFor (through_parent f (looked_up g outer gs ro found why over)) (deeper s)
unfolding through_parent mark_captured
through_parent-cases f g outer gs ro none why over s h = h
through_parent-cases f g outer gs ro (some (builtin, i)) why over s h = ap deeper h
through_parent-cases f g outer gs ro (some (global, i)) why over s h = ap deeper h
through_parent-cases f g outer gs ro (some (local, i)) why over s h =
    let r = looked_up g outer gs ro (some (local, i)) why over in
    let beyond = leb (length g.captured) i in
    subst (StandsFor (capture f r (mark_captured g i) from_local i beyond)) (ap deeper h)
      (local-capture f r (mark_captured g i) i beyond)
through_parent-cases f g outer gs ro (some (upval, i)) why over s h =
    let r = looked_up g outer gs ro (some (upval, i)) why over in
    subst (StandsFor (capture f r g from_upval i false)) (ap deeper h) (upval-capture f r i false)

pub through_parent-StandsFor :
    (f : FuncFrame) (r : Lookup) (s : Option (ℕ × ℕ))
    → StandsFor r s
    → StandsFor (through_parent f r) (deeper s)
through_parent-StandsFor f r s h =
    through_parent-cases f r.frame r.outer r.globals r.ro r.found r.complaint r.overrun s h
