-- ===== src/Wat/Dce/References.antt =====
-- The targets of code are the entities that instructions in it refer to.
use lua2wasm.Prelude.{
  ◌==◌, sub_ℕ, ℕ, zero, suc, ◌+◌, ◌-◌, ◌<◌, ◌%◌, ◌^◌, Bytes, codes, length, get_elem?, List, [],
  ◌∷◌, String, true, false, some, ◌≡◌, ◌≢◌, refl, sym, ap, ◌∙◌, ◌↔◌, ◌⊎◌, inl, inr, arith,
  Option-cases, Bool-cases, ltb,
}
use mathlib.Core.Path.{subst}
use mathlib.Core.List.{Memᴰ}
use lua2wasm.Freestanding.Mem.{is_zero, strcmp, peek}
use lua2wasm.Wat.Reader.{Kids, no_kids}
use lua2wasm.Wat.Encode.{Ctx, Encoder, Out, Refusal, same}
use lua2wasm.Wat.Encode.Ops.{among}
use lua2wasm.Wat.Dce.{Entities, entity, nothing, refused, target_from, target, code_of}
use lua2wasm.Wat.Dce.Visits.{targets}
use lua2wasm.Wat.Dce.Marking.{entity_injective}
use lua2wasm.Wat.Dce.Reach.{FuncOp, GlobalOp, Operand, RefersTo, Refuses, Code}
use lua2wasm.Wat.Dce.Occurrences.{Occurs-targets, targets-TargetOf}

sub_ℕ-is_zero : (a b : ℕ) → is_zero (sub_ℕ a b) ≡ true → a ≡ b
sub_ℕ-is_zero a b h = ground arith

-- A string that is the same as another begins with the same byte.
strcmp-peek : (a b : Bytes) → is_zero (strcmp a b) ≡ true → peek a ≡ peek b
unfolding strcmp
strcmp-peek [] b h = sub_ℕ-is_zero 0 (peek b) h
strcmp-peek (d ∷ ds) b h = elim (Bool-cases (d == 0)) [
  | inl z ↦ sub_ℕ-is_zero d (peek b) (rw z at h)
  | inr z ↦ elim (Bool-cases (d == peek b)) [
    | inl e ↦ ground arith
    | inr e ↦ sub_ℕ-is_zero d (peek b) (rw (z, e) at h)
  ]
]

same-peek : (op : Bytes) (s : String) → same op s ≡ true → peek op ≡ peek (codes s)
unfolding same
same-peek op s h = strcmp-peek op (codes s) h

-- No instruction has both kinds of operand.
FuncOp-GlobalOp : (op : Bytes) → FuncOp op → GlobalOp op → ⊥
FuncOp-GlobalOp op f g =
    let a = same-peek op "call" in
    let b = same-peek op "return_call" in
    let d = same-peek op "ref.func" in
    let x = same-peek op "global.get" in let y = same-peek op "global.set" in ground arith

FuncOp-among : (op : Bytes) → FuncOp op → among op ("call" ∷ "return_call" ∷ "ref.func" ∷ []) ≡ true
unfolding among
FuncOp-among op f = ground arith

among-FuncOp : (op : Bytes) → among op ("call" ∷ "return_call" ∷ "ref.func" ∷ []) ≡ true → FuncOp op
unfolding among
among-FuncOp op h = ground arith

GlobalOp-among : (op : Bytes) → GlobalOp op → among op ("global.get" ∷ "global.set" ∷ []) ≡ true
unfolding among
GlobalOp-among op f = ground arith

among-GlobalOp : (op : Bytes) → among op ("global.get" ∷ "global.set" ∷ []) ≡ true → GlobalOp op
unfolding among
among-GlobalOp op h = ground arith

-- The target of an instruction with an operand is what the operand resolves to.
Operand-target :
    (c : Ctx) (op : Bytes) (imm : Kids) (base : ℕ) (o : Out ℕ)
    → Operand c op imm base o
    → target c op imm ≡ target_from base o
unfolding target
Operand-target c op imm base o (inl (f, b, e)) = rw (FuncOp-among op f, b, e) refl
Operand-target c op imm base o (inr (g, b, e)) =
    elim (Bool-cases (among op ("call" ∷ "return_call" ∷ "ref.func" ∷ []))) [
      | inl f ↦ absurd (FuncOp-GlobalOp op (among-FuncOp op f) g)
      | inr f ↦ rw (f, GlobalOp-among op g, b, e) refl
    ]

-- An instruction without one has no target.
target-Operand :
    (c : Ctx) (op : Bytes) (imm : Kids)
    → (target c op imm ≡ nothing)
      ⊎ ((base : ℕ) × (o : Out ℕ) × Operand c op imm base o
          × (target c op imm ≡ target_from base o))
unfolding target
target-Operand c op imm = elim (Bool-cases (among op ("call" ∷ "return_call" ∷ "ref.func" ∷ []))) [
  | inl f ↦ inr (0, _, inl (among-FuncOp op f, refl, refl), rw f refl)
  | inr f ↦ elim (Bool-cases (among op ("global.get" ∷ "global.set" ∷ []))) [
    | inl g ↦ inr (length c.func_names, _, inr (among-GlobalOp op g, refl, refl), rw (f, g) refl)
    | inr g ↦ inl (rw (f, g) refl)
  ]
]

entity_resolved :
    (base v : ℕ) (o : Out ℕ)
    → entity v ≡ target_from base o
    → (i : ℕ) × (s : Encoder) × (o ≡ Out.done i s) × (v ≡ (base + i) % 2 ^ 32)
unfolding target_from
entity_resolved base v (Out.done i s) e = (i, s, refl, entity_injective e)
entity_resolved base v (Out.failed why) e = cc
entity_resolved base v Out.null e = cc
entity_resolved base v Out.overread e = cc
entity_resolved base v Out.stuck e = cc

refused_resolved :
    (base : ℕ) (why : Refusal) (o : Out ℕ) → refused why ≡ target_from base o → o ≡ Out.failed why
unfolding target_from
refused_resolved base why (Out.done i s) e = cc
refused_resolved base why (Out.failed why') e = cc
refused_resolved base why Out.null e = cc
refused_resolved base why Out.overread e = cc
refused_resolved base why Out.stuck e = cc

target_from-done :
    (base i : ℕ) (s : Encoder) → target_from base (Out.done i s) ≡ entity ((base + i) % 2 ^ 32)
unfolding target_from
target_from-done base i s = refl

target_from-failed : (base : ℕ) (why : Refusal) → target_from base (Out.failed why) ≡ refused why
unfolding target_from
target_from-failed base why = refl

entity_not_nothing : (v : ℕ) → entity v ≢ nothing
entity_not_nothing v e = cc

refused_is_not_nothing : (why : Refusal) → refused why ≢ nothing
refused_is_not_nothing why e = cc

pub targets-RefersTo :
    (c : Ctx) (ks : Kids) (v : ℕ) → Memᴰ (entity v) (targets c ks) ↔ RefersTo c ks v
targets-RefersTo c ks v = (
  λ m.
      let (op, imm, occurs, e) = targets-TargetOf c (entity v) ks m in
      elim (target-Operand c op imm) [
        | inl n ↦ absurd (entity_not_nothing v (e ∙ n))
        | inr (base, o, operand, q) ↦ record {
          op = op;
          imm = imm;
          occurs = occurs;
          base = base;
          o = o;
          operand = operand;
          resolves = entity_resolved base v o (e ∙ q);
        }
      ],
  λ r.
      let (i, s, e, at) = r.resolves in
      subst (λ t. Memᴰ t (targets c ks))
        (Operand-target c r.op r.imm r.base r.o r.operand
          ∙ ap (target_from r.base) e
          ∙ target_from-done r.base i s
          ∙ sym (ap entity at))
        (Occurs-targets c r.occurs),
)

pub targets-Refuses :
    (c : Ctx) (ks : Kids) (why : Refusal) → Memᴰ (refused why) (targets c ks) ↔ Refuses c ks why
targets-Refuses c ks why = (
  λ m.
      let (op, imm, occurs, e) = targets-TargetOf c (refused why) ks m in
      elim (target-Operand c op imm) [
        | inl n ↦ absurd (refused_is_not_nothing why (e ∙ n))
        | inr (base, o, operand, q) ↦ record {
          op = op;
          imm = imm;
          occurs = occurs;
          base = base;
          operand = subst (Operand c op imm base) (refused_resolved base why o (e ∙ q)) operand;
        }
      ],
  λ r.
      subst (λ t. Memᴰ t (targets c ks))
        (Operand-target c r.op r.imm r.base _ r.operand ∙ target_from-failed r.base why)
        (Occurs-targets c r.occurs),
)

get_elem?-length :
    {A : Type 0} (xs : List A) (i : ℕ) (x : A) → get_elem? xs i ≡ some x → i < length xs
get_elem?-length [] i x e = absurd (ground arith)
get_elem?-length (y ∷ xs) zero x e = omega arith
get_elem?-length (y ∷ xs) (suc i) x e = omega (arith, get_elem?-length xs i x e)

-- The code of an entity is that of its function or of its global.
pub code_of-Code : (c : Ctx) (g : Entities) (e : ℕ) (ks : Kids) → Code g e ks → code_of c g e ≡ ks
unfolding code_of
code_of-Code c g e ks (inl (i, f, at, n, k)) =
    let inside = get_elem?-length g.funcs i f at in
    let import_no : ltb e g.n_imports ≡ false = ground arith in
    let function : ltb e (g.n_imports + length g.funcs) ≡ true = ground arith in
    let place : e - g.n_imports ≡ i = omega arith in rw (import_no, function, place, at) (sym k)
code_of-Code c g e ks (inr (j, v, at, n, k)) =
    let import_no : ltb e g.n_imports ≡ false = ground arith in
    let function_no : ltb e (g.n_imports + length g.funcs) ≡ false = ground arith in
    let place : e - (g.n_imports + length g.funcs) ≡ j = omega arith in
    rw (import_no, function_no, place, at) (sym k)

-- And an entity that has a target is one of these.
pub Code-code_of :
    (c : Ctx) (g : Entities) (e : ℕ) → (code_of c g e ≡ no_kids) ⊎ Code g e (code_of c g e)
unfolding code_of
Code-code_of c g e = elim (Bool-cases (ltb e g.n_imports)) [
  | inl h ↦ inl (rw h refl)
  | inr h ↦ elim (Bool-cases (ltb e (g.n_imports + length g.funcs))) [
    | inl k ↦ elim (Option-cases (get_elem? g.funcs (e - g.n_imports))) [
      | inl n ↦ inl (rw (h, k, n) refl)
      | inr (f, at) ↦ inr (inl (e - g.n_imports, f, at, ground arith, rw (h, k, at) refl))
    ]
    | inr k ↦ elim (Option-cases (get_elem? g.globals (e - (g.n_imports + length g.funcs)))) [
      | inl n ↦ inl (rw (h, k, n) refl)
      | inr (v, at) ↦
          inr (inr (e - (g.n_imports + length g.funcs), v, at, ground arith, rw (h, k, at) refl))
    ]
  ]
]
