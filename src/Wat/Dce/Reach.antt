-- ===== src/Wat/Dce/Reach.antt =====
-- What the exports reach, by the references that stand in code, and the outcomes that a search for
-- it may have.
use lua2wasm.Prelude.{
  ℕ, ◌+◌, ◌≤◌, ◌%◌, ◌^◌, Bytes, codes, length, get_elem?, true, none, some, ◌≡◌, ◌≢◌, ◌↔◌, ◌⊎◌,
}
use lua2wasm.Wat.Reader.{SExpr, Kids, kid}
use lua2wasm.Wat.Encode.{Ctx, Encoder, Out, Refusal, same}
use lua2wasm.Wat.Encode.Ops.{resolve_index}
use lua2wasm.Wat.Dce.{
  Func, Global, Entities, Marks, Scanned, done, failed, overread, stuck, blank, universe,
}
use lua2wasm.Wat.Dce.Visits.{marked}

-- An instruction stands in code with what follows it: folded, at the head of a list; plain, before
-- its operands; inside a list; or later.
pub data Occurs (op : Bytes) (imm : Kids) : Kids → Type 0 where
  folded :
      (at' at : ℕ) (rest : Kids)
      → Occurs op imm (kid (SExpr.list (kid (SExpr.atom op at') imm) at) rest)
  plain :
      (at : ℕ) (n : SExpr) (rest : Kids)
      → imm ≡ kid n rest
      → Occurs op imm (kid (SExpr.atom op at) (kid n rest))
  inside :
      (head : SExpr) (at : ℕ) (ks rest : Kids)
      → Occurs op imm ks
      → Occurs op imm (kid (SExpr.list (kid head ks) at) rest)
  later : (n : SExpr) (rest : Kids) → Occurs op imm rest → Occurs op imm (kid n rest)

-- The instructions whose operand is a function, and those whose operand is a global.
abbrev pub FuncOp : Bytes → Type 0
FuncOp op = (same op "call" ≡ true) ⊎ (same op "return_call" ≡ true) ⊎ (same op "ref.func" ≡ true)

abbrev pub GlobalOp : Bytes → Type 0
GlobalOp op = (same op "global.get" ≡ true) ⊎ (same op "global.set" ≡ true)

-- The result `o` of resolving an operand, in the index space that begins at `base`.
abbrev pub Operand : Ctx → Bytes → Kids → ℕ → Out ℕ → Type 0
Operand c op imm base o =
    (FuncOp op × (base ≡ 0) × (o ≡ resolve_index c.func_names (codes "function") imm blank))
    ⊎ (GlobalOp op
        × (base ≡ length c.func_names)
        × (o ≡ resolve_index c.global_names (codes "global") imm blank))

-- The code refers to the entity `v`.
pub record RefersTo (c : Ctx) (ks : Kids) (v : ℕ) : Type 0 where
  pub op : Bytes
  pub imm : Kids
  pub occurs : Occurs op imm ks
  pub base : ℕ
  pub o : Out ℕ
  pub operand : Operand c op imm base o
  pub resolves : (i : ℕ) × (s : Encoder) × (o ≡ Out.done i s) × (v ≡ (base + i) % 2 ^ 32)

-- The code has a reference that is refused.
pub record Refuses (c : Ctx) (ks : Kids) (why : Refusal) : Type 0 where
  pub op : Bytes
  pub imm : Kids
  pub occurs : Occurs op imm ks
  pub base : ℕ
  pub operand : Operand c op imm base (Out.failed why)

-- The body of a function, or the initializer of a global, under its number.
abbrev pub Code : Entities → ℕ → Kids → Type 0
Code g e ks =
    ((i : ℕ) × (f : Func) × (get_elem? g.funcs i ≡ some f)
      × (e ≡ g.n_imports + i)
      × (ks ≡ f.body_first))
    ⊎ ((j : ℕ) × (v : Global) × (get_elem? g.globals j ≡ some v)
        × (e ≡ g.n_imports + length g.funcs + j)
        × (ks ≡ v.init))

-- The exported functions, and what the code of a reached entity refers to.
pub data Reach (c : Ctx) (g : Entities) : ℕ → Type 0 where
  exported :
      (i : ℕ) (f : Func)
      → get_elem? g.funcs i ≡ some f
      → f.export_name ≢ none
      → Reach c g ((g.n_imports + i) % 2 ^ 32)
  referred : {u v : ℕ} {ks : Kids} → Reach c g u → Code g u ks → RefersTo c ks v → Reach c g v

-- The marks are exactly the reached entities, all within the numbering, and no reference in
-- reached code is refused.
pub record Complete (c : Ctx) (g : Entities) (m : Marks) : Type 0 where
  pub exact : (e : ℕ) → (marked m e ≡ true) ↔ Reach c g e
  pub size : length m.reach ≡ universe c g
  pub fine : (u : ℕ) (ks : Kids) (why : Refusal) → Reach c g u → Code g u ks → ¬ Refuses c ks why

-- Where it fails, reached code has a reference that is refused; where it reads beyond the marks, an
-- entity beyond the numbering is reached; and it ends.
abbrev pub Outcome : Ctx → Entities → Scanned → Type 0
Outcome c g (done m) = Complete c g m
Outcome c g (failed why) = (u : ℕ) × (ks : Kids) × Reach c g u × Code g u ks × Refuses c ks why
Outcome c g overread = (v : ℕ) × Reach c g v × (universe c g ≤ v)
Outcome c g stuck = ⊥
