-- ===== src/Wat/Dce/Search.antt =====
-- What the worklist searches, by the targets of code in the order of the scan, and its outcomes.
use lua2wasm.Prelude.{ℕ, ◌+◌, ◌≤◌, ◌%◌, ◌^◌, length, get_elem?, true, none, some, ◌≡◌, ◌≢◌, ◌↔◌}
use mathlib.Core.List.{Memᴰ}
use lua2wasm.Wat.Encode.{Ctx, Refusal}
use lua2wasm.Wat.Dce.{
  Func, Entities, Marks, Scanned, done, failed, overread, stuck, entity, refused, universe, code_of,
}
use lua2wasm.Wat.Dce.Visits.{targets, marked}

-- The exported functions, and what the code of a reached entity refers to.
pub data Searched (c : Ctx) (g : Entities) : ℕ → Type 0 where
  root :
      (i : ℕ) (f : Func)
      → get_elem? g.funcs i ≡ some f
      → f.export_name ≢ none
      → Searched c g ((g.n_imports + i) % 2 ^ 32)
  step : {u v : ℕ} → Searched c g u → Memᴰ (entity v) (targets c (code_of c g u)) → Searched c g v

-- The marks are exactly the reached entities, all within the numbering, and no reference in
-- reached code is refused.
pub record SearchComplete (c : Ctx) (g : Entities) (m : Marks) : Type 0 where
  pub exact : (e : ℕ) → (marked m e ≡ true) ↔ Searched c g e
  pub size : length m.reach ≡ universe c g
  pub fine :
      (u : ℕ) (why : Refusal) → Searched c g u → ¬ Memᴰ (refused why) (targets c (code_of c g u))

-- Where it fails, reached code refers to something refused; where it reads beyond the marks, an
-- entity beyond the numbering is reached; and it ends.
abbrev pub SearchOutcome : Ctx → Entities → Scanned → Type 0
SearchOutcome c g (done m) = SearchComplete c g m
SearchOutcome c g (failed why) =
    (u : ℕ) × Searched c g u × Memᴰ (refused why) (targets c (code_of c g u))
SearchOutcome c g overread = (v : ℕ) × Searched c g v × (universe c g ≤ v)
SearchOutcome c g stuck = ⊥
