-- ===== src/Wat/Dce.antt =====
-- src/wat2wasm.c: dead-code elimination, the functions and globals that the exports reach.
-- Entities are numbered as there: the imports, the functions, then the globals. `reach` is the
-- array of marks, and `stack` the worklist with its top first.
pub mod Visits
pub mod Marking
pub mod Reach
pub mod Occurrences
pub mod References
pub mod Search
pub mod Worklist
pub mod Roots
pub mod Lost
pub mod Remap
use lua2wasm.Prelude.{
  ℕ, zero, suc, ◌+◌, ◌-◌, ◌%◌, ◌^◌, Bytes, codes, length, take, drop, replicate, List, [], ◌∷◌,
  ◌++◌, Bool, true, false, ◌==◌, ltb, if◌then◌else◌, Option, none, some, get_elem?, set, map,
}
use lua2wasm.Wat.Reader.{SExpr, Kids, no_kids, kid}
use lua2wasm.Wat.Encode.{Ctx, Encoder, Refusal, Out}
use lua2wasm.Wat.Encode.Ops.{among, resolve_index}

-- A defined function, with its first instruction, and a global with its initializer.
pub record Func : Type 0 where
  pub export_name : Option Bytes
  pub body_first : Kids

pub record Global : Type 0 where
  pub init : Kids

pub record Entities : Type 0 where
  pub n_imports : ℕ
  pub funcs : List Func
  pub globals : List Global

pub record Marks : Type 0 where
  pub reach : List Bool
  pub stack : List ℕ

pub data Scanned : Type 0 where
  done : Marks → Scanned
  failed : Refusal → Scanned
  overread stuck : Scanned

abbrev pub continue : Scanned → (Marks → Scanned) → Scanned
continue (done m) k = k m
continue (failed why) k = failed why
continue overread k = overread
continue stuck k = stuck

unfoldable pub mark_at : Option Bool → ℕ → Marks → Scanned
mark_at none e m = overread
mark_at (some true) e m = done m
mark_at (some false) e m = done (record { reach = set m.reach e true; stack = e ∷ m.stack })

unfoldable pub dce_mark : ℕ → Marks → Scanned
unfolding mark_at
dce_mark e m = mark_at (get_elem? m.reach e) e m

-- What an instruction refers to.
pub data Target : Type 0 where
  entity : ℕ → Target
  nothing lost : Target
  refused : Refusal → Target

abbrev pub blank : Encoder
blank = record { labels = []; sigs = []; out = [] }

-- The index of the entity, where the index space starts at `base`.
unfoldable pub target_from : ℕ → Out ℕ → Target
target_from base (Out.done i s) = entity ((base + i) % 2 ^ 32)
target_from base (Out.failed why) = refused why
target_from base _ = lost

unfoldable pub target : Ctx → Bytes → Kids → Target
unfolding target_from
target c op imm =
    if among op ("call" ∷ "return_call" ∷ "ref.func" ∷ [])
    then target_from 0 (resolve_index c.func_names (codes "function") imm blank)
    else if among op ("global.get" ∷ "global.set" ∷ [])
    then target_from (length c.func_names) (resolve_index c.global_names (codes "global") imm blank)
    else nothing

unfoldable pub visit : Target → Marks → Scanned
visit (entity e) m = dce_mark e m
visit nothing m = done m
visit lost m = stuck
visit (refused why) m = failed why

unfoldable pub dce_scan : Ctx → Kids → Marks → Scanned
dce_scan c no_kids m = done m
dce_scan c (kid (SExpr.list no_kids at) rest) m = dce_scan c rest m
dce_scan c (kid (SExpr.list (kid (SExpr.atom op at') imm) at) rest) m =
    continue (visit (target c op imm) m) (λ m'. continue (dce_scan c imm m') (dce_scan c rest))
dce_scan c (kid (SExpr.list (kid (SExpr.string bs at') imm) at) rest) m =
    continue (dce_scan c imm m) (dce_scan c rest)
dce_scan c (kid (SExpr.list (kid (SExpr.list ks at') imm) at) rest) m =
    continue (dce_scan c imm m) (dce_scan c rest)
dce_scan c (kid (SExpr.atom op at) no_kids) m = done m
dce_scan c (kid (SExpr.atom op at) (kid n rest)) m =
    continue (visit (target c op (kid n rest)) m) (dce_scan c (kid n rest))
dce_scan c (kid (SExpr.string bs at) rest) m = dce_scan c rest m

module _ (c : Ctx) (g : Entities) where
  abbrev pub n_all_funcs : ℕ
  n_all_funcs = g.n_imports + length g.funcs

  abbrev pub universe : ℕ
  universe = n_all_funcs + length g.globals

  -- The code of an entity; an import has none.
  unfoldable pub code_of : ℕ → Kids
  code_of e =
      if ltb e g.n_imports
      then no_kids
      else if ltb e n_all_funcs
      then elim (get_elem? g.funcs (e - g.n_imports)) [ none ↦ no_kids | some f ↦ f.body_first ]
      else elim (get_elem? g.globals (e - n_all_funcs)) [ none ↦ no_kids | some v ↦ v.init ]

  -- The rounds of `while (sp)`.
  unfoldable pub dce_loop : ℕ → Marks → Scanned
  dce_loop zero m = stuck
  dce_loop (suc fuel) m = elim m.stack [
    | [] ↦ done m
    | e ∷ rest ↦ continue (dce_scan c (code_of e) (record m { stack = rest })) (dce_loop fuel)
  ]

  -- The exported functions, from the index `i` on.
  unfoldable pub mark_exports : List Func → ℕ → Marks → Scanned
  mark_exports [] i m = done m
  mark_exports (f ∷ fs) i m =
      continue (elim f.export_name [ none ↦ done m | some name ↦ dce_mark (i % 2 ^ 32) m ])
        (mark_exports fs (i + 1))

  unfoldable pub reachable : Scanned
  reachable =
      continue
        (mark_exports g.funcs g.n_imports (record { reach = replicate universe false; stack = [] }))
        (dce_loop (universe + 1))

-- func_remap and global_remap: the survivors are renumbered from `next` on.
unfoldable pub renumber : List Bool → ℕ → List ℕ
renumber [] next = []
renumber (true ∷ bs) next = next ∷ renumber bs ((next + 1) % 2 ^ 32)
renumber (false ∷ bs) next = 0xffffffff ∷ renumber bs next

-- FUNC_LIVE and GLOBAL_LIVE: what the sections list, in order.
unfoldable pub live {ℓ} : {A : Type ℓ} → List Bool → List A → List A
live (true ∷ bs) (x ∷ xs) = x ∷ live bs xs
live (false ∷ bs) (x ∷ xs) = live bs xs
live _ _ = []

module _ (c : Ctx) (g : Entities) (m : Marks) where
  abbrev pub func_marks : List Bool
  func_marks = take (length g.funcs) (drop g.n_imports m.reach)

  abbrev pub global_marks : List Bool
  global_marks = drop (n_all_funcs c g) m.reach

  -- Every import keeps its index.
  abbrev pub func_remap : List ℕ
  func_remap = renumber (replicate g.n_imports true) 0 ++ renumber func_marks (g.n_imports % 2 ^ 32)

  abbrev pub global_remap : List ℕ
  global_remap = renumber global_marks 0
