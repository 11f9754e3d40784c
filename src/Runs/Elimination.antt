-- ===== src/Runs/Elimination.antt =====
-- Runs of dead-code elimination.
use lua2wasm.Prelude.{
  ℕ, ◌<◌, ◌%◌, ◌^◌, ◌+◌, codes, String, get_elem?, [], ◌∷◌, true, false, none, some, ◌≡◌, refl,
}
use lua2wasm.Freestanding.Mem.{strcmp}
use lua2wasm.Wat.Integer.{parse_uint, digits, signed, decimal_loop}
use lua2wasm.Wat.Reader.{SExpr, Kids, no_kids, kid}
use lua2wasm.Wat.Encode.{
  Ctx, pure, fail, ◌>>=◌, branch, on_option, same, same_name, atom_text, number,
}
use lua2wasm.Wat.Encode.Types.{find_name, index_of}
use lua2wasm.Wat.Encode.Ops.{among, resolve_index}
use lua2wasm.Wat.Dce.{
  Func, Global, Entities, Marks, done, overread, mark_at, dce_mark, target_from, target, visit,
  dce_scan, n_all_funcs, code_of, dce_loop, mark_exports, reachable, live, func_marks, global_marks,
  func_remap, global_remap, renumber,
}
use lua2wasm.Wat.Dce.Reach.{Reach, Outcome}
use lua2wasm.Wat.Dce.Roots.{reachable-Outcome}
use lua2wasm.Wat.Dce.Remap.{PointsAt, remap-PointsAt}

abbrev instr : String → String → Kids → Kids
instr op operand rest =
    kid (SExpr.list (kid (SExpr.atom (codes op) 0) (kid (SExpr.atom (codes operand) 0) no_kids)) 0)
      rest

-- An import, an exported function that calls $helper and reads $used, and $dead, whose address
-- only the global $unused takes.
abbrev names : Ctx
names = record {
  src = [];
  func_names =
      some (codes "$print")
      ∷ some (codes "$main")
      ∷ some (codes "$dead")
      ∷ some (codes "$helper")
      ∷ [];
  global_names = some (codes "$unused") ∷ some (codes "$used") ∷ [];
  tag_names = [];
  data_names = [];
  decls = [];
  func_remap = none;
  global_remap = none;
  sig_remap = none;
}

abbrev main_func : Func
main_func = record {
  export_name = some (codes "main");
  body_first = instr "call" "$helper" (instr "global.get" "$used" no_kids);
}

abbrev dead_func : Func
dead_func = record { export_name = none; body_first = no_kids }

abbrev helper_func : Func
helper_func = record { export_name = none; body_first = instr "call" "$print" no_kids }

abbrev sample : Entities
sample = record {
  n_imports = 1;
  funcs = main_func ∷ dead_func ∷ helper_func ∷ [];
  globals =
      record { init = instr "ref.func" "$dead" no_kids }
      ∷ record { init = instr "i32.const" "1" no_kids }
      ∷ [];
}

abbrev kept : Marks
kept = record { reach = true ∷ true ∷ false ∷ true ∷ false ∷ true ∷ []; stack = [] }

reachable_run : reachable names sample ≡ done kept
unfolding reachable dce_loop mark_exports code_of dce_scan visit target target_from dce_mark mark_at
    resolve_index index_of find_name among same same_name atom_text number pure fail ◌>>=◌ branch
    on_option strcmp parse_uint digits signed decimal_loop
reachable_run = refl

reachable-Outcome_example : Outcome names sample (reachable names sample)
reachable-Outcome_example = reachable-Outcome names sample

remap-PointsAt_example :
    ((i : ℕ) → i < 1 → get_elem? (func_remap names sample kept) i ≡ some (i % 2 ^ 32))
    × ((i : ℕ) (f : Func)
        → get_elem? sample.funcs i ≡ some f
        → Reach names sample (1 + i)
        → PointsAt
            (func_remap names sample kept)
            (1 + i)
            1
            (live (func_marks names sample kept) sample.funcs)
            f)
    × ((i : ℕ) (v : Global)
        → get_elem? sample.globals i ≡ some v
        → Reach names sample (n_all_funcs names sample + i)
        → PointsAt
            (global_remap names sample kept)
            i
            0
            (live (global_marks names sample kept) sample.globals)
            v)
remap-PointsAt_example = remap-PointsAt names sample kept reachable_run

remaps_run :
    (func_remap names sample kept ≡ 0 ∷ 1 ∷ 0xffffffff ∷ 2 ∷ [])
    × (global_remap names sample kept ≡ 0xffffffff ∷ 0 ∷ [])
unfolding renumber
remaps_run = (refl, refl)

-- A call of function 9 in a module with two functions and two globals.
numbered_call :
    reachable names (record sample {
      funcs =
          record { export_name = some (codes "main"); body_first = instr "call" "9" no_kids } ∷ [];
    })
    ≡ overread
unfolding reachable dce_loop mark_exports code_of dce_scan visit target target_from dce_mark mark_at
    resolve_index index_of find_name among same same_name atom_text number pure fail ◌>>=◌ branch
    on_option strcmp parse_uint digits signed decimal_loop
numbered_call = refl
