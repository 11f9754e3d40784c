-- ===== src/Wat/Dce/Lost.antt =====
-- No reference is lost: resolving one goes through no null pointer and ends.
use lua2wasm.Prelude.{
  ℕ, Bytes, length, List, [], ◌∷◌, ◌++◌, Bool, true, false, Option, none, ◌≢◌, refl, sym,
  if◌then◌else◌,
}
use mathlib.Core.List.{Memᴰ}
use mathlib.Core.List.Memᴰ
use mathlib.Core.Logic.{⊎_elim}
use lua2wasm.Wat.Reader.{SExpr, Kids, no_kids, kid}
use lua2wasm.Wat.Encode.{Ctx, Out}
use lua2wasm.Wat.Encode.Ops.{resolve_index}
use lua2wasm.Wat.Encode.Grows.{Remaps, Returns}
use lua2wasm.Wat.Encode.Resolved.{Good-resolve_index}
use lua2wasm.Wat.Dce.{Target, nothing, lost, blank, target_from, target}
use lua2wasm.Wat.Dce.Visits.{targets}

-- A context that maps no index; the resolution of an index reads none of it.
abbrev unmapped : Ctx
unmapped = record {
  src = [];
  func_names = [];
  global_names = [];
  tag_names = [];
  data_names = [];
  decls = [];
  func_remap = none;
  global_remap = none;
  sig_remap = none;
}

not_remapped : ¬ Remaps unmapped
not_remapped = ⊎_elim (λ h. h refl) (⊎_elim (λ h. h refl) (λ h. h refl))

target_from-eq-lost : (base : ℕ) (r : Out ℕ) → Returns unmapped blank r → target_from base r ≢ lost
unfolding target_from
target_from-eq-lost base (Out.done i s) h e = cc
target_from-eq-lost base (Out.failed why) h e = cc
target_from-eq-lost base Out.null h e = h
target_from-eq-lost base Out.overread h e = not_remapped h
target_from-eq-lost base Out.stuck h e = h

resolved :
    (base : ℕ) (names : List (Option Bytes)) (what : Bytes) (k : Kids)
    → target_from base (resolve_index names what k blank) ≢ lost
resolved base names what k =
    target_from-eq-lost base _ ((Good-resolve_index {c = unmapped} names what k).at blank)

if-eq-lost : (b : Bool) (s t : Target) → s ≢ lost → t ≢ lost → (if b then s else t) ≢ lost
if-eq-lost true s t g h = g
if-eq-lost false s t g h = h

nothing_not_lost : nothing ≢ lost
nothing_not_lost e = cc

target-eq-lost : (c : Ctx) (op : Bytes) (imm : Kids) → target c op imm ≢ lost
unfolding target
target-eq-lost c op imm =
    if-eq-lost _ _ _ (resolved 0 c.func_names _ imm)
      (if-eq-lost _ _ _ (resolved (length c.func_names) c.global_names _ imm) nothing_not_lost)

lost_neither : (xs ys : List Target) → ¬ Memᴰ lost xs → ¬ Memᴰ lost ys → ¬ Memᴰ lost (xs ++ ys)
lost_neither xs ys g h m = ⊎_elim g h (Memᴰ.append_cases xs m)

lost_not_first : (t : Target) (ts : List Target) → t ≢ lost → ¬ Memᴰ lost ts → ¬ Memᴰ lost (t ∷ ts)
lost_not_first t ts g h m = ⊎_elim (λ e. g (sym e)) h (Memᴰ.cases_cons m)

pub lost_free : (c : Ctx) (ks : Kids) → ¬ Memᴰ lost (targets c ks)
unfolding targets
lost_free c no_kids = Memᴰ.not-nil
lost_free c (kid (SExpr.list no_kids at) rest) = lost_free c rest
lost_free c (kid (SExpr.list (kid (SExpr.atom op at') imm) at) rest) =
    lost_not_first _ _ (target-eq-lost c op imm)
      (lost_neither (targets c imm) (targets c rest) (lost_free c imm) (lost_free c rest))
lost_free c (kid (SExpr.list (kid (SExpr.string bs at') imm) at) rest) =
    lost_neither (targets c imm) (targets c rest) (lost_free c imm) (lost_free c rest)
lost_free c (kid (SExpr.list (kid (SExpr.list ks at') imm) at) rest) =
    lost_neither (targets c imm) (targets c rest) (lost_free c imm) (lost_free c rest)
lost_free c (kid (SExpr.atom op at) no_kids) = Memᴰ.not-nil
lost_free c (kid (SExpr.atom op at) (kid n rest)) =
    lost_not_first _ _ (target-eq-lost c op (kid n rest)) (lost_free c (kid n rest))
lost_free c (kid (SExpr.string bs at) rest) = lost_free c rest
