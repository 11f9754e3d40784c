-- ===== src/Wat/Dce/Visits.antt =====
-- What a scan marks: exactly the entities that the code refers to.
use lua2wasm.Prelude.{
  ℕ, suc, ◌+◌, ◌≤◌, length, get_or, List, [], ◌∷◌, ◌++◌, Bool, true, false, ◌≡◌, refl, sym, ap, ◌∙◌,
  ◌⊎◌, ◌↔◌,
}
use mathlib.Core.List.{Memᴰ}
use lua2wasm.Wat.Reader.{SExpr, Kids, no_kids, kid}
use lua2wasm.Wat.Encode.{Ctx, Refusal}
use lua2wasm.Wat.Dce.{
  Marks, Scanned, done, failed, overread, stuck, continue, Target, entity, lost, refused, target,
  visit, dce_scan,
}

-- What the code refers to: the target of every instruction in it, folded or plain.
unfoldable pub targets : Ctx → Kids → List Target
targets c no_kids = []
targets c (kid (SExpr.list no_kids at) rest) = targets c rest
targets c (kid (SExpr.list (kid (SExpr.atom op at') imm) at) rest) =
    target c op imm ∷ (targets c imm ++ targets c rest)
targets c (kid (SExpr.list (kid (SExpr.string bs at') imm) at) rest) =
    targets c imm ++ targets c rest
targets c (kid (SExpr.list (kid (SExpr.list ks at') imm) at) rest) = targets c imm ++ targets c rest
targets c (kid (SExpr.atom op at) no_kids) = []
targets c (kid (SExpr.atom op at) (kid n rest)) = target c op (kid n rest) ∷ targets c (kid n rest)
targets c (kid (SExpr.string bs at) rest) = targets c rest

unfoldable pub visit_all : List Target → Marks → Scanned
visit_all [] m = done m
visit_all (t ∷ ts) m = continue (visit t m) (visit_all ts)

continue_assoc :
    (r : Scanned) (f g : Marks → Scanned)
    → continue (continue r f) g ≡ continue r (λ m. continue (f m) g)
continue_assoc (done m) f g = refl
continue_assoc (failed why) f g = refl
continue_assoc overread f g = refl
continue_assoc stuck f g = refl

pub continue_ext :
    (r : Scanned) (f g : Marks → Scanned) → ((m : Marks) → f m ≡ g m) → continue r f ≡ continue r g
continue_ext (done m) f g h = h m
continue_ext (failed why) f g h = refl
continue_ext overread f g h = refl
continue_ext stuck f g h = refl

visit_all-append :
    (xs ys : List Target) (m : Marks)
    → visit_all (xs ++ ys) m ≡ continue (visit_all xs m) (visit_all ys)
unfolding visit_all
visit_all-append [] ys m = refl
visit_all-append (x ∷ xs) ys m =
    continue_ext (visit x m) _ _ (visit_all-append xs ys)
    ∙ sym (continue_assoc (visit x m) (visit_all xs) (visit_all ys))

both :
    (c : Ctx) (imm rest : Kids) (m : Marks)
    → dce_scan c imm m ≡ visit_all (targets c imm) m
    → ((m' : Marks) → dce_scan c rest m' ≡ visit_all (targets c rest) m')
    → continue (dce_scan c imm m) (dce_scan c rest) ≡ visit_all (targets c imm ++ targets c rest) m
both c imm rest m e h =
    ap (λ r. continue r (dce_scan c rest)) e
    ∙ continue_ext (visit_all (targets c imm) m) _ _ h
    ∙ sym (visit_all-append (targets c imm) (targets c rest) m)

-- The scan visits the targets in order.
pub dce_scan-visit_all :
    (c : Ctx) (ks : Kids) (m : Marks) → dce_scan c ks m ≡ visit_all (targets c ks) m
unfolding dce_scan targets visit_all
dce_scan-visit_all c no_kids m = refl
dce_scan-visit_all c (kid (SExpr.list no_kids at) rest) m = dce_scan-visit_all c rest m
dce_scan-visit_all c (kid (SExpr.list (kid (SExpr.atom op at') imm) at) rest) m =
    continue_ext (visit (target c op imm) m) _ _
      (λ m'. both c imm rest m' (dce_scan-visit_all c imm m') (dce_scan-visit_all c rest))
dce_scan-visit_all c (kid (SExpr.list (kid (SExpr.string bs at') imm) at) rest) m =
    both c imm rest m (dce_scan-visit_all c imm m) (dce_scan-visit_all c rest)
dce_scan-visit_all c (kid (SExpr.list (kid (SExpr.list ks at') imm) at) rest) m =
    both c imm rest m (dce_scan-visit_all c imm m) (dce_scan-visit_all c rest)
dce_scan-visit_all c (kid (SExpr.atom op at) no_kids) m = refl
dce_scan-visit_all c (kid (SExpr.atom op at) (kid n rest)) m =
    continue_ext (visit (target c op (kid n rest)) m) _ _ (dce_scan-visit_all c (kid n rest))
dce_scan-visit_all c (kid (SExpr.string bs at) rest) m = dce_scan-visit_all c rest m

-- The entities that are not marked yet.
unfoldable pub to_mark : List Bool → ℕ
to_mark [] = 0
to_mark (true ∷ marks) = to_mark marks
to_mark (false ∷ marks) = suc (to_mark marks)

abbrev pub marked : Marks → ℕ → Bool
marked m e = get_or m.reach e false

pub record Visited (ts : List Target) (m m' : Marks) : Type 0 where
  pub fine : (why : Refusal) → ¬ Memᴰ (refused why) ts
  pub size : length m'.reach ≡ length m.reach
  pub work : to_mark m'.reach + length m'.stack ≡ to_mark m.reach + length m.stack
  pub flags : (w : ℕ) → (marked m' w ≡ true) ↔ ((marked m w ≡ true) ⊎ Memᴰ (entity w) ts)
  pub queue :
      (w : ℕ) → Memᴰ w m'.stack ↔ (Memᴰ w m.stack ⊎ (marked m' w ≡ true) × (marked m w ≡ false))

abbrev pub Visits : List Target → Marks → Scanned → Type 0
Visits ts m (done m') = Visited ts m m'
Visits ts m (failed why) = Memᴰ (refused why) ts
Visits ts m overread = (v : ℕ) × Memᴰ (entity v) ts × (length m.reach ≤ v)
Visits ts m stuck = Memᴰ lost ts
