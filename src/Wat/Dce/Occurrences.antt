-- ===== src/Wat/Dce/Occurrences.antt =====
-- The targets of code are those of the instructions that stand in it.
use lua2wasm.Prelude.{ℕ, Bytes, ◌≡◌, refl, ap, inl, inr}
use mathlib.Core.List.{Memᴰ}
use mathlib.Core.List.Memᴰ
use lua2wasm.Wat.Reader.{SExpr, Kids, no_kids, kid}
use lua2wasm.Wat.Encode.{Ctx}
use lua2wasm.Wat.Dce.{Target, target}
use lua2wasm.Wat.Dce.Visits.{targets}
use lua2wasm.Wat.Dce.Reach.{Occurs, folded, plain, inside, later}

-- What follows a node is part of the code.
behind :
    {t : Target} (c : Ctx) (n : SExpr) (rest : Kids)
    → Memᴰ t (targets c rest)
    → Memᴰ t (targets c (kid n rest))
unfolding targets
behind c (SExpr.list no_kids at) rest m = m
behind c (SExpr.list (kid (SExpr.atom op at') imm) at) rest m =
    Memᴰ.tail (Memᴰ.append_right (targets c imm) m)
behind c (SExpr.list (kid (SExpr.string bs at') imm) at) rest m =
    Memᴰ.append_right (targets c imm) m
behind c (SExpr.list (kid (SExpr.list ks at') imm) at) rest m = Memᴰ.append_right (targets c imm) m
behind c (SExpr.atom op at) no_kids m = absurd (Memᴰ.not-nil m)
behind c (SExpr.atom op at) (kid n rest) m = Memᴰ.tail m
behind c (SExpr.string bs at) rest m = m

-- So is what stands in a list.
in_list :
    {t : Target} (c : Ctx) (head : SExpr) (at : ℕ) (ks rest : Kids)
    → Memᴰ t (targets c ks)
    → Memᴰ t (targets c (kid (SExpr.list (kid head ks) at) rest))
unfolding targets
in_list c (SExpr.atom op at') at ks rest m = Memᴰ.tail (Memᴰ.append_left (targets c rest) m)
in_list c (SExpr.string bs at') at ks rest m = Memᴰ.append_left (targets c rest) m
in_list c (SExpr.list hs at') at ks rest m = Memᴰ.append_left (targets c rest) m

-- Every instruction has its target among those of the code.
pub Occurs-targets :
    (c : Ctx) {op : Bytes} {imm ks : Kids}
    → Occurs op imm ks
    → Memᴰ (target c op imm) (targets c ks)
unfolding targets
Occurs-targets c (folded at' at rest) = Memᴰ.head refl
Occurs-targets c {op = op} (plain at n rest e) = Memᴰ.head (ap (target c op) e)
Occurs-targets c (inside head at ks rest o) = in_list c head at ks rest (Occurs-targets c o)
Occurs-targets c (later n rest o) = behind c n rest (Occurs-targets c o)

abbrev pub TargetOf : Ctx → Kids → Target → Type 0
TargetOf c ks t = (op : Bytes) × (imm : Kids) × Occurs op imm ks × (t ≡ target c op imm)

TargetOf-later :
    (c : Ctx) (t : Target) (n : SExpr) (rest : Kids) → TargetOf c rest t → TargetOf c (kid n rest) t
TargetOf-later c t n rest (op, imm, o, e) = (op, imm, later n rest o, e)

TargetOf-inside :
    (c : Ctx) (t : Target) (head : SExpr) (at : ℕ) (ks rest : Kids)
    → TargetOf c ks t
    → TargetOf c (kid (SExpr.list (kid head ks) at) rest) t
TargetOf-inside c t head at ks rest (op, imm, o, e) = (op, imm, inside head at ks rest o, e)

-- Every target is that of an instruction.
pub targets-TargetOf : (c : Ctx) (t : Target) (ks : Kids) → Memᴰ t (targets c ks) → TargetOf c ks t
unfolding targets
targets-TargetOf c t no_kids m = absurd (Memᴰ.not-nil m)
targets-TargetOf c t (kid (SExpr.list no_kids at) rest) m =
    TargetOf-later c t (SExpr.list no_kids at) rest (targets-TargetOf c t rest m)
targets-TargetOf c t (kid (SExpr.list (kid (SExpr.atom op at') imm) at) rest) m =
    elim (Memᴰ.cases_cons m) [
      | inl e ↦ (op, imm, folded at' at rest, e)
      | inr m' ↦ elim (Memᴰ.append_cases (targets c imm) m') [
        | inl i ↦ TargetOf-inside c t (SExpr.atom op at') at imm rest (targets-TargetOf c t imm i)
        | inr l ↦ TargetOf-later c t _ rest (targets-TargetOf c t rest l)
      ]
    ]
targets-TargetOf c t (kid (SExpr.list (kid (SExpr.string bs at') imm) at) rest) m =
    elim (Memᴰ.append_cases (targets c imm) m) [
      | inl i ↦ TargetOf-inside c t (SExpr.string bs at') at imm rest (targets-TargetOf c t imm i)
      | inr l ↦ TargetOf-later c t _ rest (targets-TargetOf c t rest l)
    ]
targets-TargetOf c t (kid (SExpr.list (kid (SExpr.list ks at') imm) at) rest) m =
    elim (Memᴰ.append_cases (targets c imm) m) [
      | inl i ↦ TargetOf-inside c t (SExpr.list ks at') at imm rest (targets-TargetOf c t imm i)
      | inr l ↦ TargetOf-later c t _ rest (targets-TargetOf c t rest l)
    ]
targets-TargetOf c t (kid (SExpr.atom op at) no_kids) m = absurd (Memᴰ.not-nil m)
targets-TargetOf c t (kid (SExpr.atom op at) (kid n rest)) m = elim (Memᴰ.cases_cons m) [
  | inl e ↦ (op, kid n rest, plain at n rest refl, e)
  | inr l ↦ TargetOf-later c t (SExpr.atom op at) (kid n rest) (targets-TargetOf c t (kid n rest) l)
]
targets-TargetOf c t (kid (SExpr.string bs at) rest) m =
    TargetOf-later c t (SExpr.string bs at) rest (targets-TargetOf c t rest m)
