-- ===== src/Wat/Dce/Worklist.antt =====
-- The rounds of the worklist keep its invariant and end.
use lua2wasm.Prelude.{
  ℕ, zero, suc, ◌+◌, ◌%◌, ◌^◌, ◌≤◌, ◌<◌, get_elem?, length, List, [], ◌∷◌, true, none, some, ◌≡◌,
  ◌≢◌, refl, sym, ap, ◌⊎◌, inl, inr, arith,
}
use mathlib.Core.Path.{subst}
use mathlib.Core.List.{Memᴰ}
use mathlib.Core.List.Memᴰ
use mathlib.Core.Logic.{⊎_elim}
use lua2wasm.Wat.Encode.{Ctx, Refusal}
use lua2wasm.Wat.Dce.{
  Func, Entities, Marks, Scanned, done, failed, overread, stuck, continue, entity, refused,
  dce_scan, universe, code_of, dce_loop,
}
use lua2wasm.Wat.Dce.Visits.{targets, to_mark, marked, Visited, Visits, dce_scan-visit_all}
use lua2wasm.Wat.Dce.Marking.{Memᴰ-cons, visit_all-Visits}
use lua2wasm.Wat.Dce.Lost.{lost_free}
use lua2wasm.Wat.Dce.Search.{Searched, root, step, SearchComplete, SearchOutcome}

top_or_empty :
    {A : Type 0} (xs : List A) → (xs ≡ []) ⊎ ((x : A) × (rest : List A) × (xs ≡ x ∷ rest))
top_or_empty [] = inl refl
top_or_empty (x ∷ xs) = inr (x, xs, refl)

module _ (c : Ctx) (g : Entities) where
  -- The entities that stand at once on the worklist or are dealt with: marked, and scanned unless
  -- queued.
  pub record Inv (m : Marks) : Type 0 where
    pub size : length m.reach ≡ universe c g
    pub rooted :
        (i : ℕ) (f : Func)
        → get_elem? g.funcs i ≡ some f
        → f.export_name ≢ none
        → marked m ((g.n_imports + i) % 2 ^ 32) ≡ true
    pub queued : (v : ℕ) → Memᴰ v m.stack → marked m v ≡ true
    pub sound : (v : ℕ) → marked m v ≡ true → Searched c g v
    pub closed :
        (u v : ℕ)
        → marked m u ≡ true
        → Memᴰ (entity v) (targets c (code_of c g u))
        → Memᴰ u m.stack ⊎ (marked m v ≡ true)
    pub fine :
        (u : ℕ) (why : Refusal)
        → marked m u ≡ true
        → Memᴰ u m.stack ⊎ ¬ Memᴰ (refused why) (targets c (code_of c g u))

  Inv-scan :
      (m : Marks) (u : ℕ) (rest : List ℕ) (m' : Marks)
      → m.stack ≡ u ∷ rest
      → Inv m
      → Visited (targets c (code_of c g u)) (record m { stack = rest }) m'
      → Inv m'
  Inv-scan m u rest m' e h p =
      let to_u = h.sound u (h.queued u (simp e (Memᴰ.head refl))) in
      record {
        size = omega (arith, p.size, h.size);
        rooted = λ i f at out. (p.flags _).1 (inl (h.rooted i f at out));
        queued = λ v q. ground (arith, p.flags v, p.queue v, h.queued v, Memᴰ-cons v u rest);
        sound = λ v s. ⊎_elim (h.sound v) (step to_u) ((p.flags v).0 s);
        closed =
            λ x v s edge. ground (arith, p.flags v, p.queue x, h.closed x v, Memᴰ-cons x u rest);
        fine = λ x why s. ground (arith, p.fine why, p.queue x, h.fine x why, Memᴰ-cons x u rest);
      }

  everything : (m : Marks) → Inv m → m.stack ≡ [] → {v : ℕ} → Searched c g v → marked m v ≡ true
  everything m h e (root i f at out) = h.rooted i f at out
  everything m h e (step {u} {v} r edge) = elim (h.closed u v (everything m h e r) edge) [
    | inl waiting ↦ absurd (Memᴰ.not-nil (subst (Memᴰ u) e waiting))
    | inr set ↦ set
  ]

  settled :
      (m : Marks) (u : ℕ) (why : Refusal)
      → Inv m
      → m.stack ≡ []
      → Searched c g u
      → ¬ Memᴰ (refused why) (targets c (code_of c g u))
  settled m u why h e r = elim (h.fine u why (everything m h e r)) [
    | inl waiting ↦ absurd (Memᴰ.not-nil (subst (Memᴰ u) e waiting))
    | inr ok ↦ ok
  ]

  SearchComplete-Inv : (m : Marks) → Inv m → m.stack ≡ [] → SearchComplete c g m
  SearchComplete-Inv m h e = record {
    exact = λ v. (h.sound v, everything m h e);
    size = h.size;
    fine = λ u why. settled m u why h e;
  }

  abbrev work : Marks → ℕ
  work m = to_mark m.reach + length m.stack

  queued-Searched :
      (m : Marks) (u : ℕ) (rest : List ℕ) → m.stack ≡ u ∷ rest → Inv m → Searched c g u
  queued-Searched m u rest e h = h.sound u (h.queued u (simp e (Memᴰ.head refl)))

  SearchOutcome-scan :
      (m : Marks) (u : ℕ) (rest : List ℕ) (fuel : ℕ) (r : Scanned)
      → m.stack ≡ u ∷ rest
      → Inv m
      → work m ≤ fuel
      → Visits (targets c (code_of c g u)) (record m { stack = rest }) r
      → ((m' : Marks) → Inv m' → work m' < fuel → SearchOutcome c g (dce_loop c g fuel m'))
      → SearchOutcome c g (continue r (dce_loop c g fuel))
  SearchOutcome-scan m u rest fuel (done m') e h w p next =
      next m' (Inv-scan m u rest m' e h p) (omega (arith, p.work, ap length e))
  SearchOutcome-scan m u rest fuel (failed why) e h w p next = (u, queued-Searched m u rest e h, p)
  SearchOutcome-scan m u rest fuel overread e h w (v, at, far) next =
      (v, step (queued-Searched m u rest e h) at, omega (arith, h.size))
  SearchOutcome-scan m u rest fuel stuck e h w p next = lost_free c (code_of c g u) p

  dce_loop-empty : (fuel : ℕ) (m : Marks) → m.stack ≡ [] → dce_loop c g (suc fuel) m ≡ done m
  unfolding dce_loop
  dce_loop-empty fuel m e = rw e refl

  dce_loop-pop :
      (fuel : ℕ) (m : Marks) (u : ℕ) (rest : List ℕ)
      → m.stack ≡ u ∷ rest
      → dce_loop c g (suc fuel) m
        ≡ continue (dce_scan c (code_of c g u) (record m { stack = rest })) (dce_loop c g fuel)
  unfolding dce_loop
  dce_loop-pop fuel m u rest e = rw e refl

  -- Each round takes one entity off the worklist, and queues only what it marks.
  pub SearchOutcome-dce_loop :
      (fuel : ℕ) (m : Marks) → Inv m → work m < fuel → SearchOutcome c g (dce_loop c g fuel m)
  SearchOutcome-dce_loop zero m h w = absurd (omega arith)
  SearchOutcome-dce_loop (suc fuel) m h w = elim (top_or_empty m.stack) [
    | inl empty ↦
        subst (SearchOutcome c g) (sym (dce_loop-empty fuel m empty)) (SearchComplete-Inv m h empty)
    | inr (u, rest, e) ↦ subst (SearchOutcome c g) (sym (dce_loop-pop fuel m u rest e)) (
        SearchOutcome-scan m u rest fuel _ e h (omega arith)
          (subst (Visits (targets c (code_of c g u)) (record m { stack = rest }))
            (sym (dce_scan-visit_all c (code_of c g u) _))
            (visit_all-Visits (targets c (code_of c g u)) _))
          (SearchOutcome-dce_loop fuel))
  ]
