-- ===== src/Wat/Dce/Roots.antt =====
-- Where dead-code elimination starts, and what it comes to.
use lua2wasm.Prelude.{
  ℕ, zero, suc, ◌+◌, ◌%◌, ◌^◌, Bytes, get_or, get_elem?, length, replicate, List, [], ◌∷◌, true,
  false, Option, none, some, ◌≡◌, ◌≢◌, refl, sym, ap, ◌∙◌, ◌⊎◌, inl, inr, arith,
}
use mathlib.Core.Path.{subst}
use mathlib.Core.List.{Memᴰ}
use mathlib.Core.List.Memᴰ
use mathlib.Core.Logic.{⊎_elim}
use lua2wasm.Wat.Encode.{Ctx}
use lua2wasm.Wat.Dce.{
  Func, Entities, Marks, Scanned, done, failed, overread, stuck, continue, Target, entity, nothing,
  refused, code_of, lost, visit, dce_mark, universe, mark_exports, dce_loop, reachable,
}
use lua2wasm.Wat.Dce.Visits.{targets, to_mark, marked, Visited, Visits, visit_all, continue_ext}
use lua2wasm.Wat.Dce.Marking.{
  visit_all-Visits, entity_injective, refused_not_entity, refused_not_nothing,
}
use lua2wasm.Wat.Reader.{Kids, no_kids}
use lua2wasm.Wat.Dce.Reach.{Reach, exported, referred, Outcome}
use lua2wasm.Wat.Dce.References.{targets-RefersTo, targets-Refuses, code_of-Code, Code-code_of}
use lua2wasm.Wat.Dce.Search.{step, Searched, root, SearchOutcome}
use lua2wasm.Wat.Dce.Worklist.{Inv, SearchOutcome-dce_loop}

-- The targets of the exports, from the index `i` on.
abbrev root_of : Option Bytes → ℕ → Target
root_of none i = nothing
root_of (some name) i = entity (i % 2 ^ 32)

abbrev roots : List Func → ℕ → List Target
roots [] i = []
roots (f ∷ fs) i = root_of f.export_name i ∷ roots fs (i + 1)

lost_not_nothing : lost ≢ nothing
lost_not_nothing e = cc

lost_not_entity : {v : ℕ} → lost ≢ entity v
lost_not_entity e = cc

true_not_false : true ≢ false
true_not_false e = cc

some_injective : {A : Type 0} {a b : A} → some a ≡ some b → a ≡ b
some_injective e = cc

visit-root_of :
    (o : Option Bytes) (i : ℕ) (m : Marks)
    → (elim o as (λ _. Scanned) [ none ↦ done m | some name ↦ dce_mark (i % 2 ^ 32) m ])
      ≡ visit (root_of o i) m
unfolding visit
visit-root_of none i m = refl
visit-root_of (some name) i m = refl

eq-root_of : (o : Option Bytes) (i v : ℕ) → entity v ≡ root_of o i → (o ≢ none) × (v ≡ i % 2 ^ 32)
eq-root_of none i v e = cc
eq-root_of (some name) i v e = (λ h. cc, entity_injective e)

root_of-eq : (o : Option Bytes) (i : ℕ) → o ≢ none → entity (i % 2 ^ 32) ≡ root_of o i
root_of-eq none i h = absurd (h refl)
root_of-eq (some name) i h = refl

mark_exports-visit_all :
    (c : Ctx) (g : Entities) (fs : List Func) (i : ℕ) (m : Marks)
    → mark_exports c g fs i m ≡ visit_all (roots fs i) m
unfolding mark_exports visit_all visit
mark_exports-visit_all c g [] i m = refl
mark_exports-visit_all c g (f ∷ fs) i m =
    ap (λ r. continue r (mark_exports c g fs (i + 1))) (visit-root_of f.export_name i m)
    ∙ continue_ext (visit (root_of f.export_name i) m) _ _ (mark_exports-visit_all c g fs (i + 1))

-- A target among the roots is an exported function.
of_roots :
    (fs : List Func) (i v : ℕ)
    → Memᴰ (entity v) (roots fs i)
    → (k : ℕ) × (f : Func) × (get_elem? fs k ≡ some f)
      × (f.export_name ≢ none)
      × (v ≡ (i + k) % 2 ^ 32)
of_roots [] i v m = absurd (Memᴰ.not-nil m)
of_roots (f ∷ fs) i v m = elim (Memᴰ.cases_cons m) [
  | inl e ↦
      let (out, at) = eq-root_of f.export_name i v e in
      (0, f, refl, out, at ∙ ap (λ k. k % 2 ^ 32) (omega arith))
  | inr later ↦
      let (k, f', at, out, e) = of_roots fs (i + 1) v later in
      (suc k, f', at, out, e ∙ ap (λ k. k % 2 ^ 32) (omega arith))
]

-- And every exported function is among them.
to_roots :
    (fs : List Func) (i k : ℕ) (f : Func)
    → get_elem? fs k ≡ some f
    → f.export_name ≢ none
    → Memᴰ (entity ((i + k) % 2 ^ 32)) (roots fs i)
to_roots [] i k f at out = absurd (ground arith)
to_roots (f' ∷ fs) i zero f at out = Memᴰ.head (
    ap (λ k. entity (k % 2 ^ 32)) (omega arith)
    ∙ root_of-eq f'.export_name i (subst (λ h. h.export_name ≢ none) (sym (some_injective at)) out))
to_roots (f' ∷ fs) i (suc k) f at out = Memᴰ.tail (
    subst (λ k. Memᴰ (entity (k % 2 ^ 32)) (roots fs (i + 1))) (omega arith)
      (to_roots fs (i + 1) k f at out))

root_of_cases :
    (o : Option Bytes) (i : ℕ) → (root_of o i ≡ nothing) ⊎ (root_of o i ≡ entity (i % 2 ^ 32))
root_of_cases none i = inl refl
root_of_cases (some name) i = inr refl

roots_cases :
    (fs : List Func) (i : ℕ) (t : Target)
    → Memᴰ t (roots fs i)
    → (t ≡ nothing) ⊎ ((v : ℕ) × (t ≡ entity v))
roots_cases [] i t m = absurd (Memᴰ.not-nil m)
roots_cases (f ∷ fs) i t m = elim (Memᴰ.cases_cons m) [
  | inl e ↦ ⊎_elim (λ h. inl (e ∙ h)) (λ h. inr (i % 2 ^ 32, e ∙ h)) (root_of_cases f.export_name i)
  | inr later ↦ roots_cases fs (i + 1) t later
]

length-clear : (n : ℕ) → length (replicate n false) ≡ n
length-clear zero = refl
length-clear (suc n) = ap suc (length-clear n)

to_mark-clear : (n : ℕ) → to_mark (replicate n false) ≡ n
unfolding to_mark
to_mark-clear zero = refl
to_mark-clear (suc n) = ap suc (to_mark-clear n)

get_or-clear : (n v : ℕ) → get_or (replicate n false) v false ≡ false
get_or-clear zero v = refl
get_or-clear (suc n) zero = refl
get_or-clear (suc n) (suc v) = get_or-clear n v

module _ (c : Ctx) (g : Entities) where
  abbrev unmarked : Marks
  unmarked = record { reach = replicate (universe c g) false; stack = [] }

  root-Searched : (v : ℕ) → Memᴰ (entity v) (roots g.funcs g.n_imports) → Searched c g v
  root-Searched v m =
      let (k, f, at, out, e) = of_roots g.funcs g.n_imports v m in
      subst (Searched c g) (sym e) (root k f at out)

  fresh :
      (m : Marks) (v : ℕ)
      → Visited (roots g.funcs g.n_imports) unmarked m
      → marked m v ≡ true
      → Memᴰ v m.stack
  fresh m v p s = (p.queue v).1 (inr (s, get_or-clear (universe c g) v))

  Inv-roots : (m : Marks) → Visited (roots g.funcs g.n_imports) unmarked m → Inv c g m
  Inv-roots m p = record {
    size = p.size ∙ length-clear (universe c g);
    rooted = λ i f at out. (p.flags _).1 (inr (to_roots g.funcs g.n_imports i f at out));
    queued =
        λ v q. ⊎_elim (λ none_yet. absurd (Memᴰ.not-nil none_yet)) (λ new. new.0) ((p.queue v).0 q);
    sound = λ v s.
        ⊎_elim (λ old. absurd (true_not_false (sym old ∙ get_or-clear (universe c g) v)))
          (root-Searched v) ((p.flags v).0 s);
    closed = λ u v s edge. inl (fresh m u p s);
    fine = λ u why s. inl (fresh m u p s);
  }

  SearchOutcome-roots :
      (r : Scanned)
      → Visits (roots g.funcs g.n_imports) unmarked r
      → SearchOutcome c g (continue r (dce_loop c g (universe c g + 1)))
  SearchOutcome-roots (done m) p =
      SearchOutcome-dce_loop c g (universe c g + 1) m (Inv-roots m p)
        (omega (arith, p.work, to_mark-clear (universe c g)))
  SearchOutcome-roots (failed why) p = absurd (
      ⊎_elim refused_not_nothing (λ (v, e). refused_not_entity e)
        (roots_cases g.funcs g.n_imports _ p))
  SearchOutcome-roots overread (v, at, far) =
      (v, root-Searched v at, omega (arith, length-clear (universe c g)))
  SearchOutcome-roots stuck p =
      ⊎_elim lost_not_nothing (λ (v, e). lost_not_entity e) (roots_cases g.funcs g.n_imports _ p)

no_targets : {t : Target} (c : Ctx) (ks : Kids) → ks ≡ no_kids → Memᴰ t (targets c ks) → Memᴰ t []
unfolding targets
no_targets {t = t} c ks e m = subst (λ k. Memᴰ t (targets c k)) e m

-- What is searched is what the exports reach.
Searched-Reach : (c : Ctx) (g : Entities) (v : ℕ) → Searched c g v → Reach c g v
Searched-Reach c g _ (root i f at out) = exported i f at out
Searched-Reach c g _ (step {u} {v} r edge) = elim (Code-code_of c g u) [
  | inl none_there ↦ absurd (Memᴰ.not-nil (no_targets c _ none_there edge))
  | inr code ↦ referred (Searched-Reach c g u r) code ((targets-RefersTo c _ v).0 edge)
]

Reach-Searched : (c : Ctx) (g : Entities) (v : ℕ) → Reach c g v → Searched c g v
Reach-Searched c g _ (exported i f at out) = root i f at out
Reach-Searched c g _ (referred {u} {v} {ks} r code refers) = step (Reach-Searched c g u r) (
    subst (λ k. Memᴰ (entity v) (targets c k)) (sym (code_of-Code c g u ks code))
      ((targets-RefersTo c ks v).1 refers))

to_Outcome : (c : Ctx) (g : Entities) (r : Scanned) → SearchOutcome c g r → Outcome c g r
to_Outcome c g (done m) h = record {
  exact = λ e.
      (λ s. Searched-Reach c g e ((h.exact e).0 s), λ r. (h.exact e).1 (Reach-Searched c g e r));
  size = h.size;
  fine = λ u ks why r code bad. h.fine u why (Reach-Searched c g u r) (
      subst (λ k. Memᴰ (refused why) (targets c k)) (sym (code_of-Code c g u ks code))
        ((targets-Refuses c ks why).1 bad));
}
to_Outcome c g (failed why) (u, s, m) = elim (Code-code_of c g u) [
  | inl none_there ↦ absurd (Memᴰ.not-nil (no_targets c _ none_there m))
  | inr code ↦ (u, code_of c g u, Searched-Reach c g u s, code, (targets-Refuses c _ why).0 m)
]
to_Outcome c g overread (v, s, far) = (v, Searched-Reach c g v s, far)
to_Outcome c g stuck h = h

-- For every module: the worklist ends, within its bound of rounds. Where elimination succeeds it
-- has marked exactly the functions and globals that the exports reach: the exported functions,
-- and, again and again, what a call, return_call, ref.func, global.get or global.set that stands
-- anywhere in a reached body or initializer names. All of them are within the numbering, and every
-- such operand in reached code resolves. Where it fails, one in reached code is refused for that
-- reason. Where it reads beyond the marks, reached code refers to an index beyond the entities.
pub reachable-Outcome : (c : Ctx) (g : Entities) → Outcome c g (reachable c g)
unfolding reachable
reachable-Outcome c g = to_Outcome c g _ (
    SearchOutcome-roots c g _ (
      subst (Visits (roots g.funcs g.n_imports) (unmarked c g))
        (sym (mark_exports-visit_all c g g.funcs g.n_imports _))
        (visit_all-Visits (roots g.funcs g.n_imports) _)))
