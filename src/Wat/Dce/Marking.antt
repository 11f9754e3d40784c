-- ===== src/Wat/Dce/Marking.antt =====
-- The visits of a list of targets mark exactly those entities, and queue the newly marked.
use lua2wasm.Prelude.{
  ℕ, zero, suc, ◌≤◌, ◌<◌, length, get_or, get_elem?, set, List, [], ◌∷◌, Bool, true, false, Option,
  none, some, ◌≡◌, refl, ap, sym, ◌⊎◌, inl, inr, ◌↔◌, arith,
}
use mathlib.Core.Path.{subst}
use mathlib.Core.List.{Memᴰ}
use mathlib.Core.List.Memᴰ
use mathlib.Core.Logic.{⊎_elim}
use lua2wasm.Wat.Encode.{Refusal}
use lua2wasm.Wat.Dce.{
  Marks, Scanned, done, failed, overread, stuck, continue, mark_at, dce_mark, Target, entity,
  nothing, lost, refused, visit,
}
use lua2wasm.Wat.Dce.Visits.{visit_all, to_mark, marked, Visited, Visits}

pub Memᴰ-cons : {A : Type 0} (a x : A) (xs : List A) → Memᴰ a (x ∷ xs) ↔ ((a ≡ x) ⊎ Memᴰ a xs)
Memᴰ-cons a x xs = (Memᴰ.cases_cons, ⊎_elim Memᴰ.head Memᴰ.tail)

length-set : (marks : List Bool) (e : ℕ) → length (set marks e true) ≡ length marks
length-set [] e = refl
length-set (mark ∷ marks) zero = refl
length-set (mark ∷ marks) (suc e) = ap suc (length-set marks e)

-- After `e` is marked, the marked entities are `e` and those marked before.
marked-set :
    (marks : List Bool) (e w : ℕ)
    → (e < length marks)
    → ((w ≡ e) ⊎ (get_or marks w false ≡ true)) ↔ (get_or (set marks e true) w false ≡ true)
marked-set (mark ∷ marks) (suc e) (suc w) inside = ground (arith, marked-set marks e w)
marked-set (mark ∷ marks) (suc e) zero inside =
    (⊎_elim (λ same. absurd (omega arith)) (λ p. p), inr)
marked-set (mark ∷ marks) zero (suc w) inside =
    (⊎_elim (λ same. absurd (omega arith)) (λ p. p), inr)
marked-set (mark ∷ marks) zero zero inside = (λ _. refl, λ _. inl refl)
marked-set [] e w inside = absurd (omega arith)

to_mark-set :
    (marks : List Bool) (e : ℕ)
    → get_elem? marks e ≡ some false
    → to_mark marks ≡ suc (to_mark (set marks e true))
unfolding to_mark
to_mark-set (true ∷ marks) (suc e) clear = to_mark-set marks e clear
to_mark-set (false ∷ marks) (suc e) clear = ap suc (to_mark-set marks e clear)
to_mark-set (true ∷ marks) zero clear = absurd (ground arith)
to_mark-set (false ∷ marks) zero clear = refl
to_mark-set [] e clear = absurd (ground arith)

beyond_length : (bs : List Bool) (i : ℕ) → get_elem? bs i ≡ none → length bs ≤ i
beyond_length [] i e = omega arith
beyond_length (b ∷ bs) zero e = absurd (ground arith)
beyond_length (b ∷ bs) (suc i) e = omega (arith, beyond_length bs i e)

pub within_length :
    (bs : List Bool) (i : ℕ) (b : Bool)
    → get_elem? bs i ≡ some b
    → (i < length bs) × (get_or bs i false ≡ b)
within_length [] i b e = absurd (ground arith)
within_length (c ∷ bs) zero b e = (omega arith, ground arith)
within_length (c ∷ bs) (suc i) b e = let (l, g) = within_length bs i b e in (omega arith, g)

Visited-same :
    (t : Target) (m : Marks)
    → ((why : Refusal) → ¬ (refused why ≡ t))
    → ((w : ℕ) → Memᴰ (entity w) (t ∷ []) → marked m w ≡ true)
    → Visited (t ∷ []) m m
Visited-same t m ok h = record {
  fine = λ why q. ok why (Memᴰ.eq_of_singleton q);
  size = refl;
  work = refl;
  flags = λ w. (inl, ⊎_elim (λ p. p) (h w));
  queue = λ w. (inl, ⊎_elim (λ p. p) (λ (now, before). absurd (ground arith)));
}

pub entity_injective : {a b : ℕ} → entity a ≡ entity b → a ≡ b
entity_injective e = cc

pub refused_not_entity : {why : Refusal} {w : ℕ} → ¬ (refused why ≡ entity w)
refused_not_entity e = cc

pub refused_not_nothing : {why : Refusal} → ¬ (refused why ≡ nothing)
refused_not_nothing e = cc

entity_mem : (a b : ℕ) → Memᴰ (entity a) (entity b ∷ []) ↔ (a ≡ b)
entity_mem a b = (λ m. entity_injective (Memᴰ.eq_of_singleton m), λ e. Memᴰ.head (ap entity e))

Visited-new :
    (e : ℕ) (m : Marks)
    → get_elem? m.reach e ≡ some false
    → Visited (entity e ∷ []) m (record { reach = set m.reach e true; stack = e ∷ m.stack })
Visited-new e m h =
    let (inside, clear) = within_length m.reach e false h in
    record {
      fine = λ why q. absurd (refused_not_entity (Memᴰ.eq_of_singleton q));
      size = length-set m.reach e;
      work = omega (arith, to_mark-set m.reach e h);
      flags = λ w. ground (arith, marked-set m.reach e w, entity_mem w e);
      queue = λ w. ground (arith, marked-set m.reach e w, Memᴰ-cons w e m.stack);
    }

entity_not_nothing : {w : ℕ} → ¬ (entity w ≡ nothing)
entity_not_nothing e = cc

mark_at-Visits :
    (e : ℕ) (m : Marks) (seen : Option Bool)
    → get_elem? m.reach e ≡ seen
    → Visits (entity e ∷ []) m (mark_at seen e m)
unfolding mark_at
mark_at-Visits e m none h = (e, Memᴰ.head refl, beyond_length m.reach e h)
mark_at-Visits e m (some true) h =
    Visited-same (entity e) m (λ why. refused_not_entity)
      (λ w q.
        subst (λ v. marked m v ≡ true) (sym ((entity_mem w e).0 q))
          (within_length m.reach e true h).1)
mark_at-Visits e m (some false) h = Visited-new e m h

visit-Visits : (t : Target) (m : Marks) → Visits (t ∷ []) m (visit t m)
unfolding visit dce_mark
visit-Visits nothing m =
    Visited-same nothing m (λ why. refused_not_nothing)
      (λ w h. absurd (entity_not_nothing (Memᴰ.eq_of_singleton h)))
visit-Visits lost m = Memᴰ.head refl
visit-Visits (refused why) m = Memᴰ.head refl
visit-Visits (entity e) m = mark_at-Visits e m (get_elem? m.reach e) refl

Memᴰ-split : {A : Type 0} (a x : A) (xs : List A) → Memᴰ a (x ∷ xs) ↔ (Memᴰ a (x ∷ []) ⊎ Memᴰ a xs)
Memᴰ-split a x xs = (
  λ m. ⊎_elim (λ e. inl (Memᴰ.head e)) inr (Memᴰ.cases_cons m),
  ⊎_elim (λ m. Memᴰ.head (Memᴰ.eq_of_singleton m)) Memᴰ.tail,
)

Visited-trans :
    (t : Target) (ts : List Target) (m m' m'' : Marks)
    → Visited (t ∷ []) m m'
    → Visited ts m' m''
    → Visited (t ∷ ts) m m''
Visited-trans t ts m m' m'' p q = record {
  fine = λ why m. ⊎_elim (p.fine why) (q.fine why) ((Memᴰ-split (refused why) t ts).0 m);
  size = omega (arith, p.size, q.size);
  work = omega (arith, p.work, q.work);
  flags = λ w. ground (arith, p.flags w, q.flags w, Memᴰ-split (entity w) t ts);
  queue = λ w. ground (arith, p.flags w, q.flags w, p.queue w, q.queue w);
}

Visits-after :
    (t : Target) (ts : List Target) (m m' : Marks) (r : Scanned)
    → Visited (t ∷ []) m m'
    → Visits ts m' r
    → Visits (t ∷ ts) m r
Visits-after t ts m m' (done m'') p q = Visited-trans t ts m m' m'' p q
Visits-after t ts m m' (failed why) p q = Memᴰ.tail q
Visits-after t ts m m' overread p (v, at, far) = (v, Memᴰ.tail at, omega (arith, p.size))
Visits-after t ts m m' stuck p q = Memᴰ.tail q

Visits-cons :
    (t : Target) (ts : List Target) (m : Marks) (r : Scanned)
    → Visits (t ∷ []) m r
    → ((m' : Marks) → Visits ts m' (visit_all ts m'))
    → Visits (t ∷ ts) m (continue r (visit_all ts))
Visits-cons t ts m (done m') p h = Visits-after t ts m m' (visit_all ts m') p (h m')
Visits-cons t ts m (failed why) p h = Memᴰ.head (Memᴰ.eq_of_singleton p)
Visits-cons t ts m overread (v, at, far) h = (v, Memᴰ.head (Memᴰ.eq_of_singleton at), far)
Visits-cons t ts m stuck p h = Memᴰ.head (Memᴰ.eq_of_singleton p)

-- Visiting a list of targets in order.
pub visit_all-Visits : (ts : List Target) (m : Marks) → Visits ts m (visit_all ts m)
unfolding visit_all
visit_all-Visits [] m = record {
  fine = λ why. Memᴰ.not-nil;
  size = refl;
  work = refl;
  flags = λ w. (inl, ⊎_elim (λ p. p) (λ q. absurd (Memᴰ.not-nil q)));
  queue = λ w. (inl, ⊎_elim (λ p. p) (λ (now, before). absurd (ground arith)));
}
visit_all-Visits (t ∷ ts) m =
    Visits-cons t ts m (visit t m) (visit-Visits t m) (visit_all-Visits ts)
