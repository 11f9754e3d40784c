-- ===== src/Wat/Dce/Remap.antt =====
-- The remaps: a mapped index points at the same entity among those that are kept.
use lua2wasm.Prelude.{
  ℕ, zero, suc, ◌+◌, ◌%◌, ◌^◌, ◌<◌, get_or, get_elem?, length, length-replicate, take, drop,
  replicate, List, [], ◌∷◌, ◌++◌, Bool, true, false, some, ◌≡◌, refl, sym, ap, ◌∙◌, arith,
}
use mathlib.Core.Path.{subst}
use lua2wasm.Wat.Encode.{Ctx}
use lua2wasm.Wat.Dce.{
  Func, Global, Entities, Marks, done, n_all_funcs, reachable, renumber, live, func_marks,
  global_marks, func_remap, global_remap,
}
use lua2wasm.Wat.Dce.Reach.{Reach, Outcome}
use lua2wasm.Wat.Dce.Roots.{reachable-Outcome}

-- The number `n` points at the `k`-th element of what is kept, behind `base` others.
abbrev pub PointsAt {ℓ} : {A : Type ℓ} → List ℕ → ℕ → ℕ → List A → A → Type ℓ
PointsAt remap i base kept x =
    (k : ℕ) × (get_elem? remap i ≡ some ((base + k) % 2 ^ 32)) × (get_elem? kept k ≡ some x)

mod_step : (n : ℕ) → (n % 2 ^ 32 + 1) % 2 ^ 32 ≡ (n + 1) % 2 ^ 32
mod_step n = omega arith

renumber-PointsAt :
    {A : Type 0} (bs : List Bool) (xs : List A) (i base : ℕ) (x : A)
    → get_elem? xs i ≡ some x
    → get_or bs i false ≡ true
    → PointsAt (renumber bs (base % 2 ^ 32)) i base (live bs xs) x
unfolding renumber live
renumber-PointsAt bs [] i base x e h = absurd (ground arith)
renumber-PointsAt [] (y ∷ xs) i base x e h = absurd (ground arith)
renumber-PointsAt (true ∷ bs) (y ∷ xs) zero base x e h = (0, ap some (omega arith), e)
renumber-PointsAt (false ∷ bs) (y ∷ xs) zero base x e h = absurd (ground arith)
renumber-PointsAt (true ∷ bs) (y ∷ xs) (suc i) base x e h =
    let (k, at, kept) = renumber-PointsAt bs xs i (base + 1) x e h in
    (
      suc k,
      ap (λ n. get_elem? (renumber bs n) i) (mod_step base)
          ∙ at
          ∙ ap (λ n. some (n % 2 ^ 32)) (omega arith),
      kept,
    )
renumber-PointsAt (false ∷ bs) (y ∷ xs) (suc i) base x e h = renumber-PointsAt bs xs i base x e h

length-renumber : (bs : List Bool) (next : ℕ) → length (renumber bs next) ≡ length bs
unfolding renumber
length-renumber [] next = refl
length-renumber (true ∷ bs) next = ap suc (length-renumber bs _)
length-renumber (false ∷ bs) next = ap suc (length-renumber bs next)

renumber-all :
    (n base i : ℕ)
    → i < n
    → get_elem? (renumber (replicate n true) (base % 2 ^ 32)) i ≡ some ((base + i) % 2 ^ 32)
unfolding renumber
renumber-all zero base i h = absurd (omega arith)
renumber-all (suc n) base zero h = ap some (omega arith)
renumber-all (suc n) base (suc i) h =
    ap (λ k. get_elem? (renumber (replicate n true) k) i) (mod_step base)
    ∙ renumber-all n (base + 1) i (omega arith)
    ∙ ap (λ k. some (k % 2 ^ 32)) (omega arith)

zero_plus : (i : ℕ) → 0 + i ≡ i
zero_plus i = omega arith

suc_add : (n i : ℕ) → suc n + i ≡ suc (n + i)
suc_add n i = omega arith

get_elem?-append_left :
    {A : Type 0} (xs ys : List A) (i : ℕ) → i < length xs → get_elem? (xs ++ ys) i ≡ get_elem? xs i
get_elem?-append_left [] ys i h = absurd (omega arith)
get_elem?-append_left (x ∷ xs) ys zero h = refl
get_elem?-append_left (x ∷ xs) ys (suc i) h = get_elem?-append_left xs ys i (omega arith)

get_elem?-append_right :
    {A : Type 0} (xs ys : List A) (n i : ℕ)
    → length xs ≡ n
    → get_elem? (xs ++ ys) (n + i) ≡ get_elem? ys i
get_elem?-append_right [] ys n i h = ap (get_elem? ys) (omega arith)
get_elem?-append_right (x ∷ xs) ys zero i h = absurd (omega arith)
get_elem?-append_right (x ∷ xs) ys (suc n) i h =
    ap (get_elem? (x ∷ (xs ++ ys))) (suc_add n i) ∙ get_elem?-append_right xs ys n i (omega arith)

get_or-drop : (n i : ℕ) (bs : List Bool) → get_or (drop n bs) i false ≡ get_or bs (n + i) false
get_or-drop zero i bs = ap (λ k. get_or bs k false) (omega arith)
get_or-drop (suc n) i [] = refl
get_or-drop (suc n) i (b ∷ bs) =
    get_or-drop n i bs ∙ sym (ap (λ k. get_or (b ∷ bs) k false) (suc_add n i))

get_or-take : (n i : ℕ) (bs : List Bool) → i < n → get_or (take n bs) i false ≡ get_or bs i false
get_or-take zero i bs h = absurd (omega arith)
get_or-take (suc n) i [] h = refl
get_or-take (suc n) zero (b ∷ bs) h = refl
get_or-take (suc n) (suc i) (b ∷ bs) h = get_or-take n i bs (omega arith)

lt-length_of_get_elem? :
    {A : Type 0} (xs : List A) (i : ℕ) (x : A) → get_elem? xs i ≡ some x → i < length xs
lt-length_of_get_elem? [] i x e = absurd (ground arith)
lt-length_of_get_elem? (y ∷ xs) zero x e = omega arith
lt-length_of_get_elem? (y ∷ xs) (suc i) x e = omega (arith, lt-length_of_get_elem? xs i x e)

-- Where elimination succeeds: every import keeps its index; a defined function that the exports
-- reach is mapped to the number of imports plus its place among the functions that are kept; and a
-- global that they reach to its place among the globals that are kept. Indices wrap at 2^32.
pub remap-PointsAt :
    (c : Ctx) (g : Entities) (m : Marks)
    → reachable c g ≡ done m
    → ((i : ℕ) → i < g.n_imports → get_elem? (func_remap c g m) i ≡ some (i % 2 ^ 32))
      × ((i : ℕ) (f : Func)
          → get_elem? g.funcs i ≡ some f
          → Reach c g (g.n_imports + i)
          → PointsAt
              (func_remap c g m)
              (g.n_imports + i)
              g.n_imports
              (live (func_marks c g m) g.funcs)
              f)
      × ((i : ℕ) (v : Global)
          → get_elem? g.globals i ≡ some v
          → Reach c g (n_all_funcs c g + i)
          → PointsAt (global_remap c g m) i 0 (live (global_marks c g m) g.globals) v)
remap-PointsAt c g m e =
    let complete = subst (Outcome c g) e (reachable-Outcome c g) in
    let shift = λ (i : ℕ).
      get_elem?-append_right (renumber (replicate g.n_imports true) 0)
        (renumber (func_marks c g m) (g.n_imports % 2 ^ 32)) g.n_imports i
        (length-renumber _ 0 ∙ length-replicate g.n_imports true) in
    (
      λ i h.
          get_elem?-append_left (renumber (replicate g.n_imports true) 0) _ i (
            omega (
              arith,
              length-renumber (replicate g.n_imports true) 0,
              length-replicate g.n_imports true,
            ))
          ∙ renumber-all g.n_imports 0 i h
          ∙ ap (λ k. some (k % 2 ^ 32)) (zero_plus i),
      λ i f at r.
          let set =
            get_or-take (length g.funcs) i (drop g.n_imports m.reach)
              (lt-length_of_get_elem? g.funcs i f at)
            ∙ get_or-drop g.n_imports i m.reach
            ∙ (complete.exact _).1 r in
          let (k, points, kept) = renumber-PointsAt _ g.funcs i g.n_imports f at set in
          (k, shift i ∙ points, kept),
      λ i v at r.
          renumber-PointsAt _ g.globals i 0 v at
            (get_or-drop (n_all_funcs c g) i m.reach ∙ (complete.exact _).1 r),
    )
