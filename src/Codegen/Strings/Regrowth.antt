-- ===== src/Codegen/Strings/Regrowth.antt =====
-- strpool_index_put returns, and keeps the index well-formed.
use lua2wasm.Prelude.{
  ◌⊎◌, ◌↔◌, inl, inr, ℕ, zero, suc, ◌+◌, ◌*◌, ◌%◌, ◌≤◌, ◌<◌, length, length-replicate, replicate,
  List, [], ◌∷◌, Bool, true, false, if◌then◌else◌, Option, none, some, ◌≡◌, refl, ap, sym, ◌∙◌, All,
  arith,
}
use mathlib.Core.Path.{subst}
use native.Mathlib.Nat.{mod-eq_of_lt}
use lua2wasm.Codegen.Strings.{StrIdxSlot, StrPool, is_loaded, grown_cap, rehash, strpool_index_put}
use mathlib.Core.Logic.{⊎_elim}
use lua2wasm.Codegen.Strings.Chains.{Slots, not_none, some_injective}
use lua2wasm.Codegen.Strings.Probing.{Holds, used_count, used_count-free}
use lua2wasm.Codegen.Strings.Indexing.{
  Within, Indexed, Puts, All-free, Returns, probe-Puts, put_unloaded,
}

Puts-trans :
    (n k both_n : ℕ) (New Newer Both : StrIdxSlot → Type 0) (p q r : StrPool)
    → n + k ≤ both_n
    → ((t : StrIdxSlot) → Both t ↔ (New t ⊎ Newer t))
    → Puts n New p q
    → Puts k Newer q r
    → Puts both_n Both p r
Puts-trans n k both_n New Newer Both p q r more both f g = record {
  bytes_kept = g.bytes_kept ∙ f.bytes_kept;
  cap_kept = g.cap_kept ∙ f.cap_kept;
  size = g.size ∙ f.size;
  added = omega (arith, f.added, g.added);
  held = λ t. ground (arith, f.held t, g.held t, both t);
  indexed = g.indexed;
}

Puts-weaken :
    (n k : ℕ) (New Same : StrIdxSlot → Type 0) (p q : StrPool)
    → n ≤ k
    → ((t : StrIdxSlot) → Same t ↔ New t)
    → Puts n New p q
    → Puts k Same p q
Puts-weaken n k New Same p q h same f = record {
  bytes_kept = f.bytes_kept;
  cap_kept = f.cap_kept;
  size = f.size;
  added = omega (arith, f.added);
  held = λ t. ground (arith, f.held t, same t);
  indexed = f.indexed;
}

pub Holds-nil : (t : StrIdxSlot) → ¬ Holds [] t
Holds-nil t (j, e) = not_none e refl

Holds-cons_free : (old : Slots) (t : StrIdxSlot) → Holds (none ∷ old) t ↔ Holds old t
Holds-cons_free old t = (to, λ (j, e). (suc j, e))
  where
    to : Holds (none ∷ old) t → Holds old t
    to (zero, e) = absurd (not_none e refl)
    to (suc j, e) = (j, e)

Holds-cons_used :
    (s : StrIdxSlot) (old : Slots) (t : StrIdxSlot)
    → Holds (some s ∷ old) t ↔ ((t ≡ s) ⊎ Holds old t)
Holds-cons_used s old t = (to, ⊎_elim (λ e. (0, ap some (sym e))) (λ (j, e). (suc j, e)))
  where
    to : Holds (some s ∷ old) t → (t ≡ s) ⊎ Holds old t
    to (zero, e) = inl (sym (some_injective e))
    to (suc j, e) = inr (j, e)

Holds-free : (n : ℕ) (t : StrIdxSlot) → ¬ Holds (replicate n none) t
Holds-free zero t h = Holds-nil t h
Holds-free (suc n) t h = Holds-free n t ((Holds-cons_free (replicate n none) t).0 h)

-- Reinsertion of old slots into an index with room for them all.
rehash-Puts :
    (modulus depth : ℕ) (old : List (Option StrIdxSlot)) (p : StrPool)
    → length p.idx * 7 < modulus
    → Indexed p
    → All (Within (length p.bytes)) old
    → (p.idx_count + used_count old) * 10 < length p.idx * 7
    → Returns
        (Puts (used_count old) (Holds old) p)
        (rehash (strpool_index_put modulus (suc depth)) old p)
unfolding rehash used_count
rehash-Puts modulus depth [] p small h w room = (
  p,
  refl,
  record {
    bytes_kept = refl;
    cap_kept = refl;
    size = refl;
    added = omega arith;
    held = λ t. (inl, ⊎_elim (λ old. old) (λ new. absurd (Holds-nil t new)));
    indexed = h;
  },
)
rehash-Puts modulus depth (none ∷ old) p small h (first, w) room =
    let (q, e, f) = rehash-Puts modulus depth old p small h w room in
    (
      q,
      e,
      Puts-weaken _ _ (Holds old) (Holds (none ∷ old)) p q (omega arith) (Holds-cons_free old) f,
    )
rehash-Puts modulus depth (some s ∷ old) p small h (first, w) room =
    let (q, e, f) = put_unloaded modulus depth p s small h first (omega arith) in
    let (r, e', g) =
      rehash-Puts modulus depth old q (omega (arith, f.size)) f.indexed
        (subst (λ n. All (Within n) old) (sym (ap length f.bytes_kept)) w)
        (omega (arith, f.size, f.added)) in
    (
      r,
      rw e e',
      Puts-trans 1 (used_count old) _ (λ t. t ≡ s) (Holds old) (Holds (some s ∷ old)) p q r
          (omega arith) (Holds-cons_used s old) f g,
    )

-- The index after an insertion: it may have grown, and holds as many slots or one more.
pub record Inserts (p : StrPool) (s : StrIdxSlot) (q : StrPool) : Type 0 where
  pub bytes_kept : q.bytes ≡ p.bytes
  pub cap_kept : q.cap ≡ p.cap
  pub size : length q.idx ≤ length p.idx * 2 + 64
  pub added : q.idx_count ≤ p.idx_count + 1
  pub held : (t : StrIdxSlot) → Holds q.idx t ↔ (Holds p.idx t ⊎ (t ≡ s))
  pub indexed : Indexed q

abbrev emptied : ℕ → StrPool → StrPool
emptied cap p = record p { idx = replicate cap none; idx_count = 0 }

Indexed-emptied : (cap : ℕ) (p : StrPool) → Indexed (emptied cap p)
Indexed-emptied cap p = record {
  counted = used_count-free cap;
  load = omega arith;
  within = All-free (length p.bytes) cap;
  chained = λ j s e. absurd (Holds-free cap s (j, e));
}

-- The new capacity has room for the slots of the old index and one more.
grown_cap_lem :
    (modulus : ℕ) (p : StrPool)
    → length p.idx * 14 + 1024 ≤ modulus
    → p.idx_count * 10 ≤ length p.idx * 7
    → (p.idx_count * 10 < grown_cap modulus p * 7)
      × ((p.idx_count + 1) * 10 ≤ grown_cap modulus p * 7)
      × (grown_cap modulus p * 7 < modulus)
      × (grown_cap modulus p ≤ length p.idx * 2 + 64)
grown_cap_lem modulus p small load =
    let wrap : length p.idx * 2 % modulus ≡ length p.idx * 2 = mod-eq_of_lt (omega arith) in
    rw wrap (ground arith)

-- Before the probing: room for one more slot.
record HasRoom (p q : StrPool) : Type 0 where
  bytes_kept : q.bytes ≡ p.bytes
  cap_kept : q.cap ≡ p.cap
  size : length q.idx ≤ length p.idx * 2 + 64
  added : q.idx_count ≤ p.idx_count
  held : (t : StrIdxSlot) → Holds q.idx t ↔ Holds p.idx t
  room : (q.idx_count + 1) * 10 ≤ length q.idx * 7
  indexed : Indexed q

grow-HasRoom :
    (modulus : ℕ) (p : StrPool)
    → length p.idx * 14 + 1024 ≤ modulus
    → Indexed p
    → Returns
        (HasRoom p)
        (rehash (strpool_index_put modulus 1) p.idx (emptied (grown_cap modulus p) p))
grow-HasRoom modulus p small h =
    let cap = grown_cap modulus p in
    let (fewer, room, less, size) = grown_cap_lem modulus p small h.load in
    let long = length-replicate {A = Option StrIdxSlot} cap none in
    let (q, e, f) =
      rehash-Puts modulus 0 p.idx (emptied cap p) (omega (arith, long)) (Indexed-emptied cap p)
        h.within (omega (arith, long, h.counted)) in
    (
      q,
      e,
      record {
        bytes_kept = f.bytes_kept;
        cap_kept = f.cap_kept;
        size = omega (arith, f.size, long);
        added = omega (arith, f.added, h.counted);
        held = λ t. ground (arith, f.held t, Holds-free cap t);
        room = omega (arith, f.added, f.size, long, h.counted);
        indexed = f.indexed;
      },
    )

not_loaded :
    (modulus : ℕ) (p : StrPool)
    → length p.idx * 14 + 1024 ≤ modulus
    → p.idx_count * 10 ≤ length p.idx * 7
    → is_loaded modulus p ≡ false
    → (p.idx_count + 1) * 10 ≤ length p.idx * 7
not_loaded modulus p small load e =
    let wrap : length p.idx * 7 % modulus ≡ length p.idx * 7 = mod-eq_of_lt (omega arith) in
    let wrap' : (p.idx_count + 1) * 10 % modulus ≡ (p.idx_count + 1) * 10 =
      mod-eq_of_lt (omega arith) in
    ground (arith, wrap, wrap')

choose :
    (modulus : ℕ) (p : StrPool) (b : Bool) (grown : Option StrPool)
    → length p.idx * 14 + 1024 ≤ modulus
    → Indexed p
    → is_loaded modulus p ≡ b
    → Returns (HasRoom p) grown
    → Returns (HasRoom p) (if b then grown else some p)
choose modulus p true grown small h e g = g
choose modulus p false grown small h e g = (
  p,
  refl,
  record {
    bytes_kept = refl;
    cap_kept = refl;
    size = omega arith;
    added = omega arith;
    held = λ t. (λ x. x, λ x. x);
    room = not_loaded modulus p small h.load e;
    indexed = h;
  },
)

Inserts-Puts :
    (p q r : StrPool) (s : StrIdxSlot) → HasRoom p q → Puts 1 (λ t. t ≡ s) q r → Inserts p s r
Inserts-Puts p q r s f g = record {
  bytes_kept = g.bytes_kept ∙ f.bytes_kept;
  cap_kept = g.cap_kept ∙ f.cap_kept;
  size = omega (arith, f.size, g.size);
  added = omega (arith, f.added, g.added);
  held = λ t. ground (arith, f.held t, g.held t);
  indexed = g.indexed;
}

-- strpool_index_put returns: the recursion through index_grow is one level deep.
pub strpool_index_put-Inserts :
    (modulus : ℕ) (p : StrPool) (s : StrIdxSlot)
    → length p.idx * 14 + 1024 ≤ modulus
    → Indexed p
    → s.offset + s.len ≤ length p.bytes
    → Returns (Inserts p s) (strpool_index_put modulus 2 p s)
unfolding strpool_index_put
strpool_index_put-Inserts modulus p s small h inside =
    let (q, e, f) =
      choose modulus p (is_loaded modulus p) _ small h refl (grow-HasRoom modulus p small h) in
    let (r, e', g) = probe-Puts q s f.indexed (omega (arith, ap length f.bytes_kept)) f.room in
    (r, rw e e', Inserts-Puts p q r s f g)
