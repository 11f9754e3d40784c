-- ===== src/Wat/Buf/Valid.antt =====
-- A buffer whose length is within its capacity stays so, and every write appends.
use lua2wasm.Prelude.{
  ◌⊎◌, ◌^◌, ap, ℕ, zero, suc, ◌+◌, ◌*◌, ◌%◌, ◌≤◌, ◌<◌, Bytes, length, length-append, true, leb, ltb,
  [], ◌∷◌, ◌++◌, Option, some, ◌≡◌, refl, ◌∙◌, arith, Bool-cases, inl, inr, append_assoc,
  append-nil,
}
use lua2wasm.Wat.Buf.{Buf, double_cap, buf_reserve, store, buf_byte, buf_bytes, ◌>>=◌}

pub record IsValid (b : Buf) : Type 0 where
  pub positive : 0 < b.cap
  pub within : length b.bytes ≤ b.cap

-- Appending `bs` to `b` succeeds, whatever the new capacity.
pub record Appends (b : Buf) (bs : Bytes) (o : Option Buf) : Type 0 where
  pub new_cap : ℕ
  pub returns : o ≡ some (record { bytes = b.bytes ++ bs; cap = new_cap })
  pub positive : 0 < new_cap
  pub fits : length b.bytes + length bs ≤ new_cap

-- The loop reaches the need, by doubling at most as often as the need is large.
pub double_cap_lem :
    (modulus fuel need cap : ℕ)
    → 0 < cap
    → 0 < fuel
    → need < fuel + cap
    → need * 2 ≤ modulus
    → (c : ℕ) × (double_cap modulus fuel need cap ≡ some c) × (need ≤ c) × (0 < c)
unfolding double_cap
double_cap_lem modulus zero need cap p g f s = elim g [ ]
double_cap_lem modulus (suc fuel) need cap p g f s = elim (Bool-cases (ltb cap need)) [
  | inl e ↦
      let wrap : cap * 2 % modulus ≡ cap * 2 = grind arith in
      rw (e, wrap)
        (double_cap_lem modulus fuel need (cap * 2) (ground arith) (ground arith) (ground arith) s)
  | inr e ↦ rw e (cap, refl, ground arith, p)
]

-- The capacity doubled as often as it must be for the need, and no oftener.
abbrev pub IsDoubled : ℕ → ℕ → ℕ → Type 0
IsDoubled cap need new = (k : ℕ) × (new ≡ cap * 2 ^ k) × (need ≤ new) × ((k ≡ 0) ⊎ (new < need * 2))

twice : (k cap : ℕ) → cap * 2 * 2 ^ k ≡ cap * 2 ^ suc k
twice k cap = let e : 2 ^ suc k ≡ 2 * 2 ^ k = omega arith in grind arith

-- The first doubling passes the need by less than the need.
first : (k cap need c : ℕ) → cap < need → k ≡ 0 → c ≡ cap * 2 * 2 ^ k → c < need * 2
first k cap need c h e d =
    let one : 2 ^ k ≡ 1 = ap (λ n. 2 ^ n) e in
    let same : c ≡ cap * 2 * 1 = d ∙ ap (λ n. cap * 2 * n) one in omega arith

double_cap-IsDoubled :
    (modulus fuel need cap : ℕ)
    → 0 < cap
    → 0 < fuel
    → need < fuel + cap
    → need * 2 ≤ modulus
    → (c : ℕ) × (double_cap modulus fuel need cap ≡ some c) × IsDoubled cap need c
unfolding double_cap
double_cap-IsDoubled modulus zero need cap p g f s = elim g [ ]
double_cap-IsDoubled modulus (suc fuel) need cap p g f s = elim (Bool-cases (ltb cap need)) [
  | inl e ↦
      let wrap : cap * 2 % modulus ≡ cap * 2 = grind arith in
      let (c, r, (k, doubled, large, least)) =
        double_cap-IsDoubled modulus fuel need (cap * 2) (ground arith) (ground arith)
          (ground arith) s in
      rw (e, wrap)
        (
          c,
          r,
          (
            suc k,
            doubled ∙ twice k cap,
            large,
            inr (elim least [
              | inl none_more ↦ first k cap need c (ground arith) none_more doubled
              | inr half ↦ half
            ]),
          ),
        )
  | inr e ↦ rw e (cap, refl, (0, omega arith, ground arith, inl refl))
]

-- What a reservation leaves: the same bytes, and room for `extra` more.
record Reserves (b : Buf) (extra : ℕ) (o : Option Buf) : Type 0 where
  new_cap : ℕ
  returns : o ≡ some (record { bytes = b.bytes; cap = new_cap })
  positive : 0 < new_cap
  room : length b.bytes + extra ≤ new_cap
  doubled : IsDoubled b.cap (length b.bytes + extra) new_cap

buf_reserve-Reserves :
    (modulus : ℕ) (b : Buf) (extra : ℕ)
    → 0 < b.cap
    → (length b.bytes + extra) * 2 ≤ modulus
    → 0 < modulus
    → Reserves b extra (buf_reserve modulus b extra)
unfolding buf_reserve
buf_reserve-Reserves modulus b extra p s m =
    let need = length b.bytes + extra in
    let wrap : need % modulus ≡ need = grind arith in
    elim (Bool-cases (leb need b.cap)) [
      | inl e ↦
          rw (wrap, e)
            (record {
              new_cap = b.cap;
              returns = refl;
              positive = p;
              room = ground arith;
              doubled = (0, omega arith, ground arith, inl refl);
            })
      | inr e ↦
          let (c, r, (k, doubled, large, least)) =
            double_cap-IsDoubled modulus (need + 1) need b.cap p (omega arith) (omega arith) s in
          rw (wrap, e, r)
            (record {
              new_cap = c;
              returns = refl;
              positive = ground arith;
              room = large;
              doubled = (k, doubled, large, least);
            })
    ]

-- The write appends, and the capacity is the old one doubled as often as it must be.
pub record Grows (b : Buf) (bs : Bytes) (o : Option Buf) : Type 0 where
  pub appends : Appends b bs o
  pub doubled : IsDoubled b.cap (length b.bytes + length bs) appends.new_cap

-- A write of any bytes to a valid buffer appends them, if the new length is at most half of what
-- size_t holds: the new capacity is the old one times a power of two, holds the new length, and is
-- the least such: the old one itself, or less than twice the new length.
pub buf_bytes-Grows :
    (modulus : ℕ) (b : Buf) (bs : Bytes)
    → IsValid b
    → (length b.bytes + length bs) * 2 ≤ modulus
    → 0 < modulus
    → Grows b bs (buf_bytes modulus b bs)
unfolding buf_bytes store
buf_bytes-Grows modulus b bs v s m =
    let r = buf_reserve-Reserves modulus b (length bs) v.positive s m in
    let room : leb (length b.bytes + length bs) r.new_cap ≡ true = ground (arith, r.room) in
    rw r.returns (
      rw room (record {
        appends = record {
          new_cap = r.new_cap;
          returns = refl;
          positive = r.positive;
          fits = r.room;
        };
        doubled = r.doubled;
      }))

pub buf_bytes-Appends :
    (modulus : ℕ) (b : Buf) (bs : Bytes)
    → IsValid b
    → (length b.bytes + length bs) * 2 ≤ modulus
    → 0 < modulus
    → Appends b bs (buf_bytes modulus b bs)
buf_bytes-Appends modulus b bs v s m = (buf_bytes-Grows modulus b bs v s m).appends

pub buf_byte-Appends :
    (modulus : ℕ) (b : Buf) (x : ℕ)
    → IsValid b
    → (length b.bytes + 1) * 2 ≤ modulus
    → Appends b (x % 256 ∷ []) (buf_byte modulus b x)
unfolding buf_byte store
buf_byte-Appends modulus b x v s =
    let r = buf_reserve-Reserves modulus b 1 v.positive s (omega arith) in
    let room : leb (length b.bytes + 1) r.new_cap ≡ true = ground (arith, r.room) in
    rw r.returns (
      rw room
        (record { new_cap = r.new_cap; returns = refl; positive = r.positive; fits = r.room }))

-- The buffer that a write returns is valid.
pub Appends-IsValid :
    {b : Buf} {bs : Bytes} {o : Option Buf} (a : Appends b bs o)
    → IsValid (record { bytes = b.bytes ++ bs; cap = a.new_cap })
Appends-IsValid {b = b} {bs = bs} a = record {
  positive = a.positive;
  within = rw length-append a.fits;
}

-- One write after another.
pub Appends-bind :
    {b : Buf} {bs cs : Bytes} {o : Option Buf} (f : Buf → Option Buf) (a : Appends b bs o)
    → Appends
        (record { bytes = b.bytes ++ bs; cap = a.new_cap })
        cs
        (f (record { bytes = b.bytes ++ bs; cap = a.new_cap }))
    → Appends b (bs ++ cs) (o >>= f)
Appends-bind {b = b} {bs = bs} {cs = cs} f a c = record {
  new_cap = c.new_cap;
  returns = rw a.returns (c.returns ∙ rw (append_assoc b.bytes bs cs));
  positive = c.positive;
  fits = omega (arith, c.fits, length-append b.bytes bs, length-append bs cs);
}

-- Nothing more is written.
pub Appends-done : (b : Buf) → IsValid b → Appends b [] (some b)
Appends-done b v = record {
  new_cap = b.cap;
  returns = rw append-nil;
  positive = v.positive;
  fits = omega (arith, v.within);
}

-- One byte, of a known value.
pub buf_byte-value :
    (modulus : ℕ) (b : Buf) (x y : ℕ)
    → IsValid b
    → (length b.bytes + 1) * 2 ≤ modulus
    → x % 256 ≡ y
    → Appends b (y ∷ []) (buf_byte modulus b x)
buf_byte-value modulus b x y v s e = rw (← e) (buf_byte-Appends modulus b x v s)
