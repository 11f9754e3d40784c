-- ===== src/Freestanding/Strtoll.antt =====
-- src/freestanding/baselib.c, strtoll. A long long is its 64-bit pattern, and `errno == ERANGE`
-- is the field `overflow`.
pub mod Values
use lua2wasm.Prelude.{
  ℕ, ◌+◌, ◌-◌, ◌*◌, ◌/◌, ◌%◌, ◌^◌, Bytes, Bool, true, false, ◌&&◌, ◌||◌, ◌==◌, ltb, leb,
  if◌then◌else◌, [], ◌∷◌, not,
}
use lua2wasm.Freestanding.Mem.{peek, next, peek1, peek2}

unfoldable pub digit_val : ℕ → ℕ
digit_val c =
    if leb b'0' c && leb c b'9'
    then c - b'0'
    else if leb b'a' c && leb c b'z'
    then c - b'a' + 10
    else if leb b'A' c && leb c b'Z'
    then c - b'A' + 10
    else 99

abbrev pub llong_max : ℕ
llong_max = 0x7fff_ffff_ffff_ffff

-- The pattern of LLONG_MIN.
abbrev pub llong_min : ℕ
llong_min = 0x8000_0000_0000_0000

pub record Number : Type 0 where
  pub value : ℕ
  pub overflow : Bool
  pub tail : Bytes

pub record Digits : Type 0 where
  pub acc : ℕ
  pub any : Bool
  pub over : Bool
  pub stop : Bytes

unfoldable pub skip_blank : Bytes → Bytes
skip_blank [] = []
skip_blank (c ∷ cs) = if c == 32 || leb 9 c && leb c 13 then skip_blank cs else c ∷ cs

-- The digit loop, with the limits that the base and the sign give.
unfoldable pub digits_loop : ℕ → ℕ → ℕ → Bytes → ℕ → Bool → Bool → Digits
digits_loop base lim limd [] acc any over = record { acc = acc; any = any; over = over; stop = [] }
digits_loop base lim limd (c ∷ cs) acc any over =
    let d = digit_val c in
    let clamped = over || ltb lim acc || acc == lim && ltb limd d in
    let acc' = if clamped then acc else (acc * base + d) % 2 ^ 64 in
    let rest = digits_loop base lim limd cs acc' true clamped in
    if leb base d then record { acc = acc; any = any; over = over; stop = c ∷ cs } else rest

-- Behind the sign: the prefix 0x, and the base that a base of 0 stands for.
unfoldable pub has_hex_prefix : ℕ → Bytes → Bool
has_hex_prefix base p =
    (base == 0 || base == 16)
    && peek p == b'0'
    && (peek1 p == b'x' || peek1 p == b'X')
    && ltb (digit_val (peek2 p)) 16

unfoldable pub real_base : ℕ → Bytes → ℕ
real_base base p =
    if has_hex_prefix base p
    then 16
    else if base == 0
    then (if peek p == b'0' then 8 else 10)
    else base

unfoldable pub finish : Bool → Bytes → Digits → Number
finish neg s r = record {
  value =
      (if r.over
        then (if neg then llong_min else llong_max)
        else if neg
        then (2 ^ 64 - r.acc) % 2 ^ 64
        else r.acc);
  overflow = r.over;
  tail = (if r.any then r.stop else s);
}

unfoldable pub unsigned_part : Bytes → Bool → ℕ → Bytes → Number
unfolding has_hex_prefix real_base
unsigned_part s neg base p =
    let body = if has_hex_prefix base p then next (next p) else p in
    let b = real_base base p in
    let cutoff = if neg then llong_min else llong_max in
    finish neg s (digits_loop b (cutoff / b) (cutoff % b) body 0 false false)

unfoldable pub strtoll : Bytes → ℕ → Number
strtoll s base =
    let p = skip_blank s in
    if peek p == b'+' || peek p == b'-'
    then unsigned_part s (peek p == b'-') base (next p)
    else unsigned_part s false base p
