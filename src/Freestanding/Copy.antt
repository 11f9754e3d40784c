-- ===== src/Freestanding/Copy.antt =====
-- src/freestanding/baselib.c: memcpy, memmove, memset, strchr and strcpy. The memory is a function from
-- addresses to bytes; the objects of a call do not wrap around the address space.
pub mod Overlap
pub mod Strings
use lua2wasm.Prelude.{
  ℕ, zero, suc, ◌+◌, ◌%◌, Bytes, Bool, true, false, ◌||◌, ◌==◌, ltb, if◌then◌else◌, [], ◌∷◌, Option,
  none, some,
}

abbrev pub Memory : Type 0
Memory = ℕ → ℕ

unfoldable pub set_byte : Memory → ℕ → ℕ → Memory
set_byte m at b k = if k == at then b else m k

-- for (size_t i = 0; i < n; i++) d[i] = s[i], from `i` on.
unfoldable pub copy_up : Memory → ℕ → ℕ → ℕ → ℕ → Memory
unfolding set_byte
copy_up m d s i zero = m
copy_up m d s i (suc left) = copy_up (set_byte m (d + i) (m (s + i))) d s (i + 1) left

-- for (size_t i = n; i-- > 0;) d[i] = s[i]
unfoldable pub copy_down : Memory → ℕ → ℕ → ℕ → Memory
unfolding set_byte
copy_down m d s zero = m
copy_down m d s (suc i) = copy_down (set_byte m (d + i) (m (s + i))) d s i

unfoldable pub memcpy : Memory → ℕ → ℕ → ℕ → Memory
memcpy m dst src n = copy_up m dst src 0 n

unfoldable pub memmove : Memory → ℕ → ℕ → ℕ → Memory
memmove m dst src n =
    if dst == src || n == 0
    then m
    else if ltb dst src
    then copy_up m dst src 0 n
    else copy_down m dst src n

unfoldable pub fill_up : Memory → ℕ → ℕ → ℕ → ℕ → Memory
unfolding set_byte
fill_up m d b i zero = m
fill_up m d b i (suc left) = fill_up (set_byte m (d + i) b) d b (i + 1) left

unfoldable pub memset : Memory → ℕ → ℕ → ℕ → Memory
memset m dst c n = fill_up m dst (c % 256) 0 n

-- NULL is `none`. `c` is converted to char first.
unfoldable pub strchr : Bytes → ℕ → Option Bytes
strchr [] c = if c % 256 == 0 then some [] else none
strchr (b ∷ bs) c =
    let rest = strchr bs c in if b == c % 256 then some (b ∷ bs) else if b == 0 then none else rest

-- while ((*d++ = *src++)), from the `i`-th byte on. No NUL within the fuel is `none`.
unfoldable pub copy_string : Memory → ℕ → ℕ → ℕ → ℕ → Option Memory
unfolding set_byte
copy_string m d s i zero = none
copy_string m d s i (suc fuel) =
    let m' = set_byte m (d + i) (m (s + i)) in
    let more = copy_string m' d s (i + 1) fuel in if m (s + i) == 0 then some m' else more

unfoldable pub strcpy : Memory → ℕ → ℕ → ℕ → Option Memory
strcpy m dst src fuel = copy_string m dst src 0 fuel
