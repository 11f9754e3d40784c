-- ===== src/Codegen/Strings.antt =====
-- src/codegen/strings.c: the pool of string literals with its index, and the hash of a constant.
-- A slot of the index is `none` while it is free, and idx_cap is the length of the index, a power
-- of two, so that `& mask` is the remainder by it. The bytes of `bytes` are the first `used` ones.
-- xmalloc and xrealloc return or the program aborts. `modulus` is one more than the largest size_t.
-- `none` as a whole answer is a loop or a recursion that the fuel does not finish.
pub mod Probing
pub mod Indexing
pub mod Scanning
pub mod Chains
pub mod Interning
pub mod Regrowth
pub mod Hits
pub mod Lookup
pub mod Stable
use lua2wasm.Prelude.{
  ℕ, zero, suc, ◌+◌, ◌*◌, ◌%◌, ◌^◌, Bytes, length, take, drop, replicate, get_or, set, equal, List,
  [], ◌∷◌, ◌++◌, Bool, ◌&&◌, ◌||◌, ◌==◌, ltb, leb, if◌then◌else◌, Option, none, some,
}
use Prim.Native.Nat.{bit_xor}
use lua2wasm.Wat.Buf.{double_cap, ◌>>=◌}

pub record StrIdxSlot : Type 0 where
  pub hash : ℕ
  pub offset : ℕ
  pub len : ℕ

pub record StrPool : Type 0 where
  pub bytes : Bytes
  pub cap : ℕ
  pub idx : List (Option StrIdxSlot)
  pub idx_count : ℕ

pub record StrRef : Type 0 where
  pub offset : ℕ
  pub len : ℕ

unfoldable pub fnv_64 : ℕ → Bytes → ℕ
fnv_64 h [] = h
fnv_64 h (b ∷ bs) = fnv_64 (bit_xor h b * 1099511628211 % 2 ^ 64) bs

unfoldable pub strpool_hash : ℕ → Bytes → ℕ
unfolding fnv_64
strpool_hash modulus bytes = fnv_64 1469598103934665603 bytes % modulus

-- The run of `len` bytes from an offset on.
abbrev pub run : Bytes → ℕ → ℕ → Bytes
run pool offset len = take len (drop offset pool)

-- The rounds from the offset `i` on, where the rest of the pool is.
unfoldable pub scan_loop : Bytes → ℕ → Bytes → Option ℕ
scan_loop [] i bytes = none
scan_loop (c ∷ cs) i bytes =
    if equal (take (length bytes) (c ∷ cs)) bytes then some i else scan_loop cs (i + 1) bytes

unfoldable pub strpool_scan : Bytes → Bytes → Option ℕ
unfolding scan_loop
strpool_scan pool bytes =
    if length bytes == 0
    then some 0
    else if ltb (length pool) (length bytes)
    then none
    else scan_loop pool 0 bytes

pub data Probe : Type 0 where
  found : StrIdxSlot → Probe
  free : ℕ → Probe

abbrev pub probe_slot : Option StrIdxSlot → (StrIdxSlot → Bool) → ℕ → Option Probe → Option Probe
probe_slot none test i rest = some (free i)
probe_slot (some s) test i rest = if test s then some (found s) else rest

-- The loop of index_put and of index_get, with its test.
unfoldable pub probe : (StrIdxSlot → Bool) → ℕ → List (Option StrIdxSlot) → ℕ → Option Probe
probe test zero idx i = none
probe test (suc fuel) idx i =
    probe_slot (get_or idx i none) test i (probe test fuel idx ((i + 1) % length idx))

abbrev pub same_slot : StrIdxSlot → StrIdxSlot → Bool
same_slot s t = t.hash == s.hash && t.len == s.len && t.offset == s.offset

abbrev pub holds_run : Bytes → ℕ → Bytes → StrIdxSlot → Bool
holds_run pool hash bytes s =
    s.hash == hash && s.len == length bytes && equal (run pool s.offset (length bytes)) bytes

-- Past about 70 % of the slots the index grows.
abbrev pub is_loaded : ℕ → StrPool → Bool
is_loaded modulus p =
    length p.idx == 0 || leb (length p.idx * 7 % modulus) ((p.idx_count + 1) * 10 % modulus)

abbrev pub grown_cap : ℕ → StrPool → ℕ
grown_cap modulus p = if length p.idx == 0 then 64 else length p.idx * 2 % modulus

unfoldable pub rehash :
    (StrPool → StrIdxSlot → Option StrPool) → List (Option StrIdxSlot) → StrPool → Option StrPool
rehash put [] p = some p
rehash put (none ∷ old) p = rehash put old p
rehash put (some s ∷ old) p = do p' ← put p s; rehash put old p'

abbrev pub place : StrPool → StrIdxSlot → Probe → StrPool
place p s (found t) = p
place p s (free i) = record p { idx = set p.idx i (some s); idx_count = p.idx_count + 1 }

-- The depth bounds the recursion of index_put through index_grow.
unfoldable pub strpool_index_put : ℕ → ℕ → StrPool → StrIdxSlot → Option StrPool
strpool_index_put modulus zero p s = none
strpool_index_put modulus (suc depth) p s =
    let grown =
      rehash (strpool_index_put modulus depth) p.idx
        (record p { idx = replicate (grown_cap modulus p) none; idx_count = 0 }) in
    do
      q ← if is_loaded modulus p then grown else some p
      at ← probe (same_slot s) (length q.idx) q.idx (s.hash % length q.idx)
      some (place q s at)

abbrev pub offset_of : Probe → Option ℕ
offset_of (found s) = some s.offset
offset_of (free i) = none

unfoldable pub strpool_index_get : StrPool → ℕ → Bytes → Option (Option ℕ)
unfolding probe
strpool_index_get p hash bytes = if length p.idx == 0 then some none else do
  at ← probe (holds_run p.bytes hash bytes) (length p.idx) p.idx (hash % length p.idx)
  some (offset_of at)

-- The growth of the bytes; the loop is the one of buf_reserve.
unfoldable pub append_run : ℕ → StrPool → Bytes → Option StrPool
append_run modulus p bytes =
    let need = (length p.bytes + length bytes) % modulus in
    if ltb p.cap need
    then (do
      cap ← double_cap modulus (need + 1) need (if p.cap == 0 then 64 else p.cap)
      some (record p { bytes = p.bytes ++ bytes; cap = cap }))
    else some (record p { bytes = p.bytes ++ bytes })

abbrev pub put_run : ℕ → StrPool → Bytes → ℕ → Option (StrPool × StrRef)
put_run modulus p bytes at = do
  p' ←
      strpool_index_put modulus 2 p
        (record { hash = strpool_hash modulus bytes; offset = at; len = length bytes })
  some (p', record { offset = at; len = length bytes })

-- What is found, in the index or else by the scan, and what is appended.
abbrev pub add_found : ℕ → StrPool → Bytes → Option ℕ → Option (StrPool × StrRef)
add_found modulus p bytes (some at) = put_run modulus p bytes at
add_found modulus p bytes none = do
  p' ← append_run modulus p bytes
  put_run modulus p' bytes (length p.bytes)

abbrev pub or_scan : Option ℕ → Bytes → Bytes → Option ℕ
or_scan (some at) pool bytes = some at
or_scan none pool bytes = strpool_scan pool bytes

unfoldable pub strpool_add : ℕ → StrPool → Bytes → Option (StrPool × StrRef)
strpool_add modulus p bytes =
    if length bytes == 0 then some (p, record { offset = 0; len = 0 }) else do
      hit ← strpool_index_get p (strpool_hash modulus bytes) bytes
      add_found modulus p bytes (or_scan hit p.bytes bytes)

-- The hash of a constant, as its int32_t bit pattern.
unfoldable pub fnv_32 : ℕ → Bytes → ℕ
fnv_32 h [] = h
fnv_32 h (b ∷ bs) = fnv_32 (bit_xor h b * 16777619 % 2 ^ 32) bs

unfoldable pub kstr_hash : Bytes → ℕ
unfolding fnv_32
kstr_hash bytes = let h = fnv_32 2166136261 bytes in if h == 0 then 1 else h
