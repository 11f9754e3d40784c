-- ===== src/Freestanding/Alloc.antt =====
-- src/freestanding/alloc.c: the size of a block, and the extension of the heap for a new one.
-- A pointer is a uintptr_t of 32 bits. `grow` is the answer of __builtin_wasm_memory_grow for a
-- number of pages, `false` for -1.
pub mod Extension
use lua2wasm.Prelude.{
  ℕ, ◌+◌, ◌-◌, ◌*◌, ◌/◌, ◌%◌, ◌^◌, Bool, true, false, ◌==◌, ltb, if◌then◌else◌, Option, none, some,
  bit_and,
}

abbrev pub hdr : ℕ
hdr = 8

abbrev pub ftr : ℕ
ftr = 8

abbrev pub min_payload : ℕ
min_payload = 16

abbrev pub page : ℕ
page = 65536

pub record Heap : Type 0 where
  pub brk : ℕ
  pub end_ : ℕ

-- ~(a - 1) is the complement in 32 bits.
unfoldable pub align_up : ℕ → ℕ → ℕ
align_up x a = bit_and ((x + a - 1) % 2 ^ 32) (2 ^ 32 - 1 - (a - 1))

-- The size of the block for a request; `none` where malloc answers NULL at once.
unfoldable pub block_total : ℕ → Option ℕ
unfolding align_up
block_total req =
    let req' = if req == 0 then 1 else req in
    if ltb 0xfffffff0 req'
    then none
    else let need = align_up req' 8 in
      let need' = if ltb need min_payload then min_payload else need in
      some ((hdr + need' + ftr) % 2 ^ 32)

unfoldable pub heap_extend : (ℕ → Bool) → Heap → ℕ → Heap × Option ℕ
heap_extend grow h n =
    if ltb h.end_ ((h.brk + n) % 2 ^ 32)
    then (let need = ((h.brk + n) % 2 ^ 32 + 2 ^ 32 - h.end_) % 2 ^ 32 in
        let pages = (need + page - 1) % 2 ^ 32 / page in
        if grow pages
        then (
          record { brk = (h.brk + n) % 2 ^ 32; end_ = (h.end_ + pages * page) % 2 ^ 32 },
          some h.brk,
        )
        else (h, none))
    else (record h { brk = (h.brk + n) % 2 ^ 32 }, some h.brk)

-- The payload of a new block, without the tags that are written.
unfoldable pub payload : Heap × Option ℕ → Heap × Option ℕ
payload (h, none) = (h, none)
payload (h, some b) = (h, some ((b + hdr) % 2 ^ 32))

-- malloc where no block on the free list is large enough.
unfoldable pub malloc_new : (ℕ → Bool) → Heap → ℕ → Heap × Option ℕ
malloc_new grow h req = elim (block_total req) [
  | none ↦ (h, none)
  | some total ↦ payload (heap_extend grow h total)
]
