-- ===== src/Freestanding/Alloc/Extension.antt =====
-- src/freestanding/alloc.c: a new block lies between the old break and the new one.
use lua2wasm.Prelude.{
  ◌⊎◌, ℕ, ◌+◌, ◌-◌, ◌*◌, ◌/◌, ◌%◌, ◌^◌, ◌<◌, ◌≤◌, Bool, true, false, Option, none, some, ◌≡◌,
}
use lua2wasm.Freestanding.Alloc.{Heap, page, payload, payload}

-- The size of a block for a payload of `req` bytes: the least multiple of 8 that holds header,
-- payload and footer, and no less than 32.
abbrev pub IsTotal : ℕ → ℕ → Type 0
IsTotal req total =
    (req + 16 ≤ total) × (32 ≤ total) × ((total ≡ 32) ⊎ (total < req + 24)) × (total % 8 ≡ 0)

-- The break is aligned and stands within the committed memory, of a page at least.
abbrev pub IsHeap : Heap → Type 0
IsHeap h = (h.brk ≤ h.end_) × (h.end_ < 2 ^ 32) × (h.brk % 8 ≡ 0) × (65536 ≤ h.end_)

-- Memory grows by whole pages, and stays below 4 GiB.
abbrev pub StaysBelow : (ℕ → Bool) → Heap → Type 0
StaysBelow grow h = (pages : ℕ) → grow pages ≡ true → h.end_ + pages * 65536 < 2 ^ 32

-- The block of `n` bytes does not fit the committed memory, and `pages` is the least number of
-- pages with which it does.
abbrev pub IsPages : Heap → ℕ → ℕ → Type 0
IsPages h n pages =
    (h.end_ < h.brk + n)
    × (h.brk + n ≤ h.end_ + pages * 65536)
    × (h.end_ + pages * 65536 < h.brk + n + 65536)

-- From the heap before to the heap behind, with the block's address.
abbrev pub Extends : (ℕ → Bool) → Heap → ℕ → Heap × Option ℕ → Type 0
Extends grow h n (h', none) = (h' ≡ h) × (pages : ℕ) × IsPages h n pages × (grow pages ≡ false)
Extends grow h n (h', some b) = (b ≡ h.brk) × (h'.brk ≡ h.brk + n) × (h.end_ ≤ h'.end_) × IsHeap h'

-- The pages that the extension by `n` bytes asks for.
abbrev pages_for : Heap → ℕ → ℕ
pages_for h n = (((h.brk + n) % 2 ^ 32 + 2 ^ 32 - h.end_) % 2 ^ 32 + page - 1) % 2 ^ 32 / page

-- No block: the heap is as it was, the block does not fit the committed memory, and the least
-- number of pages with which it fits was refused. A block: its payload is aligned and lies, with
-- the block's header before it and its footer behind it, between the old break and the new one.
abbrev pub HoldsNew : (ℕ → Bool) → Heap → ℕ → Heap × Option ℕ → Type 0
HoldsNew grow h req (h', none) =
    (h' ≡ h) × (total pages : ℕ) × IsTotal req total × IsPages h total pages × (grow pages ≡ false)
HoldsNew grow h req (h', some p) =
    (p % 8 ≡ 0) × (h.brk + 8 ≤ p) × (p + req + 8 ≤ h'.brk) × (h.end_ ≤ h'.end_) × IsHeap h'
