-- ===== src/Runs/Assembling.antt =====
-- Runs of the byte buffer and the LEB128 writers.
use lua2wasm.Prelude.{Bytes, [], ◌∷◌, ◌++◌, ◌≡◌, ◌≤◌, ◌^◌, ◌-◌, length, some, refl, arith}
use lua2wasm.Wat.Buf.{Buf, buf_reserve, double_cap, store, buf_byte, buf_bytes, put_bits, buf_f32}
use lua2wasm.Wat.Buf.Valid.{IsValid, Appends, Grows, buf_bytes-Grows}
use lua2wasm.Wat.Leb.{buf_uleb, buf_sleb, uleb_loop, sleb_loop, put_section}
use lua2wasm.Wat.Leb.Unsigned.{read_uleb, buf_uleb-read_uleb}
use lua2wasm.Wat.Leb.Signed.{read_sleb, buf_sleb-read_sleb}
use lua2wasm.Wat.Leb.Section.{put_section-framed}

abbrev empty : Buf
empty = record { bytes = []; cap = 2 }

empty-IsValid : IsValid empty
empty-IsValid = omega arith

grows :
    buf_bytes (2 ^ 32) empty (1 ∷ 2 ∷ 3 ∷ 4 ∷ 5 ∷ [])
    ≡ some (record { bytes = 1 ∷ 2 ∷ 3 ∷ 4 ∷ 5 ∷ []; cap = 8 })
unfolding buf_bytes buf_reserve double_cap store
grows = refl

float_one :
    buf_f32 (2 ^ 32) empty 0x3f80_0000 ≡ some (record { bytes = 0 ∷ 0 ∷ 0x80 ∷ 0x3f ∷ []; cap = 4 })
unfolding buf_f32 put_bits buf_byte buf_reserve double_cap store
float_one = refl

uleb_300 : buf_uleb (2 ^ 32) empty 300 ≡ some (record { bytes = 0xac ∷ 0x02 ∷ []; cap = 2 })
unfolding buf_uleb uleb_loop buf_byte buf_reserve double_cap store
uleb_300 = refl

sleb_minus_200 :
    buf_sleb (2 ^ 32) empty (2 ^ 64 - 200) ≡ some (record { bytes = 0xb8 ∷ 0x7e ∷ []; cap = 2 })
unfolding buf_sleb sleb_loop buf_byte buf_reserve double_cap store
sleb_minus_200 = refl

buf_bytes-Grows_example : Grows empty (7 ∷ 8 ∷ 9 ∷ []) (buf_bytes (2 ^ 32) empty (7 ∷ 8 ∷ 9 ∷ []))
buf_bytes-Grows_example =
    buf_bytes-Grows (2 ^ 32) empty (7 ∷ 8 ∷ 9 ∷ []) empty-IsValid (omega arith) (omega arith)

buf_uleb-read_uleb_example :
    (bs : Bytes) × Appends empty bs (buf_uleb (2 ^ 32) empty 300)
    × (length bs ≤ 10)
    × (read_uleb (bs ++ 9 ∷ []) ≡ some (300, 9 ∷ []))
buf_uleb-read_uleb_example =
    buf_uleb-read_uleb (2 ^ 32) 300 empty (9 ∷ []) empty-IsValid (omega arith) (omega arith)

buf_sleb-read_sleb_example :
    (bs : Bytes) × Appends empty bs (buf_sleb (2 ^ 32) empty (2 ^ 64 - 200))
    × (length bs ≤ 10)
    × (read_sleb (bs ++ 9 ∷ []) ≡ some (2 ^ 64 - 200, 9 ∷ []))
buf_sleb-read_sleb_example =
    buf_sleb-read_sleb (2 ^ 32) (2 ^ 64 - 200) empty (9 ∷ []) empty-IsValid (omega arith)
      (omega arith)

abbrev nop_body : Buf
nop_body = record { bytes = 1 ∷ 2 ∷ []; cap = 64 }

put_section-framed_example :
    (bs : Bytes) × Appends empty (10 ∷ (bs ++ 1 ∷ 2 ∷ [])) (put_section (2 ^ 32) empty 10 nop_body)
    × (read_uleb (bs ++ 1 ∷ 2 ∷ []) ≡ some (2, 1 ∷ 2 ∷ []))
put_section-framed_example =
    put_section-framed (2 ^ 32) 10 empty nop_body empty-IsValid (omega arith) (omega arith)
      (omega arith) (omega arith)
