-- ===== src/Runs/Runtime.antt =====
-- Runs of the freestanding C library and of the table of builtins.
use lua2wasm.Prelude.{
  ℕ, Bool, ◌<◌, ◌≢◌, ◌==◌, Bytes, codes, [], ◌∷◌, map, ◌++◌, ◌≡◌, ◌≤◌, ◌^◌, ◌-◌, ◌+◌, length, true,
  false, not, leb, some, refl, arith, if◌then◌else◌, inr, ◌↔◌,
}
use lua2wasm.Freestanding.Mem.{memcmp}
use lua2wasm.Freestanding.Strtoll.{
  strtoll, skip_blank, digits_loop, digit_val, unsigned_part, finish, llong_max,
}
use lua2wasm.Freestanding.Strtoll.Values.{
  strtoll_decimal, prefix_value, behind_sign, sign_of, signed_value,
}
use lua2wasm.Freestanding.Fmt.{
  Out, Flags, emit_field, put_signed, u_to_str, digits_down, digit_char, magnitude, int_prefix, put,
  put_mem, put_pad,
}
use lua2wasm.Freestanding.Fmt.Sink.{Holds, field, emit_field-Holds}
use lua2wasm.Freestanding.Fmt.Decimal.{u_to_str-value, strtoll-int_prefix}
use lua2wasm.Freestanding.Copy.{
  Memory, set_byte, copy_down, memcpy, memmove, fill_up, memset, strchr, strcpy,
}
use lua2wasm.Freestanding.Copy.Overlap.{copied, memcpy-copied, memmove-copied}
use lua2wasm.Freestanding.Copy.Strings.{strcpy-copied}
use lua2wasm.Freestanding.Alloc.{Heap, block_total, heap_extend, malloc_new, payload, align_up}
use lua2wasm.Builtins.{Builtin, builtins, row_at, lookup_builtin, lookup_from, answers}
use lua2wasm.Builtins.Lookup.{IsVisible, lookup_builtin_iff}

abbrev padded : Flags
padded = record { minus = false; plus = true; space = false; hash = false; zero_pad = true }

abbrev narrow : Out
narrow = record { buf = []; cap = 4; n = 0 }

saturates :
    strtoll (codes " -9223372036854775809;") 10
    ≡ record { value = 2 ^ 63; overflow = true; tail = codes ";" }
unfolding strtoll skip_blank digits_loop digit_val unsigned_part finish
saturates = refl

print_lookup : lookup_builtin (codes "print(1)") 5 ≡ some 0
unfolding lookup_builtin lookup_from answers builtins memcmp
print_lookup = refl

truncates :
    put_signed narrow (2 ^ 64 - 42) 6 padded ≡ some (record { buf = codes "-000"; cap = 4; n = 6 })
unfolding put_signed emit_field u_to_str digits_down digit_char magnitude int_prefix put put_mem
    put_pad
truncates = refl

strtoll_decimal_example :
    ((strtoll (codes "-7x") 10).value
      ≡ signed_value
          (sign_of (skip_blank (codes "-7x")))
          (prefix_value 10 0 (behind_sign (skip_blank (codes "-7x")))))
    × ((strtoll (codes "-7x") 10).overflow
        ≡ not (
            leb
              (prefix_value 10 0 (behind_sign (skip_blank (codes "-7x"))))
              (if sign_of (skip_blank (codes "-7x")) then 2 ^ 63 else llong_max)))
strtoll_decimal_example = strtoll_decimal (codes "-7x")

emit_field-Holds_example :
    Holds
      (codes "a" ++ field (codes "-") (codes "42") 6 padded)
      (emit_field (record { buf = codes "a"; cap = 4; n = 1 }) (codes "-") (codes "42") 6 padded)
    × (length (field (codes "-") (codes "42") 6 padded) ≡ 3 + (6 - 3))
emit_field-Holds_example =
    emit_field-Holds (codes "a") (record { buf = codes "a"; cap = 4; n = 1 }) (codes "-")
      (codes "42") 6 padded (record { stored = refl; counted = refl })

u_to_str-value_example :
    (text : Bytes) × (u_to_str 255 16 true ≡ some text)
    × (prefix_value 16 0 text ≡ 255)
    × (length text ≤ 23)
u_to_str-value_example = u_to_str-value 255 16 true (omega arith) (inr (inr refl))

strtoll-int_prefix_example :
    (text : Bytes) × (u_to_str (magnitude (2 ^ 63)) 10 false ≡ some text)
    × ((strtoll (int_prefix (2 ^ 63) padded ++ text) 10).value ≡ 2 ^ 63)
    × ((strtoll (int_prefix (2 ^ 63) padded ++ text) 10).overflow ≡ false)
strtoll-int_prefix_example = strtoll-int_prefix (2 ^ 63) padded (omega arith)

lookup_builtin_iff_example :
    (lookup_builtin (codes "print(1)") 5 ≡ some 0)
    ↔ ((b : Builtin) × (row_at builtins 0 ≡ some b) × IsVisible b × (codes "print" ≡ b.name))
lookup_builtin_iff_example = lookup_builtin_iff (codes "print(1)") 5 0 (omega arith)

-- The address is the byte.
abbrev ramp : Memory
ramp = λ k. k

moved_up : map (memmove ramp 2 0 4) (1 ∷ 2 ∷ 3 ∷ 4 ∷ 5 ∷ 6 ∷ []) ≡ 1 ∷ 0 ∷ 1 ∷ 2 ∷ 3 ∷ 6 ∷ []
unfolding memmove copy_down set_byte
moved_up = refl

filled : map (memset ramp 2 300 2) (1 ∷ 2 ∷ 3 ∷ 4 ∷ []) ≡ 1 ∷ 44 ∷ 44 ∷ 4 ∷ []
unfolding memset fill_up set_byte
filled = refl

comma_found : strchr (codes "a,b") b',' ≡ some (codes ",b")
unfolding strchr
comma_found = refl

memmove-copied_example : memmove ramp 2 0 4 5 ≡ copied ramp 2 0 4 5
memmove-copied_example = memmove-copied ramp 2 0 4 5

memcpy-copied_example : memcpy ramp 10 0 4 11 ≡ copied ramp 10 0 4 11
memcpy-copied_example = memcpy-copied ramp 10 0 4 11 (inr (omega arith))

-- The string "ab" at address 4, and zeros elsewhere.
abbrev two_letters : Memory
two_letters = λ k. if k == 4 then b'a' else if k == 5 then b'b' else 0

two_letters_full : (j : ℕ) → j < 2 → two_letters (4 + j) ≢ 0
two_letters_full j h = ground arith

strcpy-copied_example :
    (m : Memory) × (strcpy two_letters 10 4 3 ≡ some m)
    × ((k : ℕ) → m k ≡ copied two_letters 10 4 3 k)
strcpy-copied_example = strcpy-copied two_letters 10 4 2 refl two_letters_full (inr (omega arith))

-- Two pages, nearly used up.
abbrev two_pages : Heap
two_pages = record { brk = 131000; end_ = 131072 }

-- Memory of ten thousand pages at most.
abbrev grants : ℕ → Bool
grants pages = leb pages 9998

grown : malloc_new grants two_pages 200000 ≡ (record { brk = 331016; end_ = 393216 }, some 131008)
unfolding malloc_new block_total heap_extend payload align_up
grown = refl

-- The largest request that is let through wraps around to a block of no bytes.
wrapped_block : block_total 0xfffffff0 ≡ some 0
unfolding block_total align_up
wrapped_block = refl

-- A block of nearly 4 GiB moves the break back below the heap.
break_moves_back :
    malloc_new grants two_pages 0xffff0000 ≡ (record { brk = 65480; end_ = 131072 }, some 131008)
unfolding malloc_new block_total heap_extend payload align_up
break_moves_back = refl
