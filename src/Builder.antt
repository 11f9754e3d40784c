-- ===== src/Builder.antt =====
-- src/wat_builder.c: the text that the code generator writes. `modulus` is one more than the
-- largest size_t. The text is the list of its bytes, `w->used` its length, and the NUL behind it
-- is not listed; a store beyond the capacity is the fault `none`, and so is the doubling loop
-- when its fuel runs out. malloc and realloc return or the program aborts. vsnprintf is a
-- parameter of wat_vappendf: the text that it prints, or none for a negative return, on which
-- the program aborts.
pub mod Appending
use lua2wasm.Prelude.{
  ℕ, zero, suc, ◌+◌, ◌-◌, ◌*◌, ◌%◌, ◌^◌, Bytes, length, take, Bool, true, false, leb, ltb,
  if◌then◌else◌, [], ◌∷◌, ◌++◌, Option, none, some,
}
use lua2wasm.Freestanding.Mem.{strlen}
use lua2wasm.Wat.Buf.{double_cap, ◌>>=◌}

pub record WatBuilder : Type 0 where
  pub text : Bytes
  pub cap : ℕ

unfoldable pub wat_init : WatBuilder
wat_init = record { text = []; cap = 1024 }

unfoldable pub wat_free : WatBuilder → WatBuilder
wat_free w = record { text = []; cap = 0 }

-- The loop `w->cap *= 2` is the one of buf_reserve.
unfoldable pub ensure : ℕ → WatBuilder → ℕ → Option WatBuilder
ensure modulus w need =
    let wanted = (length w.text + need + 1) % modulus in
    if ltb w.cap wanted
    then (do cap ← double_cap modulus (wanted + 1) wanted w.cap; some (record w { cap = cap }))
    else some w

-- The copy of `n` bytes and the NUL behind them.
unfoldable pub copy_in : WatBuilder → Bytes → Option WatBuilder
copy_in w bs =
    if ltb (length w.text + length bs) w.cap then some (record w { text = w.text ++ bs }) else none

unfoldable pub wat_append : ℕ → WatBuilder → Bytes → Option WatBuilder
wat_append modulus w s = do w' ← ensure modulus w (strlen s); copy_in w' (take (strlen s) s)

-- The first call of vsnprintf measures; the second one prints at most what the capacity leaves,
-- and its NUL.
unfoldable pub wat_vappendf : ℕ → WatBuilder → Option Bytes → Option WatBuilder
wat_vappendf modulus w none = none
wat_vappendf modulus w (some printed) = do
  w' ← ensure modulus w (length printed)
  copy_in w' (take (w'.cap - length w'.text - 1) printed)

unfoldable pub wat_appendf : ℕ → WatBuilder → Option Bytes → Option WatBuilder
unfolding wat_vappendf
wat_appendf modulus w printed = wat_vappendf modulus w printed
