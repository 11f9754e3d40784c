-- ===== src/Builtins.antt =====
-- src/builtins.c and src/builtins.h: the table of the runtime's functions, and its lookups.
pub mod Lookup
use lua2wasm.Prelude.{
  ℕ, zero, suc, ◌+◌, Bytes, codes, List, length, Bool, true, false, not, ◌&&◌, ◌||◌, ◌==◌,
  if◌then◌else◌, [], ◌∷◌, Option, none, some,
}
use lua2wasm.Freestanding.Mem.{peek, memcmp, strcmp, is_zero}

pub data BuiltinClass : Type 0 where
  toplevel lib_math lib_string lib_io lib_table lib_utf8 lib_debug lib_os : BuiltinClass

abbrev pub is_toplevel : BuiltinClass → Bool
is_toplevel toplevel = true
is_toplevel _ = false

pub record Builtin : Type 0 where
  pub name : Bytes
  pub len : ℕ
  pub func_name : Bytes
  pub cls : BuiltinClass

abbrev row : Bytes → ℕ → Bytes → BuiltinClass → Builtin
row n l f c = record { name = n; len = l; func_name = f; cls = c }

unfoldable pub builtins : List Builtin
builtins =
    row (codes "print") 5 (codes "$builtin_print") toplevel
    ∷ row (codes "error") 5 (codes "$builtin_error") toplevel
    ∷ row (codes "pcall") 5 (codes "$builtin_pcall") toplevel
    ∷ row (codes "xpcall") 6 (codes "$builtin_xpcall") toplevel
    ∷ row (codes "warn") 4 (codes "$builtin_warn") toplevel
    ∷ row (codes "type") 4 (codes "$builtin_type") toplevel
    ∷ row (codes "tostring") 8 (codes "$builtin_tostring") toplevel
    ∷ row (codes "tonumber") 8 (codes "$builtin_tonumber") toplevel
    ∷ row (codes "ipairs") 6 (codes "$builtin_ipairs") toplevel
    ∷ row (codes "pairs") 5 (codes "$builtin_pairs") toplevel
    ∷ row (codes "next") 4 (codes "$builtin_next") toplevel
    ∷ row (codes "setmetatable") 12 (codes "$builtin_setmetatable") toplevel
    ∷ row (codes "getmetatable") 12 (codes "$builtin_getmetatable") toplevel
    ∷ row (codes "assert") 6 (codes "$builtin_assert") toplevel
    ∷ row (codes "select") 6 (codes "$builtin_select") toplevel
    ∷ row (codes "rawequal") 8 (codes "$builtin_rawequal") toplevel
    ∷ row (codes "rawlen") 6 (codes "$builtin_rawlen") toplevel
    ∷ row (codes "rawget") 6 (codes "$builtin_rawget") toplevel
    ∷ row (codes "rawset") 6 (codes "$builtin_rawset") toplevel
    ∷ row (codes "_ipairs_iter") 12 (codes "$builtin_ipairs_iter") toplevel
    ∷ row (codes "_utf8_codes_iter") 16 (codes "$builtin_utf8_codes_iter") toplevel
    ∷ row (codes "require") 7 (codes "$builtin_require") toplevel
    ∷ row (codes "collectgarbage") 14 (codes "$builtin_collectgarbage") toplevel
    ∷ row (codes "load") 4 (codes "$builtin_load") toplevel
    ∷ row (codes "floor") 5 (codes "$builtin_math_floor") lib_math
    ∷ row (codes "abs") 3 (codes "$builtin_math_abs") lib_math
    ∷ row (codes "sqrt") 4 (codes "$builtin_math_sqrt") lib_math
    ∷ row (codes "ceil") 4 (codes "$builtin_math_ceil") lib_math
    ∷ row (codes "min") 3 (codes "$builtin_math_min") lib_math
    ∷ row (codes "max") 3 (codes "$builtin_math_max") lib_math
    ∷ row (codes "sin") 3 (codes "$builtin_math_sin") lib_math
    ∷ row (codes "cos") 3 (codes "$builtin_math_cos") lib_math
    ∷ row (codes "tan") 3 (codes "$builtin_math_tan") lib_math
    ∷ row (codes "asin") 4 (codes "$builtin_math_asin") lib_math
    ∷ row (codes "acos") 4 (codes "$builtin_math_acos") lib_math
    ∷ row (codes "atan") 4 (codes "$builtin_math_atan") lib_math
    ∷ row (codes "exp") 3 (codes "$builtin_math_exp") lib_math
    ∷ row (codes "log") 3 (codes "$builtin_math_log") lib_math
    ∷ row (codes "deg") 3 (codes "$builtin_math_deg") lib_math
    ∷ row (codes "rad") 3 (codes "$builtin_math_rad") lib_math
    ∷ row (codes "fmod") 4 (codes "$builtin_math_fmod") lib_math
    ∷ row (codes "modf") 4 (codes "$builtin_math_modf") lib_math
    ∷ row (codes "tointeger") 9 (codes "$builtin_math_tointeger") lib_math
    ∷ row (codes "type") 4 (codes "$builtin_math_type") lib_math
    ∷ row (codes "ult") 3 (codes "$builtin_math_ult") lib_math
    ∷ row (codes "random") 6 (codes "$builtin_math_random") lib_math
    ∷ row (codes "randomseed") 10 (codes "$builtin_math_randomseed") lib_math
    ∷ row (codes "len") 3 (codes "$builtin_string_len") lib_string
    ∷ row (codes "sub") 3 (codes "$builtin_string_sub") lib_string
    ∷ row (codes "format") 6 (codes "$builtin_string_format") lib_string
    ∷ row (codes "upper") 5 (codes "$builtin_string_upper") lib_string
    ∷ row (codes "lower") 5 (codes "$builtin_string_lower") lib_string
    ∷ row (codes "reverse") 7 (codes "$builtin_string_reverse") lib_string
    ∷ row (codes "rep") 3 (codes "$builtin_string_rep") lib_string
    ∷ row (codes "byte") 4 (codes "$builtin_string_byte") lib_string
    ∷ row (codes "char") 4 (codes "$builtin_string_char") lib_string
    ∷ row (codes "find") 4 (codes "$builtin_string_find") lib_string
    ∷ row (codes "match") 5 (codes "$builtin_string_match") lib_string
    ∷ row (codes "gmatch") 6 (codes "$builtin_string_gmatch") lib_string
    ∷ row (codes "gsub") 4 (codes "$builtin_string_gsub") lib_string
    ∷ row (codes "packsize") 8 (codes "$builtin_string_packsize") lib_string
    ∷ row (codes "pack") 4 (codes "$builtin_string_pack") lib_string
    ∷ row (codes "unpack") 6 (codes "$builtin_string_unpack") lib_string
    ∷ row (codes "char") 4 (codes "$builtin_utf8_char") lib_utf8
    ∷ row (codes "len") 3 (codes "$builtin_utf8_len") lib_utf8
    ∷ row (codes "codepoint") 9 (codes "$builtin_utf8_codepoint") lib_utf8
    ∷ row (codes "offset") 6 (codes "$builtin_utf8_offset") lib_utf8
    ∷ row (codes "codes") 5 (codes "$builtin_utf8_codes") lib_utf8
    ∷ row (codes "write") 5 (codes "$builtin_io_write") lib_io
    ∷ row (codes "read") 4 (codes "$builtin_io_read") lib_io
    ∷ row (codes "open") 4 (codes "$builtin_io_open") lib_io
    ∷ row (codes "lines") 5 (codes "$builtin_io_lines") lib_io
    ∷ row (codes "type") 4 (codes "$io_type") lib_io
    ∷ row (codes "output") 6 (codes "$builtin_io_output") lib_io
    ∷ row (codes "input") 5 (codes "$builtin_io_input") lib_io
    ∷ row (codes "_handle_write") 13 (codes "$io_handle_write") lib_io
    ∷ row (codes "_handle_err_write") 17 (codes "$io_handle_err_write") lib_io
    ∷ row (codes "_handle_read") 12 (codes "$io_handle_read") lib_io
    ∷ row (codes "_handle_noop") 12 (codes "$io_handle_noop") lib_io
    ∷ row (codes "_file_read") 10 (codes "$file_read") lib_io
    ∷ row (codes "_file_write") 11 (codes "$file_write") lib_io
    ∷ row (codes "_file_close") 11 (codes "$file_close") lib_io
    ∷ row (codes "_file_flush") 11 (codes "$file_flush") lib_io
    ∷ row (codes "_file_seek") 10 (codes "$file_seek") lib_io
    ∷ row (codes "_file_lines") 11 (codes "$file_lines") lib_io
    ∷ row (codes "_io_lines_iter") 14 (codes "$io_lines_iter") lib_io
    ∷ row (codes "insert") 6 (codes "$builtin_table_insert") lib_table
    ∷ row (codes "remove") 6 (codes "$builtin_table_remove") lib_table
    ∷ row (codes "concat") 6 (codes "$builtin_table_concat") lib_table
    ∷ row (codes "unpack") 6 (codes "$builtin_table_unpack") lib_table
    ∷ row (codes "pack") 4 (codes "$builtin_table_pack") lib_table
    ∷ row (codes "move") 4 (codes "$builtin_table_move") lib_table
    ∷ row (codes "create") 6 (codes "$builtin_table_create") lib_table
    ∷ row (codes "sort") 4 (codes "$builtin_table_sort") lib_table
    ∷ row (codes "traceback") 9 (codes "$builtin_debug_traceback") lib_debug
    ∷ row (codes "getmetatable") 12 (codes "$builtin_debug_getmetatable") lib_debug
    ∷ row (codes "setmetatable") 12 (codes "$builtin_debug_setmetatable") lib_debug
    ∷ row (codes "gethook") 7 (codes "$builtin_debug_gethook") lib_debug
    ∷ row (codes "time") 4 (codes "$builtin_os_time") lib_os
    ∷ row (codes "clock") 5 (codes "$builtin_os_clock") lib_os
    ∷ row (codes "date") 4 (codes "$builtin_os_date") lib_os
    ∷ row (codes "getenv") 6 (codes "$builtin_os_getenv") lib_os
    ∷ row (codes "exit") 4 (codes "$builtin_os_exit") lib_os
    ∷ row (codes "execute") 7 (codes "$builtin_os_execute") lib_os
    ∷ row (codes "remove") 6 (codes "$builtin_os_remove") lib_os
    ∷ row (codes "rename") 6 (codes "$builtin_os_rename") lib_os
    ∷ row (codes "tmpname") 7 (codes "$builtin_os_tmpname") lib_os
    ∷ row (codes "difftime") 8 (codes "$builtin_os_difftime") lib_os
    ∷ row (codes "setlocale") 9 (codes "$builtin_os_setlocale") lib_os
    ∷ []

unfoldable pub builtin_count : ℕ
builtin_count = length builtins

-- The row at an index; an index out of range is `none`.
unfoldable pub row_at : List Builtin → ℕ → Option Builtin
row_at [] i = none
row_at (b ∷ bs) zero = some b
row_at (b ∷ bs) (suc i) = row_at bs i

-- Whether a row answers to the name: a top-level one, no helper, of that length and bytes.
unfoldable pub answers : Builtin → Bytes → ℕ → Bool
answers b name len =
    if not (is_toplevel b.cls)
    then false
    else if peek b.name == b'_'
    then false
    else b.len == len && is_zero (memcmp b.name name len)

-- The loop of lookup_builtin from index `i` on; -1 is `none`.
unfoldable pub lookup_from : List Builtin → ℕ → Bytes → ℕ → Option ℕ
lookup_from [] i name len = none
lookup_from (b ∷ bs) i name len =
    let rest = lookup_from bs (i + 1) name len in if answers b name len then some i else rest

unfoldable pub lookup_builtin : Bytes → ℕ → Option ℕ
lookup_builtin name len = lookup_from builtins 0 name len

unfoldable pub fast_entries : List Bytes
fast_entries =
    codes "$builtin_string_byte"
    ∷ codes "$builtin_string_sub"
    ∷ codes "$builtin_string_len"
    ∷ codes "$builtin_string_char"
    ∷ codes "$builtin_string_upper"
    ∷ codes "$builtin_string_lower"
    ∷ codes "$builtin_string_rep"
    ∷ codes "$builtin_math_floor"
    ∷ codes "$builtin_math_ceil"
    ∷ codes "$builtin_math_abs"
    ∷ codes "$builtin_math_sqrt"
    ∷ codes "$builtin_math_sin"
    ∷ codes "$builtin_math_cos"
    ∷ codes "$builtin_math_min"
    ∷ codes "$builtin_math_max"
    ∷ codes "$builtin_type"
    ∷ codes "$builtin_tostring"
    ∷ codes "$builtin_setmetatable"
    ∷ codes "$builtin_table_insert"
    ∷ []

unfoldable pub is_fast : List Bytes → Bytes → Bool
is_fast [] f = false
is_fast (e ∷ es) f = if is_zero (strcmp f e) then true else is_fast es f

unfoldable pub builtin_has_fast_entry : Builtin → Bool
builtin_has_fast_entry b = is_fast fast_entries b.func_name
