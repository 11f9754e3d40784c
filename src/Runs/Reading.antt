-- ===== src/Runs/Reading.antt =====
-- Runs of the text builder and of the reader of WebAssembly text.
use lua2wasm.Prelude.{◌^◌, ◌-◌, Bytes, codes, take, false, [], ◌∷◌, ◌++◌, some, ◌≡◌, refl, arith}
use lua2wasm.Freestanding.Mem.{strlen}
use lua2wasm.Freestanding.Fmt.{Flags, u_to_str, magnitude, int_prefix}
use lua2wasm.Lexer.Number.{skip_while}
use lua2wasm.Wat.Trivia.{skip_trivia, trivia_loop, skip_block, is_space, is_atom_char, line_of}
use lua2wasm.Wat.Trivia.Skips.{Skips, skip_trivia-Skips}
use lua2wasm.Wat.Text.{
  done, failed, unterminated_list, hexval, u_digits, u_escape, byte_escape, escaped, string_loop,
  read_string, utf8_encode,
}
use lua2wasm.Wat.Reader.{
  atom, list, kid, no_kids, read_sexpr, read_node, read_kids, next_kid, read_atom,
}
use lua2wasm.Wat.Reader.Total.{Reads, read_sexpr-Reads}
use lua2wasm.Wat.Integer.{parse_uint, digits, hex_loop, signed}
use lua2wasm.Wat.Integer.Values.{parse_uint-int_prefix}
use lua2wasm.Builder.{WatBuilder, wat_append, wat_vappendf}
use lua2wasm.Builder.Appending.{Adds, wat_append-Adds, wat_vappendf-Adds}

abbrev nested_comment : Bytes
nested_comment = codes " (; a (; b ;) ;);; c" ++ 10 ∷ codes "(d)"

comment_skipped : skip_trivia nested_comment ≡ some (codes "(d)")
unfolding skip_trivia trivia_loop skip_block skip_while is_space
comment_skipped = refl

skip_trivia-Skips_example : Skips nested_comment (skip_trivia nested_comment)
skip_trivia-Skips_example = skip_trivia-Skips nested_comment

third_line : line_of (10 ∷ 32 ∷ 10 ∷ 40 ∷ []) 3 ≡ 3
unfolding line_of
third_line = refl

-- "A\u{e9}\00" is five bytes.
string_decoded :
    read_string (34 ∷ codes "A" ++ 92 ∷ codes "u{e9}" ++ 92 ∷ codes "00" ++ 34 ∷ 41 ∷ [])
    ≡ done (65 ∷ 0xc3 ∷ 0xa9 ∷ 0 ∷ []) (41 ∷ [])
unfolding read_string string_loop escaped u_escape u_digits byte_escape hexval utf8_encode
string_decoded = refl

abbrev module_text : Bytes
module_text = codes "(a (b) c)"

module_read :
    read_sexpr 9 10 module_text
    ≡ done
        (some (
          list
            (kid
              (atom (codes "a") 1)
              (kid (list (kid (atom (codes "b") 4) no_kids) 3) (kid (atom (codes "c") 7) no_kids)))
            0))
        []
unfolding read_sexpr read_node read_kids next_kid read_atom is_atom_char is_space skip_trivia
    trivia_loop skip_while
module_read = refl

open_list : read_sexpr 2 3 (codes "(a") ≡ failed unterminated_list
unfolding read_sexpr read_node read_kids next_kid read_atom is_atom_char is_space skip_trivia
    trivia_loop skip_while
open_list = refl

read_sexpr-Reads_example : Reads module_text (read_sexpr 9 10 module_text)
read_sexpr-Reads_example = read_sexpr-Reads 10 9 module_text (omega arith)

hex_literal : parse_uint (codes "-0xF_f") ≡ done (2 ^ 64 - 255) []
unfolding parse_uint signed digits hex_loop hexval
hex_literal = refl

abbrev no_flags : Flags
no_flags = record { minus = false; plus = false; space = false; hash = false; zero_pad = false }

parse_uint-int_prefix_example :
    (text : Bytes) × (u_to_str (magnitude (2 ^ 63)) 10 false ≡ some text)
    × (parse_uint (int_prefix (2 ^ 63) no_flags ++ text) ≡ done (2 ^ 63) [])
parse_uint-int_prefix_example = parse_uint-int_prefix (2 ^ 63) no_flags (omega arith) refl

abbrev small : WatBuilder
small = record { text = codes "(a"; cap = 4 }

wat_append-Adds_example :
    Adds small (take (strlen (codes "bc)")) (codes "bc)")) (wat_append (2 ^ 32) small (codes "bc)"))
unfolding strlen
wat_append-Adds_example = wat_append-Adds (2 ^ 32) small (codes "bc)") (omega arith) (omega arith)

wat_vappendf-Adds_example :
    Adds small (codes " 12)") (wat_vappendf (2 ^ 32) small (some (codes " 12)")))
wat_vappendf-Adds_example =
    wat_vappendf-Adds (2 ^ 32) small (codes " 12)") (omega arith) (omega arith)
