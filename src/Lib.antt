-- ===== src/Lib.antt =====
-- lua2wasm, an ahead-of-time compiler from Lua to WebAssembly text and binary.
--
-- The compiler (src/) reads a Lua source with the lexer (src/lexer.c), parses it (src/parser.c)
-- into a tree (src/ast.h), resolving names against the table of runtime functions
-- (src/builtins.c), and writes WebAssembly text (src/codegen), which the assembler
-- (src/wat2wasm.c) turns into a binary module. Built for wasm32 it runs on its own C library
-- (src/freestanding).
--
-- Prelude: shared names, lists of bytes, and the bit operations in arithmetic (Prelude/Bits).
-- Lexer: src/lexer.h and src/lexer.c. Lexer/Token has the kinds and tok_kind_name, Lexer/Keyword
--   the table KEYWORDS and keyword_or_ident, Lexer/Text the function read_string with the UTF-8
--   writer in Lexer/Utf8, Lexer/Bracket try_open_long_bracket and read_long_body, Lexer/Number
--   the cursor over numeric literals, and Lexer/Scan the loop of lex.
-- Freestanding: Ctype is include/ctype.h, Mem, Copy and Strtoll are baselib.c, Fmt is fmt.c, and
--   Alloc the new blocks of alloc.c.
-- Builtins: src/builtins.c.
-- Parser: src/parser.c and the tree of src/ast.h. Parser/Ast is the tree, Parser/Kinds the numbers
--   of the token kinds, Parser/Operators the tables of the binary operators, Parser/Scope the
--   frames of functions with their declarations and upvalues, Parser/State the struct Parser and
--   the steps over its tokens, Parser/Resolve the globals and the resolution of names. The
--   parsers are Body (function bodies), Primary and Expr (expressions), Local, Global, Control,
--   Loops, Assign and Jumps (statements), and Block (parse_stmt, parse_block, parse); an
--   expression calls back the parser of blocks, and the other way round, through the record
--   Calls, which `tie` fills. Safe, Steps, Rules, Markers and Fits have the rules for actions on
--   the parser, the modules Ends and Statements apply them to each function, and Whole has what
--   follows for the whole.
-- Wat: src/wat2wasm.c. Wat/Buf is the byte buffer, Wat/Leb the LEB128 writers and put_section.
--   The reader of WebAssembly text is Wat/Trivia (skip_trivia), Wat/Text (read_string),
--   Wat/Reader (read_sexpr) and Wat/Integer (parse_uint). Wat/Encode has the context and the state
--   of the encoder, Wat/Encode/Types the types and signatures, Wat/Encode/Ops the table OPS and
--   the indices, and the parts of encode_instr are Variables, Control, Gc and Instr, beside the
--   modules that prove what they keep. A pointer to a node is the list of the nodes from it on.
--   Wat/Dce is the dead-code elimination in assemble: dce_mark, dce_scan, the worklist from the
--   exported functions, and the remaps; Wat/Dce/Reach says what the exports reach, by the
--   instructions that stand in code, Occurrences and References relate these to the targets of the scan, Search
--   is what the worklist searches, and Visits, Marking, Lost, Worklist, Roots and Remap have the
--   proofs.
-- Builder: src/wat_builder.c, the text that the code generator writes for the assembler.
-- Codegen: src/codegen. Codegen/Strings is the pool of string literals of strings.c, with its index
--   and the hash of a constant. Probing, Chains, Indexing and Regrowth are about the index,
--   Scanning and Hits about what is found, Interning, Lookup and Stable about strpool_add.
--   Codegen/Constants is kstr_name with the table MKEYS, and Declared the list of constants.
-- Runs: tests on small inputs, and the theorems at concrete inputs.
--
-- A pointer into a text is the list of the bytes from it on; a read past the end gives the
-- terminating NUL. A bounded buffer carries its capacity, and a write beyond it is an outcome of
-- its own. A parser is a function of the state into a value with the state, a use of captured[]
-- beyond its 256 marks (Out.overrun, where the C program reads or writes beyond the array: nothing
-- is said of what it does then), a fault (a read beyond the tokens, unreachable code) or the end
-- of the fuel; an error is a field of the state, as in the code.
-- 64-bit integers are their bit patterns; parse_uint negates the least one to itself, where C leaves
-- the negation undefined. The length of a formatted text, an int in C, is not bounded. `ulong` is the width of `unsigned long`, 64
-- in the native build and 32 in the wasm32 build; `modulus` is one more than the largest size_t.
--
-- Fuel: read_string and lex take one more round than the text has bytes, since each round takes
-- a byte; so do the loops of the reader, where the same bound holds the depth of the nesting. The
-- LEB128 loops take ten rounds, seven bits each; a capacity is doubled at most as often as the
-- need is large; strcpy takes one round for each byte up to the NUL. The loops of the parser, and
-- its recursion, take one round more than there are tokens, since each round and each recursive
-- call stands behind a token. The encoder of instructions takes more fuel than the tree has nodes,
-- since a call is always on fewer of them. The
-- worklist takes one round more than there are functions and globals, since each is queued at most
-- once. A probe takes as many rounds as the index has slots, one of which is free, and the index
-- is regrown one level deep. That this is enough is part of the theorems.
--
-- Not modelled: strtod and dtoa, which are vendored (a parameter of lex); memory that malloc
-- cannot give (the program aborts there); the release of buffers; the node pool, the texts of the
-- parser's errors beyond their arguments, the code generator but for its literals, the free list and the tags of the
-- allocator, the sections of the assembler's module, and the command lines.
pub mod Prelude
pub mod Freestanding
pub mod Builtins
pub mod Codegen
pub mod Lexer
pub mod Parser
pub mod Wat
pub mod Builder
mod Runs
