-- ===== src/Wat/Encode.antt =====
-- src/wat2wasm.c: the context and the state of the encoder, and the steps on them.
-- An action takes the state and returns a value with the state as it leaves it; `failed` is the
-- jump of `fail` with the arguments of its message. `null` is a read through a null pointer,
-- `overread` a read beyond an array, and `stuck` a loop or recursion that the fuel does not finish.
-- A pointer to a node within a list is the list of the nodes from it on; NULL is `no_kids`.
pub mod Types
pub mod Ops
pub mod Grows
pub mod Resolved
pub mod Total
pub mod Blocks
pub mod Structured
pub mod Framed
pub mod References
pub mod Operands
pub mod Typed
pub mod Control
pub mod Instr
pub mod Variables
pub mod Gc
use lua2wasm.Prelude.{
  ℕ, zero, suc, ◌+◌, ◌-◌, ◌%◌, ◌^◌, Bytes, codes, String, length, List, [], ◌∷◌, ◌++◌, Bool, true,
  false, ◌&&◌, ◌==◌, ltb, if◌then◌else◌, Option, none, some,
}
use lua2wasm.Freestanding.Mem.{peek, strcmp, is_zero}
use lua2wasm.Wat.Buf.{Buf, buf_init}
use lua2wasm.Wat.Leb.{buf_uleb, buf_sleb}
use lua2wasm.Wat.Text.{Failure, Result}
use lua2wasm.Wat.Reader.{SExpr, Kids, no_kids, kid, is_atom, head}
use lua2wasm.Wat.Integer.{parse_uint}

-- What `fail` reports: a text, a text about an atom, the same with a line, or a bad number.
pub data Refusal : Type 0 where
  message : Bytes → Refusal
  about : Bytes → Bytes → Refusal
  in_line : ℕ → Bytes → Bytes → Refusal
  bad_number : Failure → Refusal

-- NULL names are `none`. The number of fields is the length of their names.
pub record DeclType : Type 0 where
  pub name : Option Bytes
  pub comptype : Kids
  pub has_sub : Bool
  pub is_final : Bool
  pub supers : List Bytes
  pub field_names : List (Option Bytes)

pub record FuncSig : Type 0 where
  pub params : Bytes
  pub n_params : ℕ
  pub results : Bytes
  pub n_results : ℕ

-- The part of Ctx that the encoder only reads. A remap that is off is `none`.
pub record Ctx : Type 0 where
  pub src : Bytes
  pub func_names : List (Option Bytes)
  pub global_names : List (Option Bytes)
  pub tag_names : List (Option Bytes)
  pub data_names : List (Option Bytes)
  pub decls : List DeclType
  pub func_remap : Option (List ℕ)
  pub global_remap : Option (List ℕ)
  pub sig_remap : Option (List ℕ)

-- The part that it changes: the names of the enclosing control frames, the outermost first, the
-- synthesized signatures, and the bytes in the buffer.
pub record Encoder : Type 0 where
  pub labels : List (Option Bytes)
  pub sigs : List FuncSig
  pub out : Bytes

pub data Out (A : Type 0) : Type 0 where
  done : A → Encoder → Out A
  failed : Refusal → Out A
  null overread stuck : Out A

abbrev pub Action : Type 0 → Type 0
Action A = Encoder → Out A

unfoldable pub pure : {A : Type 0} → A → Action A
pure a s = done a s

unfoldable pub fail : {A : Type 0} → Refusal → Action A
fail why s = failed why

unfoldable pub null_read : {A : Type 0} → Action A
null_read s = null

unfoldable pub beyond : {A : Type 0} → Action A
beyond s = overread

unfoldable pub give_up : {A : Type 0} → Action A
give_up s = stuck

abbrev pub continue : {A B : Type 0} → Out A → (A → Action B) → Out B
continue (done a s) k = k a s
continue (failed why) k = failed why
continue null k = null
continue overread k = overread
continue stuck k = stuck

infixl 5 ◌>>=◌ ◌>>◌
unfoldable pub ◌>>=◌ : {A B : Type 0} → Action A → (A → Action B) → Action B
◌>>=◌ m k s = continue (m s) k

abbrev pub ◌>>◌ : {A B : Type 0} → Action A → Action B → Action B
m >> k = m >>= λ _. k

-- A test with its two branches.
unfoldable pub branch : {A : Type 0} → Bool → Action A → Action A → Action A
branch test yes_branch no_branch s = elim test [ true ↦ yes_branch s | false ↦ no_branch s ]

-- A computed option with its two cases.
unfoldable pub on_option : {A B : Type 0} → Option A → Action B → (A → Action B) → Action B
on_option none no_case some_case = no_case
on_option (some a) no_case some_case = some_case a

-- buf_byte and buf_bytes, on the bytes that the buffer holds.
unfoldable pub put_bytes : Bytes → Action (Unit {0})
put_bytes bs s = done tt (record s { out = s.out ++ bs })

unfoldable pub put : ℕ → Action (Unit {0})
put b = put_bytes (b % 256 ∷ [])

-- The bytes that a writer leaves in a new buffer.
unfoldable pub written : Option Buf → Bytes
written none = []
written (some b) = b.bytes

unfoldable pub uleb_bytes : ℕ → Bytes
unfolding written
uleb_bytes v = written (buf_uleb (2 ^ 64) buf_init v)

unfoldable pub sleb_bytes : ℕ → Bytes
unfolding written
sleb_bytes v = written (buf_sleb (2 ^ 64) buf_init v)

unfoldable pub put_uleb : ℕ → Action (Unit {0})
put_uleb v = put_bytes (uleb_bytes v)

unfoldable pub put_sleb : ℕ → Action (Unit {0})
put_sleb v = put_bytes (sleb_bytes v)

-- strcmp(s, t) == 0
unfoldable pub same : Bytes → String → Bool
same s t = is_zero (strcmp s (codes t))

unfoldable pub same_name : Bytes → Bytes → Bool
same_name s t = is_zero (strcmp s t)

abbrev pub node : Kids → Option SExpr
node no_kids = none
node (kid n rest) = some n

-- k->next
unfoldable pub next_of : {A : Type 0} → Kids → (Kids → Action A) → Action A
next_of no_kids f = null_read
next_of (kid n rest) f = f rest

-- The text of an atom, quoted or not.
unfoldable pub atom_text : Kids → Option Bytes
atom_text (kid (SExpr.atom bs at) rest) = some bs
atom_text (kid (SExpr.string bs at) rest) = some bs
atom_text _ = none

-- head(k) && strcmp(head(k), h) == 0
unfoldable pub has_head : SExpr → String → Bool
has_head n h = elim (head (some n)) [ none ↦ false | some op ↦ same op h ]

-- is_atom(k) && k->atom[0] == '$'
unfoldable pub is_name : Kids → Bool
is_name k = elim (atom_text k) [ none ↦ false | some bs ↦ peek bs == b'$' ]

-- n->first->next, of a list with a head.
unfoldable pub behind_head : SExpr → Kids
behind_head (SExpr.list (kid n rest) at) = rest
behind_head _ = no_kids

unfoldable pub number : Bytes → Action ℕ
number bs = elim (parse_uint bs) [
  | Result.done v rest ↦ pure v
  | Result.failed why ↦ fail (bad_number why)
  | Result.stuck ↦ give_up
]

-- The line of a byte offset: 1 and the newlines before it.
unfoldable pub line_from : ℕ → Bytes → ℕ → ℕ
line_from zero src line = line
line_from (suc n) [] line = line
line_from (suc n) (c ∷ cs) line = line_from n cs (if c == 10 then line + 1 else line)

unfoldable pub line_of : Ctx → ℕ → ℕ
unfolding line_from
line_of c at = line_from at c.src 1
