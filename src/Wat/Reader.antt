-- ===== src/Wat/Reader.antt =====
-- src/wat2wasm.c, the reader of WebAssembly text: S-expressions. The nodes of the arena are
-- values, and the list first/next/last of a node's children is the list of them.
pub mod Total
use lua2wasm.Prelude.{
  ℕ, zero, suc, ◌+◌, ◌-◌, Bytes, length, take, Bool, true, false, not, ◌&&◌, ◌==◌, if◌then◌else◌,
  [], ◌∷◌, Option, none, some,
}
use lua2wasm.Freestanding.Mem.{strcmp, is_zero}
use lua2wasm.Lexer.Number.{skip_while}
use lua2wasm.Wat.Trivia.{skip_trivia, is_atom_char}
use lua2wasm.Wat.Text.{
  Result, done, failed, stuck, and_then, unexpected_close, unterminated_list, unexpected_character,
  read_string,
}

-- SExpr: an atom that is not quoted, a quoted one, or a list; with its offset in the source.
mutual
  pub data SExpr : Type 0 where
    atom : Bytes → ℕ → SExpr
    string : Bytes → ℕ → SExpr
    list : Kids → ℕ → SExpr

  pub data Kids : Type 0 where
    no_kids : Kids
    kid : SExpr → Kids → Kids

-- An atom that is not quoted, at the byte `c`.
unfoldable pub read_atom : ℕ → ℕ → Bytes → Result (Option SExpr)
read_atom at c cs =
    let q = skip_while is_atom_char (c ∷ cs) in
    let len = length (c ∷ cs) - length q in
    if len == 0
    then failed (unexpected_character c)
    else done (some (atom (take len (c ∷ cs)) at)) q

-- At the next child of a list, or at its end. `more` goes on behind the child.
unfoldable pub next_kid :
    (Bytes → Result (Option SExpr)) → (Bytes → Result Kids) → Bytes → Result Kids
next_kid reader more [] = failed unterminated_list
next_kid reader more (c ∷ cs) = elim (c == 41) [
  | true ↦ done no_kids cs
  | false ↦ and_then (reader (c ∷ cs)) (λ node q. elim node [
    | none ↦ failed unterminated_list
    | some k ↦ and_then (more q) (λ ks q'. done (kid k ks) q')
  ])
]

-- The loop over the children of a list, behind its parenthesis.
unfoldable pub read_kids : (Bytes → Result (Option SExpr)) → ℕ → Bytes → Result Kids
read_kids reader zero p = stuck
read_kids reader (suc fuel) p = elim (skip_trivia p) [
  | none ↦ stuck
  | some q ↦ next_kid reader (read_kids reader fuel) q
]

-- The node at the cursor. `size` is c->len.
unfoldable pub read_node : (Bytes → Result (Option SExpr)) → ℕ → Bytes → Result (Option SExpr)
read_node reader size [] = done none []
read_node reader size (c ∷ cs) =
    let at = size - length (c ∷ cs) in
    if c == 41
    then failed unexpected_close
    else if c == 40
    then and_then (read_kids reader (length cs + 1) cs) (λ ks q. done (some (list ks at)) q)
    else if c == 34
    then and_then (read_string (c ∷ cs)) (λ bs q. done (some (string bs at)) q)
    else read_atom at c cs

-- The fuel bounds the depth of the nesting.
unfoldable pub read_sexpr : ℕ → ℕ → Bytes → Result (Option SExpr)
read_sexpr size zero p = stuck
read_sexpr size (suc fuel) p = elim (skip_trivia p) [
  | none ↦ stuck
  | some q ↦ read_node (read_sexpr size fuel) size q
]

unfoldable pub is_atom : Option SExpr → Bool
is_atom none = false
is_atom (some (list ks at)) = false
is_atom (some _) = true

-- atom_eq, on an atom with no NUL.
unfoldable pub atom_eq : Option SExpr → Bytes → Bool
atom_eq (some (atom bs at)) s = is_zero (strcmp bs s)
atom_eq _ s = false

-- NULL is `none`.
unfoldable pub head : Option SExpr → Option Bytes
head (some (list (kid (atom bs at) ks) at')) = some bs
head _ = none
