-- ===== src/Wat/Reader/Total.antt =====
-- read_sexpr ends on every text, whatever the nesting, and moves the cursor forward.
use lua2wasm.Prelude.{
  ℕ, zero, suc, ◌+◌, ◌-◌, ◌≤◌, ◌<◌, Bytes, length, ◌==◌, [], ◌∷◌, Option, none, some, arith, ◌≡◌,
  refl, Bool-cases, inl, inr,
}
use lua2wasm.Lexer.Cursor.{
  Tail, Moved, Tail-refl, Tail-cons, Tail-of_Moved, Tail-trans, next-Tail, skip_while-Tail,
}
use lua2wasm.Lexer.Number.{skip_while}
use lua2wasm.Wat.Trivia.{is_atom_char}
use lua2wasm.Wat.Trivia.Skips.{skip_trivia-Skips}
use lua2wasm.Wat.Text.{Result, done, failed, stuck, and_then, read_string, unterminated_list}
use lua2wasm.Wat.Text.Escapes.{Ends, Ends-trans, Ends-and_then, read_string-Ends}
use lua2wasm.Wat.Reader.{
  SExpr, Kids, list, string, kid, read_atom, next_kid, read_kids, read_node, read_sexpr,
}

-- A node that is read takes a byte; NULL is returned only at the end of the text.
abbrev pub Reads : Bytes → Result (Option SExpr) → Type 0
Reads p (done none q) = q ≡ []
Reads p (done (some node) q) = Moved q p
Reads p (failed why) = Unit
Reads p stuck = ⊥

Reads-Tail : {p q : Bytes} (r : Result (Option SExpr)) → Tail q p → Reads q r → Reads p r
Reads-Tail (done none q') t e = e
Reads-Tail (done (some node) q') t m =
    let w = t.within in
    let v = m.shorter in
    record { shorter = omega arith; suffix = (Tail-trans (Tail-of_Moved m) t).suffix }
Reads-Tail (failed why) t e = tt
Reads-Tail stuck t e = e

Reads-Ends :
    {A : Type 0} (c : ℕ) (cs : Bytes) (r : Result A) (node : A → SExpr)
    → Ends cs r
    → Reads (c ∷ cs) (and_then r (λ a q. done (some (node a)) q))
Reads-Ends c cs (done a q) node t = Tail-cons c t
Reads-Ends c cs (failed why) node t = tt
Reads-Ends c cs stuck node t = t

read_atom-Reads : (at c : ℕ) (cs : Bytes) → Reads (c ∷ cs) (read_atom at c cs)
unfolding read_atom
read_atom-Reads at c cs =
    let q = skip_while is_atom_char (c ∷ cs) in
    let t = skip_while-Tail is_atom_char (c ∷ cs) in
    let w = t.within in
    elim (Bool-cases (length (c ∷ cs) - length q == 0)) [
      | inl e ↦ rw e tt
      | inr e ↦ rw e (record { shorter = ground arith; suffix = t.suffix })
    ]

module _ (reader : Bytes → Result (Option SExpr)) (limit : ℕ)
    (reads : (p : Bytes) → length p < limit → Reads p (reader p)) where
  -- A list, where the rest of it is read by `more`.
  next_kid-Ends :
      (more : Bytes → Result Kids) (q : Bytes)
      → length q < limit
      → ((q' : Bytes) → length q' < length q → Ends q' (more q'))
      → Ends q (next_kid reader more q)
  unfolding next_kid
  next_kid-Ends more [] h rest = tt
  next_kid-Ends more (c ∷ cs) h rest = elim (Bool-cases (c == 41)) [
    | inl e ↦ rw (e, Ends) (next-Tail (c ∷ cs))
    | inr e ↦ rw (e, Ends) (go (reader (c ∷ cs)) (reads (c ∷ cs) h))
  ]
    where
      go :
          (r : Result (Option SExpr))
          → Reads (c ∷ cs) r
          → Ends (c ∷ cs) (
              and_then r (λ node q. elim node [
                | none ↦ failed unterminated_list
                | some k ↦ and_then (more q) (λ ks q'. done (kid k ks) q')
              ]))
      go (done none q) e = tt
      go (done (some k) q) m =
          Ends-trans (and_then (more q) (λ ks q'. done (kid k ks) q')) (Tail-of_Moved m)
            (Ends-and_then (more q) _ (rest q m.shorter) (λ ks q' t. Tail-refl q'))
      go (failed why) e = tt
      go stuck e = e

  read_kids-Ends :
      (fuel : ℕ) (p : Bytes) → length p < fuel → length p < limit → Ends p (read_kids reader fuel p)
  unfolding read_kids
  read_kids-Ends zero p h k = absurd (omega arith)
  read_kids-Ends (suc fuel) p h k =
      let s = skip_trivia-Skips p in
      let w = s.tail.within in
      rw (s.returns, Ends)
        (Ends-trans (next_kid reader (read_kids reader fuel) s.rest) s.tail (
          next_kid-Ends (read_kids reader fuel) s.rest (omega arith)
            (λ q l. read_kids-Ends fuel q (omega arith) (omega arith))))

  read_node-Reads : (size : ℕ) (q : Bytes) → length q ≤ limit → Reads q (read_node reader size q)
  unfolding read_node
  read_node-Reads size [] h = refl
  read_node-Reads size (c ∷ cs) h =
      let at = size - length (c ∷ cs) in
      ground (
        arith,
        Reads-Ends c cs (read_kids reader (length cs + 1) cs) (λ ks. list ks at)
            (read_kids-Ends (length cs + 1) cs (omega arith) (omega arith)),
        Reads-Ends c cs (read_string (c ∷ cs)) (λ bs. string bs at) (read_string-Ends c cs),
        read_atom-Reads at c cs,
      )

-- On every text, whatever its nesting, read_sexpr ends when the fuel is more than the bytes: it
-- fails, or it returns a node and a cursor behind the bytes of the node, or, at the end of the
-- text only, NULL.
pub read_sexpr-Reads :
    (fuel size : ℕ) (p : Bytes) → length p < fuel → Reads p (read_sexpr size fuel p)
unfolding read_sexpr
read_sexpr-Reads zero size p h = absurd (omega arith)
read_sexpr-Reads (suc fuel) size p h =
    let s = skip_trivia-Skips p in
    let w = s.tail.within in
    rw (s.returns, Reads)
      (Reads-Tail (read_node (read_sexpr size fuel) size s.rest) s.tail (
        read_node-Reads (read_sexpr size fuel) fuel (read_sexpr-Reads fuel size) size s.rest
          (omega arith)))
