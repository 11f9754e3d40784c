-- ===== src/Wat/Encode/Resolved.antt =====
-- The resolution of names, numbers and types only grows the tables, and ends.
use lua2wasm.Prelude.{
  ℕ, ◌*◌, ◌+◌, ◌%◌, ◌^◌, ◌&&◌, ◌||◌, ltb, Bytes, codes, List, [], ◌∷◌, Bool, true, false, ◌==◌,
  if◌then◌else◌, Option, none, some,
}
use lua2wasm.Freestanding.Mem.{peek, peek1, next}
use lua2wasm.Wat.Text.{Failure, Result, done, failed, stuck, hexval, bad_hex_digit}
use lua2wasm.Wat.Integer.{parse_uint, digits, signed, hex_loop, decimal_loop}
use lua2wasm.Wat.Reader.{Kids}
use lua2wasm.Wat.Encode.{
  Ctx, Action, about, bad_number, pure, fail, give_up, branch, on_option, number, ◌>>=◌,
}
use lua2wasm.Wat.Encode.Types.{index_of, resolve_type}
use lua2wasm.Wat.Encode.Ops.{
  Floats, resolve_local, resolve_index, find_label, label_depth, resolve_label, resolve_field,
  parse_double,
}
use lua2wasm.Wat.Encode.Grows.{Good, Good-pure, Good-fail, good_rules}

abbrev Ends : {A : Type 0} → Result A → Type 0
Ends (done a p) = Unit
Ends (failed why) = Unit
Ends stuck = ⊥

Ends-if : (b : Bool) (r t : Result ℕ) → Ends r → Ends t → Ends (if b then r else t)
Ends-if true r t g h = g
Ends-if false r t g h = h

Ends-digit :
    (why : Failure) (d : Option ℕ) (k : ℕ → Result ℕ)
    → ((h : ℕ) → Ends (k h))
    → Ends (elim d as (λ _. Result ℕ) [ none ↦ failed why | some h ↦ k h ])
Ends-digit why none k g = tt
Ends-digit why (some h) k g = g h

hex_loop-Ends : (s : Bytes) (v : ℕ) → Ends (hex_loop s v)
unfolding hex_loop
hex_loop-Ends [] v = tt
hex_loop-Ends (c ∷ cs) v = Ends-if (c == 0) _ _ tt (
    Ends-if (c == b'_') _ _ (hex_loop-Ends cs v) (
      Ends-digit (bad_hex_digit (c ∷ cs)) (hexval c) (λ h. hex_loop cs ((v * 16 + h) % 2 ^ 64))
        (λ h. hex_loop-Ends cs ((v * 16 + h) % 2 ^ 64))))

decimal_loop-Ends : (s : Bytes) (v : ℕ) → Ends (decimal_loop s v)
unfolding decimal_loop
decimal_loop-Ends [] v = tt
decimal_loop-Ends (c ∷ cs) v = Ends-if (c == 0) _ _ tt (
    Ends-if (c == b'_') _ _ (decimal_loop-Ends cs v)
      (Ends-if (ltb c b'0' || ltb b'9' c) _ _ tt (decimal_loop-Ends cs _)))

digits-Ends : (s : Bytes) → Ends (digits s)
unfolding digits
digits-Ends s =
    Ends-if (peek s == b'0' && (peek1 s == b'x' || peek1 s == b'X')) _ _
      (Ends-if (peek (next (next s)) == 0) _ _ tt (hex_loop-Ends (next (next s)) 0))
      (Ends-if (peek s == 0) _ _ tt (decimal_loop-Ends s 0))

signed-Ends : (neg : Bool) (r : Result ℕ) → Ends r → Ends (signed neg r)
unfolding signed
signed-Ends neg (done v p) h = tt
signed-Ends neg (failed why) h = tt
signed-Ends neg stuck h = h

parse_uint-Ends : (s : Bytes) → Ends (parse_uint s)
unfolding parse_uint
parse_uint-Ends s = Ends-if (peek s == b'+') _ _ (signed-Ends false _ (digits-Ends (next s))) (
    Ends-if (peek s == b'-') _ _ (signed-Ends true _ (digits-Ends (next s)))
      (signed-Ends false _ (digits-Ends s)))

module _ {c : Ctx} where
  Good-result :
      (r : Result ℕ)
      → Ends r
      → Good c (elim r as (λ _. Action ℕ) [
        | done v rest ↦ pure v
        | failed why ↦ fail (bad_number why)
        | stuck ↦ give_up
      ])
  Good-result (done v rest) h = Good-pure v
  Good-result (failed why) h = Good-fail (bad_number why)
  Good-result stuck h = absurd h

  pub Good-number : (bs : Bytes) → Good c (number bs)
  unfolding number
  Good-number bs = Good-result (parse_uint bs) (parse_uint-Ends bs)

  Good-index_of : (names : List (Option Bytes)) (what bs : Bytes) → Good c (index_of names what bs)
  unfolding index_of
  Good-index_of names what bs = search (good_rules, Good-number)

  pub Good-resolve_type : (k : Kids) → Good c (resolve_type c k)
  unfolding resolve_type
  Good-resolve_type k = search (good_rules, Good-index_of)

  pub Good-resolve_local :
      (locals : List (Option Bytes)) (k : Kids) → Good c (resolve_local locals k)
  unfolding resolve_local
  Good-resolve_local locals k = search (good_rules, Good-index_of)

  pub Good-resolve_index :
      (names : List (Option Bytes)) (what : Bytes) (k : Kids) → Good c (resolve_index names what k)
  unfolding resolve_index
  Good-resolve_index names what k = search (good_rules, Good-index_of)

  Good-label_depth : (bs : Bytes) → Good c (label_depth bs)
  unfolding label_depth
  Good-label_depth bs = record {
    at = λ s.
        let m : Good c (
            branch (peek bs == b'$')
              (on_option (find_label s.labels bs) (fail (about (codes "unknown label") bs))
                (λ d. pure (d % 2 ^ 32)))
              (do v ← number bs; pure (v % 2 ^ 32))) =
          search (good_rules, Good-number) in
        m.at s;
  }

  pub Good-resolve_label : (k : Kids) → Good c (resolve_label k)
  unfolding resolve_label
  Good-resolve_label k =
      let depth = λ (bs : Bytes). Good-label_depth bs in search (good_rules, depth)

  pub Good-resolve_field : (t : ℕ) (k : Kids) → Good c (resolve_field c t k)
  unfolding resolve_field
  Good-resolve_field t k = search (good_rules, Good-number)

  pub Good-parse_double : (fl : Floats) (bs : Bytes) → Good c (parse_double fl bs)
  unfolding parse_double
  Good-parse_double fl bs = search (good_rules)
