-- ===== src/Wat/Encode/Control.antt =====
-- src/wat2wasm.c: sequences of instructions, and in encode_instr the structured control.
use lua2wasm.Prelude.{
  ℕ, zero, suc, Bytes, codes, String, List, [], ◌∷◌, ◌++◌, Bool, true, false, ◌&&◌, ◌||◌, ◌==◌,
  if◌then◌else◌, Option, none, some, get_or,
}
use lua2wasm.Wat.Reader.{SExpr, Kids, no_kids, kid}
use lua2wasm.Wat.Encode.{
  Ctx, done, Action, Refusal, message, in_line, pure, fail, give_up, branch, on_option, put,
  put_bytes, put_uleb, same, next_of, atom_text, has_head, is_name, behind_head, line_of, ◌>>=◌,
  ◌>>◌,
}
use lua2wasm.Wat.Encode.Types.{BlockType, parse_blocktype, emit_blocktype}
use lua2wasm.Wat.Encode.Ops.{plain_imm_count, resolve_index, resolve_label, among}

unfoldable pub fc_push_label : Option Bytes → Action (Unit {0})
fc_push_label label s = done tt (record s { labels = s.labels ++ label ∷ [] })

unfoldable pub drop_last {ℓ} : {A : Type ℓ} → List A → List A
drop_last [] = []
drop_last (x ∷ []) = []
drop_last (x ∷ y ∷ ys) = x ∷ drop_last (y ∷ ys)

unfoldable pub fc_pop_label : Action (Unit {0})
unfolding drop_last
fc_pop_label s = done tt (record s { labels = drop_last s.labels })

unfoldable pub transfers : Bytes → Bool
transfers op = among op (
    "unreachable" ∷ "br" ∷ "br_table" ∷ "return" ∷ "return_call" ∷ "return_call_ref" ∷ "throw"
    ∷ "throw_ref" ∷ [])

-- The second goes on to the last node of a list, behind its head.
unfoldable mutual
  unfolding transfers

  pub flow_unreachable : SExpr → Bool
  flow_unreachable (SExpr.atom bs at) = transfers bs
  flow_unreachable (SExpr.string bs at) = false
  flow_unreachable (SExpr.list no_kids at) = false
  flow_unreachable (SExpr.list (kid (SExpr.atom op at') rest) at) =
      transfers op || same op "loop" && last_unreachable rest
  flow_unreachable (SExpr.list (kid (SExpr.string op at') rest) at) = false
  flow_unreachable (SExpr.list (kid (SExpr.list ks at') rest) at) = false

  pub last_unreachable : Kids → Bool
  last_unreachable no_kids = false
  last_unreachable (kid n no_kids) = flow_unreachable n
  last_unreachable (kid n (kid m rest)) = last_unreachable (kid m rest)

-- The immediates of a plain instruction, and the nodes behind them.
unfoldable pub take_imms : Refusal → ℕ → Kids → Action (Kids × Kids)
take_imms why zero k = pure (no_kids, k)
take_imms why (suc n) (kid (SExpr.atom bs at) rest) = do
  p ← take_imms why n rest
  pure (kid (SExpr.atom bs at) p.0, p.1)
take_imms why (suc n) (kid (SExpr.string bs at) rest) = do
  p ← take_imms why n rest
  pure (kid (SExpr.string bs at) p.0, p.1)
take_imms why (suc n) _ = fail why

unfoldable pub count_kids : Kids → ℕ
count_kids no_kids = 0
count_kids (kid n rest) = suc (count_kids rest)

-- The optional label, and the nodes behind it.
unfoldable pub take_label : Kids → Option Bytes × Kids
take_label no_kids = (none, no_kids)
take_label (kid n rest) =
    if is_name (kid n rest) then (atom_text (kid n rest), rest) else (none, kid n rest)

-- The last child with the head.
unfoldable pub last_with : String → Kids → Option SExpr → Option SExpr
last_with h no_kids found = found
last_with h (kid n rest) found = last_with h rest (if has_head n h then some n else found)

-- The children before the last one with the head; the first part tells whether there is one.
unfoldable pub before_last : String → Kids → Bool × Kids
before_last h no_kids = (false, no_kids)
before_last h (kid n rest) =
    let (later, before) = before_last h rest in
    if later then (true, kid n before) else (has_head n h, no_kids)

unfoldable pub is_catch : SExpr → Bool
is_catch n =
    has_head n "catch"
    || has_head n "catch_ref"
    || has_head n "catch_all"
    || has_head n "catch_all_ref"

unfoldable pub count_catches : Kids → ℕ
count_catches no_kids = 0
count_catches (kid n rest) = let more = suc (count_catches rest) in if is_catch n then more else 0

unfoldable pub behind_catches : Kids → Kids
behind_catches no_kids = no_kids
behind_catches (kid n rest) =
    let more = behind_catches rest in if is_catch n then more else kid n rest

module _ (c : Ctx) where
  -- The tag and the label of a handler.
  unfoldable pub tagged_catch : ℕ → Kids → Action (Unit {0})
  tagged_catch kind a = do
    tag ← resolve_index c.tag_names (codes "tag") a
    put kind
    put_uleb tag
    next_of a (λ l. do d ← resolve_label l; put_uleb d)

  unfoldable pub encode_catch : SExpr → Action (Unit {0})
  encode_catch n = branch (has_head n "catch") (tagged_catch 0x00 (behind_head n)) (
      branch (has_head n "catch_ref") (tagged_catch 0x01 (behind_head n)) (do
        put (if has_head n "catch_all" then 0x02 else 0x03)
        d ← resolve_label (behind_head n)
        put_uleb d))

  -- The leading catch clauses.
  unfoldable pub encode_catches : Kids → Action (Unit {0})
  encode_catches no_kids = pure tt
  encode_catches (kid n rest) =
      branch (is_catch n) (do encode_catch n; encode_catches rest) (pure tt)

module _ (instr : SExpr → Action (Unit {0})) (c : Ctx) where
  -- The plain instruction `op` at the offset `at`, before the nodes `next`.
  unfoldable pub encode_plain : Bytes → ℕ → Kids → Action Kids
  encode_plain op at next =
      on_option (plain_imm_count op)
        (fail (in_line (line_of c at) (codes "plain (unfolded) form is not supported") op))
        (λ cnt. do
          p ← take_imms (in_line (line_of c at) (codes "missing an immediate") op) cnt next
          instr (SExpr.list (kid (SExpr.atom op 0) p.0) at)
          pure p.1)

  -- The loop of encode_seq up to the end of the list, with the last node.
  unfoldable pub seq_loop : ℕ → Kids → Option SExpr → Action (Option SExpr)
  seq_loop zero k last = give_up
  seq_loop (suc fuel) no_kids last = pure last
  seq_loop (suc fuel) (kid (SExpr.list ks at) rest) last = do
    instr (SExpr.list ks at)
    seq_loop fuel rest (some (SExpr.list ks at))
  seq_loop (suc fuel) (kid (SExpr.atom op at) rest) last = do
    k ← encode_plain op at rest
    seq_loop fuel k (some (SExpr.atom op at))
  seq_loop (suc fuel) (kid (SExpr.string op at) rest) last = do
    k ← encode_plain op at rest
    seq_loop fuel k (some (SExpr.string op at))

  unfoldable pub encode_seq : Kids → Action (Option SExpr)
  encode_seq k = seq_loop (suc (count_kids k)) k none

  unfoldable pub encode_block_body : Kids → Action (Unit {0})
  encode_block_body k = do
    last ← encode_seq k
    on_option last (pure tt) (λ n. branch (flow_unreachable n) (put 0x00) (pure tt))

  unfoldable pub else_part : Option SExpr → Action (Unit {0})
  else_part found = on_option found (pure tt) (λ n. do put 0x05; encode_block_body (behind_head n))

  unfoldable pub encode_block : Bytes → Kids → Action (Unit {0})
  encode_block op args = do
    p ← parse_blocktype c (take_label args).1
    put (if get_or op 0 0 == b'b' then 0x02 else 0x03)
    bs ← emit_blocktype c p.1
    put_bytes bs
    fc_push_label (take_label args).0
    encode_block_body p.0
    fc_pop_label
    put 0x0b

  -- From the condition of an if on, with its label, its nodes, its type and the first branch.
  unfoldable pub encode_branches : Option Bytes → Kids → BlockType → SExpr → Action (Unit {0})
  encode_branches label k bt branch_then = do
    encode_seq (before_last "then" k).1
    put 0x04
    bs ← emit_blocktype c bt
    put_bytes bs
    fc_push_label label
    encode_block_body (behind_head branch_then)
    else_part (last_with "else" k none)
    fc_pop_label
    put 0x0b

  unfoldable pub encode_if : Kids → Action (Unit {0})
  encode_if args = do
    p ← parse_blocktype c (take_label args).1
    on_option (last_with "then" p.0 none) (fail (message (codes "if without a (then ...) branch")))
        (encode_branches (take_label args).0 p.0 p.1)

  unfoldable pub encode_try_table : Kids → Action (Unit {0})
  encode_try_table args = do
    p ← parse_blocktype c (take_label args).1
    put 0x1f
    bs ← emit_blocktype c p.1
    put_bytes bs
    put_uleb (count_catches p.0)
    encode_catches c p.0
    fc_push_label (take_label args).0
    encode_block_body (behind_catches p.0)
    fc_pop_label
    put 0x0b

  unfoldable pub encode_control : Bytes → Kids → Action (Unit {0}) → Action (Unit {0})
  encode_control op args otherwise =
      branch (among op ("block" ∷ "loop" ∷ [])) (encode_block op args) (
        branch (same op "if") (encode_if args)
          (branch (same op "try_table") (encode_try_table args) otherwise))
