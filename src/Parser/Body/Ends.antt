-- ===== src/Parser/Body/Ends.antt =====
-- The parser of function bodies ends, if the parser of blocks does.
use lua2wasm.Prelude.{
  All, All-append, Bool-cases, inl, inr, ltb, ◌++◌, ℕ, zero, suc, ◌+◌, ◌≤◌, Bytes, length, List, [],
  ◌∷◌, Bool, refl, arith, Option, some, if◌then◌else◌,
}
use lua2wasm.Lexer.Token.{TokKind}
use lua2wasm.Lexer.Scan.{Token}
use lua2wasm.Parser.Ast.{Block, LuaFunc}
use lua2wasm.Parser.State.{branch, beyond_marks, Parser, Action, gets, modify, pure, ◌>>=◌}
use lua2wasm.Parser.Scope.{FuncFrame, frame_init, frame_mark_last_const}
use lua2wasm.Parser.Fits.{
  length-take_exact, FuncFits, Follows, Follows-frame, frame_declare-Fits, set_last_attrib-Fits,
  frame_rewind-Fits, frame_init-Fits, AllFit, FrameFits,
}
use lua2wasm.Parser.Safe.{Moves, Safe-modify, Safe-bind, Ended, Safe, SafeAt, safe_rules}
use lua2wasm.Parser.Markers.{NotEof, kinds_NotEof}
use lua2wasm.Parser.Rules.{Safe-give_up, Safe-if_match}
use lua2wasm.Parser.Body.{
  put_func, func_new, pop_frame, below, push_frame, leave_frame, declare, mark_last_const,
  scope_rewind, parse_vararg, parse_params, parse_param_list, finish_func, store_func,
  parse_body_block, in_new_frame, parse_function_body_ex,
}

module _ {F : Type 0} {toks : List (Token F)} {lo : ℕ} where
  pub Safe-declare : (name : Bytes) → Safe toks lo (declare name)
  unfolding declare gets modify pure ◌>>=◌
  Safe-declare name = record {
    at = λ p h k.
        (omega arith, k, Follows-frame (frame_declare-Fits p.frame name) refl refl refl refl);
  }

  pub Safe-mark_last_const : Safe toks lo mark_last_const
  unfolding mark_last_const frame_mark_last_const
  Safe-mark_last_const =
      Safe-modify _ (λ p. refl)
        (λ p. Follows-frame (set_last_attrib-Fits p.frame 1) refl refl refl refl)

  pub Safe-scope_rewind : (mark : ℕ) → Safe toks lo (scope_rewind mark)
  unfolding scope_rewind
  Safe-scope_rewind mark =
      Safe-modify _ (λ p. refl)
        (λ p. Follows-frame (frame_rewind-Fits p.frame mark) refl refl refl refl)

  module _ (ended : Ended toks) where
    SafeAt-parse_vararg : (t : Token F) → NotEof t.kind → SafeAt toks t lo (parse_vararg toks)
    unfolding parse_vararg
    SafeAt-parse_vararg t ne =
        search (safe_rules, kinds_NotEof, Safe-declare, Safe-mark_last_const) depth 30

put_func-Fits :
    {F : Type 0} (fs : List (LuaFunc F)) (i : ℕ) (fn : LuaFunc F)
    → FuncFits fn
    → All FuncFits fs
    → All FuncFits (put_func fs i fn)
unfolding put_func
put_func-Fits [] i fn h hs = hs
put_func-Fits (g ∷ gs) zero fn h hs = (h, hs.1)
put_func-Fits (g ∷ gs) (suc i) fn h hs = (hs.0, put_func-Fits gs i fn h hs.1)

-- A frame is pushed, and popped.
push-Follows :
    {F : Type 0} (idx : ℕ) (p : Parser F)
    → Follows p (record p { cur_fn = some idx; frame = frame_init; outer = p.frame ∷ p.outer })
push-Follows idx p = record {
  fits = λ h. (frame_init-Fits, (h.0, h.1), h.2, h.3);
  keeps = λ e h. h;
}

pop_frame-Fits :
    (f : FuncFrame) (outer : List FuncFrame)
    → FrameFits f
    → AllFit outer
    → FrameFits (pop_frame outer f) × AllFit (below outer)
pop_frame-Fits f [] h o = (h, tt)
pop_frame-Fits f (g ∷ gs) h o = o

pop-Follows :
    {F : Type 0} (prev : Option ℕ) (p : Parser F)
    → Follows p
        (record p { frame = pop_frame p.outer p.frame; outer = below p.outer; cur_fn = prev })
pop-Follows prev p = record {
  fits = λ h. let (f, o) = pop_frame-Fits p.frame p.outer h.0 h.1 in (f, o, h.2, h.3);
  keeps = λ e h. h;
}

module _ {F : Type 0} {toks : List (Token F)} {lo : ℕ} where
  Safe-push_frame : (idx : ℕ) → Safe toks lo (push_frame idx)
  unfolding push_frame
  Safe-push_frame idx = Safe-modify _ (λ p. refl) (push-Follows idx)

  Safe-store_func :
      (idx : ℕ) (parent : Option ℕ) (line n_params : ℕ) (body : Block F)
      → Safe toks lo (store_func toks idx parent line n_params body)
  unfolding store_func finish_func gets modify branch beyond_marks ◌>>=◌
  Safe-store_func idx parent line n_params body = record {
    at = λ p h k. elim (Bool-cases (ltb (length p.frame.captured) p.frame.next_slot)) [
      | inl e ↦ rw (e, Moves) (λ f. inl (let marks = f.0.2 in ground arith))
      | inr e ↦
          rw (e, Moves)
            (
              omega arith,
              k,
              record {
                fits = λ f. (
                  f.0,
                  f.1,
                  f.2,
                  let (l, u, c, s) = f.0 in
                      let n = length-take_exact p.frame.next_slot p.frame.captured (ground arith) in
                      put_func-Fits p.funcs idx _ (u, n, ground arith) f.3,
                );
                keeps = λ e g. g;
              },
            )
    ];
  }

  Safe-add_func :
      (count : ℕ) (parent : Option ℕ) (line : ℕ)
      → Safe toks lo
          (modify (λ p. record p { funcs = p.funcs ++ func_new toks count parent line ∷ [] }))
  Safe-add_func count parent line =
      Safe-modify _ (λ p. refl)
        (λ p. record {
          fits = λ f. (
            f.0,
            f.1,
            f.2,
            All-append FuncFits p.funcs _ f.3 ((omega arith, refl, omega arith), tt),
          );
          keeps = λ e g. g;
        })

  Safe-leave_frame : (prev : Option ℕ) → Safe toks lo (leave_frame prev)
  unfolding leave_frame
  Safe-leave_frame prev = Safe-modify _ (λ p. refl) (pop-Follows prev)

module _ {F : Type 0} {toks : List (Token F)} (ended : Ended toks) where
  params_step :
      (lo fuel n : ℕ)
      → Safe toks (suc lo) (parse_params toks fuel (n + 1))
      → Safe toks lo (parse_params toks (suc fuel) n)
  unfolding parse_params
  params_step lo fuel n rest =
      search (Safe-if_match, safe_rules, kinds_NotEof, SafeAt-parse_vararg, Safe-declare) depth 30

  Safe-params_loop :
      (lo fuel n : ℕ) → length toks ≤ lo + fuel → Safe toks lo (parse_params toks fuel n)
  unfolding parse_params
  Safe-params_loop lo zero n e = Safe-give_up (omega arith)
  Safe-params_loop lo (suc fuel) n e =
      params_step lo fuel n (Safe-params_loop (suc lo) fuel (n + 1) (omega arith))

  Safe-parse_params : (lo n : ℕ) → Safe toks lo (parse_params toks (length toks + 1) n)
  Safe-parse_params lo n = Safe-params_loop lo (length toks + 1) n (omega arith)

  Safe-parse_param_list : (lo n : ℕ) → Safe toks lo (parse_param_list toks n)
  unfolding parse_param_list
  Safe-parse_param_list lo n = search (Safe-parse_params, safe_rules, kinds_NotEof) depth 30

  module _ {lo : ℕ} (parse_block : List TokKind → Action F (Block F))
      (blk : (stops : List TokKind) → Safe toks lo (parse_block stops)) where
    Safe-parse_body_block : Safe toks lo (parse_body_block toks parse_block)
    unfolding parse_body_block
    Safe-parse_body_block = search (blk, safe_rules, kinds_NotEof) depth 30

    Safe-in_new_frame :
        (idx line : ℕ) (with_self : Bool) (prev_fn : Option ℕ)
        → Safe toks lo (in_new_frame toks parse_block idx line with_self prev_fn)
    unfolding in_new_frame
    Safe-in_new_frame idx line with_self prev_fn = Safe-bind _ _ (Safe-push_frame idx) (λ _.
        Safe-bind _ _ (search (Safe-declare, safe_rules) depth 20) (λ _.
          Safe-bind _ _ (search (safe_rules, kinds_NotEof) depth 20) (λ _.
            Safe-bind _ _ (Safe-parse_param_list lo (if with_self then 1 else 0)) (λ n.
              Safe-bind _ _ (search (safe_rules, kinds_NotEof) depth 20) (λ _.
                Safe-bind _ _ Safe-parse_body_block
                  (λ body. search (Safe-store_func, Safe-leave_frame, safe_rules) depth 20))))))

    pub Safe-parse_function_body_ex :
        (line : ℕ) (with_self : Bool)
        → Safe toks lo (parse_function_body_ex toks parse_block line with_self)
    unfolding parse_function_body_ex
    Safe-parse_function_body_ex line with_self =
        search (Safe-in_new_frame, Safe-add_func, safe_rules) depth 30
