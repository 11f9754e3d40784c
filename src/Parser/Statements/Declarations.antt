-- ===== src/Parser/Statements/Declarations.antt =====
-- `local` and `global` statements end.
use lua2wasm.Prelude.{ℕ, zero, suc, ◌+◌, ◌≤◌, Bytes, length, List, [], ◌∷◌, arith, refl, Option}
use lua2wasm.Lexer.Scan.{Token}
use lua2wasm.Parser.State.{gets, modify, pure, ◌>>=◌}
use lua2wasm.Parser.Calls.{Calls}
use lua2wasm.Parser.Fits.{Follows-frame, set_last_attrib-Fits, frame_declare_global-Fits}
use lua2wasm.Parser.Safe.{Safe-modify, Ended, Safe, SafeAt, Safe-pure, safe_rules}
use lua2wasm.Parser.Steps.{StepsAt}
use lua2wasm.Parser.Markers.{NotEof, kinds_NotEof}
use lua2wasm.Parser.Rules.{CallsSafe, Safe-give_up, Safe-if_match, calls_rules, steps_rules}
use lua2wasm.Parser.Body.Ends.{Safe-declare, Safe-parse_function_body_ex}
use lua2wasm.Parser.Primary.Ends.{Safe-parse_list, Safe-global_index}
use lua2wasm.Parser.Local.{
  parse_attribute, optional_attribute, local_names, set_last, set_attrib, declare_locals,
  optional_values, parse_local_function, declare_with_values, parse_local_list, parse_local,
}
use lua2wasm.Parser.Global.{
  declare_global, global_names, global_indices, declare_globals, parse_collective,
  global_function_body, parse_global_function, finish_globals, parse_global_list,
  parse_global_attribs, parse_global,
}

module _ {F : Type 0} {toks : List (Token F)} (ended : Ended toks) where
  module _ {lo : ℕ} where
    SafeAt-parse_attribute : (t : Token F) → NotEof t.kind → SafeAt toks t lo (parse_attribute toks)
    unfolding parse_attribute
    SafeAt-parse_attribute t ne = search (safe_rules, kinds_NotEof) depth 20

    Safe-optional_attribute : (d : ℕ) → Safe toks lo (optional_attribute toks d)
    unfolding optional_attribute
    Safe-optional_attribute d = search (safe_rules, SafeAt-parse_attribute, kinds_NotEof) depth 20

    Safe-set_last : (attrib : ℕ) → Safe toks lo (set_last {F = F} attrib)
    unfolding set_last
    Safe-set_last attrib =
        Safe-modify _ (λ p. refl)
          (λ p. Follows-frame (set_last_attrib-Fits p.frame attrib) refl refl refl refl)

    Safe-set_attrib : (attrib : ℕ) → Safe toks lo (set_attrib toks attrib)
    unfolding set_attrib
    Safe-set_attrib attrib = search (safe_rules, Safe-set_last) depth 20

    Safe-declare_global :
        (name : Option Bytes) (attrib : ℕ) → Safe toks lo (declare_global {F = F} name attrib)
    unfolding declare_global gets modify pure ◌>>=◌
    Safe-declare_global name attrib = record {
      at = λ p h k. (
        omega arith,
        k,
        Follows-frame (frame_declare_global-Fits p.frame name attrib) refl refl refl refl,
      );
    }

    Safe-declare_locals : (names : List (Bytes × ℕ)) → Safe toks lo (declare_locals toks names)
    unfolding declare_locals
    Safe-declare_locals [] = Safe-pure _
    Safe-declare_locals (na ∷ rest) =
        let ih = Safe-declare_locals rest in
        search (safe_rules, Safe-declare, Safe-set_attrib) depth 20

    Safe-global_indices : (names : List (Bytes × ℕ)) → Safe toks lo (global_indices toks names)
    unfolding global_indices
    Safe-global_indices [] = Safe-pure _
    Safe-global_indices (na ∷ rest) =
        let ih = Safe-global_indices rest in search (safe_rules, Safe-global_index) depth 20

    Safe-declare_globals : (names : List (Bytes × ℕ)) → Safe toks lo (declare_globals toks names)
    unfolding declare_globals
    Safe-declare_globals [] = Safe-pure _
    Safe-declare_globals (na ∷ rest) =
        let ih = Safe-declare_globals rest in search (safe_rules, Safe-declare_global) depth 20

    Safe-parse_collective : (attrib : ℕ) → Safe toks lo (parse_collective toks attrib)
    unfolding parse_collective
    Safe-parse_collective attrib = search (safe_rules, Safe-declare_global) depth 20

  local_names_step :
      (lo fuel : ℕ) (d : ℕ)
      → ((why : Bytes) → Safe toks (suc lo) (local_names toks fuel why d))
      → (why : Bytes) → Safe toks lo (local_names toks (suc fuel) why d)
  unfolding local_names
  local_names_step lo fuel d rest why =
      search (rest, Safe-if_match, Safe-optional_attribute, safe_rules, kinds_NotEof) depth 20

  local_names_loop :
      (lo fuel d : ℕ)
      → length toks ≤ lo + fuel
      → (why : Bytes) → Safe toks lo (local_names toks fuel why d)
  unfolding local_names
  local_names_loop lo zero d e why = Safe-give_up (omega arith)
  local_names_loop lo (suc fuel) d e why =
      local_names_step lo fuel d (local_names_loop (suc lo) fuel d (omega arith)) why

  Safe-local_names :
      (lo : ℕ) (why : Bytes) (d : ℕ) → Safe toks lo (local_names toks (length toks + 1) why d)
  Safe-local_names lo why d = local_names_loop lo (length toks + 1) d (omega arith) why

  global_names_step :
      (lo fuel : ℕ) (d : ℕ)
      → ((why : Bytes) → Safe toks (suc lo) (global_names toks fuel why d))
      → (why : Bytes) → Safe toks lo (global_names toks (suc fuel) why d)
  unfolding global_names
  global_names_step lo fuel d rest why =
      search (rest, Safe-if_match, Safe-optional_attribute, safe_rules, kinds_NotEof) depth 20

  global_names_loop :
      (lo fuel d : ℕ)
      → length toks ≤ lo + fuel
      → (why : Bytes) → Safe toks lo (global_names toks fuel why d)
  unfolding global_names
  global_names_loop lo zero d e why = Safe-give_up (omega arith)
  global_names_loop lo (suc fuel) d e why =
      global_names_step lo fuel d (global_names_loop (suc lo) fuel d (omega arith)) why

  Safe-global_names :
      (lo : ℕ) (why : Bytes) (d : ℕ) → Safe toks lo (global_names toks (length toks + 1) why d)
  Safe-global_names lo why d = global_names_loop lo (length toks + 1) d (omega arith) why

  module _ (c : Calls F) where
    module _ {lo : ℕ} (cs : CallsSafe toks lo c) where
      Safe-optional_values : Safe toks lo (optional_values toks c)
      unfolding optional_values
      Safe-optional_values = search (Safe-parse_list, safe_rules, kinds_NotEof) depth 20

      SafeAt-parse_local_function :
          (t : Token F) (line : ℕ)
          → NotEof t.kind
          → SafeAt toks t lo (parse_local_function toks c line)
      unfolding parse_local_function
      SafeAt-parse_local_function t line ne =
          search (safe_rules, Safe-declare, Safe-parse_function_body_ex, calls_rules) depth 30

      Safe-declare_with_values :
          (line : ℕ) (names : List (Bytes × ℕ))
          → Safe toks lo (declare_with_values toks c line names)
      unfolding declare_with_values
      Safe-declare_with_values line names =
          search (safe_rules, Safe-optional_values, Safe-declare_locals) depth 20

      Safe-parse_local_list : (line : ℕ) → Safe toks lo (parse_local_list toks c line)
      unfolding parse_local_list
      Safe-parse_local_list line =
          search (safe_rules, Safe-optional_attribute, Safe-local_names, Safe-declare_with_values)
            depth 20

      Safe-global_function_body : (line gi : ℕ) → Safe toks lo (global_function_body toks c line gi)
      unfolding global_function_body
      Safe-global_function_body line gi =
          search (safe_rules, Safe-parse_function_body_ex, calls_rules) depth 20

      Safe-parse_global_function : (line : ℕ) → Safe toks lo (parse_global_function toks c line)
      unfolding parse_global_function
      Safe-parse_global_function line =
          search (safe_rules, Safe-global_index, Safe-declare_global, Safe-global_function_body)
            depth 20

      Safe-finish_globals :
          (line : ℕ) (names : List (Bytes × ℕ)) → Safe toks lo (finish_globals toks c line names)
      unfolding finish_globals
      Safe-finish_globals line names =
          search (safe_rules, Safe-global_indices, Safe-optional_values, Safe-declare_globals) depth
            20

      Safe-parse_global_list : (line d : ℕ) → Safe toks lo (parse_global_list toks c line d)
      unfolding parse_global_list
      Safe-parse_global_list line d =
          search
            (
              safe_rules, Safe-parse_collective, Safe-global_names, Safe-finish_globals,
              kinds_NotEof,
            )
            depth 20

      Safe-parse_global_attribs : (line : ℕ) → Safe toks lo (parse_global_attribs toks c line)
      unfolding parse_global_attribs
      Safe-parse_global_attribs line =
          search (safe_rules, Safe-optional_attribute, Safe-parse_global_list) depth 20

    module _ {lo : ℕ} (cs : CallsSafe toks (suc lo) c) where
      pub StepsAt-parse_local :
          (t : Token F) → NotEof t.kind → StepsAt toks t lo (parse_local toks c)
      unfolding parse_local
      StepsAt-parse_local t ne =
          search
            (
              steps_rules, safe_rules, SafeAt-parse_local_function, Safe-parse_local_list,
              kinds_NotEof,
            )
            depth 20

      pub StepsAt-parse_global :
          (t : Token F) → NotEof t.kind → StepsAt toks t lo (parse_global toks c)
      unfolding parse_global
      StepsAt-parse_global t ne =
          search
            (
              steps_rules, safe_rules, Safe-parse_global_function, Safe-parse_global_attribs,
              kinds_NotEof,
            )
            depth 20
