-- ===== src/Wat/Encode/Typed.antt =====
-- The types that the encoder writes, and its remaps: the tables only grow, and every loop ends.
use lua2wasm.Prelude.{
  ℕ, ◌+◌, ◌-◌, ◌%◌, ◌^◌, Bytes, List, [], ◌∷◌, ◌++◌, true, ltb, length, Option, none, some, ◌≡◌,
  refl, ◌≢◌, inl, inr, get_elem?, append-nil, sym, arith, ◌&&◌, ◌==◌,
}
use lua2wasm.Wat.Reader.{SExpr, Kids, no_kids, kid}
use lua2wasm.Wat.Encode.{Ctx, FuncSig, pure, beyond, on_option, is_name, atom_text, behind_head}
use lua2wasm.Wat.Encode.Types.{
  mapped, map_func, map_global, map_typeidx, find_sig, sig_intern, intern, emit_heaptype,
  nonnull_part, emit_ref, emit_valtype, bt_add, bt_add_all, collect_valtypes, emit_blocktype,
  BlockType,
}
use lua2wasm.Wat.Encode.Grows.{
  Remaps, Good, Good-pure, Good-fail, Good-bind, Good-branch, Good-branch_when, Good-on_option,
  Good-next_of, IsNode, good_rules,
}
use lua2wasm.Wat.Encode.Resolved.{Good-resolve_type}

-- A name is a node.
pub is_name-IsNode : (k : Kids) → is_name k ≡ true → IsNode k
unfolding is_name atom_text
is_name-IsNode no_kids h = ground arith
is_name-IsNode (kid n rest) h = tt

sig_intern_grows :
    (sigs : List FuncSig) (g : FuncSig)
    → (new : List FuncSig) × ((sig_intern sigs g).0 ≡ sigs ++ new)
unfolding sig_intern
sig_intern_grows sigs g =
    elim (find_sig sigs g 0)
      as (λ o.
        (new : List FuncSig) × ((elim o as (λ _. List FuncSig × ℕ) [
          | some i ↦ (sigs, i % 2 ^ 32)
          | none ↦ (sigs ++ g ∷ [], length sigs % 2 ^ 32)
        ]).0
          ≡ sigs ++ new)) [ some i ↦ ([], sym (append-nil sigs)) | none ↦ (g ∷ [], refl) ]

module _ {c : Ctx} where
  Good-beyond : {A : Type 0} → Remaps c → Good c (beyond {A = A})
  unfolding beyond
  Good-beyond r = record { at = λ s. r }

  Good-mapped :
      (remap : Option (List ℕ)) (i : ℕ) → (remap ≢ none → Remaps c) → Good c (mapped remap i)
  unfolding mapped
  Good-mapped none i h = Good-pure i
  Good-mapped (some table) i h =
      Good-on_option (get_elem? table i) _ _ (Good-beyond (h (λ e. cc))) Good-pure

  pub Good-map_func : (i : ℕ) → Good c (map_func c i)
  unfolding map_func
  Good-map_func i = Good-mapped c.func_remap i (λ h. inl h)

  pub Good-map_global : (i : ℕ) → Good c (map_global c i)
  unfolding map_global
  Good-map_global i = Good-mapped c.global_remap i (λ h. inr (inl h))

  Good-sig_mapped :
      (remap : Option (List ℕ)) (t : ℕ)
      → (remap ≢ none → Remaps c)
      → Good c (
          on_option remap (pure t) (λ table.
            on_option
              (get_elem? table (t - length c.decls))
              beyond
              (λ i. pure ((length c.decls + i) % 2 ^ 32))))
  unfolding on_option
  Good-sig_mapped none t h = Good-pure t
  Good-sig_mapped (some table) t h =
      Good-on_option (get_elem? table (t - length c.decls)) beyond _ (Good-beyond (h (λ e. cc)))
        (λ i. Good-pure _)

  Good-map_typeidx : (t : ℕ) → Good c (map_typeidx c t)
  unfolding map_typeidx
  Good-map_typeidx t =
      Good-branch (ltb t (length c.decls)) (pure t) _ (Good-pure t)
        (Good-sig_mapped c.sig_remap t (λ h. inr (inr h)))

  Good-intern : (g : FuncSig) → Good c (intern g)
  unfolding intern
  Good-intern g = record {
    at = λ s.
        let (new, e) = sig_intern_grows s.sigs g in
        record {
          labels_kept = refl;
          new_sigs = new;
          sigs_grow = e;
          new_bytes = [];
          bytes_grow = sym (append-nil s.out);
        };
  }

  pub Good-emit_heaptype : (k : Kids) → Good c (emit_heaptype c k)
  unfolding emit_heaptype
  Good-emit_heaptype k = search (good_rules, Good-resolve_type)

  pub Good-nonnull_part : (k : Kids) → Good c (nonnull_part k)
  unfolding nonnull_part
  Good-nonnull_part no_kids = Good-fail _
  Good-nonnull_part (kid n rest) = Good-pure _

  Good-emit_ref : (k : Kids) → Good c (emit_ref c k)
  unfolding emit_ref
  Good-emit_ref k = search (good_rules, Good-nonnull_part, Good-emit_heaptype)

  pub Good-emit_valtype : (k : Kids) → Good c (emit_valtype c k)
  unfolding emit_valtype
  Good-emit_valtype no_kids = search (good_rules)
  Good-emit_valtype (kid (SExpr.list ks at) rest) = search (good_rules, Good-emit_ref)
  Good-emit_valtype (kid (SExpr.atom bs at) rest) = search (good_rules)
  Good-emit_valtype (kid (SExpr.string bs at) rest) = search (good_rules)

  Good-bt_add : (k : Kids) (acc : Bytes × ℕ) → Good c (bt_add c k acc)
  unfolding bt_add
  Good-bt_add k (arr, count) = search (good_rules, Good-emit_valtype)

  Good-bt_add_all : (k : Kids) (acc : Bytes × ℕ) → Good c (bt_add_all c k acc)
  unfolding bt_add_all
  Good-bt_add_all no_kids acc = Good-pure acc
  Good-bt_add_all (kid n rest) acc =
      Good-bind _ _ (Good-bt_add (kid n rest) acc) (λ a. Good-bt_add_all rest a)

  pub Good-collect_valtypes : (n : SExpr) (acc : Bytes × ℕ) → Good c (collect_valtypes c n acc)
  unfolding collect_valtypes
  Good-collect_valtypes n acc =
      let k = behind_head n in
      Good-branch_when (is_name k) _ _
        (λ h. Good-next_of k _ (is_name-IsNode k h) (λ m r e. Good-bt_add r acc))
        (Good-bt_add_all k acc)

  pub Good-emit_blocktype : (bt : BlockType) → Good c (emit_blocktype c bt)
  unfolding emit_blocktype
  Good-emit_blocktype bt =
      Good-on_option bt.type_index _ _
        (Good-branch (bt.sig.n_params == 0 && bt.sig.n_results == 0) _ _ (Good-pure _)
          (search (good_rules, Good-intern, Good-map_typeidx)))
        (λ i. Good-pure _)
