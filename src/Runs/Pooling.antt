-- ===== src/Runs/Pooling.antt =====
-- Runs of the pool of string literals.
use lua2wasm.Prelude.{
  ℕ, ◌^◌, Bytes, codes, equal, List, [], ◌∷◌, Option, none, some, ◌≡◌, refl, arith,
}
use lua2wasm.Wat.Buf.{◌>>=◌, double_cap}
use lua2wasm.Codegen.Constants.{Kstrs, fixed, hoisted, kstr_name}
use lua2wasm.Codegen.Constants.Declared.{Declares, kstr_name-Declares}
use lua2wasm.Codegen.Strings.Chains.{not_none}
use lua2wasm.Codegen.Strings.{
  StrPool, StrRef, fnv_64, strpool_hash, scan_loop, strpool_scan, probe, rehash, strpool_index_put,
  strpool_index_get, append_run, strpool_add, fnv_32, kstr_hash,
}
use lua2wasm.Codegen.Strings.Probing.{used_count}
use lua2wasm.Codegen.Strings.Regrowth.{Holds-nil}
use lua2wasm.Codegen.Strings.Stable.{now, then, strpool_add_again}
use lua2wasm.Codegen.Strings.Lookup.{Stable}
use lua2wasm.Codegen.Strings.Interning.{strpool_add-Interns}
use lua2wasm.Codegen.Strings.Hits.{IsValid, Interns}

abbrev empty_pool : StrPool
empty_pool = record { bytes = []; cap = 0; idx = []; idx_count = 0 }

empty_pool-IsValid : IsValid empty_pool
unfolding used_count
empty_pool-IsValid = record {
  indexed = record {
    counted = refl;
    load = omega arith;
    within = tt;
    chained = λ j s e. absurd (not_none e refl);
  };
  fits = omega arith;
}

strpool_add-Interns_example :
    (q : StrPool) × (r : StrRef) × (strpool_add (2 ^ 32) empty_pool (codes "__index") ≡ some (q, r))
    × Interns (2 ^ 32) empty_pool (codes "__index") q r
strpool_add-Interns_example =
    strpool_add-Interns (2 ^ 32) empty_pool (codes "__index") empty_pool-IsValid (omega arith)
      (omega arith) (omega arith)

empty_pool-Stable : (modulus : ℕ) → Stable modulus empty_pool
empty_pool-Stable modulus = record {
  valid = empty_pool-IsValid;
  distinct = λ bytes s t held held' m m'. absurd (Holds-nil s held);
}

abbrev one_run : StrPool
one_run = elim (strpool_add (2 ^ 32) empty_pool (codes "x")) [ none ↦ empty_pool | some (q, r) ↦ q ]

abbrev two_runs : StrPool
two_runs = elim (strpool_add (2 ^ 32) one_run (codes "y")) [ none ↦ empty_pool | some (q, r) ↦ q ]

-- The offsets that a list of runs is given, one after the other.
abbrev offsets : StrPool → List Bytes → Option (List ℕ)
offsets p [] = some []
offsets p (bytes ∷ rest) = do
  (q, r) ← strpool_add (2 ^ 64) p bytes
  later ← offsets q rest
  some (r.offset ∷ later)

-- A run is found inside a longer one. "aa" is appended behind "a" at offset 1, where the index
-- keeps it; the bytes are then "aaa", where the scan has it at offset 0.
overlapping_runs :
    (offsets empty_pool (codes "number" ∷ codes "umb" ∷ codes "x" ∷ codes "number" ∷ [])
      ≡ some (0 ∷ 1 ∷ 6 ∷ 0 ∷ []))
    × (offsets empty_pool (codes "a" ∷ codes "aa" ∷ codes "aa" ∷ []) ≡ some (0 ∷ 1 ∷ 1 ∷ []))
    × (strpool_scan (codes "aaa") (codes "aa") ≡ some 0)
unfolding strpool_add strpool_hash fnv_64 strpool_scan scan_loop probe rehash strpool_index_put
    strpool_index_get append_run double_cap equal
overlapping_runs = (refl, refl, refl)

hash_run : kstr_hash (codes "a") ≡ 0xe40c292c
unfolding kstr_hash fnv_32
hash_run = refl

strpool_add_again_example :
    (q : StrPool) × (strpool_add (2 ^ 32) two_runs (codes "x")
      ≡ some (q, record { offset = 0; len = 1 }))
    × (q.bytes ≡ two_runs.bytes)
unfolding strpool_add strpool_hash fnv_64 strpool_scan scan_loop probe rehash strpool_index_put
    strpool_index_get append_run double_cap equal
strpool_add_again_example =
    strpool_add_again (2 ^ 32) empty_pool one_run two_runs (codes "x")
      (record { offset = 0; len = 1 }) (empty_pool-Stable (2 ^ 32))
      (record { index = omega arith; bytes_fit = omega arith; not_empty = omega arith }) refl
      (then (codes "y") (record { offset = 1; len = 1 }) now
        (record { index = omega arith; bytes_fit = omega arith; not_empty = omega arith }) refl)
      (record { index = omega arith; bytes_fit = omega arith; not_empty = omega arith })

abbrev no_constants : Kstrs
no_constants = record { pool = empty_pool; list = [] }

kstr_name-Declares_example :
    Declares (2 ^ 32) (codes "key") (kstr_name (2 ^ 32) no_constants (codes "key"))
kstr_name-Declares_example =
    kstr_name-Declares (2 ^ 32) no_constants (codes "key")
      (record { stable = empty_pool-Stable (2 ^ 32); inside = tt; once = tt })
      (record { index = omega arith; bytes_fit = omega arith; not_empty = omega arith })

-- A metamethod's key has a fixed global, and an equal constant the same one.
constant_names :
    (kstr_name (2 ^ 32) no_constants (codes "__index")
      ≡ some (no_constants, fixed (codes "$g_mkey_index")))
    × (kstr_name
          (2 ^ 32)
          (record { pool = one_run; list = record { offset = 0; len = 1 } ∷ [] })
          (codes "x")
        ≡ some (
          record { pool = one_run; list = record { offset = 0; len = 1 } ∷ [] },
          hoisted (record { offset = 0; len = 1 }),
        ))
unfolding kstr_name strpool_add strpool_hash fnv_64 strpool_scan scan_loop probe rehash
    strpool_index_put strpool_index_get append_run double_cap equal
constant_names = (refl, refl)
