-- ===== src/Codegen/Constants.antt =====
-- src/codegen/strings.c: the globals of the constant strings.
-- A name is that of a fixed global, or stands for the text $kstr_<offset>_<len>.
pub mod Declared
use lua2wasm.Prelude.{
  ℕ, Bytes, codes, length, equal, List, [], ◌∷◌, ◌++◌, Bool, true, false, ◌&&◌, ◌||◌, ◌==◌,
  if◌then◌else◌, Option, none, some,
}
use lua2wasm.Wat.Buf.{◌>>=◌}
use lua2wasm.Codegen.Strings.{StrPool, StrRef, strpool_add}

abbrev pub mkeys : List (Bytes × Bytes)
mkeys =
    (codes "$g_mkey_index", codes "__index")
    ∷ (codes "$g_mkey_newindex", codes "__newindex")
    ∷ (codes "$g_mkey_add", codes "__add")
    ∷ (codes "$g_mkey_sub", codes "__sub")
    ∷ (codes "$g_mkey_mul", codes "__mul")
    ∷ (codes "$g_mkey_div", codes "__div")
    ∷ (codes "$g_mkey_mod", codes "__mod")
    ∷ (codes "$g_mkey_pow", codes "__pow")
    ∷ (codes "$g_mkey_unm", codes "__unm")
    ∷ (codes "$g_mkey_idiv", codes "__idiv")
    ∷ (codes "$g_mkey_band", codes "__band")
    ∷ (codes "$g_mkey_bor", codes "__bor")
    ∷ (codes "$g_mkey_bxor", codes "__bxor")
    ∷ (codes "$g_mkey_shl", codes "__shl")
    ∷ (codes "$g_mkey_shr", codes "__shr")
    ∷ (codes "$g_mkey_bnot", codes "__bnot")
    ∷ (codes "$g_mkey_concat", codes "__concat")
    ∷ (codes "$g_mkey_len", codes "__len")
    ∷ (codes "$g_mkey_pairs", codes "__pairs")
    ∷ (codes "$g_mkey_eq", codes "__eq")
    ∷ (codes "$g_mkey_lt", codes "__lt")
    ∷ (codes "$g_mkey_le", codes "__le")
    ∷ (codes "$g_mkey_call", codes "__call")
    ∷ (codes "$g_mkey_close", codes "__close")
    ∷ (codes "$g_mkey_tostring", codes "__tostring")
    ∷ (codes "$g_mkey_metatable", codes "__metatable")
    ∷ (codes "$g_mkey_name", codes "__name")
    ∷ (codes "$g_tname_nil", codes "nil")
    ∷ (codes "$g_tname_boolean", codes "boolean")
    ∷ (codes "$g_tname_number", codes "number")
    ∷ (codes "$g_tname_string", codes "string")
    ∷ (codes "$g_tname_table", codes "table")
    ∷ (codes "$g_tname_function", codes "function")
    ∷ (codes "$g_key_n", codes "n")
    ∷ []

pub data KstrName : Type 0 where
  fixed : Bytes → KstrName
  hoisted : StrRef → KstrName

-- kstrs and kstr_list of the generator.
pub record Kstrs : Type 0 where
  pub pool : StrPool
  pub list : List StrRef

abbrev pub find_mkey : List (Bytes × Bytes) → Bytes → Option Bytes
find_mkey [] bytes = none
find_mkey ((name, key) ∷ keys) bytes = if equal key bytes then some name else find_mkey keys bytes

abbrev pub is_listed : List StrRef → StrRef → Bool
is_listed [] r = false
is_listed (s ∷ list) r = (s.offset == r.offset && s.len == r.len) || is_listed list r

abbrev pub register : List StrRef → StrRef → List StrRef
register list r = if is_listed list r then list else list ++ r ∷ []

abbrev pub hoist : ℕ → Kstrs → Bytes → Option (Kstrs × KstrName)
hoist modulus k bytes = do
  (p, r) ← strpool_add modulus k.pool bytes
  some (record { pool = p; list = register k.list r }, hoisted r)

unfoldable pub kstr_name : ℕ → Kstrs → Bytes → Option (Kstrs × KstrName)
kstr_name modulus k bytes =
    if length bytes == 0
    then some (k, fixed (codes "$g_empty_str"))
    else elim (find_mkey mkeys bytes) [
      | some name ↦ some (k, fixed name)
      | none ↦ hoist modulus k bytes
    ]
