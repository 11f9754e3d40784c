-- ===== src/Parser/Scope.antt =====
-- src/parser.c: the declarations and upvalues of a function frame.
-- The active declarations are listed in declaration order, as `locals` up to local_count, and
-- `captured` is its array of MAX_LOCALS_PER_FN marks.
use lua2wasm.Prelude.{
  ℕ, ◌+◌, Bytes, equal, length, take, replicate, List, [], ◌∷◌, ◌++◌, Bool, true, false, ◌&&◌, ◌==◌,
  leb, if◌then◌else◌, Option, none, some,
}
unfoldable pub use lua2wasm.Prelude.{get_elem?}
use lua2wasm.Parser.Ast.{UpvalSource, from_local, from_upval, UpvalueRef}

abbrev pub max_locals_per_fn : ℕ
max_locals_per_fn = 256

abbrev pub max_upvals_per_fn : ℕ
max_upvals_per_fn = 64

pub data DeclKind : Type 0 where
  decl_local decl_global decl_global_all : DeclKind

-- A slot of -1 is `none`.
pub record LocalSlot : Type 0 where
  pub name : Bytes
  pub slot : Option ℕ
  pub attrib : ℕ
  pub kind : DeclKind

pub record FuncFrame : Type 0 where
  pub locals : List LocalSlot
  pub next_slot : ℕ
  pub upvalues : List UpvalueRef
  pub is_vararg : Bool
  pub vararg_slot : Option ℕ
  pub vararg_name : Bytes
  pub captured : List Bool

unfoldable pub frame_init : FuncFrame
frame_init = record {
  locals = [];
  next_slot = 0;
  upvalues = [];
  is_vararg = false;
  vararg_slot = none;
  vararg_name = [];
  captured = replicate 256 false;
}

unfoldable pub frame_mark : FuncFrame → ℕ
frame_mark f = length f.locals

unfoldable pub frame_rewind : FuncFrame → ℕ → FuncFrame
frame_rewind f mark = record f { locals = take mark f.locals }

-- The frame, and the slot; `none` is -1.
unfoldable pub frame_declare : FuncFrame → Bytes → FuncFrame × Option ℕ
frame_declare f name = if leb max_locals_per_fn (length f.locals) then (f, none) else (
  record f {
    locals =
        f.locals
        ++ record { name = name; slot = some f.next_slot; attrib = 0; kind = decl_local } ∷ [];
    next_slot = f.next_slot + 1;
  },
  some f.next_slot,
)

-- No name stands for the collective `global *`. The test tells whether there was room.
unfoldable pub frame_declare_global : FuncFrame → Option Bytes → ℕ → FuncFrame × Bool
frame_declare_global f name attrib =
    if leb max_locals_per_fn (length f.locals) then (f, false) else (
      record f {
        locals = f.locals ++ elim name [
          | some n ↦ record { name = n; slot = none; attrib = attrib; kind = decl_global } ∷ []
          | none ↦ record { name = []; slot = none; attrib = attrib; kind = decl_global_all } ∷ []
        ];
      },
      true,
    )

-- locals[local_count - 1].attrib = attrib, where a local is declared.
unfoldable pub set_last_attrib : List LocalSlot → ℕ → List LocalSlot
set_last_attrib [] attrib = []
set_last_attrib (d ∷ []) attrib = record d { attrib = attrib } ∷ []
set_last_attrib (d ∷ e ∷ ds) attrib = d ∷ set_last_attrib (e ∷ ds) attrib

unfoldable pub frame_mark_last_const : FuncFrame → FuncFrame
frame_mark_last_const f = record f { locals = set_last_attrib f.locals 1 }

abbrev is_slot : Option ℕ → ℕ → Bool
is_slot (some s) slot = s == slot
is_slot none slot = false

-- The latest declaration wins; -1 is `none`.
unfoldable pub attrib_by_slot : List LocalSlot → ℕ → Option ℕ
attrib_by_slot [] slot = none
attrib_by_slot (d ∷ ds) slot = elim (attrib_by_slot ds slot) [
  | some a ↦ some a
  | none ↦ if is_slot d.slot slot then some d.attrib else none
]

unfoldable pub frame_local_attrib_by_slot : FuncFrame → ℕ → Option ℕ
frame_local_attrib_by_slot f slot = attrib_by_slot f.locals slot

-- attribute == 1
abbrev pub is_const_attrib : Option ℕ → Bool
is_const_attrib (some a) = a == 1
is_const_attrib none = false

-- The walk from the upvalue `uv` of the frame `f` through the enclosing frames.
unfoldable pub upval_is_const : FuncFrame → List FuncFrame → ℕ → Bool
unfolding frame_local_attrib_by_slot
upval_is_const f [] uv = false
upval_is_const f (parent ∷ outer) uv = elim (get_elem? f.upvalues uv) [
  | none ↦ false
  | some ref ↦ elim ref.src [
    | from_local ↦ is_const_attrib (frame_local_attrib_by_slot parent ref.idx)
    | from_upval ↦ upval_is_const parent outer ref.idx
  ]
]

pub data Collective : Type 0 where
  all_none all_rw all_const : Collective

pub record FreeNames : Type 0 where
  pub collective : Collective
  pub voided : Bool

abbrev pass_collective : ℕ → FreeNames → FreeNames
pass_collective attrib fn = elim fn.collective [
  | all_none ↦ record fn { collective = (if attrib == 1 then all_const else all_rw) }
  | all_rw ↦ fn
  | all_const ↦ fn
]

-- One declaration that the search comes to: it is the one of the name, or it is passed.
abbrev pub visit : LocalSlot → Bytes → FreeNames → Option LocalSlot × FreeNames
visit d name fn = elim d.kind [
  | decl_global_all ↦ (none, pass_collective d.attrib fn)
  | decl_local ↦ if equal d.name name then (some d, fn) else (none, fn)
  | decl_global ↦ if equal d.name name then (some d, fn) else (none, record fn { voided = true })
]

abbrev pub or_visit :
    Option LocalSlot × FreeNames → LocalSlot → Bytes → Option LocalSlot × FreeNames
or_visit (some found, fn) d name = (some found, fn)
or_visit (none, fn) d name = visit d name fn

-- From the innermost declaration, the last of the list, outwards.
unfoldable pub search_locals : List LocalSlot → Bytes → FreeNames → Option LocalSlot × FreeNames
search_locals [] name fn = (none, fn)
search_locals (d ∷ ds) name fn = or_visit (search_locals ds name fn) d name

unfoldable pub frame_search : FuncFrame → Bytes → FreeNames → Option LocalSlot × FreeNames
frame_search f name fn = search_locals f.locals name fn

abbrev pub same_source : UpvalSource → UpvalSource → Bool
same_source from_local from_local = true
same_source from_upval from_upval = true
same_source _ _ = false

-- The first upvalue of this source and index, counted from `i`.
unfoldable pub find_upvalue : List UpvalueRef → UpvalSource → ℕ → ℕ → Option ℕ
find_upvalue [] src idx i = none
find_upvalue (u ∷ us) src idx i =
    if same_source u.src src && u.idx == idx then some i else find_upvalue us src idx (i + 1)

unfoldable pub frame_add_upvalue : FuncFrame → UpvalSource → ℕ → FuncFrame × Option ℕ
frame_add_upvalue f src idx = elim (find_upvalue f.upvalues src idx 0) [
  | some i ↦ (f, some i)
  | none ↦ if leb max_upvals_per_fn (length f.upvalues) then (f, none) else (
    record f { upvalues = f.upvalues ++ record { src = src; idx = idx } ∷ [] },
    some (length f.upvalues),
  )
]
