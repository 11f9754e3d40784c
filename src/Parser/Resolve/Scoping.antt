-- ===== src/Parser/Resolve/Scoping.antt =====
-- What a name of the source stands for by the rules of scope, and what an answer of the
-- resolution (src/parser.c) comes to.
use lua2wasm.Prelude.{ℕ, suc, Bytes, equal, List, [], ◌∷◌, if◌then◌else◌, Option, none, some, ◌≡◌}
use lua2wasm.Parser.Ast.{VarKind, local, upval, builtin, global, from_local, from_upval}
use lua2wasm.Parser.Scope.{
  FuncFrame, LocalSlot, decl_local, decl_global, decl_global_all, get_elem?,
}
use lua2wasm.Parser.State.{Complaint}
use lua2wasm.Parser.Resolve.{Lookup}

-- The last declaration of the name in a frame.
abbrev pub declared : List LocalSlot → Bytes → Option LocalSlot
declared [] name = none
declared (d ∷ ds) name = elim (declared ds name) [
  | some e ↦ some e
  | none ↦ elim d.kind [
    | decl_local ↦ if equal d.name name then some d else none
    | decl_global ↦ if equal d.name name then some d else none
    | decl_global_all ↦ none
  ]
]

abbrev pub deeper : Option (ℕ × ℕ) → Option (ℕ × ℕ)
deeper none = none
deeper (some (k, s)) = some (suc k, s)

abbrev pub own_slot : Option ℕ → Option (ℕ × ℕ)
own_slot none = none
own_slot (some s) = some (0, s)

abbrev pub own_or : Option LocalSlot → Option (ℕ × ℕ) → Option (ℕ × ℕ)
own_or (some d) other = own_slot d.slot
own_or none other = other

-- The variable that a name stands for by the rules of scope: how many functions further out it
-- is declared, and its slot there. A declared global is no variable.
abbrev pub innermost : Bytes → FuncFrame → List FuncFrame → Option (ℕ × ℕ)
innermost name f [] = own_or (declared f.locals name) none
innermost name f (parent ∷ outer) =
    own_or (declared f.locals name) (deeper (innermost name parent outer))

-- The variable that an upvalue comes to, from function to function.
abbrev pub origin : FuncFrame → List FuncFrame → ℕ → Option (ℕ × ℕ)
origin f [] u = none
origin f (parent ∷ outer) u = elim (get_elem? f.upvalues u) [
  | none ↦ none
  | some ref ↦ elim ref.src [
    | from_local ↦ some (1, ref.idx)
    | from_upval ↦ deeper (origin parent outer ref.idx)
  ]
]

abbrev pub denote : FuncFrame → List FuncFrame → VarKind × ℕ → Option (ℕ × ℕ)
denote f outer (local, s) = some (0, s)
denote f outer (upval, u) = origin f outer u
denote f outer (builtin, i) = none
denote f outer (global, i) = none

-- The name was resolved to what it stands for, or there is an error to report.
abbrev pub StandsFor : Lookup → Option (ℕ × ℕ) → Type 0
StandsFor r s = elim r.found as (λ _. Type 0) [
  | none ↦ (why : Complaint) × (r.complaint ≡ some why)
  | some v ↦ denote r.frame r.outer v ≡ s
]
