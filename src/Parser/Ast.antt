-- ===== src/Parser/Ast.antt =====
-- src/ast.h: the tree that the parser builds. A null pointer is the constructor `null`. Names and
-- strings are their bytes. A LuaFunc is referred to by its func_idx, the place where the parser
-- keeps it. The fields of a label that the code generator fills in are left out.
use lua2wasm.Prelude.{ℕ, Bytes, Bool, List, Option}
use lua2wasm.Parser.Operators.{BinOp}

pub data UpvalSource : Type 0 where
  from_local from_upval : UpvalSource

pub record UpvalueRef : Type 0 where
  pub src : UpvalSource
  pub idx : ℕ

pub data VarKind : Type 0 where
  local upval builtin global : VarKind

pub data UnOp : Type 0 where
  neg not_ len bnot : UnOp

-- `expr line paren shape`: the union `as` is the shape, and the kind its constructor.
mutual
  pub data Expr (F : Type 0) : Type 0 where
    null : Expr F
    expr : ℕ → Bool → Shape F → Expr F

  pub data Shape (F : Type 0) : Type 0 where
    nil true_ false_ : Shape F
    int : ℕ → Shape F
    float : Option F → Shape F
    string : Bytes → Shape F
    var : Bytes → VarKind → ℕ → Bool → Shape F
    call : Expr F → Exprs F → Shape F
    binop : BinOp → Expr F → Expr F → Shape F
    unop : UnOp → Expr F → Shape F
    function : ℕ → Shape F
    index : Expr F → Expr F → Shape F
    table : Entries F → Shape F
    method_call : Expr F → Bytes → Exprs F → Shape F
    vararg : Expr F → Bool → Shape F

  pub data Exprs (F : Type 0) : Type 0 where
    no_exprs : Exprs F
    exprs : Expr F → Exprs F → Exprs F

  pub data Entries (F : Type 0) : Type 0 where
    no_entries : Entries F
    positional : Expr F → Entries F → Entries F
    key_expr : Expr F → Expr F → Entries F → Entries F

pub data AssignTarget (F : Type 0) : Type 0 where
  var : VarKind → ℕ → AssignTarget F
  index : Expr F → Expr F → AssignTarget F

mutual
  pub data Stmt (F : Type 0) : Type 0 where
    null : Stmt F
    stmt : ℕ → StmtShape F → Stmt F

  pub data StmtShape (F : Type 0) : Type 0 where
    local : List ℕ → List ℕ → List Bytes → Exprs F → StmtShape F
    assign : List (AssignTarget F) → Exprs F → StmtShape F
    expr_stmt : Expr F → StmtShape F
    if_stmt : Arms F → Bool → Block F → StmtShape F
    while_stmt : Expr F → Block F → StmtShape F
    do_stmt : Block F → StmtShape F
    return_stmt : Exprs F → StmtShape F
    local_func : Bytes → ℕ → ℕ → StmtShape F
    for_num : Bytes → ℕ → Expr F → Expr F → Expr F → Block F → StmtShape F
    for_gen : List Bytes → List ℕ → Exprs F → Block F → ℕ → StmtShape F
    repeat : Block F → Expr F → StmtShape F
    break : StmtShape F
    global_decl : List ℕ → Exprs F → StmtShape F
    goto label : Bytes → StmtShape F

  -- The statements and `end_line`.
  pub data Block (F : Type 0) : Type 0 where
    block : Stmts F → ℕ → Block F

  pub data Stmts (F : Type 0) : Type 0 where
    no_stmts : Stmts F
    stmts : Stmt F → Stmts F → Stmts F

  pub data Arms (F : Type 0) : Type 0 where
    no_arms : Arms F
    arm : Expr F → Block F → Arms F → Arms F

-- struct LuaFunc; no parent_idx is -1.
pub record LuaFunc (F : Type 0) : Type 0 where
  pub func_idx : ℕ
  pub parent_idx : Option ℕ
  pub n_params : ℕ
  pub n_locals : ℕ
  pub upvalues : List UpvalueRef
  pub body : Block F
  pub line : ℕ
  pub is_vararg : Bool
  pub captured : List Bool
