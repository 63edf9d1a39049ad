-- ===== src/Apicheck.antt =====
-- cmd/apicheck/main.go: the declarations of a package, and which parts of them are exported.
--
-- Of the syntax trees there is what the command looks at. A part that it only hands to the
-- formatter is a number that stands for it.
pub mod Texts
pub mod Render
pub mod Snapshot
pub mod Collected
pub mod Order
pub mod Parts
pub mod Public
pub mod Hidden
pub mod Embedded
pub mod Baseline
pub mod Listed
pub mod Loading
use disruptor_go.Prelude.{ℕ, Bool, false, List, [], ◌∷◌, Option, ◌||◌, not, if◌then◌else◌}
use disruptor_go.Apicheck.Texts.{Text}

-- An identifier is told from another of the same name by where it stands.
pub record Ident : Type 0 where
  pub name : Text
  pub position : ℕ

-- The forms of `ast.Expr` that `embeddedExported` knows, and any other.
pub data Expr : Type 0 where
  ident : (name : Ident) → Expr
  star : (x : Expr) → Expr
  index : (x : Expr) (index : ℕ) → Expr
  index_list : (x : Expr) (indices : ℕ) → Expr
  selector : (x : ℕ) (sel : Ident) → Expr
  other : (node : ℕ) → Expr

-- A field of a structure, a method of an interface, a parameter or a receiver.
pub record Field : Type 0 where
  pub doc : Option Text
  pub names : List Ident
  pub type : Expr
  pub tag : Option Text
  pub comment : Option Text

pub data TypeBody : Type 0 where
  struct_type : (fields : List Field) → TypeBody
  interface_type : (methods : List Field) → TypeBody
  plain_type : (x : Expr) → TypeBody

pub record TypeSpec : Type 0 where
  pub name : Ident
  pub type_params : Option (List Field)
  pub type : TypeBody

pub data Spec : Type 0 where
  import_spec : (node : ℕ) → Spec
  type_spec : (specification : TypeSpec) → Spec
  value_spec : (names : List Ident) → Spec

pub record GenDecl : Type 0 where
  pub tok : Text
  pub specs : List Spec

pub record FuncDecl : Type 0 where
  pub doc : Option Text
  pub recv : Option (List Field)
  pub name : Ident
  pub type : ℕ
  pub body : Option ℕ

pub data Decl : Type 0 where
  gen_decl : (declaration : GenDecl) → Decl
  func_decl : (declaration : FuncDecl) → Decl
  bad_decl : (node : ℕ) → Decl

pub record File : Type 0 where
  pub name : Text
  pub decls : List Decl

-- What the type checker says of a name: its type, and the value of a constant as a text.
pub record Object : Type 0 where
  pub type : Option ℕ
  pub value : Option Text

pub record PackageSource : Type 0 where
  pub files : List File
  pub defs : Ident → Option Object

-- What the command formats.
pub data Node : Type 0 where
  expr_node : (x : Expr) → Node
  field_node : (field : Field) → Node  -- a structure of this field
  func_node : (declaration : FuncDecl) → Node

-- Go's packages: `ast.IsExported`, `format.Node` (`none` is its error), `types.TypeString` with the
-- names that a qualifier gives to packages, and `strings.TrimSpace`.
pub record Go : Type 0 where
  pub is_exported : Text → Bool
  pub format_node : Node → Option Text
  pub type_string : ℕ → (Text → Text) → Text
  pub trim_space : Text → Text

module _ (go : Go) where
  -- `Ident.IsExported`
  abbrev pub exported : Ident → Bool
  exported name = go.is_exported name.name

  -- embeddedExported
  unfoldable pub embedded_exported : Expr → Bool
  embedded_exported (ident name) = exported name
  embedded_exported (star x) = embedded_exported x
  embedded_exported (index x i) = embedded_exported x
  embedded_exported (index_list x is) = embedded_exported x
  embedded_exported (selector x sel) = exported sel
  embedded_exported (other node) = false

  -- exportedReceiver
  unfoldable pub exported_receiver : List Field → Bool
  unfolding embedded_exported
  exported_receiver (field ∷ []) = embedded_exported field.type
  exported_receiver [] = false
  exported_receiver (field ∷ another ∷ fields) = false

  -- The names of a list that are exported, and whether some are not.
  unfoldable pub exported_names : List Ident → List Ident
  exported_names [] = []
  exported_names (name ∷ names) =
      let rest = exported_names names in if exported name then name ∷ rest else rest

  unfoldable pub has_unexported : List Ident → Bool
  has_unexported [] = false
  has_unexported (name ∷ names) = not (exported name) || has_unexported names
