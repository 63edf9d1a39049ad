-- ===== src/Apicheck/Render.antt =====
-- cmd/apicheck/main.go: how a declaration is printed without its unexported parts.
use disruptor_go.Prelude.{
  Bool, true, false, List, [], ◌∷◌, ◌++◌, Option, none, some, ◌||◌, not, if◌then◌else◌,
}
use disruptor_go.Apicheck.{
  Ident, Field, TypeBody, struct_type, interface_type, plain_type, TypeSpec, FuncDecl, Node,
  expr_node, field_node, func_node, Go, embedded_exported, exported_names, has_unexported,
}
use disruptor_go.Apicheck.Texts.{Text, codes, join, trim_prefix, trim_suffix}

-- `none` is the exit by `fail`.
infixl 5 ◌>>=◌
abbrev pub ◌>>=◌ {ℓ κ} : {A : Type ℓ} {B : Type κ} → Option A → (A → Option B) → Option B
none >>= f = none
some a >>= f = f a

-- The texts that the items of a list give, in order.
unfoldable pub collect {ℓ} : {A : Type ℓ} → (A → Option (List Text)) → List A → Option (List Text)
collect f [] = some []
collect f (x ∷ xs) = do here ← f x; rest ← collect f xs; some (here ++ rest)

abbrev pub is_empty {ℓ} : {A : Type ℓ} → List A → Bool
is_empty [] = true
is_empty (x ∷ xs) = false

-- The copy of a field with other names and without its comments.
abbrev pub bare : List Ident → Field → Field
bare names field = record field { doc = none; comment = none; names = names }

unfoldable pub any : (Field → Bool) → List Field → Bool
any hides [] = false
any hides (field ∷ fields) = hides field || any hides fields

module _ (go : Go) where
  -- renderNode
  unfoldable pub render_node : Node → Option Text
  render_node node = do text ← go.format_node node; some (go.trim_space text)

  -- renderField
  unfoldable pub render_field : Field → Option Text
  unfolding render_node trim_prefix trim_suffix
  render_field field = do
    text ← render_node (field_node field)
    some (go.trim_space (trim_suffix (trim_prefix text (codes "struct {")) (codes "}")))

  -- The line of a field, after a tabulator.
  abbrev pub field_line : Field → Option (List Text)
  field_line field = do text ← render_field field; some ((codes "\t" ++ text) ∷ [])

  -- renderFieldList
  unfoldable pub render_field_list : List Field → Option Text
  unfolding render_field join collect
  render_field_list fields = do
    parts ←
        collect
          (λ (field : Field). do text ← render_field (bare field.names field); some (text ∷ []))
          fields
    some (codes "[" ++ join (codes ", ") parts ++ codes "]")

  -- What a field of a structure adds to the lines, and to `hasUnexported`.
  unfoldable pub struct_lines : Field → Option (List Text)
  unfolding exported_names embedded_exported render_field
  struct_lines field =
      let names = exported_names go field.names in
      if is_empty names then some [] else field_line (bare names field)

  unfoldable pub struct_hides : Field → Bool
  unfolding has_unexported embedded_exported
  struct_hides field =
      if is_empty field.names
      then not (embedded_exported go field.type)
      else has_unexported go field.names

  -- The same for a method of an interface.
  unfoldable pub interface_lines : Field → Option (List Text)
  unfolding exported_names embedded_exported render_field
  interface_lines field =
      let names = exported_names go field.names in
      if is_empty field.names
      then (if embedded_exported go field.type then field_line field else some [])
      else if is_empty names
      then some []
      else field_line (bare names field)

  abbrev pub interface_hides : Field → Bool
  interface_hides = struct_hides

  -- renderPublicStruct
  unfoldable pub render_public_struct : List Field → Option Text
  unfolding struct_lines struct_hides collect any join
  render_public_struct fields = do
    lines ← collect struct_lines fields
    let mark = if any struct_hides fields then codes "\t// unexported fields" ∷ [] else []
    some (codes "struct {\n" ++ join (codes "\n") (lines ++ mark) ++ codes "\n}")

  -- renderPublicInterface
  unfoldable pub render_public_interface : List Field → Option Text
  unfolding interface_lines struct_hides collect any join
  render_public_interface methods = do
    lines ← collect interface_lines methods
    let mark = if any interface_hides methods then codes "\t// unexported methods" ∷ [] else []
    some (codes "interface {\n" ++ join (codes "\n") (lines ++ mark) ++ codes "\n}")

  abbrev pub render_body : TypeBody → Option Text
  render_body (struct_type fields) = render_public_struct fields
  render_body (interface_type methods) = render_public_interface methods
  render_body (plain_type x) = render_node (expr_node x)

  render_params : Option (List Field) → Option Text
  unfolding render_field_list
  render_params none = some []
  render_params (some fields) = render_field_list fields

  abbrev pub type_text : Text → Option Text → Option Text → Option Text
  type_text name type_params type = do
    params ← type_params
    body ← type
    some (codes "type " ++ name ++ params ++ codes " " ++ body)

  -- renderType
  unfoldable pub render_type : TypeSpec → Option Text
  unfolding render_params render_public_struct render_public_interface render_node
  render_type specification =
      type_text specification.name.name (render_params specification.type_params)
        (render_body specification.type)

  -- renderFunc
  unfoldable pub render_func : FuncDecl → Option Text
  unfolding render_node
  render_func declaration = render_node (func_node (record declaration { doc = none; body = none }))
