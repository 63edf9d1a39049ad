-- ===== src/Apicheck/Parts.antt =====
-- cmd/apicheck/main.go: the exported part of a package, by the rules of Go.
use mathlib.Core.Path.{fun_ext}
use disruptor_go.Prelude.{
  ◌≡◌, refl, ap, ◌∙◌, Bool, true, false, ◌&&◌, not, if◌then◌else◌, List, [], ◌∷◌, ◌++◌, Option,
  none, some, arith,
}
use disruptor_go.Apicheck.{
  Ident, Expr, ident, star, index, index_list, selector, other, Field, TypeBody, struct_type,
  interface_type, plain_type, Spec, import_spec, type_spec, value_spec, FuncDecl, Decl, gen_decl,
  func_decl, bad_decl, File, Go, exported, embedded_exported, exported_receiver, exported_names,
  has_unexported,
}
use disruptor_go.Apicheck.Render.{is_empty, bare, any, struct_hides}
use disruptor_go.Apicheck.Snapshot.{public_func}
use disruptor_go.Apicheck.Collected.{concat_map}

-- A field without a name that nobody outside can use.
abbrev pub hidden_field : Field
hidden_field = record { doc = none; names = []; type = other 0; tag = none; comment = none }

-- What decides which parts of a package are exported: whether a name is, the exported names of a
-- list of names, and whether an embedded type is exported, a field has a part that is not, and a function is listed.
pub record Rules : Type 0 where
  pub exported : Ident → Bool
  pub named : List Ident → List Ident
  pub embedded : Expr → Bool
  pub hides : Field → Bool
  pub listed : FuncDecl → Bool

module _ (rules : Rules) where
  -- The fields of a structure with their exported names alone and without comments; one field
  -- stands for all that is hidden.
  abbrev pub public_field : Field → List Field
  public_field field =
      let names = rules.named field.names in if is_empty names then [] else bare names field ∷ []

  abbrev pub public_method : Field → List Field
  public_method field =
      if is_empty field.names
      then (if rules.embedded field.type then field ∷ [] else [])
      else public_field field

  abbrev pub hidden_mark : List Field → List Field
  hidden_mark fields = if any rules.hides fields then hidden_field ∷ [] else []

  abbrev pub public_body : TypeBody → TypeBody
  public_body (struct_type fields) =
      struct_type (concat_map public_field fields ++ hidden_mark fields)
  public_body (interface_type methods) =
      interface_type (concat_map public_method methods ++ hidden_mark methods)
  public_body (plain_type x) = plain_type x

  abbrev pub public_spec : Spec → List Spec
  public_spec (import_spec node) = []
  public_spec (type_spec specification) =
      if rules.exported specification.name
      then type_spec (record specification { type = public_body specification.type }) ∷ []
      else []
  public_spec (value_spec names) = value_spec (rules.named names) ∷ []

  -- Without the bodies and the comments of functions, without the functions, methods, types,
  -- variables and constants that are not exported, and without imports.
  abbrev pub public_decl : Decl → List Decl
  public_decl (gen_decl declaration) =
      gen_decl (record declaration { specs = concat_map public_spec declaration.specs }) ∷ []
  public_decl (func_decl declaration) =
      if rules.listed declaration
      then func_decl (record declaration { doc = none; body = none }) ∷ []
      else []
  public_decl (bad_decl node) = []

  abbrev pub public_files : List File → List File
  public_files [] = []
  public_files (file ∷ files) =
      record file { decls = concat_map public_decl file.decls } ∷ public_files files

-- The name of the type that an embedded field or a receiver has: that of `T`, `*T`, `T[P]`,
-- `T[P, Q]` or `pkg.T`.
unfoldable pub base_name : Expr → Option Ident
base_name (ident name) = some name
base_name (star x) = base_name x
base_name (index x i) = base_name x
base_name (index_list x is) = base_name x
base_name (selector x sel) = some sel
base_name (other node) = none

-- The members of a list that a test holds for.
unfoldable pub kept {ℓ} : {A : Type ℓ} → (A → Bool) → List A → List A
kept test [] = []
kept test (x ∷ xs) = let rest = kept test xs in if test x then x ∷ rest else rest

module _ (go : Go) where
  abbrev pub name_shows : Option Ident → Bool
  name_shows none = false
  name_shows (some name) = go.is_exported name.name

  abbrev pub name_hides : Ident → Bool
  name_hides name = not (go.is_exported name.name)

  -- A method shows only with the type of its one receiver.
  abbrev pub receiver_shows : Option (List Field) → Bool
  receiver_shows none = true
  receiver_shows (some []) = false
  receiver_shows (some (field ∷ [])) = name_shows (base_name field.type)
  receiver_shows (some (field ∷ another ∷ fields)) = false

  -- The rules of Go: what has an exported name shows, an embedded field by the name of its type and
  -- a method with the type that it belongs to.
  abbrev pub go_rules : Rules
  go_rules = record {
    exported = λ name. go.is_exported name.name;
    named = kept (λ name. go.is_exported name.name);
    embedded = λ type. name_shows (base_name type);
    hides = λ field.
        if is_empty field.names
        then not (name_shows (base_name field.type))
        else not (is_empty (kept name_hides field.names));
    listed = λ declaration. go.is_exported declaration.name.name && receiver_shows declaration.recv;
  }

  -- The rules of the command's own functions.
  abbrev pub code_rules : Rules
  code_rules = record {
    exported = exported go;
    named = exported_names go;
    embedded = embedded_exported go;
    hides = struct_hides go;
    listed = public_func go;
  }

  embedded_exported_lem : (type : Expr) → embedded_exported go type ≡ name_shows (base_name type)
  unfolding embedded_exported base_name
  embedded_exported_lem (ident name) = refl
  embedded_exported_lem (star x) = embedded_exported_lem x
  embedded_exported_lem (index x i) = embedded_exported_lem x
  embedded_exported_lem (index_list x is) = embedded_exported_lem x
  embedded_exported_lem (selector x sel) = refl
  embedded_exported_lem (other node) = refl

  exported_names_lem :
      (names : List Ident) → exported_names go names ≡ kept (λ name. go.is_exported name.name) names
  unfolding exported_names kept
  exported_names_lem [] = refl
  exported_names_lem (name ∷ names) =
      ap (λ rest. if go.is_exported name.name then name ∷ rest else rest) (exported_names_lem names)

  has_unexported_lem :
      (names : List Ident) → has_unexported go names ≡ not (is_empty (kept name_hides names))
  unfolding has_unexported kept
  has_unexported_lem [] = refl
  has_unexported_lem (name ∷ names) = ground (arith, has_unexported_lem names)

  hides_lem : (field : Field) → struct_hides go field ≡ go_rules.hides field
  unfolding struct_hides
  hides_lem field =
      ap (λ b. if is_empty field.names then not b else has_unexported go field.names)
        (embedded_exported_lem field.type)
      ∙ ap (λ b. if is_empty field.names then not (name_shows (base_name field.type)) else b)
          (has_unexported_lem field.names)

  receiver_lem :
      (recv : Option (List Field))
      → elim recv [ none ↦ true | some fields ↦ exported_receiver go fields ] ≡ receiver_shows recv
  unfolding exported_receiver
  receiver_lem none = refl
  receiver_lem (some []) = refl
  receiver_lem (some (field ∷ [])) = embedded_exported_lem field.type
  receiver_lem (some (field ∷ another ∷ fields)) = refl

  -- What `snapshot` lists of the functions is what shows by the rules of Go.
  pub public_func_lem :
      (declaration : FuncDecl) → public_func go declaration ≡ go_rules.listed declaration
  unfolding public_func
  public_func_lem declaration =
      ap (λ b. if go.is_exported declaration.name.name then b else false)
        (receiver_lem declaration.recv)
      ∙ ground arith

  pub code_rules_lem : code_rules ≡ go_rules
  code_rules_lem =
      ap
        (λ named. record {
          exported = exported go;
          named = named;
          embedded = embedded_exported go;
          hides = struct_hides go;
          listed = public_func go;
        })
        (fun_ext exported_names_lem)
      ∙ ap
          (λ embedded. record {
            exported = exported go;
            named = go_rules.named;
            embedded = embedded;
            hides = struct_hides go;
            listed = public_func go;
          })
          (fun_ext embedded_exported_lem)
      ∙ ap
          (λ hides. record {
            exported = exported go;
            named = go_rules.named;
            embedded = go_rules.embedded;
            hides = hides;
            listed = public_func go;
          })
          (fun_ext hides_lem)
      ∙ ap
          (λ listed. record {
            exported = exported go;
            named = go_rules.named;
            embedded = go_rules.embedded;
            hides = go_rules.hides;
            listed = listed;
          })
          (fun_ext public_func_lem)
