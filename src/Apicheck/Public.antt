-- ===== src/Apicheck/Public.antt =====
-- cmd/apicheck/main.go: how the fields of the exported part of a package are printed.
use disruptor_go.Prelude.{
  ◌≡◌, refl, ap, ap₂, ◌∙◌, Bool, false, List, [], ◌∷◌, ◌++◌, Option, some, Bool-cases, arith, inl,
  inr, ◌||◌,
}
use disruptor_go.Apicheck.{
  Ident, Field, TypeBody, struct_type, interface_type, plain_type, TypeSpec, Go, embedded_exported,
  exported_names, has_unexported,
}
use disruptor_go.Apicheck.Texts.{Text}
use disruptor_go.Apicheck.Render.{
  collect, is_empty, bare, struct_lines, struct_hides, interface_lines, any, render_public_struct,
  render_public_interface, render_type, render_body, type_text,
}
use disruptor_go.Apicheck.Parts.{
  hidden_field, Rules, code_rules, public_field, public_method, hidden_mark, public_body,
}
use disruptor_go.Apicheck.Collected.{
  concat_map, both, both_nil, collect-cons, collect-append, collect-concat_map,
}

pub collect-one {ℓ} : {A : Type ℓ} (f : A → Option (List Text)) (x : A) → collect f (x ∷ []) ≡ f x
unfolding collect
collect-one f x = collect-cons f x [] ∙ both_nil (f x)

module _ (go : Go) where
  abbrev rules : Rules
  rules = code_rules go

  exported_names-exported_names :
      (names : List Ident) → exported_names go (exported_names go names) ≡ exported_names go names
  unfolding exported_names
  exported_names-exported_names [] = refl
  exported_names-exported_names (name ∷ names) = ground (arith, exported_names-exported_names names)

  has_unexported-exported_names :
      (names : List Ident) → has_unexported go (exported_names go names) ≡ false
  unfolding exported_names has_unexported
  has_unexported-exported_names [] = refl
  has_unexported-exported_names (name ∷ names) = ground (arith, has_unexported-exported_names names)

  -- A field is printed as its exported part.
  lines-public_field :
      (field : Field)
      → collect (struct_lines go) ((public_field rules) field) ≡ struct_lines go field
  unfolding struct_lines collect
  lines-public_field field = elim (Bool-cases (is_empty (exported_names go field.names))) [
    | inl no_name ↦ rw no_name refl
    | inr some_name ↦ rw some_name (
        collect-one (struct_lines go) (bare (exported_names go field.names) field)
        ∙ rw (exported_names-exported_names field.names, some_name) refl)
  ]

  lines-public_method :
      (field : Field)
      → collect (interface_lines go) ((public_method rules) field) ≡ interface_lines go field
  unfolding interface_lines collect
  lines-public_method field = elim (Bool-cases (is_empty field.names)) [
    | inl embedded ↦ elim (Bool-cases (embedded_exported go field.type)) [
      | inl open_type ↦
          rw (embedded, open_type)
            (collect-one (interface_lines go) field ∙ rw (embedded, open_type) refl)
      | inr closed_type ↦ rw (embedded, closed_type) refl
    ]
    | inr named ↦ elim (Bool-cases (is_empty (exported_names go field.names))) [
      | inl no_name ↦ rw (named, no_name) refl
      | inr some_name ↦
          rw (named, some_name)
            (collect-one (interface_lines go) (bare (exported_names go field.names) field)
              ∙ rw (exported_names-exported_names field.names, some_name) refl)
    ]
  ]

  hides-public_field : (field : Field) → any (struct_hides go) ((public_field rules) field) ≡ false
  unfolding struct_hides any
  hides-public_field field = elim (Bool-cases (is_empty (exported_names go field.names))) [
    | inl no_name ↦ rw no_name refl
    | inr some_name ↦ ground (arith, some_name, has_unexported-exported_names field.names)
  ]

  hides-public_method :
      (field : Field) → any (struct_hides go) ((public_method rules) field) ≡ false
  unfolding struct_hides any
  hides-public_method field = elim (Bool-cases (is_empty field.names)) [
    | inl embedded ↦ elim (Bool-cases (embedded_exported go field.type)) [
      | inl open_type ↦ ground (arith, embedded, open_type)
      | inr closed_type ↦ rw (embedded, closed_type) refl
    ]
    | inr named ↦ rw named (hides-public_field field)
  ]

  lines-hidden_mark :
      (f : Field → Option (List Text)) (fields : List Field)
      → f hidden_field ≡ some []
      → collect f ((hidden_mark rules) fields) ≡ some []
  unfolding collect
  lines-hidden_mark f fields e = elim (Bool-cases (any (struct_hides go) fields)) [
    | inl hides ↦ rw hides (collect-one f hidden_field ∙ e)
    | inr none_hides ↦ rw none_hides refl
  ]

  hides-hidden_mark :
      (fields : List Field)
      → any (struct_hides go) ((hidden_mark rules) fields) ≡ any (struct_hides go) fields
  unfolding any struct_hides embedded_exported
  hides-hidden_mark fields = elim (Bool-cases (any (struct_hides go) fields)) [
    | inl hides ↦ rw hides refl
    | inr none_hides ↦ rw none_hides refl
  ]

  pub any-append :
      (h : Field → Bool) (xs ys : List Field) → any h (xs ++ ys) ≡ (any h xs || any h ys)
  unfolding any
  any-append h [] ys = refl
  any-append h (x ∷ xs) ys = ground (arith, any-append h xs ys)

  any-concat_map :
      (h : Field → Bool) (g : Field → List Field)
      → ((x : Field) → any h (g x) ≡ false)
      → (xs : List Field) → any h (concat_map g xs) ≡ false
  unfolding any
  any-concat_map h g none_hides [] = refl
  any-concat_map h g none_hides (x ∷ xs) =
      any-append h (g x) (concat_map g xs)
      ∙ rw (none_hides x, any-concat_map h g none_hides xs) refl

  -- The lines and the mark of a list of fields are those of its exported part.
  lines-part :
      (f : Field → Option (List Text)) (g : Field → List Field)
      → ((x : Field) → collect f (g x) ≡ f x)
      → f hidden_field ≡ some []
      → (fields : List Field)
      → collect f (concat_map g fields ++ (hidden_mark rules) fields) ≡ collect f fields
  lines-part f g same e fields =
      collect-append f (concat_map g fields) ((hidden_mark rules) fields)
      ∙ ap₂ both (collect-concat_map f f g same fields) (lines-hidden_mark f fields e)
      ∙ both_nil (collect f fields)

  hides-part :
      (g : Field → List Field)
      → ((x : Field) → any (struct_hides go) (g x) ≡ false)
      → (fields : List Field)
      → any (struct_hides go) (concat_map g fields ++ (hidden_mark rules) fields)
        ≡ any (struct_hides go) fields
  hides-part g none_hides fields =
      any-append (struct_hides go) (concat_map g fields) ((hidden_mark rules) fields)
      ∙ rw (any-concat_map (struct_hides go) g none_hides fields) (hides-hidden_mark fields)

  render_body-public_body :
      (type : TypeBody) → render_body go ((public_body rules) type) ≡ render_body go type
  unfolding render_public_struct render_public_interface struct_lines interface_lines
      embedded_exported exported_names
  render_body-public_body (struct_type fields) =
      rw
        (
          lines-part (struct_lines go) (public_field rules) lines-public_field refl fields,
          hides-part (public_field rules) hides-public_field fields,
        )
        refl
  render_body-public_body (interface_type methods) =
      rw
        (
          lines-part (interface_lines go) (public_method rules) lines-public_method refl methods,
          hides-part (public_method rules) hides-public_method methods,
        )
        refl
  render_body-public_body (plain_type x) = refl

  -- A type is printed as its exported part.
  pub render_type-public_body :
      (specification : TypeSpec)
      → render_type go (record specification { type = (public_body rules) specification.type })
        ≡ render_type go specification
  unfolding render_type
  render_type-public_body specification =
      ap (type_text go specification.name.name _) (render_body-public_body specification.type)
