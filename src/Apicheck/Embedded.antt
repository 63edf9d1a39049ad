-- ===== src/Apicheck/Embedded.antt =====
-- cmd/apicheck/main.go: what becomes of an embedded field.
use disruptor_go.Prelude.{◌≡◌, refl, sym, ap, ◌∙◌, true, false, ◌||◌, List, [], ◌∷◌, ◌++◌, some}
use disruptor_go.Apicheck.{Field, Go, embedded_exported, exported_names}
use disruptor_go.Apicheck.Render.{collect, any, struct_lines, struct_hides, render_public_struct}
use disruptor_go.Apicheck.Collected.{both, nil_both, collect-cons, collect-append}
use disruptor_go.Apicheck.Public.{any-append}

module _ (go : Go) (field : Field) (unnamed : field.names ≡ []) where
  lines-embedded : struct_lines go field ≡ some []
  unfolding struct_lines exported_names
  lines-embedded = rw unnamed refl

  hides-embedded : embedded_exported go field.type ≡ true → struct_hides go field ≡ false
  unfolding struct_hides
  hides-embedded shown = rw (unnamed, shown) refl

  -- An embedded field of an exported type does not show in the structure's text at all: with it or
  -- without it, wherever it stands, the text is the same.
  pub render_public_struct-embedded :
      (before after : List Field)
      → embedded_exported go field.type ≡ true
      → render_public_struct go (before ++ field ∷ after)
        ≡ render_public_struct go (before ++ after)
  unfolding render_public_struct any
  render_public_struct-embedded before after shown = rw (lines, hides) refl
    where
      lines :
          collect (struct_lines go) (before ++ field ∷ after)
          ≡ collect (struct_lines go) (before ++ after)
      lines =
          collect-append (struct_lines go) before (field ∷ after)
          ∙ ap (both (collect (struct_lines go) before)) (
              collect-cons (struct_lines go) field after
              ∙ ap (λ c. both c (collect (struct_lines go) after)) lines-embedded
              ∙ nil_both (collect (struct_lines go) after))
          ∙ sym (collect-append (struct_lines go) before after)

      hides :
          any (struct_hides go) (before ++ field ∷ after) ≡ any (struct_hides go) (before ++ after)
      hides =
          any-append go (struct_hides go) before (field ∷ after)
          ∙ ap (λ b. any (struct_hides go) before || b) (rw (hides-embedded shown) refl)
          ∙ sym (any-append go (struct_hides go) before after)
