-- ===== src/Apicheck/Listed.antt =====
-- cmd/apicheck/main.go: every exported function stands in the snapshot.
use mathlib.Core.List.{append_assoc, append-nil}
use disruptor_go.Prelude.{
  ◌≡◌, refl, sym, ap, subst, ◌∙◌, true, List, [], ◌∷◌, ◌++◌, Option, none, some, Bool-cases,
  Option-cases, ◌⊎◌, inl, inr,
}
use disruptor_go.Apicheck.Parts.{base_name, public_func_lem}
use disruptor_go.Apicheck.{Ident, Field, FuncDecl, Decl, func_decl, PackageSource, Go}
use disruptor_go.Apicheck.Texts.{Text, codes, text_le, insert_text, sort_texts, join}
use disruptor_go.Apicheck.Render.{◌>>=◌, collect, render_func}
use disruptor_go.Apicheck.Snapshot.{
  snapshot_header, snapshot, package_name, decl_entries, public_func,
}
use mathlib.Core.Option.{some-injective}
use disruptor_go.Apicheck.Order.{sorted, finished, snapshot_lem, decls_of}
use disruptor_go.Apicheck.Collected.{both, collect-append, collect-cons}

-- A text is among others.
abbrev Among : Text → List Text → Type 0
Among t ts = (before : List Text) × (after : List Text) × (ts ≡ before ++ t ∷ after)

-- A text is a part of another.
abbrev pub Part : Text → Text → Type 0
Part t text = (before : Text) × (after : Text) × (text ≡ before ++ t ++ after)

Among-cons : (t u : Text) (ts : List Text) → Among t ts → Among t (u ∷ ts)
Among-cons t u ts a = (u ∷ a.0, a.1, ap (λ l. u ∷ l) a.2)

Among-insert_self : (t : Text) (ts : List Text) → Among t (insert_text t ts)
unfolding insert_text
Among-insert_self t [] = ([], [], refl)
Among-insert_self t (u ∷ us) = elim (Bool-cases (text_le t u)) [
  | inl here ↦ rw here ([], u ∷ us, refl)
  | inr on ↦ rw on (Among-cons t u (insert_text t us) (Among-insert_self t us))
]

-- Insertion of another keeps what is there.
Among-insert :
    (t u : Text) (before after : List Text) → Among t (insert_text u (before ++ t ∷ after))
unfolding insert_text
Among-insert t u [] after = elim (Bool-cases (text_le u t)) [
  | inl here ↦ rw here (u ∷ [], after, refl)
  | inr on ↦ rw on ([], insert_text u after, refl)
]
Among-insert t u (b ∷ before) after = elim (Bool-cases (text_le u b)) [
  | inl here ↦ rw here (u ∷ b ∷ before, after, refl)
  | inr on ↦ rw on (Among-cons t b _ (Among-insert t u before after))
]

Among-sort_texts :
    (t : Text) (before after : List Text) → Among t (sort_texts (before ++ t ∷ after))
unfolding sort_texts
Among-sort_texts t [] after = Among-insert_self t (sort_texts after)
Among-sort_texts t (b ∷ before) after =
    let a = Among-sort_texts t before after in
    subst (λ l. Among t (insert_text b l)) (sym a.2) (Among-insert t b a.0 a.1)

Part-refl : (t : Text) → Part t t
Part-refl t = ([], [], sym (append-nil t))

Part-after : (t p text : Text) → Part t text → Part t (p ++ text)
Part-after t p text part = (
  p ++ part.0,
  part.1,
  ap (λ l. p ++ l) part.2
      ∙ sym (append_assoc p (part.0 ++ t) part.1)
      ∙ ap (λ l. l ++ part.1) (sym (append_assoc p part.0 t)),
)

Part-before : (t text q : Text) → Part t text → Part t (text ++ q)
Part-before t text q part =
    (part.0, part.1 ++ q, ap (λ l. l ++ q) part.2 ∙ append_assoc (part.0 ++ t) part.1 q)

Part-join :
    (separator t : Text) (before after : List Text) → Part t (join separator (before ++ t ∷ after))
unfolding join
Part-join separator t [] [] = Part-refl t
Part-join separator t [] (a ∷ after) =
    Part-before t (t ++ separator) (join separator (a ∷ after))
      (Part-before t t separator (Part-refl t))
Part-join separator t (b ∷ []) after =
    Part-after t (b ++ separator) (join separator (t ∷ after)) (Part-join separator t [] after)
Part-join separator t (b ∷ c ∷ before) after =
    Part-after t (b ++ separator) (join separator (c ∷ before ++ t ∷ after))
      (Part-join separator t (c ∷ before) after)

both-none : (a : Option (List Text)) → both a none ≡ none
both-none none = refl
both-none (some a) = refl

Among-both :
    (t : Text) (a b : Option (List Text)) (entries : List Text)
    → both a (both (some (t ∷ [])) b) ≡ some entries
    → Among t entries
Among-both t none b entries e = absurd (cc e)
Among-both t (some x) none entries e = absurd (cc e)
Among-both t (some x) (some y) entries e = (x, y, sym (some-injective _ _ e))

Part-finished :
    (t : Text) (entries : List Text) (out : Text)
    → Among t entries
    → finished (sorted (some entries)) ≡ some out
    → Part t out
Part-finished t entries out a e = subst (Part t) (some-injective _ _ e) (
    Part-before t (snapshot_header ++ lines) (codes "\n") (Part-after t snapshot_header lines part))
  where
    lines : Text
    lines = join (codes "\n") (sort_texts entries)

    place : Among t (sort_texts entries)
    place = subst (λ l. Among t (sort_texts l)) (sym a.2) (Among-sort_texts t a.0 a.1)

    part : Part t lines
    part =
        subst (λ l. Part t (join (codes "\n") l)) (sym place.2)
          (Part-join (codes "\n") t place.0 place.1)

module _ (f : Decl → Option (List Text)) (d : Decl) (before after : List Decl) where
  -- The texts of a list are those before an item, the item's, and those after it.
  collect-around :
      collect f (before ++ d ∷ after) ≡ both (collect f before) (both (f d) (collect f after))
  collect-around =
      collect-append f before (d ∷ after) ∙ ap (both (collect f before)) (collect-cons f d after)

  Part-collect :
      (drawn : Option Text) (out : Text)
      → f d ≡ (drawn >>= λ text. some (text ∷ []))
      → finished (sorted (collect f (before ++ d ∷ after))) ≡ some out
      → (text : Text) × (drawn ≡ some text) × Part text out
  Part-collect none out here e =
      let gone : collect f (before ++ d ∷ after) ≡ none =
        collect-around
        ∙ ap (λ c. both (collect f before) (both c (collect f after))) here
        ∙ both-none (collect f before) in
      absurd (cc (sym (ap (λ c. finished (sorted c)) gone) ∙ e))
  Part-collect (some text) out here e = (
    text,
    refl,
    elim (Option-cases (collect f (before ++ d ∷ after))) [
      | inl gone ↦ absurd (cc (sym (ap (λ c. finished (sorted c)) gone) ∙ e))
      | inr there ↦
          Part-finished text there.0 out
            (Among-both text (collect f before) (collect f after) there.0 (
              ap (λ c. both (collect f before) (both c (collect f after))) (sym here)
              ∙ sym collect-around
              ∙ there.1))
            (sym (ap (λ c. finished (sorted c)) there.1) ∙ e)
    ],
  )

-- Whether a function shows outside of its package: it has an exported name and, if it is a method,
-- one receiver of a type `T`, `*T`, `T[P]` or `T[P, Q]` with an exported name.
abbrev pub IsPublic : Go → FuncDecl → Type 0
IsPublic go d =
    (go.is_exported d.name.name ≡ true)
    × ((d.recv ≡ none)
        ⊎ ((receiver : Field) × (name : Ident) × (d.recv ≡ some (receiver ∷ []))
            × (base_name receiver.type ≡ some name)
            × (go.is_exported name.name ≡ true)))

public_func-IsPublic : (go : Go) (d : FuncDecl) → IsPublic go d → public_func go d ≡ true
public_func-IsPublic go d (shown, inl plain) = public_func_lem go d ∙ rw (shown, plain) refl
public_func-IsPublic go d (shown, inr (receiver, name, one, called, open_type)) =
    public_func_lem go d ∙ rw (shown, one, called, open_type) refl

-- A function with an exported name, or a method with an exported name and one receiver of a type
-- with an exported name, stands in each snapshot of its package, as the formatter prints it.
pub snapshot-public_func :
    (go : Go) (source : PackageSource) (d : FuncDecl) (before after : List Decl) (out : Text)
    → decls_of source.files ≡ before ++ func_decl d ∷ after
    → IsPublic go d
    → snapshot go source ≡ some out
    → (text : Text) × (render_func go d ≡ some text) × Part text out
unfolding decl_entries
snapshot-public_func go source d before after out at shown e =
    Part-collect (decl_entries go name source.defs) (func_decl d) before after (render_func go d)
      out (rw (public_func-IsPublic go d shown) refl)
      (ap (λ ds. finished (sorted (collect (decl_entries go name source.defs) ds))) (sym at)
        ∙ sym (snapshot_lem go source)
        ∙ e)
  where
    name : Text
    name = package_name go source.files
