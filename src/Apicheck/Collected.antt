-- ===== src/Apicheck/Collected.antt =====
-- cmd/apicheck/main.go: the loops that collect the texts of a list's items.
use mathlib.Core.List.{append_assoc, append-nil}
use disruptor_go.Prelude.{◌≡◌, refl, sym, ap, ap₂, ◌∙◌, List, [], ◌∷◌, ◌++◌, Option, none, some}
use disruptor_go.Apicheck.Texts.{Text}
use disruptor_go.Apicheck.Render.{◌>>=◌, collect}

module _ {ℓ κ} {A : Type ℓ} {B : Type κ} where
  abbrev pub concat_map : (A → List B) → List A → List B
  concat_map g [] = []
  concat_map g (x ∷ xs) = g x ++ concat_map g xs

-- The texts of two results, one after the other.
abbrev pub both : Option (List Text) → Option (List Text) → Option (List Text)
both none more = none
both (some here) none = none
both (some here) (some more) = some (here ++ more)

both_assoc : (a b c : Option (List Text)) → both (both a b) c ≡ both a (both b c)
both_assoc none b c = refl
both_assoc (some a) none c = refl
both_assoc (some a) (some b) none = refl
both_assoc (some a) (some b) (some c) = ap some (append_assoc a b c)

pub both_nil : (a : Option (List Text)) → both a (some []) ≡ a
both_nil none = refl
both_nil (some a) = ap some (append-nil a)

pub nil_both : (a : Option (List Text)) → both (some []) a ≡ a
nil_both none = refl
nil_both (some a) = refl

in_turn : (a b : Option (List Text)) → (a >>= λ here. b >>= λ rest. some (here ++ rest)) ≡ both a b
in_turn none b = refl
in_turn (some here) none = refl
in_turn (some here) (some rest) = refl

module _ {ℓ} {A : Type ℓ} (f : A → Option (List Text)) where
  pub collect-cons : (x : A) (xs : List A) → collect f (x ∷ xs) ≡ both (f x) (collect f xs)
  unfolding collect
  collect-cons x xs = in_turn (f x) (collect f xs)

  pub collect-append : (xs ys : List A) → collect f (xs ++ ys) ≡ both (collect f xs) (collect f ys)
  unfolding collect
  collect-append [] ys = sym (nil_both (collect f ys))
  collect-append (x ∷ xs) ys =
      collect-cons x (xs ++ ys)
      ∙ ap (both (f x)) (collect-append xs ys)
      ∙ sym (both_assoc (f x) (collect f xs) (collect f ys))
      ∙ ap (λ c. both c (collect f ys)) (sym (collect-cons x xs))

-- Items may be replaced by others that give the same texts.
pub collect-concat_map {ℓ κ} :
    {A : Type ℓ} {B : Type κ} (f : A → Option (List Text)) (h : B → Option (List Text))
    (g : A → List B)
    → ((x : A) → collect h (g x) ≡ f x)
    → (xs : List A) → collect h (concat_map g xs) ≡ collect f xs
unfolding collect
collect-concat_map f h g same [] = refl
collect-concat_map f h g same (x ∷ xs) =
    collect-append h (g x) (concat_map g xs)
    ∙ ap₂ both (same x) (collect-concat_map f h g same xs)
    ∙ sym (collect-cons f x xs)
