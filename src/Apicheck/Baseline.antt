-- ===== src/Apicheck/Baseline.antt =====
-- cmd/apicheck/main.go: when the check against a baseline passes.
use disruptor_go.Prelude.{
  ◌≡◌, ◌≢◌, ◌↔◌, refl, sym, ap, ap₂, ◌∙◌, true, [], ◌∷◌, Option, none, some, arith, Bool-cases, inl,
  inr,
}
use disruptor_go.Apicheck.Texts.{Text, same_text}
use disruptor_go.Apicheck.Snapshot.{passes, compared, run}

same_text_refl : (t : Text) → same_text t t ≡ true
unfolding same_text
same_text_refl [] = refl
same_text_refl (x ∷ t) = ground (arith, same_text_refl t)

same_text-eq : (a b : Text) → same_text a b ≡ true → a ≡ b
unfolding same_text
same_text-eq [] [] h = refl
same_text-eq [] (y ∷ ys) h = absurd (cc h)
same_text-eq (x ∷ xs) [] h = absurd (cc h)
same_text-eq (x ∷ xs) (y ∷ ys) h = ap₂ ◌∷◌ (ground arith) (same_text-eq xs ys (ground arith))

compared-passes :
    (found : Option Text) (output : Text) → compared found output ≡ passes → found ≡ some output
unfolding compared
compared-passes none output h = absurd (cc h)
compared-passes (some expected) output h = elim (Bool-cases (same_text expected output)) [
  | inl same ↦ ap some (same_text-eq expected output same)
  | inr other ↦ absurd (cc (h, other))
]

compared-same : (output : Text) → compared (some output) output ≡ passes
unfolding compared
compared-same output = rw (same_text_refl output) refl

-- The command finds the baseline up to date exactly if one is named and can be read, and the
-- package has a snapshot, which the baseline holds byte for byte.
pub run-passes :
    (output : Option Text) (check : Text) (read_file : Text → Option Text)
    → (run output check read_file ≡ passes)
      ↔ ((check ≢ []) × ((text : Text) × (output ≡ some text) × (read_file check ≡ some text)))
unfolding run
run-passes none check read_file = (λ h. absurd (cc h), λ h. absurd (cc (h.1.1)))
run-passes (some output) [] read_file = (λ h. absurd (cc h), λ h. absurd (h.0 refl))
run-passes (some output) (c ∷ check) read_file = (
  λ h. (λ e. absurd (cc e), (output, refl, compared-passes (read_file (c ∷ check)) output h)),
  λ h. ap (λ r. compared r output) (h.1.2 ∙ sym h.1.1) ∙ compared-same output,
)
