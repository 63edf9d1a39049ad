-- ===== src/Apicheck/Order.antt =====
-- cmd/apicheck/main.go: the order of files and declarations does not show in a snapshot.
use mathlib.Core.List.{Perm, foldr}
use mathlib.Core.List.Perm
use disruptor_go.Prelude.{
  ◌≡◌, refl, sym, ap, ap₂, ◌∙◌, true, false, arith, List, [], ◌∷◌, ◌++◌, Option, none, some,
}
use disruptor_go.Apicheck.{Go, Decl, File, PackageSource}
use disruptor_go.Apicheck.Texts.{Text, text_le, insert_text, sort_texts, codes, join}
use disruptor_go.Apicheck.Render.{◌>>=◌, collect}
use disruptor_go.Apicheck.Snapshot.{
  snapshot, package_name, file_entries, decl_entries, snapshot_header,
}
use disruptor_go.Apicheck.Collected.{concat_map, both, collect-cons, collect-concat_map}

text_le_total : (a b : Text) → text_le a b ≡ false → text_le b a ≡ true
unfolding text_le
text_le_total [] b h = ground arith
text_le_total (x ∷ xs) [] h = refl
text_le_total (x ∷ xs) (y ∷ ys) h = ground (arith, text_le_total xs ys)

text_le_antisym : (a b : Text) → text_le a b ≡ true → text_le b a ≡ true → a ≡ b
unfolding text_le
text_le_antisym [] [] h g = refl
text_le_antisym [] (y ∷ ys) h g = absurd (cc g)
text_le_antisym (x ∷ xs) [] h g = absurd (cc h)
text_le_antisym (x ∷ xs) (y ∷ ys) h g =
    ap₂ ◌∷◌ (ground arith) (text_le_antisym xs ys (ground arith) (ground arith))

text_le_trans : (a b c : Text) → text_le a b ≡ true → text_le b c ≡ true → text_le a c ≡ true
unfolding text_le
text_le_trans [] b c h g = refl
text_le_trans (x ∷ xs) [] c h g = absurd (cc h)
text_le_trans (x ∷ xs) (y ∷ ys) [] h g = absurd (cc g)
text_le_trans (x ∷ xs) (y ∷ ys) (z ∷ zs) h g = ground (arith, text_le_trans xs ys zs)

insert_text_comm :
    (a b : Text) (ts : List Text)
    → insert_text a (insert_text b ts) ≡ insert_text b (insert_text a ts)
unfolding insert_text
insert_text_comm a b [] = ground (arith, text_le_total a b, text_le_total b a, text_le_antisym a b)
insert_text_comm a b (t ∷ ts) = ground (
  arith,
  text_le_total a b,
  text_le_total b a,
  text_le_antisym a b,
  text_le_trans a b t,
  text_le_trans b a t,
  insert_text_comm a b ts,
)

abbrev insert_all : List Text → List Text → List Text
insert_all ts ys = foldr insert_text ts ys

insert_text-insert_all :
    (a : Text) (ts ys : List Text)
    → insert_text a (insert_all ts ys) ≡ insert_all (insert_text a ts) ys
insert_text-insert_all a ts [] = refl
insert_text-insert_all a ts (y ∷ ys) =
    insert_text_comm a y (insert_all ts ys) ∙ ap (insert_text y) (insert_text-insert_all a ts ys)

insert_all_comm :
    (ts xs ys : List Text) → insert_all (insert_all ts ys) xs ≡ insert_all (insert_all ts xs) ys
insert_all_comm ts [] ys = refl
insert_all_comm ts (x ∷ xs) ys =
    ap (insert_text x) (insert_all_comm ts xs ys) ∙ insert_text-insert_all x (insert_all ts xs) ys

sort_texts-append : (xs ys : List Text) → sort_texts (xs ++ ys) ≡ insert_all (sort_texts ys) xs
unfolding sort_texts
sort_texts-append [] ys = refl
sort_texts-append (x ∷ xs) ys = ap (insert_text x) (sort_texts-append xs ys)

abbrev pub sorted : Option (List Text) → Option (List Text)
sorted none = none
sorted (some ts) = some (sort_texts ts)

-- The texts of one item take their places among sorted ones.
abbrev place : Option (List Text) → Option (List Text) → Option (List Text)
place none ready = none
place (some here) none = none
place (some here) (some ts) = some (insert_all ts here)

place_comm : (a b c : Option (List Text)) → place a (place b c) ≡ place b (place a c)
place_comm none none c = refl
place_comm none (some b) none = refl
place_comm none (some b) (some c) = refl
place_comm (some a) none none = refl
place_comm (some a) none (some c) = refl
place_comm (some a) (some b) none = refl
place_comm (some a) (some b) (some c) = ap some (insert_all_comm c a b)

sorted-both : (a b : Option (List Text)) → sorted (both a b) ≡ place a (sorted b)
sorted-both none b = refl
sorted-both (some a) none = refl
sorted-both (some a) (some b) = ap some (sort_texts-append a b)

module _ {ℓ} {A : Type ℓ} (f : A → Option (List Text)) where
  sorted-collect : (xs : List A) → sorted (collect f xs) ≡ foldr (λ x. place (f x)) (some []) xs
  unfolding collect sort_texts
  sorted-collect [] = refl
  sorted-collect (x ∷ xs) =
      ap sorted (collect-cons f x xs)
      ∙ sorted-both (f x) (collect f xs)
      ∙ ap (place (f x)) (sorted-collect xs)

  -- Once they are sorted, the texts do not show the order of the items.
  collect-Perm : {xs ys : List A} → Perm xs ys → sorted (collect f xs) ≡ sorted (collect f ys)
  collect-Perm {xs} {ys} same =
      sorted-collect xs
      ∙ Perm.foldr-eq (hlevel) (λ x. place (f x)) (λ a b c. place_comm (f a) (f b) c) same (some [])
      ∙ sym (sorted-collect ys)

-- All declarations of a package, in order.
abbrev pub decls_of : List File → List Decl
decls_of files = concat_map (λ (file : File). file.decls) files

abbrev pub finished : Option (List Text) → Option Text
finished entries = entries >>= λ ts. some (snapshot_header ++ join (codes "\n") ts ++ codes "\n")

finished-sorted :
    (c : Option (List Text))
    → (c >>= λ entries.
        some (snapshot_header ++ join (codes "\n") (sort_texts entries) ++ codes "\n"))
      ≡ finished (sorted c)
finished-sorted none = refl
finished-sorted (some c) = refl

pub snapshot_lem :
    (go : Go) (source : PackageSource)
    → snapshot go source
      ≡ finished (
          sorted (
            collect
              (decl_entries go (package_name go source.files) source.defs)
              (decls_of source.files)))
unfolding snapshot file_entries
snapshot_lem go source =
    finished-sorted (collect (file_entries go name source.defs) source.files)
    ∙ ap (λ c. finished (sorted c))
        (sym (
          collect-concat_map (file_entries go name source.defs) (decl_entries go name source.defs)
            (λ (file : File). file.decls) (λ file. refl) source.files))
  where
    name : Text
    name = package_name go source.files

-- A snapshot depends neither on the order of the declarations nor on the files that they stand in:
-- two packages of one name with the same declarations, in any order and in any files, and the same
-- objects have the same snapshot, and no snapshot of one exits with an error unless the other does.
pub snapshot-Perm :
    (go : Go) (source source' : PackageSource)
    → Perm (decls_of source.files) (decls_of source'.files)
    → package_name go source.files ≡ package_name go source'.files
    → source.defs ≡ source'.defs
    → snapshot go source ≡ snapshot go source'
snapshot-Perm go source source' same name defs =
    snapshot_lem go source
    ∙ ap finished (collect-Perm (decl_entries go (package_name go source.files) source.defs) same)
    ∙ ap₂ (λ n d. finished (sorted (collect (decl_entries go n d) (decls_of source'.files)))) name
        defs
    ∙ sym (snapshot_lem go source')
