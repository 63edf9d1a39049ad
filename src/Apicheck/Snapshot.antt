-- ===== src/Apicheck/Snapshot.antt =====
-- cmd/apicheck/main.go: the snapshot of a package's exported declarations, and the check of it.
use disruptor_go.Prelude.{
  ℕ, Bool, true, false, List, [], ◌∷◌, ◌++◌, Option, none, some, ◌||◌, not, if◌then◌else◌,
}
use disruptor_go.Apicheck.{
  Ident, Spec, import_spec, type_spec, value_spec, GenDecl, FuncDecl, Decl, gen_decl, func_decl,
  bad_decl, File, Object, PackageSource, Go, exported, exported_receiver,
}
use disruptor_go.Apicheck.Texts.{Text, codes, same_text, sort_texts, join, trim_prefix, has_suffix}
use disruptor_go.Apicheck.Render.{◌>>=◌, collect, render_type, render_func}

-- `snapshotHeader`
abbrev pub snapshot_header : Text
snapshot_header =
    codes "# lib-disruptor exported API\n# Generated by cmd/apicheck; do not edit manually.\n\n"

module _ (go : Go) where
  -- publicTypeString
  unfoldable pub public_type_string : ℕ → Text → Text
  unfolding same_text trim_prefix
  public_type_string type package_name =
      trim_prefix (go.type_string type (λ name. if same_text name package_name then [] else name))
        (codes ".")

  -- `source.files[0].Name.Name`; the command never has a package without files.
  abbrev pub package_name : List File → Text
  package_name [] = []
  package_name (file ∷ files) = file.name

  abbrev constant_text : Option Text → Text
  constant_text none = []
  constant_text (some value) = codes " = " ++ value

  object_text : Text → Option Object → Text
  unfolding public_type_string
  object_text package_name none = []
  object_text package_name (some object) = elim object.type [
    | none ↦ []
    | some type ↦ codes " " ++ public_type_string type package_name ++ constant_text object.value
  ]

  -- Whether a function or a method belongs to the snapshot.
  unfoldable pub public_func : FuncDecl → Bool
  unfolding exported_receiver
  public_func declaration =
      if exported go declaration.name
      then elim declaration.recv [ none ↦ true | some fields ↦ exported_receiver go fields ]
      else false

  module _ (name_of_package : Text) (defs : Ident → Option Object) where
    -- The entries of a name of a `ValueSpec`.
    unfoldable pub value_entries : Text → Ident → Option (List Text)
    unfolding object_text
    value_entries tok name =
        if exported go name
        then some ((tok ++ codes " " ++ name.name ++ object_text name_of_package (defs name)) ∷ [])
        else some []

    unfoldable pub spec_entries : Text → Spec → Option (List Text)
    unfolding render_type value_entries collect
    spec_entries tok (import_spec node) = some []
    spec_entries tok (type_spec specification) =
        if exported go specification.name
        then (do text ← render_type go specification; some (text ∷ []))
        else some []
    spec_entries tok (value_spec names) = collect (value_entries tok) names

    -- declarationEntries
    unfoldable pub declaration_entries : GenDecl → Option (List Text)
    unfolding spec_entries collect
    declaration_entries declaration = collect (spec_entries declaration.tok) declaration.specs

    -- One round of the loop of `snapshot` over declarations.
    unfoldable pub decl_entries : Decl → Option (List Text)
    unfolding declaration_entries public_func render_func
    decl_entries (gen_decl declaration) = declaration_entries declaration
    decl_entries (func_decl declaration) =
        if public_func declaration
        then (do text ← render_func go declaration; some (text ∷ []))
        else some []
    decl_entries (bad_decl node) = some []

    unfoldable pub file_entries : File → Option (List Text)
    unfolding decl_entries collect
    file_entries file = collect decl_entries file.decls

  -- `snapshot` of a loaded package
  unfoldable pub snapshot : PackageSource → Option Text
  unfolding file_entries collect sort_texts join
  snapshot source = do
    entries ← collect (file_entries (package_name source.files) source.defs) source.files
    some (snapshot_header ++ join (codes "\n") (sort_texts entries) ++ codes "\n")

-- An entry of a directory.
pub record DirEntry : Type 0 where
  pub name : Text
  pub is_dir : Bool

unfoldable pub is_source : DirEntry → Bool
unfolding has_suffix
is_source entry = not (
    entry.is_dir
    || not (has_suffix entry.name (codes ".go"))
    || has_suffix entry.name (codes "_test.go"))

-- The loop of `loadPackage` over a directory; `none` is an error of the parser.
unfoldable pub parse_files : (Text → Option File) → List DirEntry → Option (List File)
unfolding is_source
parse_files parse_file [] = some []
parse_files parse_file (entry ∷ rest) =
    let later = parse_files parse_file rest in
    if is_source entry
    then (do tree ← parse_file entry.name; trees ← later; some (tree ∷ trees))
    else later

-- What follows it: a package without files is an error, and so is one of the type checker.
unfoldable pub check_package :
    (List File → Option (Ident → Option Object)) → List File → Option PackageSource
check_package check_files [] = none
check_package check_files (file ∷ files) = do
  defs ← check_files (file ∷ files)
  some (record { files = file ∷ files; defs = defs })

-- `loadPackage` over a directory's entries, Go's parser and its type checker.
unfoldable pub load_package :
    (Text → Option File)
    → (List File → Option (Ident → Option Object))
    → Option (List DirEntry)
    → Option PackageSource
unfolding parse_files check_package
load_package parse_file check_files entries = do
  files ← entries
  parsed ← parse_files parse_file files
  check_package check_files parsed

-- What the command does: it prints the snapshot, finds the baseline up to date, or exits with 1 as
-- the API differs or as there is an error.
pub data Outcome : Type 0 where
  prints : (output : Text) → Outcome
  passes differs fails : Outcome

-- The comparison with what is read from the baseline.
unfoldable pub compared : Option Text → Text → Outcome
unfolding same_text
compared none output = fails
compared (some expected) output = if same_text expected output then passes else differs

-- `main`, of what `snapshot` returns, the name of the baseline, and what is read from it
unfoldable pub run : Option Text → Text → (Text → Option Text) → Outcome
unfolding compared
run none check read_file = fails
run (some output) [] read_file = prints output
run (some output) (c ∷ check) read_file = compared (read_file (c ∷ check)) output
