-- ===== src/Apicheck/Loading.antt =====
-- cmd/apicheck/main.go: which files of a directory are part of the package.
use disruptor_go.Prelude.{◌≡◌, refl, ap, ◌⊎◌, true, false, List, [], ◌∷◌, ◌++◌, Option, some, arith}
use disruptor_go.Apicheck.{File, Ident, Object}
use disruptor_go.Apicheck.Texts.{Text, codes, has_suffix}
use disruptor_go.Apicheck.Render.{◌>>=◌}
use disruptor_go.Apicheck.Snapshot.{DirEntry, is_source, parse_files, check_package, load_package}

-- A directory, a test, or a file of another kind.
abbrev pub IsSkipped : DirEntry → Type 0
IsSkipped entry =
    (entry.is_dir ≡ true)
    ⊎ (has_suffix entry.name (codes "_test.go") ≡ true)
    ⊎ (has_suffix entry.name (codes ".go") ≡ false)

skipped : (entry : DirEntry) → IsSkipped entry → is_source entry ≡ false
unfolding is_source
skipped entry h = ground arith

parse_files-skipped :
    (parse_file : Text → Option File) (before after : List DirEntry) (entry : DirEntry)
    → IsSkipped entry
    → parse_files parse_file (before ++ entry ∷ after) ≡ parse_files parse_file (before ++ after)
unfolding parse_files
parse_files-skipped parse_file [] after entry h = rw (skipped entry h) refl
parse_files-skipped parse_file (b ∷ before) after entry h =
    rw (parse_files-skipped parse_file before after entry h) refl

-- A directory, a test file or a file that is not Go's does not matter, wherever it stands among the
-- entries: the same package is loaded with it and without it, or none.
pub load_package-skipped :
    (parse_file : Text → Option File) (check_files : List File → Option (Ident → Option Object))
    (before after : List DirEntry) (entry : DirEntry)
    → IsSkipped entry
    → load_package parse_file check_files (some (before ++ entry ∷ after))
      ≡ load_package parse_file check_files (some (before ++ after))
unfolding load_package
load_package-skipped parse_file check_files before after entry h =
    ap (λ parsed. parsed >>= check_package check_files)
      (parse_files-skipped parse_file before after entry h)
