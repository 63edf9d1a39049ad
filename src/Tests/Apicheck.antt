-- ===== src/Tests/Apicheck.antt =====
-- The theorems on the API check, for a package of two files.
use mathlib.Core.List.{Perm}
use mathlib.Core.List.Perm
use disruptor_go.Prelude.{
  ◌≡◌, ◌≢◌, ◌↔◌, inl, refl, Bool, false, ◌&&◌, leb, List, [], ◌∷◌, ◌++◌, Option, none, some,
}
use disruptor_go.Apicheck.{
  Ident, Expr, ident, other, Field, struct_type, type_spec, value_spec, import_spec, Decl, gen_decl,
  func_decl, FuncDecl, File, PackageSource, Node, expr_node, field_node, func_node, Go,
  embedded_exported,
}
use disruptor_go.Apicheck.Texts.{Text, codes}
use disruptor_go.Apicheck.Render.{render_public_struct, render_func}
use disruptor_go.Apicheck.Snapshot.{snapshot, public_func, run, passes, DirEntry}
use disruptor_go.Apicheck.Order.{decls_of, snapshot-Perm}
use disruptor_go.Apicheck.Embedded.{render_public_struct-embedded}
use disruptor_go.Apicheck.Baseline.{run-passes}
use disruptor_go.Apicheck.Listed.{Part, snapshot-public_func}

-- A formatter that prints names alone.
abbrev names_of : List Ident → Text
names_of [] = []
names_of (name ∷ names) = name.name ++ names_of names

abbrev formatted : Node → Option Text
formatted (expr_node x) = some (codes "x")
formatted (field_node field) = some (codes "struct {" ++ names_of field.names ++ codes "}")
formatted (func_node d) = some (codes "func " ++ d.name.name)

abbrev upper : Text → Bool
upper [] = false
upper (c ∷ t) = leb 65 c && leb c 90

abbrev go : Go
go = record {
  is_exported = upper;
  format_node = formatted;
  type_string = λ type qualifier. codes "int";
  trim_space = λ t. t;
}

abbrev called : Text → Ident
called name = record { name = name; position = 0 }

abbrev field_of : List Ident → Expr → Field
field_of names type = record { doc = none; names = names; type = type; tag = none; comment = none }

abbrev size : Field
size = field_of (called (codes "size") ∷ []) (other 1)

abbrev value : Field
value = field_of (called (codes "Value") ∷ []) (other 1)

abbrev base : Field
base = field_of [] (ident (called (codes "Base")))

-- type Ring struct { size int; Value int }, const Max and an import
abbrev types : Decl
types = gen_decl (record {
  tok = codes "type";
  specs =
      import_spec 1
      ∷ type_spec (record {
        name = called (codes "Ring");
        type_params = none;
        type = struct_type (size ∷ value ∷ []);
      })
      ∷ value_spec (called (codes "Max") ∷ called (codes "min") ∷ [])
      ∷ [];
})

abbrev function : Text → FuncDecl
function name = record { doc = none; recv = none; name = called name; type = 1; body = some 1 }

abbrev package_of : List Decl → List Decl → PackageSource
package_of first second = record {
  files =
      record { name = codes "disruptor"; decls = first }
      ∷ record { name = codes "disruptor"; decls = second }
      ∷ [];
  defs = λ name. some (record { type = some 1; value = some (codes "8") });
}

abbrev create : Decl
create = func_decl (function (codes "New"))

abbrev helper : Decl
helper = func_decl (function (codes "wrap"))

abbrev library : PackageSource
library = package_of (types ∷ []) (helper ∷ create ∷ [])

abbrev moved : PackageSource
moved = package_of [] (helper ∷ create ∷ types ∷ [])

rotated : Perm (decls_of library.files) (decls_of moved.files)
rotated =
    Perm.trans (Perm.swap helper types (create ∷ [])) (Perm.cons helper (Perm.swap create types []))

snapshot-Perm_example : snapshot go library ≡ snapshot go moved
snapshot-Perm_example = snapshot-Perm go library moved rotated refl refl

render_public_struct-embedded_example :
    render_public_struct go (size ∷ [] ++ base ∷ value ∷ [])
    ≡ render_public_struct go (size ∷ [] ++ value ∷ [])
unfolding embedded_exported
render_public_struct-embedded_example =
    render_public_struct-embedded go base refl (size ∷ []) (value ∷ []) refl

run-passes_example :
    (run (some (codes "api")) (codes "api.txt") (λ name. some (codes "api")) ≡ passes) ↔ (
      (◌≢◌ {A = Text} (codes "api.txt") [])
      × ((text : Text) × (◌≡◌ {A = Option Text} (some (codes "api")) (some text))
          × (◌≡◌ {A = Option Text} (some (codes "api")) (some text))))
run-passes_example = run-passes (some (codes "api")) (codes "api.txt") (λ name. some (codes "api"))

abbrev output : Text
output = elim (snapshot go library) [ none ↦ [] | some text ↦ text ]

snapshot-public_func_example :
    (text : Text) × (render_func go (function (codes "New")) ≡ some text) × Part text output
unfolding snapshot public_func
snapshot-public_func_example =
    snapshot-public_func go library (function (codes "New")) (types ∷ helper ∷ []) [] output refl
      (refl, inl refl) refl

abbrev test_file : DirEntry
test_file = record { name = codes "ring_test.go"; is_dir = false }

abbrev go_file : DirEntry
go_file = record { name = codes "ring.go"; is_dir = false }

abbrev parsed : Text → Option File
parsed name = some (record { name = name; decls = [] })
