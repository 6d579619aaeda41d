-- ===== src/Nix/Queries/Tests.antt =====
-- crates/drv-thru/src/nix.rs: programs that print what Nix would.
use drv_thru.Base.{ℕ, ◌≡◌, refl, Bool, true, false, [], ◌∷◌, ◌++◌, some, ok, All}
use drv_thru.Text.{Text, codes, text_eq}
use drv_thru.Nix.StorePath.{StorePath, texts, new}
use drv_thru.Nix.StorePath.Laws.{IsStorePath, new_iff}
use drv_thru.Nix.Queries.{
  Programs, Upload, missing_paths, query_closure, run_command, output_lines, path_arg_chunk_size,
  eval_args, EvalOptions,
}
use drv_thru.Nix.Queries.Missing.{Answers, invalid, missing_paths-invalid}
use drv_thru.Protocol.PathChunks.Chunks.{chunks}

abbrev one : StorePath
one = record { text = codes "/nix/store/00000000000000000000000000000000-a" }

abbrev two : StorePath
two = record { text = codes "/nix/store/11111111111111111111111111111111-b" }

abbrev printed : Text
printed = two.text ++ (10 ∷ [])

abbrev listed : Text
listed = two.text ++ 10 ∷ (one.text ++ 10 ∷ (two.text ++ 10 ∷ []))

-- Every call prints the same.
abbrev prints : Text → Programs
prints out program args = some (record { success = true; stdout = some out; stderr = [] })

abbrev valid : Text → Bool
valid t = text_eq t one.text

one_valid : IsStorePath one.text
unfolding new
one_valid = ((new_iff one.text one).0 made).1
  where
    made : new one.text ≡ ok one
    made = refl

two_valid : IsStorePath two.text
unfolding new
two_valid = ((new_iff two.text two).0 made).1
  where
    made : new two.text ≡ ok two
    made = refl

one_answer : All (Answers (prints printed) valid) (chunks path_arg_chunk_size (one ∷ two ∷ []))
unfolding chunks output_lines text_eq
one_answer = ((printed, refl, refl), tt)

missing_paths-invalid_example :
    missing_paths (prints printed) (one ∷ two ∷ []) ≡ ok (invalid valid (one ∷ two ∷ []))
missing_paths-invalid_example =
    missing_paths-invalid (prints printed) valid (one ∷ two ∷ []) (one_valid, (two_valid, tt))
      one_answer

closed : query_closure (prints listed) (one ∷ []) ≡ ok (two ∷ one ∷ [])
unfolding query_closure
closed = refl

ran : run_command (prints listed) (codes "nix-store") (codes "-qR" ∷ texts (one ∷ [])) ≡ ok listed
unfolding run_command
ran = refl

abbrev ten : ℕ
ten = 10

abbrev upload : Upload
upload = record { bytes = ten; broken = false; imports = true }

abbrev options : EvalOptions
options = record { impure = true; refresh = false; override_inputs = [] }

arguments :
    eval_args (codes "build" ∷ []) (codes "nixpkgs#hello") options
    ≡ codes "build" ∷ codes "--impure" ∷ codes "nixpkgs#hello" ∷ []
unfolding eval_args
arguments = refl
