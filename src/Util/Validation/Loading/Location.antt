-- ===== src/Util/Validation/Loading/Location.antt =====
-- util/validation.ts: where `loadClassDef` says that a syntax error is.
use genie_cloud.Base.{ℕ, suc, ◌+◌, ◌-◌, ◌≡◌, Text, split, if◌then◌else◌, leb, ◌==◌, length, arith}
use genie_cloud.Util.Validation.Loading.{FileName, manifest_file, dataset_file, located, locate}

-- Where a line of the two texts stands, with a line break between them.
unfoldable pub place : ℕ → ℕ → FileName × ℕ
place class_lines line =
    if leb line class_lines then (manifest_file, line) else (dataset_file, line - class_lines)

-- The place of a line, but for the first one of the dataset.
unfoldable pub reported : ℕ → ℕ → FileName × ℕ
unfolding place
reported class_lines line =
    if line == suc class_lines then (manifest_file, line) else place class_lines line

located-reported : (n line : ℕ) → located (1 + n) line ≡ reported n line
unfolding reported place
located-reported n line = ground arith

-- The file and the line that an error is reported at are those where it is, but for an error in the
-- first line of the dataset, which is reported at the line after the last one of the manifest.
pub locate-reported :
    (class_code : Text) (line : ℕ)
    → locate class_code line ≡ reported (length (split 10 class_code)) line
unfolding locate
locate-reported class_code line = located-reported (length (split 10 class_code)) line
