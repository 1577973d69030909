-- ===== src/Util/Mturk.antt =====
-- util/mturk.ts: the start of the validation of a batch. The sampling of genie-toolkit and the tables
-- stand between the two streams that are modelled: the one that gathers the paraphrases of a sentence,
-- and the one that makes the rows of a HIT.
pub mod Gathering
mod Tests
use genie_cloud.Base.{
  ℕ, zero, suc, ◌+◌, ◌*◌, Bool, true, false, not, List, [], ◌∷◌, ◌++◌, Option, none, some, Text,
  codes, text_eq, if◌then◌else◌, ◌==◌, Result, ok, err, get_or,
}

pub data BatchStatus : Type 0 where
  created paraphrasing validating complete : BatchStatus

pub data MturkError : Type 0 where
  no_paraphrases already_closed : MturkError

-- The first part of `startValidation`: the status that the batch then has, and whether its HITs are
-- created.
unfoldable pub start_validation : BatchStatus → Result MturkError (BatchStatus × Bool)
start_validation created = err no_paraphrases
start_validation paraphrasing = ok (validating, true)
start_validation validating = ok (validating, false)
start_validation complete = err already_closed

-- `closeBatch`: the status, and whether the paraphrases without a verdict are approved.
unfoldable pub close_batch : BatchStatus → Bool → BatchStatus × Bool
close_batch status auto_approve = (complete, auto_approve)

pub record UnvalidatedRow : Type 0 where
  pub synthetic_id : ℕ
  pub synthetic : Text
  pub target_code : Text
  pub paraphrase_id : ℕ
  pub utterance : Text

-- A sentence with its paraphrases, as the accumulator pushes it.
pub record Group : Type 0 where
  pub synthetic_id : Option ℕ
  pub synthetic : Option Text
  pub target_code : Option Text
  pub paraphrases : List (ℕ × Text)

-- `Accumulator`: the group that is not yet pushed.
unfoldable pub empty_group : Group
empty_group = record { synthetic_id = none; synthetic = none; target_code = none; paraphrases = [] }

-- `_doFlush`: what is pushed, and the accumulator after it.
abbrev pub flush_of : List (ℕ × Text) → Group → List Group × Group
flush_of [] acc = ([], acc)
flush_of (p ∷ ps) acc = (acc ∷ [], record acc { paraphrases = [] })

unfoldable pub do_flush : Group → List Group × Group
do_flush acc = flush_of acc.paraphrases acc

abbrev pub same_id : Option ℕ → ℕ → Bool
same_id none n = false
same_id (some m) n = m == n

-- `_transform`
abbrev pub with_row : UnvalidatedRow → List (ℕ × Text) → Group
with_row row paraphrases = record {
  synthetic_id = some row.synthetic_id;
  synthetic = some row.synthetic;
  target_code = some row.target_code;
  paraphrases = paraphrases ++ (row.paraphrase_id, row.utterance) ∷ [];
}

unfoldable pub transform : UnvalidatedRow → Group → List Group × Group
unfolding do_flush
transform row acc =
    let flushed : List Group × Group =
      if same_id acc.synthetic_id row.synthetic_id then ([], acc) else do_flush acc in
    (flushed.0, with_row row flushed.1.paraphrases)

-- The stream: every row through `_transform`, then `_flush`.
unfoldable pub accumulate : Group → List UnvalidatedRow → List Group
unfolding transform do_flush
accumulate acc [] = (do_flush acc).0
accumulate acc (row ∷ rows) = let step = transform row acc in step.0 ++ accumulate step.1 rows

pub data InputKind : Type 0 where
  real fake_same fake_different : InputKind

pub record ValidationInput : Type 0 where
  pub batch : ℕ
  pub hit_id : ℕ
  pub kind : InputKind
  pub synthetic_id : ℕ
  pub paraphrase_id : Option Text
  pub paraphrase : Text

-- The columns of a HIT: for each of its sentences the id, and the ids and texts of its paraphrases.
abbrev pub Hit : Type 0
Hit = List (ℕ × List (Text × Text))

unfoldable pub validation_row : ℕ → ℕ → ℕ → Text × Text → ValidationInput
validation_row batch hit_id synthetic_id p =
    if text_eq p.0 (codes "-same")
    then record {
      batch = batch;
      hit_id = hit_id;
      kind = fake_same;
      synthetic_id = synthetic_id;
      paraphrase_id = none;
      paraphrase = p.1;
    }
    else if text_eq p.0 (codes "-different")
    then record {
      batch = batch;
      hit_id = hit_id;
      kind = fake_different;
      synthetic_id = synthetic_id;
      paraphrase_id = none;
      paraphrase = p.1;
    }
    else record {
      batch = batch;
      hit_id = hit_id;
      kind = real;
      synthetic_id = synthetic_id;
      paraphrase_id = some p.0;
      paraphrase = p.1;
    }

unfoldable pub sentence_rows : ℕ → ℕ → ℕ → List (Text × Text) → List ValidationInput
unfolding validation_row
sentence_rows batch hit_id synthetic_id [] = []
sentence_rows batch hit_id synthetic_id (p ∷ ps) =
    validation_row batch hit_id synthetic_id p ∷ sentence_rows batch hit_id synthetic_id ps

unfoldable pub hit_rows : ℕ → ℕ → Hit → List ValidationInput
unfolding sentence_rows
hit_rows batch hit_id [] = []
hit_rows batch hit_id (s ∷ ss) = sentence_rows batch hit_id s.0 s.1 ++ hit_rows batch hit_id ss

pub record HitInserter : Type 0 where
  pub batch : ℕ
  pub hit_count : ℕ
  pub had_error : Bool

-- `_write`: the rows that are inserted, none after an error.
unfoldable pub write : Hit → HitInserter → List ValidationInput × HitInserter
unfolding hit_rows
write hit w =
    if w.had_error
    then ([], w)
    else (hit_rows w.batch w.hit_count hit, record w { hit_count = suc w.hit_count })
