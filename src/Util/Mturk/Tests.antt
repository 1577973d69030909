-- ===== src/Util/Mturk/Tests.antt =====
-- util/mturk.ts: three rows of two sentences.
use genie_cloud.Base.{All, refl, List, ℕ, ◌≡◌, true, [], ◌∷◌, map, none, codes}
use genie_cloud.Util.Mturk.{UnvalidatedRow, empty_group, accumulate}
use genie_cloud.Util.Mturk.Gathering.{ungroup, entry, well_grouped, HasSentence, accumulate-groups}

abbrev row_of : ℕ → ℕ → UnvalidatedRow
row_of sentence paraphrase = record {
  synthetic_id = sentence;
  synthetic = codes "get it";
  target_code = codes "now";
  paraphrase_id = paraphrase;
  utterance = codes "fetch it";
}

abbrev three_rows : List UnvalidatedRow
three_rows = row_of 1 10 ∷ row_of 1 11 ∷ row_of 2 12 ∷ []

accumulate-groups_example :
    (ungroup (accumulate empty_group three_rows) ≡ map entry three_rows)
    × (well_grouped none (accumulate empty_group three_rows) ≡ true)
    × All
        (HasSentence (λ id. codes "get it") (λ id. codes "now"))
        (accumulate empty_group three_rows)
accumulate-groups_example =
    accumulate-groups (λ id. codes "get it") (λ id. codes "now") three_rows
      ((refl, refl), ((refl, refl), ((refl, refl), tt)))
