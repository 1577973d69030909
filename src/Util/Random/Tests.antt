-- ===== src/Util/Random/Tests.antt =====
-- util/random.ts: two of four items; once the last is taken, the first free one follows.
use genie_cloud.Base.{ℕ, ◌≡◌, ◌-◌, refl, some, List, [], ◌∷◌, false, replicate, arith}
use genie_cloud.Util.Random.{choose, choose_indices}
use genie_cloud.Util.Random.Choosing.{InRange, Chosen, choose_indices-differ}

abbrev highest : ℕ → ℕ → ℕ
highest count bound = bound - 1

abbrev four : List ℕ
four = 10 ∷ 11 ∷ 12 ∷ 13 ∷ []

last_then_first : choose highest four 2 ≡ some (13 ∷ 10 ∷ [])
unfolding choose
last_then_first = refl

highest-InRange : InRange highest
highest-InRange count bound = omega arith

choose_indices-differ_example :
    Chosen (replicate 4 false) 2 (choose_indices highest 2 0 (replicate 4 false))
choose_indices-differ_example = choose_indices-differ highest 2 4 highest-InRange (omega arith)
