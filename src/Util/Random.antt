-- ===== src/Util/Random.antt =====
-- util/random.ts: choosing some of a list. A draw is `Math.floor(rng() * k)` for the number of the draw
-- and the bound `k`, an argument.
pub mod Choosing
mod Tests
use genie_cloud.Base.{
  ℕ, zero, suc, ◌+◌, ◌-◌, Bool, true, false, not, List, [], ◌∷◌, ◌++◌, map, Option, none, some,
  if◌then◌else◌, ◌==◌, leb, length, get_elem?, set, replicate,
}

-- The length of the sparse array `taken`: one more than the last index that was set.
unfoldable pub taken_length : List Bool → ℕ
taken_length [] = 0
taken_length (t ∷ ts) =
    let rest = taken_length ts in if rest == 0 then if t then 1 else 0 else suc rest

abbrev pub next_index : Option ℕ → Option ℕ
next_index none = none
next_index (some i) = some (suc i)

-- The loop of `next`: the index of the free item of a number; `none` is its assertion.
unfoldable pub free_at : ℕ → List Bool → Option ℕ
free_at idx [] = none
free_at idx (true ∷ ts) = next_index (free_at idx ts)
free_at zero (false ∷ ts) = some 0
free_at (suc idx) (false ∷ ts) = next_index (free_at idx ts)

abbrev pub prepend : ℕ → Option (List ℕ) → Option (List ℕ)
prepend i none = none
prepend i (some is) = some (i ∷ is)

abbrev pub choose_by : (ℕ → Option (List ℕ)) → Option ℕ → Option (List ℕ)
choose_by rest none = none
choose_by rest (some i) = prepend i (rest i)

abbrev pub items : {A : Type 0} → List A → List ℕ → List A
items from [] = []
items from (i ∷ is) =
    let rest = items from is in elim (get_elem? from i) [ none ↦ rest | some a ↦ a ∷ rest ]

module _ (draw : ℕ → ℕ → ℕ) where
  -- `next`, at a draw.
  unfoldable pub next : ℕ → List Bool → Option ℕ
  unfolding free_at taken_length
  next count taken = free_at (draw count (length taken - taken_length taken)) taken

  -- The loop of `choose`: the indices, where a number of items is still to be chosen.
  unfoldable pub choose_indices : ℕ → ℕ → List Bool → Option (List ℕ)
  unfolding next
  choose_indices zero count taken = some []
  choose_indices (suc n) count taken =
      choose_by (λ i. choose_indices n (suc count) (set taken i true)) (next count taken)

  -- `choose`; an index of `taken` that was not set reads as false.
  unfoldable pub choose : {A : Type 0} → List A → ℕ → Option (List A)
  unfolding choose_indices
  choose from n =
      if n == 0
      then some []
      else if leb (length from) n
      then some from
      else elim (choose_indices n 0 (replicate (length from) false)) [
        | none ↦ none
        | some is ↦ some (items from is)
      ]

  unfoldable pub uniform : {A : Type 0} → ℕ → List A → Option A
  uniform count array = get_elem? array (draw count (length array))
