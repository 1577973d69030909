-- ===== src/Util/BinarySearch.antt =====
-- util/binary_search.ts: the first index whose entry is not below the value. `none` is `undefined`.
pub mod Laws
mod Tests
use genie_cloud.Base.{
  ℕ, zero, suc, ◌+◌, ◌-◌, ◌/◌, Bool, false, List, [], ◌∷◌, Option, none, some, leb, ◌==◌,
  if◌then◌else◌, get_elem?, length,
}

-- `value <= cumsum[i]`, which is false where `cumsum[i]` is undefined.
abbrev pub le_at : List ℕ → ℕ → ℕ → Bool
le_at cumsum value i = elim (get_elem? cumsum i) [ none ↦ false | some x ↦ leb value x ]

-- The loop. Each round shortens `b - a`, so that fuel for `b - a` rounds suffices.
pub search_loop : ℕ → List ℕ → ℕ → ℕ → ℕ → Option ℕ
search_loop zero cumsum value a b = none
search_loop (suc fuel) cumsum value a b =
    let m = (a + b) / 2 in
    let left = search_loop fuel cumsum value a (m + 1) in
    let right = search_loop fuel cumsum value m b in
    if b - a == 1
    then some a
    else if b - a == 2
    then (if le_at cumsum value a then some a else some (a + 1))
    else (if le_at cumsum value m then left else right)

unfoldable pub binary_search : List ℕ → ℕ → Option ℕ
unfolding search_loop
binary_search [] value = none
binary_search (x ∷ xs) value = search_loop (length (x ∷ xs)) (x ∷ xs) value 0 (length (x ∷ xs))
