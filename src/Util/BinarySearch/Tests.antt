-- ===== src/Util/BinarySearch/Tests.antt =====
-- The search on concrete lists.
use genie_cloud.Base.{ℕ, zero, suc, arith, some-injective, List, [], ◌∷◌, ◌≡◌, refl, none, some}
use genie_cloud.Util.BinarySearch.{binary_search}
use genie_cloud.Util.BinarySearch.Laws.{IsSorted, IsLowerBound, binary_search-IsLowerBound}

abbrev offsets : List ℕ
offsets = 0 ∷ 10 ∷ 20 ∷ 40 ∷ 50 ∷ []

two_offsets : IsSorted (0 ∷ 10 ∷ [])
two_offsets zero zero x y h p q = omega (arith, some-injective _ _ p, some-injective _ _ q)
two_offsets zero (suc zero) x y h p q = omega (arith, some-injective _ _ p)
two_offsets zero (suc (suc j)) x y h p q = cc
two_offsets (suc zero) zero x y h p q = absurd (omega (arith, h))
two_offsets (suc zero) (suc zero) x y h p q =
    omega (arith, some-injective _ _ p, some-injective _ _ q)
two_offsets (suc zero) (suc (suc j)) x y h p q = cc
two_offsets (suc (suc i)) j x y h p q = cc

binary_search-IsLowerBound_example :
    (i : ℕ) × (binary_search (0 ∷ 10 ∷ []) 7 ≡ some i) × IsLowerBound (0 ∷ 10 ∷ []) 7 i
binary_search-IsLowerBound_example =
    binary_search-IsLowerBound (0 ∷ 10 ∷ []) 7 two_offsets (λ e. cc)

search_tests :
    (binary_search offsets 10 ≡ some 1)
    × (binary_search offsets 11 ≡ some 2)
    × (binary_search offsets 99 ≡ some 4)
    × (binary_search [] 3 ≡ none)
unfolding binary_search
search_tests = (refl, refl, refl, refl)
