-- ===== src/Util/BinarySearch/Laws.antt =====
-- About the binary search, in a list that does not decrease.
use genie_cloud.Base.{
  ℕ, zero, suc, ◌+◌, ◌-◌, ◌/◌, ◌≤◌, ◌<◌, ◌≡◌, refl, ◌⊎◌, inl, inr, ◌≢◌, List, [], ◌∷◌, true, false,
  some, arith, get_elem?, length, if◌then◌else◌, ◌==◌, Bool-cases,
}
use genie_cloud.Util.BinarySearch.{le_at, search_loop, binary_search}

-- No entry is above a later one.
abbrev pub IsSorted : List ℕ → Type 0
IsSorted xs = (i j x y : ℕ) → i ≤ j → get_elem? xs i ≡ some x → get_elem? xs j ≡ some y → x ≤ y

-- Every entry below `i` is below the value, and the one at `i` is not, or is the last.
pub record IsLowerBound (xs : List ℕ) (value i : ℕ) : Type 0 where
  pub inside : i < length xs
  pub below : (j x : ℕ) → j < i → get_elem? xs j ≡ some x → x < value
  pub reached : (le_at xs value i ≡ true) ⊎ (suc i ≡ length xs)

pub get_elem?_lt {ℓ} :
    {A : Type ℓ} (xs : List A) (i : ℕ) → i < length xs → (x : A) × (get_elem? xs i ≡ some x)
get_elem?_lt [] i h = elim h [ ]
get_elem?_lt (x ∷ xs) zero h = (x, refl)
get_elem?_lt (x ∷ xs) (suc i) h = get_elem?_lt xs i (omega arith)

pub lt_get_elem? {ℓ} :
    {A : Type ℓ} (xs : List A) (i : ℕ) {x : A} → get_elem? xs i ≡ some x → i < length xs
lt_get_elem? [] i h = cc
lt_get_elem? (x ∷ xs) zero h = omega arith
lt_get_elem? (x ∷ xs) (suc i) h = omega (arith, lt_get_elem? xs i h)

module _ (xs : List ℕ) (value : ℕ) (sorted : IsSorted xs) where
  Bounded : ℕ → Type 0
  Bounded i = (j x : ℕ) → j < i → get_elem? xs j ≡ some x → x < value

  below_of_not : (m : ℕ) → m < length xs → le_at xs value m ≡ false → Bounded (suc m)
  unfolding Bounded
  below_of_not m h e j x l g =
      let (y, at) = get_elem?_lt xs m h in
      let s : x ≤ y = sorted j m x y (omega arith) g at in ground arith

  -- What the loop keeps of its interval.
  record Inv (a b : ℕ) : Type 0 where
    order : a < b
    fits : b ≤ length xs
    left : Bounded a
    right : (b ≡ length xs) ⊎ (le_at xs value (b - 1) ≡ true)

  Found : ℕ → ℕ → ℕ → Type 0
  Found fuel a b = (i : ℕ) × (search_loop fuel xs value a b ≡ some i) × IsLowerBound xs value i

  found_pair :
      (a b : ℕ)
      → Inv a b
      → b - a ≡ 2
      → (i : ℕ) × ((if le_at xs value a then some a else some (a + 1)) ≡ some i)
        × IsLowerBound xs value i
  unfolding Bounded
  found_pair a b v e = elim (Bool-cases (le_at xs value a)) [
    | inl t ↦ (
      a,
      rw t,
      record { inside = omega (arith, v.order, v.fits); below = v.left; reached = inl t },
    )
    | inr t ↦
        let low = below_of_not a (omega (arith, v.order, v.fits)) t in
        (
          a + 1,
          rw t,
          record {
            inside = omega (arith, v.order, v.fits);
            below = λ j x l g. low j x (omega arith) g;
            reached = elim v.right [
              | inl end ↦ inr (omega (arith, v.order))
              | inr r ↦ inl (let e' : b - 1 ≡ a + 1 = omega (arith, v.order) in rw e' at r)
            ];
          },
        )
  ]

  wide_of_tests : (a b : ℕ) → a < b → (b - a == 1) ≡ false → (b - a == 2) ≡ false → a + 3 ≤ b
  wide_of_tests a b h one two = ground arith

  go_left :
      (a b : ℕ)
      → Inv a b
      → a + 3 ≤ b
      → le_at xs value ((a + b) / 2) ≡ true
      → Inv a ((a + b) / 2 + 1)
  unfolding Bounded
  go_left a b v w t = record {
    order = omega arith;
    fits = omega (arith, v.fits);
    left = v.left;
    right = inr (let e : (a + b) / 2 + 1 - 1 ≡ (a + b) / 2 = omega arith in rw e t);
  }

  go_right :
      (a b : ℕ) → Inv a b → a + 3 ≤ b → le_at xs value ((a + b) / 2) ≡ false → Inv ((a + b) / 2) b
  unfolding Bounded
  go_right a b v w t = record {
    order = omega arith;
    fits = v.fits;
    left = λ j x l g. below_of_not ((a + b) / 2) (omega (arith, v.fits)) t j x (omega arith) g;
    right = v.right;
  }

  search_loop_lem : (fuel a b : ℕ) → Inv a b → b - a ≤ fuel → Found fuel a b
  unfolding search_loop Found Bounded
  search_loop_lem zero a b v h = absurd (omega (arith, v.order))
  search_loop_lem (suc fuel) a b v h = elim (Bool-cases (b - a == 1)) [
    | inl one ↦ (
      a,
      rw one,
      record {
        inside = omega (arith, v.order, v.fits);
        below = v.left;
        reached = elim v.right [
          | inl e ↦ inr (ground (arith, v.order))
          | inr t ↦ inl (let e : b - 1 ≡ a = ground arith in rw e at t)
        ];
      },
    )
    | inr wide ↦ elim (Bool-cases (b - a == 2)) [
      | inl two ↦ rw (wide, two) (found_pair a b v (ground arith))
      | inr wider ↦
          let w = wide_of_tests a b v.order wide wider in
          elim (Bool-cases (le_at xs value ((a + b) / 2))) [
            | inl t ↦
                rw (wide, wider, t)
                  (search_loop_lem fuel a ((a + b) / 2 + 1) (go_left a b v w t) (omega arith))
            | inr t ↦
                rw (wide, wider, t)
                  (search_loop_lem fuel ((a + b) / 2) b (go_right a b v w t) (omega arith))
          ]
    ]
  ]

-- In a list that does not decrease and is not empty, the search ends, and its result is the lower
-- bound of the value: all entries before it are below the value, and it holds an entry that is
-- not below the value unless it is the last index.
pub binary_search-IsLowerBound :
    (xs : List ℕ) (value : ℕ)
    → IsSorted xs
    → xs ≢ []
    → (i : ℕ) × (binary_search xs value ≡ some i) × IsLowerBound xs value i
unfolding binary_search Found Bounded
binary_search-IsLowerBound [] value sorted h = absurd (h refl)
binary_search-IsLowerBound (x ∷ xs) value sorted h =
    search_loop_lem (x ∷ xs) value sorted (suc (length xs)) 0 (suc (length xs))
      (record {
        order = omega arith;
        fits = omega arith;
        left = λ j y l g. absurd (omega arith);
        right = inl refl;
      })
      (omega arith)
