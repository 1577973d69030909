-- ===== src/Util/Random/Choosing.antt =====
-- util/random.ts: what is chosen.
use genie_cloud.Base.{
  ℕ, zero, suc, ◌-◌, ◌≡◌, ◌≢◌, ◌≤◌, ◌<◌, refl, sym, ap, ◌∙◌, subst, Bool, true, false, not, ◌&&◌,
  List, [], ◌∷◌, Option, some, some-injective, ◌==◌, ==_iff, all_of, length, get_elem?, set,
  get_elem?-set_self, get_elem?-set_ne, replicate, All, Bool-cases, inl, inr, arith,
}
use genie_cloud.Util.Random.{taken_length, free_at, next, choose_indices}

-- How many items are free.
abbrev pub free : List Bool → ℕ
free [] = 0
free (true ∷ ts) = free ts
free (false ∷ ts) = suc (free ts)

-- A draw stays below its bound, and is zero where the bound is.
abbrev pub InRange : (ℕ → ℕ → ℕ) → Type 0
InRange draw = (count bound : ℕ) → draw count bound ≤ bound - 1

free-length : (ts : List Bool) → free ts ≤ length ts
free-length [] = omega arith
free-length (true ∷ ts) = omega (arith, free-length ts)
free-length (false ∷ ts) = omega (arith, free-length ts)

free-taken_length : (ts : List Bool) → length ts - taken_length ts ≤ free ts
unfolding taken_length
free-taken_length [] = omega arith
free-taken_length (true ∷ ts) = ground (arith, free-taken_length ts)
free-taken_length (false ∷ ts) = ground (arith, free-taken_length ts)

-- What is found is free, and taking it leaves one free item less.
record Found (taken : List Bool) (out : Option ℕ) : Type 0 where
  index : ℕ
  found : out ≡ some index
  is_free : get_elem? taken index ≡ some false
  fewer : suc (free (set taken index true)) ≡ free taken

free_at-Found : (idx : ℕ) (taken : List Bool) → idx < free taken → Found taken (free_at idx taken)
unfolding free_at
free_at-Found idx [] h = absurd (omega (arith, h))
free_at-Found idx (true ∷ ts) h =
    let f = free_at-Found idx ts h in
    record { index = suc f.index; found = rw f.found refl; is_free = f.is_free; fewer = f.fewer }
free_at-Found zero (false ∷ ts) h = record { index = 0; found = refl; is_free = refl; fewer = refl }
free_at-Found (suc idx) (false ∷ ts) h =
    let f = free_at-Found idx ts (omega (arith, h)) in
    record {
      index = suc f.index;
      found = rw f.found refl;
      is_free = f.is_free;
      fewer = ap suc f.fewer;
    }

-- Each index differs from the later ones.
unfoldable pub all_differ : List ℕ → Bool
all_differ [] = true
all_differ (i ∷ is) = all_of (λ j. not (i == j)) is && all_differ is

-- So many different indices, all of them free.
pub record Chosen (taken : List Bool) (n : ℕ) (out : Option (List ℕ)) : Type 0 where
  pub indices : List ℕ
  pub chosen : out ≡ some indices
  pub count : length indices ≡ n
  pub are_free : All (λ i. get_elem? taken i ≡ some false) indices
  pub differ : all_differ indices ≡ true

some_index : (taken : List Bool) (i : ℕ) (b : Bool) → get_elem? taken i ≡ some b → i < length taken
some_index [] i b h = absurd (ground arith)
some_index (t ∷ ts) zero b h = omega arith
some_index (t ∷ ts) (suc i) b h = omega (arith, some_index ts i b h)

-- What is free once an item was taken was free before, and is another item.
still_free :
    (taken : List Bool) (i : ℕ) (is : List ℕ)
    → i < length taken
    → All (λ j. get_elem? (set taken i true) j ≡ some false) is
    → All (λ j. get_elem? taken j ≡ some false) is × (all_of (λ j. not (i == j)) is ≡ true)
still_free taken i [] h a = (tt, refl)
still_free taken i (j ∷ is) h a = elim (Bool-cases (i == j)) [
  | inl q ↦
      let same =
        subst (λ k. get_elem? (set taken i true) k ≡ some false) (sym ((==_iff i j).0 q)) a.0 in
      absurd (true_false (some-injective _ _ (sym (get_elem?-set_self taken i true h) ∙ same)))
  | inr q ↦
      let later = still_free taken i is h a.1 in
      ((sym (get_elem?-set_ne taken true (differ_of i j q)) ∙ a.0, later.0), rw (q, later.1) refl)
]
  where
    true_false : true ≡ false → ⊥
    true_false e = absurd (ground arith)

    differ_of : (i j : ℕ) → (i == j) ≡ false → i ≢ j
    differ_of i j q e = absurd (ground arith)

choose_indices-Chosen :
    (draw : ℕ → ℕ → ℕ) (n count : ℕ) (taken : List Bool)
    → InRange draw
    → n ≤ free taken
    → Chosen taken n (choose_indices draw n count taken)
unfolding choose_indices next all_differ
choose_indices-Chosen draw zero count taken d h = record {
  indices = [];
  chosen = refl;
  count = refl;
  are_free = tt;
  differ = refl;
}
choose_indices-Chosen draw (suc n) count taken d h =
    let bound = length taken - taken_length taken in
    let f =
      free_at-Found (draw count bound) taken
        (omega (arith, h, d count bound, free-taken_length taken)) in
    let rest =
      choose_indices-Chosen draw n (suc count) (set taken f.index true) d
        (omega (arith, h, f.fewer)) in
    let apart =
      still_free taken f.index rest.indices (some_index taken f.index false f.is_free)
        rest.are_free in
    record {
      indices = f.index ∷ rest.indices;
      chosen = rw (f.found, rest.chosen) refl;
      count = ap suc rest.count;
      are_free = (f.is_free, apart.0);
      differ = rw (apart.1, rest.differ) refl;
    }

free-replicate : (n : ℕ) → free (replicate n false) ≡ n
free-replicate zero = refl
free-replicate (suc n) = ap suc (free-replicate n)

-- Where every draw stays below its bound and no more items are asked for than there are, the loop of
-- `choose` ends without its assertion, with as many indices as were asked for, all of them within the
-- list and different.
pub choose_indices-differ :
    (draw : ℕ → ℕ → ℕ) (n len : ℕ)
    → InRange draw
    → n ≤ len
    → Chosen (replicate len false) n (choose_indices draw n 0 (replicate len false))
choose_indices-differ draw n len d h =
    choose_indices-Chosen draw n 0 (replicate len false) d (omega (arith, h, free-replicate len))
