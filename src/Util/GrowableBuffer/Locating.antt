-- ===== src/Util/GrowableBuffer/Locating.antt =====
-- About the chunk of an offset, and the search for it.
use genie_cloud.Base.{
  ℕ, zero, suc, ◌+◌, ◌-◌, ◌≤◌, ◌<◌, ◌≡◌, refl, ap, ◌∙◌, inl, inr, List, [], ◌∷◌, some, true, false,
  ok, arith, get_elem?, length, All-get, leb, Bool-cases, ltb, dec_lt,
}
use genie_cloud.Util.BinarySearch.{le_at}
use genie_cloud.Util.BinarySearch.Laws.{
  IsSorted, IsLowerBound, binary_search-IsLowerBound, get_elem?_lt,
}
use genie_cloud.Util.GrowableBuffer.{GrowableBuffer, find_buffer, step_back, gt_at, ge_at}
use genie_cloud.Util.GrowableBuffer.Layout.{
  starts, start_of, length-starts, get_elem?-starts, starts_get, start_of-suc, start_of_total,
  start_of_mono,
}
use genie_cloud.Util.GrowableBuffer.Invariant.{IsValid}

-- Where an offset lies: the chunk, its start and the position in it.
pub record Located (s : GrowableBuffer) (offset i : ℕ) (b : List ℕ) : Type 0 where
  pub chunk : get_elem? s.buffers i ≡ some b
  pub begins : get_elem? s.offsets i ≡ some (start_of s.buffers i)
  pub after : start_of s.buffers i ≤ offset
  pub before : offset < start_of s.buffers i + length b

starts-IsSorted : (bs : List (List ℕ)) → IsSorted (starts 0 bs)
starts-IsSorted bs i j x y h p q =
    omega (arith, starts_get 0 bs i p, starts_get 0 bs j q, start_of_mono bs i j h)

ge_at-some :
    (xs : List ℕ) (offset i : ℕ) {x : ℕ}
    → get_elem? xs i ≡ some x
    → ge_at xs offset i ≡ leb x offset
ge_at-some xs offset i h = rw (h, ge_at)

gt_at-some :
    (xs : List ℕ) (offset i : ℕ) {x : ℕ}
    → get_elem? xs i ≡ some x
    → gt_at xs offset i ≡ ltb offset x
gt_at-some xs offset i h = rw (h, gt_at)

le_at-some :
    (xs : List ℕ) (offset i : ℕ) {x : ℕ}
    → get_elem? xs i ≡ some x
    → le_at xs offset i ≡ leb offset x
le_at-some xs offset i h = rw (h, le_at)

start_of_zero : (bs : List (List ℕ)) → start_of bs 0 ≡ 0
start_of_zero [] = refl
start_of_zero (b ∷ bs) = refl

module _ (s : GrowableBuffer) (offset : ℕ) (v : IsValid s) where
  begins_at : (i : ℕ) → i < length s.buffers → get_elem? s.offsets i ≡ some (start_of s.buffers i)
  begins_at i h =
      let (b, e) = get_elem?_lt s.buffers i h in
      ap (λ o. get_elem? o i) v.laid_out ∙ get_elem?-starts 0 s.buffers i e ∙ ap some (omega arith)

  same_length : length s.offsets ≡ length s.buffers
  same_length = ap length v.laid_out ∙ length-starts 0 s.buffers

  Located-of :
      (i : ℕ)
      → i < length s.buffers
      → start_of s.buffers i ≤ offset
      → offset < start_of s.buffers (suc i)
      → (b : List ℕ) × Located s offset i b
  Located-of i h after before =
      let (b, e) = get_elem?_lt s.buffers i h in
      (
        b,
        record {
          chunk = e;
          begins = begins_at i h;
          after = after;
          before = omega (arith, start_of-suc s.buffers i e);
        },
      )

  start_of_lt : (i : ℕ) → i < length s.buffers → start_of s.buffers i < start_of s.buffers (suc i)
  start_of_lt i h =
      let (b, e) = get_elem?_lt s.buffers i h in
      omega (arith, All-get _ s.buffers i v.chunks e, start_of-suc s.buffers i e)

  not_gt :
      (i : ℕ)
      → i < length s.buffers
      → gt_at s.offsets offset i ≡ false
      → start_of s.buffers i ≤ offset
  not_gt i h e = let same = gt_at-some s.offsets offset i (begins_at i h) in ground (arith, same)

  is_gt :
      (i : ℕ)
      → i < length s.buffers
      → gt_at s.offsets offset i ≡ true
      → offset < start_of s.buffers i
  is_gt i h e = let same = gt_at-some s.offsets offset i (begins_at i h) in ground (arith, same)

  is_le :
      (i : ℕ)
      → i < length s.buffers
      → le_at s.offsets offset i ≡ true
      → offset ≤ start_of s.buffers i
  is_le i h e = let same = le_at-some s.offsets offset i (begins_at i h) in ground (arith, same)

  Steps : ℕ → Type 0
  Steps i =
      (j : ℕ) × (b : List ℕ) × (step_back s.offsets offset (some i) ≡ some j) × Located s offset j b

  module _ (i : ℕ) (low : IsLowerBound s.offsets offset i)
      (h : offset < start_of s.buffers (length s.buffers - 1)) where
    inside : i < length s.buffers
    inside = omega (arith, same_length, low.inside)

    -- Where no step back is made, the offset is the start itself.
    stays : start_of s.buffers i ≤ offset → offset < start_of s.buffers (suc i)
    stays le = elim low.reached [
      | inl t ↦ omega (arith, is_le i inside t, start_of_lt i inside)
      | inr last ↦
          let e : i ≡ length s.buffers - 1 = omega (arith, same_length) in
          absurd (omega (arith, ap (start_of s.buffers) e))
    ]

  -- The step back from the lower bound, where the offset lies before the last chunk.
  step_back_lem :
      (i : ℕ)
      → IsLowerBound s.offsets offset i
      → offset < start_of s.buffers (length s.buffers - 1)
      → Steps i
  unfolding Steps
  step_back_lem zero low h = elim (Bool-cases (gt_at s.offsets offset 0)) [
    | inl e ↦ absurd (omega (arith, is_gt 0 (inside 0 low h) e, start_of_zero s.buffers))
    | inr e ↦
        let after = not_gt 0 (inside 0 low h) e in
        let (b, l) = Located-of 0 (inside 0 low h) after (stays 0 low h after) in (0, b, rw e, l)
  ]
  step_back_lem (suc i) low h = elim (Bool-cases (gt_at s.offsets offset (suc i))) [
    | inl e ↦
        let in_i : i < length s.buffers = omega (arith, inside (suc i) low h) in
        let (b, l) =
          Located-of i in_i
            (omega (arith, low.below i (start_of s.buffers i) (omega arith) (begins_at i in_i)))
            (is_gt (suc i) (inside (suc i) low h) e) in
        (i, b, rw e, l)
    | inr e ↦
        let after = not_gt (suc i) (inside (suc i) low h) e in
        let (b, l) = Located-of (suc i) (inside (suc i) low h) after (stays (suc i) low h after) in
        (suc i, b, rw e, l)
  ]

module _ (s : GrowableBuffer) (offset : ℕ) (v : IsValid s) (h : offset < s.capacity) where
  last : ℕ
  last = length s.buffers - 1

  nonempty : 0 < length s.buffers
  nonempty = elim (dec_lt 0 (length s.buffers)) [
    | yes p ↦ p
    | no p ↦
        let e : length s.buffers ≡ 0 = omega arith in
        absurd (
          omega (
            arith,
            v.room,
            start_of_total s.buffers,
            ap (start_of s.buffers) e,
            start_of_zero s.buffers,
          ))
  ]

  before_end : offset < start_of s.buffers (suc last)
  unfolding last
  before_end =
      let e : suc (length s.buffers - 1) ≡ length s.buffers = omega (arith, nonempty) in
      omega (arith, v.room, start_of_total s.buffers, ap (start_of s.buffers) e)

  last_offset : length s.offsets - 1 ≡ last
  unfolding last
  last_offset = ap less_one (same_length s offset v)
    where
      less_one : ℕ → ℕ
      less_one n = n - 1

  some_offset : ltb 0 (length s.offsets) ≡ true
  some_offset =
      let p : 0 < length s.offsets = omega (arith, same_length s offset v, nonempty) in ground arith

  last_inside : last < length s.buffers
  unfolding last
  last_inside = omega (arith, nonempty)

  ge_at-last : ge_at s.offsets offset last ≡ leb (start_of s.buffers last) offset
  ge_at-last = ge_at-some s.offsets offset last (begins_at s offset v last last_inside)

  after_last : ge_at s.offsets offset last ≡ true → start_of s.buffers last ≤ offset
  after_last e = let same = ge_at-last in ground (arith, same)

  before_last : ge_at s.offsets offset last ≡ false → offset < start_of s.buffers last
  before_last e = let same = ge_at-last in ground (arith, same)

-- In a valid buffer the search for an offset below the capacity succeeds, and yields the chunk that
-- holds the offset.
pub find_buffer-Located :
    (s : GrowableBuffer) (offset : ℕ)
    → IsValid s
    → offset < s.capacity
    → (i : ℕ) × (b : List ℕ) × (find_buffer offset s ≡ (ok (some i), s)) × Located s offset i b
unfolding find_buffer Steps last
find_buffer-Located s offset v h =
    let same = last_offset s offset v h in
    elim (Bool-cases (ge_at s.offsets offset (length s.offsets - 1))) [
      | inl e ↦
          let (b, l) =
            Located-of s offset v (length s.buffers - 1) (last_inside s offset v h)
              (after_last s offset v h (rw same at e)) (before_end s offset v h) in
          (length s.buffers - 1, b, rw (some_offset s offset v h, e, same), l)
      | inr e ↦
          let (i, found, low) =
            binary_search-IsLowerBound s.offsets offset (rw v.laid_out (starts-IsSorted s.buffers))
              (λ none_yet.
                let p = nonempty s offset v h in
                let q = same_length s offset v in omega (arith, ap length none_yet)) in
          let (j, b, back, l) =
            step_back_lem s offset v i low (before_last s offset v h (rw same at e)) in
          (j, b, rw (some_offset s offset v h, e, found, back), l)
    ]
