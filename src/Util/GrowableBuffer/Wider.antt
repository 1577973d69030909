-- ===== src/Util/GrowableBuffer/Wider.antt =====
-- The writes of four bytes and of a whole buffer.
use native.Mathlib.Numerals.{add-one}
use genie_cloud.Base.{
  ℕ, zero, suc, ◌+◌, ◌-◌, ◌%◌, ◌^◌, ◌≤◌, ◌<◌, ◌≡◌, refl, sym, ap, ◌∙◌, ◌⊎◌, inl, inr, List, [], ◌∷◌,
  ◌++◌, some, true, ok, arith, get_elem?, length, leb, ltb, Bool-cases, take, drop,
  take-append-drop, length-take, length-drop, subst, if◌then◌else◌, lt→ltb,
}
use genie_cloud.Util.GrowableBuffer.{
  GrowableBuffer, Method, ◌>>◌, put_uint32, min_chunk, poke, set_all, assert_next, assert,
  assertion_failed, out_of_range, write_uint32, write_buffer, le_bytes, split_uint32, shr,
}
use genie_cloud.Util.GrowableBuffer.Layout.{start_of, set_all-append}
use genie_cloud.Util.GrowableBuffer.Invariant.{lt_leb}
use genie_cloud.Util.GrowableBuffer.Locating.{Located}
use genie_cloud.Util.GrowableBuffer.Poking.{Represents, pad, poke_lem}
use genie_cloud.Util.GrowableBuffer.Contents.{
  Writes, write_at, ready, Ready-run, bind_ok, next_chunk,
}
use genie_cloud.Util.GrowableBuffer.Wide.{Spot-here, Spot-next, pokes2, pokes3, put8, put16, put32}

assert_next_lem :
    (t : GrowableBuffer) (i n : ℕ) {c : List ℕ}
    → get_elem? t.buffers i ≡ some c
    → n ≤ length c
    → assert_next i n t ≡ (ok tt, t)
unfolding assert_next
assert_next_lem t i n e h = rw (assert_next, e, lt_leb _ _ h) refl

cons4 :
    {a b c d a' b' c' d' : ℕ}
    → a ≡ a'
    → b ≡ b'
    → c ≡ c'
    → d ≡ d'
    → a ∷ b ∷ c ∷ d ∷ [] ≡ a' ∷ b' ∷ c' ∷ d' ∷ []
cons4 p q r s = λ i. p i ∷ q i ∷ r i ∷ s i ∷ []

module _ (value : ℕ) (small : value < 2 ^ 32) where
  bytes_1_1_2 :
      le_bytes 1 (value % 256) ++ (le_bytes 1 (shr value 8 % 256) ++ le_bytes 2 (shr value 16))
      ≡ le_bytes 4 value
  bytes_1_1_2 = cons4 (omega arith) (omega arith) (omega arith) (omega arith)

  bytes_2_2 : le_bytes 2 (value % 65536) ++ le_bytes 2 (shr value 16) ≡ le_bytes 4 value
  bytes_2_2 = cons4 (omega arith) (omega arith) (omega arith) (omega arith)

  bytes_1_2_1 :
      le_bytes 1 (value % 256) ++ (le_bytes 2 (shr value 8 % 65536) ++ le_bytes 1 (shr value 24))
      ≡ le_bytes 4 value
  bytes_1_2_1 = cons4 (omega arith) (omega arith) (omega arith) (omega arith)

set_all-append3 :
    (ys : List ℕ) (p : ℕ) (us vs ws : List ℕ)
    → set_all ys p (us ++ (vs ++ ws))
      ≡ set_all (set_all (set_all ys p us) (p + length us) vs) (p + length us + length vs) ws
set_all-append3 ys p us vs ws =
    set_all-append ys p us (vs ++ ws) ∙ set_all-append (set_all ys p us) (p + length us) vs ws

one_to_three : (n : ℕ) → 0 < n → n < 4 → (n ≡ 1) ⊎ ((n ≡ 2) ⊎ (n ≡ 3))
one_to_three (suc zero) h k = inl refl
one_to_three (suc (suc zero)) h k = inr (inl refl)
one_to_three (suc (suc (suc zero))) h k = inr (inr refl)
one_to_three n h k = absurd (omega arith)

module _ (t : GrowableBuffer) (ys : List ℕ) (value offset i : ℕ) (b : List ℕ) (r : Represents t ys)
    (l : Located t offset i b) (enough : offset + 4 ≤ t.size) (small : value < 2 ^ 32) where
  k_of : ℕ
  k_of = offset - start_of t.buffers i

  Split : ℕ → Type 0
  Split first = Writes (split_uint32 first value i k_of) t (set_all ys offset (le_bytes 4 value))

  split1 : length b ≡ k_of + 1 → Split 1
  unfolding Split split_uint32 k_of
  split1 e =
      let (w, run, stands) =
        pokes3 t ys i k_of offset (i + 1) 0 (offset + 1) (i + 1) 1 (offset + 1 + 1)
          (le_bytes 1 (value % 256)) (le_bytes 1 (shr value 8 % 256)) (le_bytes 2 (shr value 16)) r
          (Spot-here t ys offset 4 i b r l enough k_of offset 1 (omega (arith, l.after))
            (omega arith) (omega arith))
          (Spot-next t ys offset 4 i b r l enough 0 (offset + 1) 1 (omega (arith, l.after))
            (omega arith) (omega arith) (omega arith))
          (Spot-next t ys offset 4 i b r l enough 1 (offset + 1 + 1) 2 (omega (arith, l.after))
            (omega arith) (omega arith) (omega arith)) in
      (
        w,
        rw
            (
              put8 i (value % 256) k_of (omega arith),
              put8 (i + 1) (shr value 8 % 256) 0 (omega arith),
              put16 (i + 1) (shr value 16) 1 (omega arith),
            )
            run,
        subst (Represents w)
            (sym (
                set_all-append3 ys offset (le_bytes 1 (value % 256))
                  (le_bytes 1 (shr value 8 % 256)) (le_bytes 2 (shr value 16)))
              ∙ ap (set_all ys offset) (bytes_1_1_2 value small))
            stands,
      )

  split2 : length b ≡ k_of + 2 → Split 2
  unfolding Split split_uint32 k_of
  split2 e =
      let (w, run, stands, _) =
        pokes2 t ys i k_of offset (i + 1) 0 (offset + 2) (le_bytes 2 (value % 65536))
          (le_bytes 2 (shr value 16)) r
          (Spot-here t ys offset 4 i b r l enough k_of offset 2 (omega (arith, l.after))
            (omega arith) (omega arith))
          (Spot-next t ys offset 4 i b r l enough 0 (offset + 2) 2 (omega (arith, l.after))
            (omega arith) (omega arith) (omega arith)) in
      (
        w,
        rw
            (
              put16 i (value % 65536) k_of (omega arith),
              put16 (i + 1) (shr value 16) 0 (omega arith),
            )
            run,
        subst (Represents w)
            (sym (set_all-append ys offset (le_bytes 2 (value % 65536)) (le_bytes 2 (shr value 16)))
              ∙ ap (set_all ys offset) (bytes_2_2 value small))
            stands,
      )

  split3 : length b ≡ k_of + 3 → Split 3
  unfolding Split split_uint32 k_of
  split3 e =
      let (w, run, stands) =
        pokes3 t ys i k_of offset i (k_of + 1) (offset + 1) (i + 1) 0 (offset + 1 + 2)
          (le_bytes 1 (value % 256)) (le_bytes 2 (shr value 8 % 65536)) (le_bytes 1 (shr value 24))
          r
          (Spot-here t ys offset 4 i b r l enough k_of offset 1 (omega (arith, l.after))
            (omega arith) (omega arith))
          (Spot-here t ys offset 4 i b r l enough (k_of + 1) (offset + 1) 2 (omega (arith, l.after))
            (omega arith) (omega arith))
          (Spot-next t ys offset 4 i b r l enough 0 (offset + 1 + 2) 1 (omega (arith, l.after))
            (omega arith) (omega arith) (omega arith)) in
      (
        w,
        rw
            (
              put8 i (value % 256) k_of (omega arith),
              put16 i (shr value 8 % 65536) (k_of + 1) (omega arith),
              put8 (i + 1) (shr value 24) 0 (omega arith),
            )
            run,
        subst (Represents w)
            (sym (
                set_all-append3 ys offset (le_bytes 1 (value % 256))
                  (le_bytes 2 (shr value 8 % 65536)) (le_bytes 1 (shr value 24)))
              ∙ ap (set_all ys offset) (bytes_1_2_1 value small))
            stands,
      )

  -- The split, by the number of bytes that fit the first chunk.
  split_lem : length b < k_of + 4 → Split (length b - k_of)
  unfolding k_of
  split_lem past =
      elim (one_to_three (length b - k_of) (omega (arith, l.before, l.after))
        (omega (arith, l.before, l.after))) [
          | inl one ↦ rw one (split1 (omega arith))
          | inr (inl two) ↦ rw two (split2 (omega arith))
          | inr (inr three) ↦ rw three (split3 (omega arith))
        ]

  guarded : ℕ → Method (Unit {0})
  guarded first = do
    assert (leb first 3)
    assert_next (i + 1) (4 - first)
    split_uint32 first value i k_of

  guarded_lem :
      length b < k_of + 4
      → Writes (guarded (length b - k_of)) t (set_all ys offset (le_bytes 4 value))
  unfolding guarded k_of Split
  guarded_lem past =
      let (c, e, big) = next_chunk t ys offset 4 i b r l enough (omega (arith, l.after)) in
      let (w, run, stands) = split_lem past in
      (
        w,
        rw (lt_leb (length b - k_of) 3 (omega (arith, l.before, l.after))) (
            bind_ok (assert_next (i + 1) (4 - (length b - k_of)))
              (λ _. split_uint32 (length b - k_of) value i k_of) t t tt
              (assert_next_lem t (i + 1) (4 - (length b - k_of)) {c = c} (rw add-one e)
                (omega arith))
            ∙ run),
        stands,
      )

  within32 :
      Writes
        (if ltb (length b) (k_of + 4) then guarded (length b - k_of) else put_uint32 i value k_of)
        t
        (set_all ys offset (le_bytes 4 value))
  unfolding k_of
  within32 = elim (Bool-cases (ltb (length b) (k_of + 4))) [
    | inl past ↦ rw past (guarded_lem (ground arith))
    | inr fits ↦
        let fits' : k_of + 4 ≤ length b = ground arith in
        let (w, e, stands, _) =
          poke_lem t ys i k_of offset b (le_bytes 4 value) r l.chunk fits' (omega (arith, l.after))
            enough in
        (w, rw (fits, put32 i value k_of small) e, stands)
  ]

-- Where the buffer stands for the bytes `xs` and the value has 32 bits, `write_uint32` succeeds, also
-- across two chunks, and the buffer then stands for `xs`, padded by zeros up to the offset, with the
-- four bytes of the value at the offset, the low one first.
pub write_uint32-Writes :
    (s : GrowableBuffer) (xs : List ℕ) (value offset : ℕ)
    → Represents s xs
    → value < 2 ^ 32
    → Writes (write_uint32 value offset) s (write_at xs offset (le_bytes 4 value))
unfolding write_uint32 k_of guarded
write_uint32-Writes s xs value offset r small =
    let (t, i, b, d) = ready s xs offset 4 r (omega arith) in
    let (w, e, stands) =
      within32 t (pad (offset + 4) xs) value offset i b d.stands d.located d.enough small in
    (
      w,
      rw (lt_leb value (2 ^ 32) (omega arith)) (
          Ready-run out_of_range s t offset 4 i b _
            (λ p.
              if ltb (length p.2) (p.1 + 4)
              then (do
                assert (leb (length p.2 - p.1) 3)
                assert_next (p.0 + 1) (4 - (length p.2 - p.1))
                split_uint32 (length p.2 - p.1) value p.0 p.1)
              else put_uint32 p.0 value p.1)
            d
          ∙ e),
      stands,
    )

-- A write of a buffer that the smallest chunk can hold, from where its place is found.
module _ (t : GrowableBuffer) (ys from : List ℕ) (offset i : ℕ) (b : List ℕ) (r : Represents t ys)
    (l : Located t offset i b) (enough : offset + length from ≤ t.size)
    (short : length from ≤ min_chunk) where
  at_of : ℕ
  at_of = offset - start_of t.buffers i

  spilled : ℕ → Method (Unit {0})
  spilled first = do
    assert (ltb first (length from))
    assert_next (i + 1) (length from - first)
    poke true i at_of (take first from)
    poke true (i + 1) 0 (drop first from)

  spilled_lem :
      length b < at_of + length from
      → Writes (spilled (length b - at_of)) t (set_all ys offset from)
  unfolding spilled at_of
  spilled_lem past =
      let first = length b - at_of in
      let some_first : 0 < first = omega (arith, l.before, l.after) in
      let len_us : length (take first from) ≡ first = omega (arith, length-take first from) in
      let len_vs : length (drop first from) ≡ length from - first = length-drop first from in
      let (c, e, big) =
        next_chunk t ys offset (length from) i b r l enough (omega (arith, l.after)) in
      let (w, run, stands, _) =
        pokes2 t ys i at_of offset (i + 1) 0 (offset + length (take first from)) (take first from)
          (drop first from) r
          (Spot-here t ys offset (length from) i b r l enough at_of offset
            (length (take first from)) (omega (arith, l.after)) (omega (arith, l.before, l.after))
            (omega arith))
          (Spot-next t ys offset (length from) i b r l enough 0 (offset + length (take first from))
            (length (drop first from)) (omega (arith, l.before, l.after)) (omega arith)
            (omega arith) (omega arith)) in
      (
        w,
        rw (lt→ltb first (length from) (omega arith)) (
            bind_ok (assert_next (i + 1) (length from - first))
              (λ _. poke true i at_of (take first from) >> poke true (i + 1) 0 (drop first from)) t
              t tt
              (assert_next_lem t (i + 1) (length from - first) {c = c} (rw add-one e) (omega arith))
            ∙ run),
        subst (Represents w)
            (sym (set_all-append ys offset (take first from) (drop first from))
              ∙ ap (set_all ys offset) (take-append-drop first from))
            stands,
      )

  within_buffer :
      Writes
        (if ltb (length b) (at_of + length from)
          then spilled (length b - at_of)
          else poke true i at_of from)
        t
        (set_all ys offset from)
  unfolding at_of
  within_buffer = elim (Bool-cases (ltb (length b) (at_of + length from))) [
    | inl past ↦ rw past (spilled_lem (ground arith))
    | inr fits ↦
        let fits' : at_of + length from ≤ length b = ground arith in
        let (w, e, stands, _) =
          poke_lem t ys i at_of offset b from r l.chunk fits' (omega (arith, l.after)) enough in
        (w, rw fits e, stands)
  ]

-- Where the buffer stands for the bytes `xs`, and what is written has a byte at least and no more
-- than the smallest chunk, `write_buffer` succeeds, also across two chunks, and the buffer then
-- stands for `xs`, padded by zeros up to the offset, with the written bytes at the offset.
pub write_buffer-Writes :
    (s : GrowableBuffer) (xs from : List ℕ) (offset : ℕ)
    → Represents s xs
    → 0 < length from
    → length from ≤ min_chunk
    → Writes (write_buffer from offset) s (write_at xs offset from)
unfolding write_buffer at_of spilled
write_buffer-Writes s xs from offset r some_byte short =
    let (t, i, b, d) = ready s xs offset (length from) r some_byte in
    let (w, e, stands) =
      within_buffer t (pad (offset + length from) xs) from offset i b d.stands d.located d.enough
        short in
    (
      w,
      Ready-run assertion_failed s t offset (length from) i b _
            (λ p.
              if ltb (length p.2) (p.1 + length from)
              then (do
                let first = length p.2 - p.1
                assert (ltb first (length from))
                assert_next (p.0 + 1) (length from - first)
                poke true p.0 p.1 (take first from)
                poke true (p.0 + 1) 0 (drop first from))
              else poke true p.0 p.1 from)
            d
          ∙ e,
      stands,
    )
