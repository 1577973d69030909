-- ===== src/Util/GrowableBuffer/Wide.antt =====
-- The writes of several bytes, also across the end of a chunk.
use native.Mathlib.Numerals.{add-one}
use genie_cloud.Base.{
  ℕ, ◌+◌, ◌-◌, ◌%◌, ◌^◌, ◌≤◌, ◌<◌, ◌≡◌, sym, ap, ap₂, ◌∙◌, inl, inr, List, [], ◌∷◌, ◌++◌, some,
  true, ok, arith, get_elem?, length, ltb, Bool-cases, subst, if◌then◌else◌, lt→ltb,
}
use genie_cloud.Util.GrowableBuffer.{
  GrowableBuffer, ◌>>◌, put_uint8, put_uint16, put_uint32, min_chunk, poke, set_all, out_of_range,
  write_uint16, le_bytes, shr,
}
use genie_cloud.Util.GrowableBuffer.Layout.{start_of, start_of-suc, set_all-append}
use genie_cloud.Util.GrowableBuffer.Invariant.{lt_leb}
use genie_cloud.Util.GrowableBuffer.Locating.{Located}
use genie_cloud.Util.GrowableBuffer.Poking.{Represents, Keeps, pad, poke_lem}
use genie_cloud.Util.GrowableBuffer.Contents.{
  Writes, write_at, ready, Ready-run, bind_ok, next_chunk,
}

-- Room for `n` bytes at `k` in chunk `i`, which is place `p` of the whole.
pub record Spot (t : GrowableBuffer) (i k p n : ℕ) : Type 0 where
  pub chunk : List ℕ
  pub there : get_elem? t.buffers i ≡ some chunk
  pub fits : k + n ≤ length chunk
  pub place : start_of t.buffers i + k ≡ p
  pub used : p + n ≤ t.size

Keeps-Spot : (t u : GrowableBuffer) (i k p n : ℕ) → Keeps t u → Spot t i k p n → Spot u i k p n
Keeps-Spot t u i k p n keeps s =
    let (c, e, same) = keeps.chunk i s.chunk s.there in
    record {
      chunk = c;
      there = e;
      fits = omega (arith, s.fits);
      place = omega (arith, keeps.begins i, s.place);
      used = omega (arith, keeps.size, s.used);
    }

Keeps-trans : (s t u : GrowableBuffer) → Keeps s t → Keeps t u → Keeps s u
Keeps-trans s t u a b = record {
  size = b.size ∙ a.size;
  capacity = b.capacity ∙ a.capacity;
  chunk = λ j c e.
      let (d, f, same) = a.chunk j c e in let (g, h, same') = b.chunk j d f in (g, h, same' ∙ same);
  begins = λ j. b.begins j ∙ a.begins j;
}

-- Two writes into chunks, one after the other.
pub pokes2 :
    (t : GrowableBuffer) (ys : List ℕ) (i k p j l q : ℕ) (us vs : List ℕ)
    → Represents t ys
    → Spot t i k p (length us)
    → Spot t j l q (length vs)
    → (w : GrowableBuffer) × ((poke true i k us >> poke true j l vs) t ≡ (ok tt, w))
      × Represents w (set_all (set_all ys p us) q vs)
      × Keeps t w
pokes2 t ys i k p j l q us vs r a b =
    let (u, e, stands, keeps) = poke_lem t ys i k p a.chunk us r a.there a.fits a.place a.used in
    let b' = Keeps-Spot t u j l q (length vs) keeps b in
    let (w, e', stands', keeps') =
      poke_lem u (set_all ys p us) j l q b'.chunk vs stands b'.there b'.fits b'.place b'.used in
    (
      w,
      bind_ok (poke true i k us) (λ _. poke true j l vs) t u tt e ∙ e',
      stands',
      Keeps-trans t u w keeps keeps',
    )

pub pokes3 :
    (t : GrowableBuffer) (ys : List ℕ) (i k p j l q m n o : ℕ) (us vs ws : List ℕ)
    → Represents t ys
    → Spot t i k p (length us)
    → Spot t j l q (length vs)
    → Spot t m n o (length ws)
    → (w : GrowableBuffer) × ((poke true i k us >> (poke true j l vs >> poke true m n ws)) t
        ≡ (ok tt, w))
      × Represents w (set_all (set_all (set_all ys p us) q vs) o ws)
pokes3 t ys i k p j l q m n o us vs ws r a b c =
    let (u, e, stands, keeps) = poke_lem t ys i k p a.chunk us r a.there a.fits a.place a.used in
    let (w, e', stands', _) =
      pokes2 u (set_all ys p us) j l q m n o vs ws stands (Keeps-Spot t u j l q (length vs) keeps b)
        (Keeps-Spot t u m n o (length ws) keeps c) in
    (
      w,
      bind_ok (poke true i k us) (λ _. poke true j l vs >> poke true m n ws) t u tt e ∙ e',
      stands',
    )

-- Room before the end of the chunk that holds the offset, and at the start of the next.
module _ (t : GrowableBuffer) (ys : List ℕ) (offset n i : ℕ) (b : List ℕ) (r : Represents t ys)
    (l : Located t offset i b) (enough : offset + n ≤ t.size) where
  pub Spot-here :
      (k p len : ℕ)
      → start_of t.buffers i + k ≡ p
      → k + len ≤ length b
      → p + len ≤ offset + n
      → Spot t i k p len
  Spot-here k p len at fits used = record {
    chunk = b;
    there = l.chunk;
    fits = fits;
    place = at;
    used = omega arith;
  }

  pub Spot-next :
      (k p len : ℕ)
      → start_of t.buffers i + length b + k ≡ p
      → 0 < len
      → p + len ≤ offset + n
      → k + len ≤ min_chunk
      → Spot t (i + 1) k p len
  Spot-next k p len at pos used small =
      let (c, e, big) = next_chunk t ys offset n i b r l enough (omega (arith, l.after)) in
      record {
        chunk = c;
        there = rw add-one e;
        fits = omega arith;
        place = rw add-one (omega (arith, start_of-suc t.buffers i l.chunk));
        used = omega arith;
      }

pub put8 : (i value k : ℕ) → value < 256 → put_uint8 i value k ≡ poke true i k (le_bytes 1 value)
put8 i value k h = rw (lt→ltb value 256 h)

pub put16 :
    (i value k : ℕ) → value < 65536 → put_uint16 i value k ≡ poke true i k (le_bytes 2 value)
put16 i value k h = rw (lt→ltb value 65536 h)

pub put32 :
    (i value k : ℕ) → value < 2 ^ 32 → put_uint32 i value k ≡ poke true i k (le_bytes 4 value)
put32 i value k h = rw (lt→ltb value (2 ^ 32) h)

cons2 : {a b c d : ℕ} → a ≡ c → b ≡ d → a ∷ b ∷ [] ≡ c ∷ d ∷ []
cons2 p q = ap₂ (λ x y. x ∷ y ∷ []) p q

bytes_of_uint16 :
    (value : ℕ)
    → value < 65536
    → le_bytes 1 (value % 256) ++ le_bytes 1 (shr value 8) ≡ le_bytes 2 value
bytes_of_uint16 value h = cons2 (omega arith) (omega arith)

-- Where all is in place: the bytes go to the offset.
module _ (t : GrowableBuffer) (ys : List ℕ) (value offset i : ℕ) (b : List ℕ) (r : Represents t ys)
    (l : Located t offset i b) where
  k_of : ℕ
  k_of = offset - start_of t.buffers i

  within16 :
      offset + 2 ≤ t.size
      → value < 65536
      → Writes
          (if ltb (length b) (k_of + 2)
            then (do put_uint8 i (value % 256) k_of; put_uint8 (i + 1) (shr value 8) 0)
            else put_uint16 i value k_of)
          t
          (set_all ys offset (le_bytes 2 value))
  unfolding k_of
  within16 enough small = elim (Bool-cases (ltb (length b) (k_of + 2))) [
    | inl past ↦
        let past' : length b < k_of + 2 = ground arith in
        let (w, e, stands, _) =
          pokes2 t ys i k_of offset (i + 1) 0 (offset + 1) (le_bytes 1 (value % 256))
            (le_bytes 1 (shr value 8)) r
            (Spot-here t ys offset 2 i b r l enough k_of offset 1 (omega (arith, l.after))
              (omega (arith, l.before, l.after)) (omega arith))
            (Spot-next t ys offset 2 i b r l enough 0 (offset + 1) 1
              (omega (arith, l.before, l.after)) (omega arith) (omega arith) (omega arith)) in
        (
          w,
          rw
              (
                past,
                put8 i (value % 256) k_of (omega arith),
                put8 (i + 1) (shr value 8) 0 (omega arith),
              )
              e,
          subst (Represents w)
              (sym (set_all-append ys offset (le_bytes 1 (value % 256)) (le_bytes 1 (shr value 8)))
                ∙ ap (set_all ys offset) (bytes_of_uint16 value small))
              stands,
        )
    | inr fits ↦
        let fits' : k_of + 2 ≤ length b = ground arith in
        let (w, e, stands, _) =
          poke_lem t ys i k_of offset b (le_bytes 2 value) r l.chunk fits' (omega (arith, l.after))
            enough in
        (w, rw (fits, put16 i value k_of small) e, stands)
  ]

-- Where the buffer stands for the bytes `xs` and the value has 16 bits, `write_uint16` succeeds, also
-- across two chunks, and the buffer then stands for `xs`, padded by zeros up to the offset, with the
-- two bytes of the value at the offset, the low one first.
pub write_uint16-Writes :
    (s : GrowableBuffer) (xs : List ℕ) (value offset : ℕ)
    → Represents s xs
    → value < 65536
    → Writes (write_uint16 value offset) s (write_at xs offset (le_bytes 2 value))
unfolding write_uint16 k_of
write_uint16-Writes s xs value offset r small =
    let (t, i, b, d) = ready s xs offset 2 r (omega arith) in
    let (w, e, stands) =
      within16 t (pad (offset + 2) xs) value offset i b d.stands d.located d.enough small in
    (
      w,
      rw (lt_leb value 65536 (omega arith)) (
          Ready-run out_of_range s t offset 2 i b _
            (λ p.
              if ltb (length p.2) (p.1 + 2)
              then (do put_uint8 p.0 (value % 256) p.1; put_uint8 (p.0 + 1) (shr value 8) 0)
              else put_uint16 p.0 value p.1)
            d
          ∙ e),
      stands,
    )
