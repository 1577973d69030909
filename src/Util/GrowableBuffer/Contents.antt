-- ===== src/Util/GrowableBuffer/Contents.antt =====
-- About the writes of the buffer, on the bytes that it stands for.
use genie_cloud.Base.{
  ℕ, suc, ◌+◌, ◌-◌, ◌≤◌, ◌<◌, ◌≡◌, refl, ap, ◌∙◌, List, some, false, ok, err, arith, All-get,
  get_elem?, length, leb, ltb, lt→ltb, dec_lt,
}
use genie_cloud.Util.BinarySearch.Laws.{get_elem?_lt}
use genie_cloud.Util.GrowableBuffer.{
  GrowableBuffer, Method, ◌>>=◌, ◌>>◌, put_uint8, min_chunk, ensure_size, find_buffer, locate,
  set_all, BufferError, out_of_range, write_uint8, le_bytes,
}
use genie_cloud.Util.GrowableBuffer.Layout.{start_of, start_of-suc, start_of_total, start_of_mono}
use genie_cloud.Util.GrowableBuffer.Invariant.{ensure_size-Grows}
use genie_cloud.Util.GrowableBuffer.Locating.{Located, find_buffer-Located}
use genie_cloud.Util.GrowableBuffer.Poking.{Represents, pad, poke_lem, grows-Represents}

-- The abstract write: zeros up to the end of the write, then the bytes in place.
abbrev pub write_at : List ℕ → ℕ → List ℕ → List ℕ
write_at xs offset bytes = set_all (pad (offset + length bytes) xs) offset bytes

-- A write succeeds and leaves a buffer that stands for `ys`.
abbrev pub Writes : Method (Unit {0}) → GrowableBuffer → List ℕ → Type 0
Writes m s ys = (t : GrowableBuffer) × (m s ≡ (ok tt, t)) × Represents t ys

pub locate_lem :
    (below : BufferError) (s : GrowableBuffer) (offset i : ℕ) (b : List ℕ)
    → Located s offset i b
    → locate below offset (some i) s ≡ (ok (i, offset - start_of s.buffers i, b), s)
unfolding locate
locate_lem below s offset i b l = rw (locate, l.chunk, locate, l.begins, not_past, not_before) refl
  where
    not_past : leb (start_of s.buffers i + length b) offset ≡ false
    not_past = let p = l.before in ground arith

    not_before : ltb offset (start_of s.buffers i) ≡ false
    not_before = let p = l.after in ground arith

-- All writes begin so: grow, search, and find the chunk.
pub record Ready (s : GrowableBuffer) (offset n : ℕ) (ys : List ℕ) (t : GrowableBuffer) (i : ℕ)
    (b : List ℕ) : Type 0 where
  pub grown : ensure_size (offset + n) s ≡ (ok tt, t)
  pub found : find_buffer offset t ≡ (ok (some i), t)
  pub located : Located t offset i b
  pub stands : Represents t ys
  pub enough : offset + n ≤ t.size

pub ready :
    (s : GrowableBuffer) (xs : List ℕ) (offset n : ℕ)
    → Represents s xs
    → 0 < n
    → (t : GrowableBuffer) × (i : ℕ) × (b : List ℕ) × Ready s offset n (pad (offset + n) xs) t i b
ready s xs offset n r pos =
    let (t, e, g) = ensure_size-Grows s (offset + n) r.valid in
    let enough : offset + n ≤ t.size = omega (arith, g.size) in
    let (i, b, f, l) =
      find_buffer-Located t offset g.valid (omega (arith, enough, g.valid.within)) in
    (
      t,
      i,
      b,
      record {
        grown = e;
        found = f;
        located = l;
        stands = grows-Represents s t xs (offset + n) r g;
        enough = enough;
      },
    )

-- A step that succeeds hands its result and state to the next.
pub bind_ok :
    {A B : Type 0} (m : Method A) (f : A → Method B) (s t : GrowableBuffer) (a : A)
    → m s ≡ (ok a, t)
    → (m >>= f) s ≡ f a t
bind_ok m f s t a e = ap (λ p. elim p.0 [ ok x ↦ f x p.1 | err x ↦ (err x, p.1) ]) e

-- The part that all writes share runs to the place of the write.
pub Ready-run :
    (below : BufferError) (s t : GrowableBuffer) (offset n i : ℕ) (b ys : List ℕ)
    (f : ℕ × ℕ × List ℕ → Method (Unit {0}))
    → Ready s offset n ys t i b
    → (ensure_size (offset + n)
          >> (find_buffer offset >>= λ index. locate below offset index >>= f))
        s
      ≡ f (i, offset - start_of t.buffers i, b) t
Ready-run below s t offset n i b ys f d =
    bind_ok (ensure_size (offset + n))
      (λ _. find_buffer offset >>= λ index. locate below offset index >>= f) s t tt d.grown
    ∙ bind_ok (find_buffer offset) (λ index. locate below offset index >>= f) t t (some i) d.found
    ∙ bind_ok (locate below offset (some i)) f t t (i, offset - start_of t.buffers i, b)
        (locate_lem below t offset i b d.located)

-- The chunk behind the one that holds the offset, where the write goes past that one.
pub next_chunk :
    (t : GrowableBuffer) (ys : List ℕ) (offset n i : ℕ) (b : List ℕ)
    → Represents t ys
    → Located t offset i b
    → offset + n ≤ t.size
    → start_of t.buffers i + length b < offset + n
    → (c : List ℕ) × (get_elem? t.buffers (suc i) ≡ some c) × (min_chunk ≤ length c)
next_chunk t ys offset n i b r l enough past =
    let more : suc i < length t.buffers = elim (dec_lt (suc i) (length t.buffers)) [
      | yes p ↦ p
      | no p ↦ absurd (
          omega (
            arith,
            start_of_mono t.buffers (length t.buffers) (suc i),
            start_of_total t.buffers,
            start_of-suc t.buffers i l.chunk,
            r.valid.room,
            r.valid.within,
          ))
    ] in
    let (c, e) = get_elem?_lt t.buffers (suc i) more in
    (c, e, All-get _ t.buffers (suc i) r.valid.chunks e)

-- Where the buffer stands for the bytes `xs` and the value is a byte, `write_uint8` succeeds, and the
-- buffer then stands for `xs`, padded by zeros up to the offset, with the byte at the offset.
pub write_uint8-Writes :
    (s : GrowableBuffer) (xs : List ℕ) (value offset : ℕ)
    → Represents s xs
    → value < 256
    → Writes (write_uint8 value offset) s (write_at xs offset (le_bytes 1 value))
unfolding write_uint8
write_uint8-Writes s xs value offset r small =
    let (t, i, b, d) = ready s xs offset 1 r (omega arith) in
    let (u, e, stands, _) =
      poke_lem t (pad (offset + 1) xs) i (offset - start_of t.buffers i) offset b (le_bytes 1 value)
        d.stands d.located.chunk (omega (arith, d.located.before, d.located.after))
        (omega (arith, d.located.after)) d.enough in
    (
      u,
      Ready-run out_of_range s t offset 1 i b _ (λ p. put_uint8 p.0 value p.1) d
          ∙ rw (lt→ltb value 256 small) e,
      stands,
    )
