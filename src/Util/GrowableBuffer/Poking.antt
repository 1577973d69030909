-- ===== src/Util/GrowableBuffer/Poking.antt =====
-- The bytes that a buffer stands for, and a write into one chunk.
use mathlib.Core.List.{flatten}
use genie_cloud.Base.{
  ℕ, zero, suc, ◌+◌, ◌-◌, ◌≤◌, ◌<◌, ◌≡◌, refl, sym, ap, ◌∙◌, ◌⊎◌, inl, inr, List, [], ◌∷◌, ◌++◌,
  some, true, ok, arith, All-get, get_elem?, length, set, length-append, append_assoc, All,
  replicate, length-replicate, length-set, take, subst,
}
use genie_cloud.Util.GrowableBuffer.{GrowableBuffer, new, poke, set_all, to_buffer}
use genie_cloud.Util.GrowableBuffer.Layout.{
  start_of, starts-set, length-set_all, flatten-set_all, set_all-append_left,
}
use genie_cloud.Util.GrowableBuffer.Invariant.{IsValid, lt_leb, new-IsValid, Grows}

-- The buffer stands for the bytes `xs`: they fill its size, and zeros fill the rest of its chunks.
pub record Represents (s : GrowableBuffer) (xs : List ℕ) : Type 0 where
  pub valid : IsValid s
  pub size : length xs ≡ s.size
  pub content : flatten s.buffers ≡ xs ++ replicate (s.capacity - s.size) 0

-- The bytes, with zeros up to a length.
abbrev pub pad : ℕ → List ℕ → List ℕ
pad n xs = xs ++ replicate (n - length xs) 0

pub new-Represents : Represents new []
unfolding new flatten
new-Represents = record { valid = new-IsValid; size = refl; content = refl }

replicate-add : (m n : ℕ) → replicate m 0 ++ replicate n 0 ≡ replicate {A = ℕ} (m + n) 0
replicate-add zero n = let e : n ≡ 0 + n = omega arith in ap (λ k. replicate k 0) e
replicate-add (suc m) n =
    let e : suc (m + n) ≡ suc m + n = omega arith in
    ap (◌∷◌ 0) (replicate-add m n) ∙ ap (λ k. replicate k 0) e

take_append : (xs ys : List ℕ) → take (length xs) (xs ++ ys) ≡ xs
take_append [] ys = refl
take_append (x ∷ xs) ys = ap (◌∷◌ x) (take_append xs ys)

-- `to_buffer` returns the bytes that the buffer stands for.
pub to_buffer-Represents : (s : GrowableBuffer) (xs : List ℕ) → Represents s xs → to_buffer s ≡ xs
unfolding to_buffer
to_buffer-Represents s xs r =
    let rest = replicate {A = ℕ} (s.capacity - s.size) 0 in
    let filler = replicate {A = ℕ} (s.size - length (xs ++ rest)) 0 in
    ap (λ c. take s.size (c ++ replicate (s.size - length c) 0)) r.content
    ∙ ap (take s.size) (append_assoc xs rest filler)
    ∙ ap (λ n. take n (xs ++ (rest ++ filler))) (sym r.size)
    ∙ take_append xs (rest ++ filler)

module _ (s t : GrowableBuffer) (xs : List ℕ) (requested : ℕ) (r : Represents s xs)
    (g : Grows s t requested) where
  added : t.capacity ≡ s.capacity + g.more.0
  added = omega (
    arith,
    g.valid.room,
    r.valid.room,
    ap length g.more.1,
    length-append (flatten s.buffers) (replicate g.more.0 0),
    length-replicate {A = ℕ} g.more.0 0,
  )

  zeros :
      replicate (s.capacity - s.size) 0 ++ replicate g.more.0 0
      ≡ replicate {A = ℕ} (requested - length xs) 0 ++ replicate (t.capacity - t.size) 0
  zeros =
      replicate-add (s.capacity - s.size) g.more.0
      ∙ ap (λ k. replicate k 0)
          (omega (arith, added, g.size, r.size, g.valid.within, r.valid.within))
      ∙ sym (replicate-add (requested - length xs) (t.capacity - t.size))

  -- Growing pads the bytes with zeros.
  pub grows-Represents : Represents t (pad requested xs)
  grows-Represents = record {
    valid = g.valid;
    size = omega (
      arith,
      g.size,
      r.size,
      length-append xs (replicate (requested - length xs) 0),
      length-replicate {A = ℕ} (requested - length xs) 0,
    );
    content =
        g.more.1
        ∙ ap (λ c. c ++ replicate g.more.0 0) r.content
        ∙ append_assoc xs _ _
        ∙ ap (◌++◌ xs) zeros
        ∙ sym (append_assoc xs _ _);
  }

-- What a write into one chunk leaves alone.
pub record Keeps (s t : GrowableBuffer) : Type 0 where
  pub size : t.size ≡ s.size
  pub capacity : t.capacity ≡ s.capacity
  pub chunk :
      (j : ℕ) (b : List ℕ)
      → get_elem? s.buffers j ≡ some b
      → (c : List ℕ) × (get_elem? t.buffers j ≡ some c) × (length c ≡ length b)
  pub begins : (j : ℕ) → start_of t.buffers j ≡ start_of s.buffers j

All-set {ℓ κ} :
    {A : Type ℓ} (P : A → Type κ) (xs : List A) (i : ℕ) {x : A}
    → All P xs
    → P x
    → All P (set xs i x)
All-set P [] i h p = tt
All-set P (y ∷ xs) zero h p = (p, h.1)
All-set P (y ∷ xs) (suc i) h p = (h.0, All-set P xs i h.1 p)

start_of-set :
    (bs : List (List ℕ)) (i : ℕ) {b : List ℕ} (c : List ℕ)
    → get_elem? bs i ≡ some b
    → length c ≡ length b
    → (j : ℕ) → start_of (set bs i c) j ≡ start_of bs j
start_of-set [] i c h e j = refl
start_of-set (d ∷ bs) zero c h e zero = refl
start_of-set (d ∷ bs) zero {b} c h e (suc j) =
    let same : length b ≡ length d = ap length (sym (some_list h)) in omega arith
  where
    some_list : {d b : List ℕ} → some d ≡ some b → d ≡ b
    some_list p = cc
start_of-set (d ∷ bs) (suc i) c h e zero = refl
start_of-set (d ∷ bs) (suc i) c h e (suc j) = omega (arith, start_of-set bs i c h e j)

get_elem?-set :
    (bs : List (List ℕ)) (i : ℕ) {b : List ℕ} (c : List ℕ)
    → get_elem? bs i ≡ some b
    → length c ≡ length b
    → (j : ℕ) (d : List ℕ) → get_elem? bs j ≡ some d
    → (e : List ℕ) × (get_elem? (set bs i c) j ≡ some e) × (length e ≡ length d)
get_elem?-set [] i c h e j d g = cc
get_elem?-set (x ∷ bs) zero {b} c h e zero d g = (c, refl, e ∙ ap length (same h g))
  where
    same : {x b d : List ℕ} → some x ≡ some b → some x ≡ some d → b ≡ d
    same p q = cc
get_elem?-set (x ∷ bs) zero c h e (suc j) d g = (d, g, refl)
get_elem?-set (x ∷ bs) (suc i) c h e zero d g = (d, g, refl)
get_elem?-set (x ∷ bs) (suc i) c h e (suc j) d g = get_elem?-set bs i c h e j d g

no_chunk : (bs : List (List ℕ)) (i : ℕ) {b : List ℕ} → bs ≡ [] → get_elem? bs i ≡ some b → ⊥
no_chunk [] i e h = cc
no_chunk (c ∷ bs) i e h = cc

module _ (s : GrowableBuffer) (xs : List ℕ) (r : Represents s xs) (i k : ℕ) (b bytes : List ℕ)
    (chunk : get_elem? s.buffers i ≡ some b) (fits : k + length bytes ≤ length b)
    (used : start_of s.buffers i + k + length bytes ≤ s.size) where
  poked : GrowableBuffer
  poked = record s { buffers = set s.buffers i (set_all b k bytes) }

  poked-Keeps : Keeps s poked
  unfolding poked
  poked-Keeps = record {
    size = refl;
    capacity = refl;
    chunk = get_elem?-set s.buffers i (set_all b k bytes) chunk (length-set_all b k bytes);
    begins = start_of-set s.buffers i (set_all b k bytes) chunk (length-set_all b k bytes);
  }

  poked-IsValid : IsValid poked
  unfolding poked
  poked-IsValid = record {
    laid_out =
        r.valid.laid_out
        ∙ sym (starts-set 0 s.buffers i (set_all b k bytes) chunk (length-set_all b k bytes));
    room = omega (
      arith,
      r.valid.room,
      ap length (flatten-set_all s.buffers i k bytes chunk fits),
      length-set_all (flatten s.buffers) (start_of s.buffers i + k) bytes,
    );
    within = r.valid.within;
    chunks =
        All-set _ s.buffers i r.valid.chunks
          (omega (arith, length-set_all b k bytes, All-get _ s.buffers i r.valid.chunks chunk));
    in_use = still_in_use;
  }
    where
      still_in_use :
          (set s.buffers i (set_all b k bytes) ≡ [])
          ⊎ (start_of
                (set s.buffers i (set_all b k bytes))
                (length (set s.buffers i (set_all b k bytes)) - 1)
              < s.size)
      still_in_use = elim r.valid.in_use [
        | inl e ↦ absurd (no_chunk s.buffers i e chunk)
        | inr u ↦ inr (
            rw
              (
                length-set s.buffers i (set_all b k bytes),
                start_of-set s.buffers i (set_all b k bytes) chunk (length-set_all b k bytes),
              )
              u)
      ]

  poked-Represents : Represents poked (set_all xs (start_of s.buffers i + k) bytes)
  unfolding poked
  poked-Represents = record {
    valid = poked-IsValid;
    size = length-set_all xs (start_of s.buffers i + k) bytes ∙ r.size;
    content =
        flatten-set_all s.buffers i k bytes chunk fits
        ∙ ap (λ c. set_all c (start_of s.buffers i + k) bytes) r.content
        ∙ set_all-append_left xs _ (start_of s.buffers i + k) bytes (omega (arith, r.size));
  }

  poke_of_fits :
      (t : GrowableBuffer) × (poke true i k bytes s ≡ (ok tt, t))
      × Represents t (set_all xs (start_of s.buffers i + k) bytes)
      × Keeps s t
  unfolding poke poked
  poke_of_fits = (poked, rw (poke, chunk, lt_leb _ _ fits) refl, poked-Represents, poked-Keeps)

-- A write into one chunk writes at that place of the bytes.
pub poke_lem :
    (s : GrowableBuffer) (xs : List ℕ) (i k p : ℕ) (b bytes : List ℕ)
    → Represents s xs
    → get_elem? s.buffers i ≡ some b
    → k + length bytes ≤ length b
    → start_of s.buffers i + k ≡ p
    → p + length bytes ≤ s.size
    → (t : GrowableBuffer) × (poke true i k bytes s ≡ (ok tt, t))
      × Represents t (set_all xs p bytes)
      × Keeps s t
poke_lem s xs i k p b bytes r chunk fits at used =
    let (t, e, stands, keeps) = poke_of_fits s xs r i k b bytes chunk fits (omega arith) in
    (t, e, subst (λ q. Represents t (set_all xs q bytes)) at stands, keeps)
