-- ===== src/Util/GrowableBuffer/Invariant.antt =====
-- What the methods keep of the buffer, and what growing and searching do to it.
use mathlib.Core.List.{flatten}
use genie_cloud.Base.{
  ℕ, ◌+◌, ◌-◌, ◌≤◌, ◌<◌, ◌≡◌, refl, sym, ap, ◌∙◌, ◌⊎◌, inl, inr, List, [], ◌∷◌, ◌++◌, true, ok,
  arith, length, length-append, append_assoc, append-nil, All, leb, max, replicate,
  length-replicate, Bool-cases, ◌==◌,
}
use genie_cloud.Util.GrowableBuffer.{GrowableBuffer, new, min_chunk, ensure_size}
use genie_cloud.Util.GrowableBuffer.Layout.{
  starts, start_of, length-starts, starts-append, length-flatten-snoc,
}

-- The offsets are the ends of the chunks before, the capacity is the room in all of them, no chunk
-- is shorter than the smallest one, and the last chunk is in use.
pub record IsValid (s : GrowableBuffer) : Type 0 where
  pub laid_out : s.offsets ≡ starts 0 s.buffers
  pub room : s.capacity ≡ length (flatten s.buffers)
  pub within : s.size ≤ s.capacity
  pub chunks : All (λ b. min_chunk ≤ length b) s.buffers
  pub in_use : (s.buffers ≡ []) ⊎ (start_of s.buffers (length s.buffers - 1) < s.size)

pub new-IsValid : IsValid new
unfolding new flatten
new-IsValid = record {
  laid_out = refl;
  room = refl;
  within = omega arith;
  chunks = tt;
  in_use = inl refl;
}

All-snoc {ℓ κ} :
    {A : Type ℓ} (P : A → Type κ) (xs : List A) {x : A} → All P xs → P x → All P (xs ++ x ∷ [])
All-snoc P [] h p = (p, tt)
All-snoc P (y ∷ xs) h p = (h.0, All-snoc P xs h.1 p)

start_of-length :
    (bs : List (List ℕ)) (c : List ℕ) → start_of (bs ++ c ∷ []) (length bs) ≡ length (flatten bs)
unfolding flatten
start_of-length [] c = refl
start_of-length (b ∷ bs) c = omega (arith, length-append b (flatten bs), start_of-length bs c)

start_of-snoc :
    (bs : List (List ℕ)) (c : List ℕ)
    → start_of (bs ++ c ∷ []) (length (bs ++ c ∷ []) - 1) ≡ length (flatten bs)
start_of-snoc bs c =
    ap (start_of (bs ++ c ∷ [])) (omega (arith, length-append bs (c ∷ []))) ∙ start_of-length bs c

pub lt_leb : (a b : ℕ) → a ≤ b → leb a b ≡ true
lt_leb a b h = ground arith

flatten-snoc : (bs : List (List ℕ)) (c : List ℕ) → flatten (bs ++ c ∷ []) ≡ flatten bs ++ c
unfolding flatten
flatten-snoc [] c = append-nil c
flatten-snoc (b ∷ bs) c = ap (◌++◌ b) (flatten-snoc bs c) ∙ sym (append_assoc b (flatten bs) c)

-- A new chunk at the end.
extended : GrowableBuffer → ℕ → ℕ → GrowableBuffer
extended s requested chunk = record {
  size = requested;
  capacity = s.capacity + chunk;
  buffers = s.buffers ++ replicate chunk 0 ∷ [];
  offsets = s.offsets ++ s.capacity ∷ [];
}

extended-IsValid :
    (s : GrowableBuffer) (requested chunk : ℕ)
    → IsValid s
    → min_chunk ≤ chunk
    → s.capacity < requested
    → requested ≤ s.capacity + chunk
    → IsValid (extended s requested chunk)
unfolding extended
extended-IsValid s requested chunk v big more le = record {
  laid_out =
      ap (λ o. o ++ s.capacity ∷ []) v.laid_out
      ∙ ap (λ n. starts 0 s.buffers ++ n ∷ []) (omega (arith, v.room))
      ∙ sym (starts-append 0 s.buffers (replicate chunk 0));
  room = omega (
    arith,
    length-flatten-snoc s.buffers (replicate chunk 0),
    length-replicate {A = ℕ} chunk 0,
    v.room,
  );
  within = le;
  chunks = All-snoc _ s.buffers v.chunks (omega (arith, length-replicate {A = ℕ} chunk 0));
  in_use = inr (omega (arith, start_of-snoc s.buffers (replicate chunk 0), v.room));
}

same_lengths :
    (s : GrowableBuffer) (c : List ℕ)
    → IsValid s
    → (length (s.buffers ++ c ∷ []) == length (s.offsets ++ s.capacity ∷ [])) ≡ true
same_lengths s c v =
    let e : length (s.buffers ++ c ∷ []) ≡ length (s.offsets ++ s.capacity ∷ []) = omega (
      arith,
      length-append s.buffers (c ∷ []),
      length-append s.offsets (s.capacity ∷ []),
      ap length v.laid_out,
      length-starts 0 s.buffers,
    ) in
    ground arith

-- What growing to a requested size does.
pub record Grows (s t : GrowableBuffer) (requested : ℕ) : Type 0 where
  pub valid : IsValid t
  pub size : t.size ≡ max s.size requested
  pub more : (n : ℕ) × (flatten t.buffers ≡ flatten s.buffers ++ replicate n 0)

-- On a valid buffer `ensure_size` succeeds and leaves a valid buffer of the greater of the two sizes,
-- whose bytes are the old ones with zeros behind them.
pub ensure_size-Grows :
    (s : GrowableBuffer) (requested : ℕ)
    → IsValid s
    → (t : GrowableBuffer) × (ensure_size requested s ≡ (ok tt, t)) × Grows s t requested
unfolding ensure_size extended
ensure_size-Grows s requested v = elim (Bool-cases (leb requested s.size)) [
  | inl e ↦ (
    s,
    rw e,
    record { valid = v; size = ground arith; more = (0, sym (append-nil (flatten s.buffers))) },
  )
  | inr e ↦ elim (Bool-cases (leb requested s.capacity)) [
    | inl f ↦ (
      record s { size = requested },
      rw (e, f),
      record {
        valid = record {
          laid_out = v.laid_out;
          room = v.room;
          within = ground arith;
          chunks = v.chunks;
          in_use = elim v.in_use [ inl none_yet ↦ inl none_yet | inr used ↦ inr (ground arith) ];
        };
        size = ground arith;
        more = (0, sym (append-nil (flatten s.buffers)));
      },
    )
    | inr f ↦
        let chunk = max (requested - s.capacity) min_chunk in
        let beyond : s.capacity < requested = ground arith in
        let enough : leb requested (s.capacity + chunk) ≡ true = lt_leb _ _ (omega arith) in
        (
          extended s requested chunk,
          rw (e, f, enough, same_lengths s (replicate chunk 0) v),
          record {
            valid = extended-IsValid s requested chunk v (omega arith) beyond (omega arith);
            size = omega (arith, v.within);
            more = (chunk, flatten-snoc s.buffers (replicate chunk 0));
          },
        )
  ]
]
