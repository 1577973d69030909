-- ===== src/Util/GrowableBuffer/Layout.antt =====
-- The chunks laid end to end: where each begins, and what a write into one does to the whole.
use mathlib.Core.List.{flatten}
use genie_cloud.Base.{
  ℕ, zero, suc, ◌+◌, ◌≤◌, ◌<◌, ◌≡◌, refl, sym, ap, ◌∙◌, List, [], ◌∷◌, ◌++◌, some, arith, get_elem?,
  length, set, length-append, length-set,
}
use genie_cloud.Util.GrowableBuffer.{set_all}

some_inj : {xs ys : List ℕ} → some xs ≡ some ys → xs ≡ ys
some_inj h = cc

suc-add : (a b : ℕ) → suc a + b ≡ suc (a + b)
suc-add a b = omega arith

-- Where each chunk begins, from `o` on.
abbrev pub starts : ℕ → List (List ℕ) → List ℕ
starts o [] = []
starts o (b ∷ bs) = o ∷ starts (o + length b) bs

-- Where chunk `i` begins.
abbrev pub start_of : List (List ℕ) → ℕ → ℕ
start_of [] i = 0
start_of (b ∷ bs) zero = 0
start_of (b ∷ bs) (suc i) = length b + start_of bs i

pub length-starts : (o : ℕ) (bs : List (List ℕ)) → length (starts o bs) ≡ length bs
length-starts o [] = refl
length-starts o (b ∷ bs) = ap suc (length-starts (o + length b) bs)

pub get_elem?-starts :
    (o : ℕ) (bs : List (List ℕ)) (i : ℕ) {b : List ℕ}
    → get_elem? bs i ≡ some b
    → get_elem? (starts o bs) i ≡ some (o + start_of bs i)
get_elem?-starts o [] i h = cc
get_elem?-starts o (c ∷ bs) zero h = ap some (omega arith)
get_elem?-starts o (c ∷ bs) (suc i) h =
    get_elem?-starts (o + length c) bs i h ∙ ap some (omega arith)

pub starts-append :
    (o : ℕ) (bs : List (List ℕ)) (c : List ℕ)
    → starts o (bs ++ c ∷ []) ≡ starts o bs ++ (o + length (flatten bs)) ∷ []
unfolding flatten
starts-append o [] c = ap (λ x. x ∷ []) (omega arith)
starts-append o (b ∷ bs) c = ap (◌∷◌ o) (
    starts-append (o + length b) bs c
    ∙ ap (λ x. starts (o + length b) bs ++ x ∷ []) (omega (arith, length-append b (flatten bs))))

pub length-flatten-snoc :
    (bs : List (List ℕ)) (c : List ℕ)
    → length (flatten (bs ++ c ∷ [])) ≡ length (flatten bs) + length c
unfolding flatten
length-flatten-snoc [] c = omega (arith, length-append c [])
length-flatten-snoc (b ∷ bs) c = omega (
  arith,
  length-append b (flatten bs),
  length-append b (flatten (bs ++ c ∷ [])),
  length-flatten-snoc bs c,
)

-- A write keeps the length of each chunk, and so where the chunks begin.
pub length-set_all : (b : List ℕ) (k : ℕ) (vs : List ℕ) → length (set_all b k vs) ≡ length b
unfolding set_all
length-set_all b k [] = refl
length-set_all b k (v ∷ vs) = length-set_all (set b k v) (suc k) vs ∙ length-set b k v

pub starts-set :
    (o : ℕ) (bs : List (List ℕ)) (i : ℕ) {b : List ℕ} (c : List ℕ)
    → get_elem? bs i ≡ some b
    → length c ≡ length b
    → starts o (set bs i c) ≡ starts o bs
starts-set o [] i c h e = refl
starts-set o (d ∷ bs) zero {b} c h e =
    ap (λ n. o ∷ starts (o + n) bs) (e ∙ sym (ap length (some_inj h)))
starts-set o (d ∷ bs) (suc i) c h e = ap (◌∷◌ o) (starts-set (o + length d) bs i c h e)

set-append_left : (a r : List ℕ) (k v : ℕ) → k < length a → set (a ++ r) k v ≡ set a k v ++ r
set-append_left [] r k v h = elim h [ ]
set-append_left (x ∷ a) r zero v h = refl
set-append_left (x ∷ a) r (suc k) v h = ap (◌∷◌ x) (set-append_left a r k v (omega arith))

pub set_all-append_left :
    (a r : List ℕ) (k : ℕ) (vs : List ℕ)
    → k + length vs ≤ length a
    → set_all (a ++ r) k vs ≡ set_all a k vs ++ r
unfolding set_all
set_all-append_left a r k [] h = refl
set_all-append_left a r k (v ∷ vs) h =
    rw (set-append_left a r k v (omega arith))
      (set_all-append_left (set a k v) r (suc k) vs (omega (arith, length-set a k v)))

set-append_right : (a r : List ℕ) (k v : ℕ) → set (a ++ r) (length a + k) v ≡ a ++ set r k v
set-append_right [] r k v = ap (λ n. set r n v) (omega arith)
set-append_right (x ∷ a) r k v =
    ap (λ n. set (x ∷ (a ++ r)) n v) (suc-add (length a) k) ∙ ap (◌∷◌ x) (set-append_right a r k v)

-- A write past the first part is a write to the second.
pub set_all-append_right :
    (a r : List ℕ) (k : ℕ) (vs : List ℕ) → set_all (a ++ r) (length a + k) vs ≡ a ++ set_all r k vs
unfolding set_all
set_all-append_right a r k [] = refl
set_all-append_right a r k (v ∷ vs) =
    ap (λ b. set_all b (suc (length a + k)) vs) (set-append_right a r k v)
    ∙ ap (λ n. set_all (a ++ set r k v) n vs) (omega arith)
    ∙ set_all-append_right a (set r k v) (suc k) vs

-- A write in pieces, one behind the other.
pub set_all-append :
    (b : List ℕ) (k : ℕ) (us vs : List ℕ)
    → set_all b k (us ++ vs) ≡ set_all (set_all b k us) (k + length us) vs
unfolding set_all
set_all-append b k [] vs = ap (λ n. set_all b n vs) (omega arith)
set_all-append b k (u ∷ us) vs =
    set_all-append (set b k u) (suc k) us vs
    ∙ ap (λ n. set_all (set_all (set b k u) (suc k) us) n vs) (omega arith)

-- A write into chunk `i` is a write into the whole, that much further on.
pub flatten-set_all :
    (bs : List (List ℕ)) (i : ℕ) {b : List ℕ} (k : ℕ) (vs : List ℕ)
    → get_elem? bs i ≡ some b
    → k + length vs ≤ length b
    → flatten (set bs i (set_all b k vs)) ≡ set_all (flatten bs) (start_of bs i + k) vs
unfolding flatten
flatten-set_all [] i k vs h le = cc
flatten-set_all (c ∷ bs) zero {b} k vs h le =
    let e : c ≡ b = some_inj h in
    ap (λ d. set_all d k vs ++ flatten bs) (sym e)
    ∙ sym (set_all-append_left c (flatten bs) k vs (rw e le))
    ∙ ap (λ n. set_all (c ++ flatten bs) n vs) (omega arith)
flatten-set_all (c ∷ bs) (suc i) k vs h le =
    ap (◌++◌ c) (flatten-set_all bs i k vs h le)
    ∙ sym (set_all-append_right c (flatten bs) (start_of bs i + k) vs)
    ∙ ap (λ n. set_all (c ++ flatten bs) n vs) (omega arith)

pub starts_get :
    (o : ℕ) (bs : List (List ℕ)) (i : ℕ) {x : ℕ}
    → get_elem? (starts o bs) i ≡ some x
    → x ≡ o + start_of bs i
starts_get o [] i h = cc
starts_get o (b ∷ bs) zero h = ground arith
starts_get o (b ∷ bs) (suc i) h = omega (arith, starts_get (o + length b) bs i h)

-- A chunk ends where the next begins, and the last one where the whole ends.
pub start_of-suc :
    (bs : List (List ℕ)) (i : ℕ) {b : List ℕ}
    → get_elem? bs i ≡ some b
    → start_of bs (suc i) ≡ start_of bs i + length b
start_of-suc [] i h = cc
start_of-suc (c ∷ []) zero h = omega (arith, ap length (some_inj h))
start_of-suc (c ∷ d ∷ bs) zero h = omega (arith, ap length (some_inj h))
start_of-suc (c ∷ bs) (suc i) h = omega (arith, start_of-suc bs i h)

pub start_of_total : (bs : List (List ℕ)) → start_of bs (length bs) ≡ length (flatten bs)
unfolding flatten
start_of_total [] = refl
start_of_total (b ∷ bs) = omega (arith, length-append b (flatten bs), start_of_total bs)

pub start_of_mono : (bs : List (List ℕ)) (i j : ℕ) → i ≤ j → start_of bs i ≤ start_of bs j
start_of_mono [] i j h = omega arith
start_of_mono (b ∷ bs) zero j h = omega arith
start_of_mono (b ∷ bs) (suc i) zero h = elim h [ ]
start_of_mono (b ∷ bs) (suc i) (suc j) h = omega (arith, start_of_mono bs i j (omega arith))
