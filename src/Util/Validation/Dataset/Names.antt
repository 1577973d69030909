-- ===== src/Util/Validation/Dataset/Names.antt =====
-- util/validation.ts: about the name that is made for an example.
use genie_cloud.Base.{
  ℕ, zero, suc, ◌≤◌, ◌<◌, ◌≡◌, refl, sym, ap, ◌∙◌, subst, true, false, not, ◌||◌, inl, inr, List,
  [], ◌∷◌, ◌++◌, some, some-injective, Text, text_eq, text_eq_sound, has_text, if-elim, length,
  filter_of, decimal, decimal-injective, Bool-cases, arith,
}
use genie_cloud.Util.Validation.Dataset.{find_free, autogen_name}

append_cancel : (s t u : Text) → s ++ t ≡ s ++ u → t ≡ u
append_cancel [] t u h = h
append_cancel (c ∷ s) t u h = append_cancel s t u (ap tail h)
  where
    tail : Text → Text
    tail [] = []
    tail (d ∷ ds) = ds

-- The names without one of them.
without : Text → List Text → List Text
without n names = filter_of (λ t. not (text_eq t n)) names

length-without : (n : Text) (names : List Text) → length (without n names) ≤ length names
unfolding without
length-without n [] = omega arith
length-without n (t ∷ ts) = elim (Bool-cases (text_eq t n)) [
  | inl e ↦ rw e (omega (arith, length-without n ts))
  | inr e ↦ rw e (omega (arith, length-without n ts))
]

without-shorter :
    (n : Text) (names : List Text)
    → has_text names n ≡ true
    → length (without n names) < length names
unfolding without has_text
without-shorter n [] h = absurd (ground arith)
without-shorter n (t ∷ ts) h = elim (Bool-cases (text_eq t n)) [
  | inl e ↦ rw e (omega (arith, length-without n ts))
  | inr e ↦
      let less = without-shorter n ts (subst (λ b. (b || has_text ts n) ≡ true) e h) in
      rw e (omega (arith, less))
]

-- Every other name is still there.
has_text-without :
    (n m : Text) (names : List Text)
    → text_eq n m ≡ false
    → has_text (without n names) m ≡ has_text names m
unfolding without has_text
has_text-without n m [] h = refl
has_text-without n m (t ∷ ts) h = elim (Bool-cases (text_eq t n)) [
  | inl e ↦
      let other = subst (λ x. text_eq x m ≡ false) (sym (text_eq_sound t n e)) h in
      rw (e, other) (has_text-without n m ts h)
  | inr e ↦ rw e (ap (λ b. text_eq t m || b) (has_text-without n m ts h))
]

numbered_apart :
    (base : Text) (i j : ℕ) → i < j → text_eq (base ++ decimal i) (base ++ decimal j) ≡ false
numbered_apart base i j h = elim (Bool-cases (text_eq (base ++ decimal i) (base ++ decimal j))) [
  | inl e ↦
      absurd
        (omega (arith, h, decimal-injective i j (append_cancel base _ _ (text_eq_sound _ _ e))))
  | inr e ↦ e
]

-- The search asks only for the names from the counter on.
find_free-same :
    (fuel : ℕ) (base : Text) (counter : ℕ) (xs ys : List Text)
    → ((j : ℕ) → counter ≤ j → has_text xs (base ++ decimal j) ≡ has_text ys (base ++ decimal j))
    → find_free fuel base counter xs ≡ find_free fuel base counter ys
unfolding find_free
find_free-same zero base counter xs ys h = refl
find_free-same (suc fuel) base counter xs ys h =
    let rest = find_free-same fuel base (suc counter) xs ys (λ j le. h j (omega (arith, le))) in
    rw (h counter (omega arith), rest) refl

find_free_total :
    (fuel : ℕ) (base : Text) (counter : ℕ) (names : List Text)
    → length names < fuel
    → (name : Text) × (find_free fuel base counter names ≡ some name)
unfolding find_free
find_free_total zero base counter names h = absurd (omega (arith, h))
find_free_total (suc fuel) base counter names h =
    elim (Bool-cases (has_text names (base ++ decimal counter))) [
      | inl e ↦
          let n = base ++ decimal counter in
          let less = without-shorter n names e in
          let found =
            find_free_total fuel base (suc counter) (without n names) (omega (arith, h, less)) in
          let same = find_free-same fuel base (suc counter) names (without n names) (λ j le.
            sym (has_text-without n _ names (numbered_apart base counter j (omega (arith, le))))) in
          (found.0, rw e (same ∙ found.1))
      | inr e ↦ (base ++ decimal counter, rw e refl)
    ]

find_free_new :
    (fuel : ℕ) (base : Text) (counter : ℕ) (names : List Text) (name : Text)
    → find_free fuel base counter names ≡ some name
    → has_text names name ≡ false
unfolding find_free
find_free_new zero base counter names name h = absurd (ground arith)
find_free_new (suc fuel) base counter names name h =
    if-elim (λ o. o ≡ some name → has_text names name ≡ false)
      (has_text names (base ++ decimal counter))
      (λ e. find_free_new fuel base (suc counter) names name)
      (λ e q. subst (λ t. has_text names t ≡ false) (some-injective _ _ q) e) h

-- For any name of the example and any set of names, `autogenExampleName` ends with a name that the set
-- does not hold.
pub autogen_name_new :
    (base : Text) (names : List Text)
    → (name : Text) × (autogen_name base names ≡ some name) × (has_text names name ≡ false)
unfolding autogen_name
autogen_name_new base names = elim (Bool-cases (has_text names base)) [
  | inl e ↦
      let found = find_free_total (suc (length names)) base 1 names (omega arith) in
      (found.0, rw e found.1, find_free_new (suc (length names)) base 1 names found.0 found.1)
  | inr e ↦ (base, rw e refl, e)
]
