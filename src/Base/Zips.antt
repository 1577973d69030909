-- ===== src/Base/Zips.antt =====
-- Lists whose items are related one by one.
use mathlib.Core.List.{List, [], ◌∷◌, map}
use genie_cloud.Base.Texts.{All}

-- Two lists of one length whose items are related, one by one.
abbrev pub Zip {ℓ κ} : {A : Type ℓ} {B : Type κ} → (A → B → Type 0) → List A → List B → Type 0
Zip R [] [] = Unit
Zip R [] (y ∷ ys) = ⊥
Zip R (x ∷ xs) [] = ⊥
Zip R (x ∷ xs) (y ∷ ys) = R x y × Zip R xs ys

pub Zip-map {ℓ κ} :
    {A : Type ℓ} {B : Type κ} (R : A → B → Type 0) (f : A → B)
    → ((x : A) → R x (f x))
    → (xs : List A) → Zip R xs (map f xs)
Zip-map R f h [] = tt
Zip-map R f h (x ∷ xs) = (h x, Zip-map R f h xs)

pub Zip-trans {ℓ} :
    {A : Type ℓ} (R : A → A → Type 0)
    → ((x y z : A) → R x y → R y z → R x z)
    → (xs ys zs : List A) → Zip R xs ys
    → Zip R ys zs
    → Zip R xs zs
Zip-trans R t [] [] [] h k = tt
Zip-trans R t (x ∷ xs) (y ∷ ys) (z ∷ zs) h k = (t x y z h.0 k.0, Zip-trans R t xs ys zs h.1 k.1)
Zip-trans R t [] [] (z ∷ zs) h k = elim k [ ]
Zip-trans R t [] (y ∷ ys) zs h k = elim h [ ]
Zip-trans R t (x ∷ xs) [] zs h k = elim h [ ]
Zip-trans R t (x ∷ xs) (y ∷ ys) [] h k = elim k [ ]

-- A fact of every item that the relation carries over holds of every item of the second list.
pub Zip-All {ℓ} :
    {A : Type ℓ} (R : A → A → Type 0) (P Q : A → Type 0)
    → ((x y : A) → R x y → P x → Q y)
    → (xs ys : List A) → Zip R xs ys
    → All P xs
    → All Q ys
Zip-All R P Q t [] [] h a = tt
Zip-All R P Q t (x ∷ xs) (y ∷ ys) h a = (t x y h.0 a.0, Zip-All R P Q t xs ys h.1 a.1)
Zip-All R P Q t [] (y ∷ ys) h a = elim h [ ]
Zip-All R P Q t (x ∷ xs) [] h a = elim h [ ]

pub Zip-refl {ℓ} :
    {A : Type ℓ} (R : A → A → Type 0) → ((x : A) → R x x) → (xs : List A) → Zip R xs xs
Zip-refl R h [] = tt
Zip-refl R h (x ∷ xs) = (h x, Zip-refl R h xs)

pub All-imp {ℓ κ} :
    {A : Type ℓ} (P Q : A → Type κ) → ((x : A) → P x → Q x) → (xs : List A) → All P xs → All Q xs
All-imp P Q h [] a = tt
All-imp P Q h (x ∷ xs) a = (h x a.0, All-imp P Q h xs a.1)

pub All-map {ℓ κ} :
    {A : Type ℓ} (P : A → Type κ) (f : A → A)
    → ((x : A) → P (f x))
    → (xs : List A) → All P (map f xs)
All-map P f h [] = tt
All-map P f h (x ∷ xs) = (h x, All-map P f h xs)
