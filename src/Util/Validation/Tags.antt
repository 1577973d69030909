-- ===== src/Util/Validation/Tags.antt =====
-- util/validation.ts: what `validateTag` lets through.
use genie_cloud.Base.{
  ℕ, ◌<◌, ◌≤◌, ◌≡◌, refl, ◌⊎◌, inl, inr, Bool, true, false, not, ◌&&◌, ◌||◌, List, [], ◌∷◌, Option,
  none, some, Text, codes, if◌then◌else◌, ◌==◌, leb, ltb, has_text, length, split, All, arith,
}
use genie_cloud.Util.User.{Row, has_file_extension, ends_with}
use genie_cloud.Util.Validation.{
  forbidden_names, TagError, invalid_id, too_long, no_period, reserved, is_tag, starts_badly,
  check_parts, part_is, check_convention, has_admin_role, validate_tag,
}

-- A part that is a host name and a class identifier, and no unsafe name.
pub record GoodPart (part : Text) : Type 0 where
  pub start : starts_badly part ≡ false
  pub end_ : ends_with (codes "-") part ≡ false
  pub safe : has_text forbidden_names part ≡ false

or_false : (a b : Bool) → (a || b) ≡ false → (a ≡ false) × (b ≡ false)
or_false a b h = ground arith

if_none {ℓ} :
    {A : Type ℓ} (b : Bool) (e : A) (o : Option A)
    → (if b then some e else o) ≡ none
    → (b ≡ false) × (o ≡ none)
if_none b e o h = ground arith

check_parts-Good : (parts : List Text) → check_parts parts ≡ none → All GoodPart parts
unfolding check_parts
check_parts-Good [] h = tt
check_parts-Good (part ∷ parts) h =
    let (a, h₁) = if_none _ _ _ h in
    let (b, h₂) = if_none _ _ _ h₁ in
    let (c, d) = or_false _ _ a in
    (record { start = c; end_ = d; safe = b }, check_parts-Good parts h₂)

-- The namespace of a tag that a developer of another organization may not use.
abbrev pub is_reserved : List Text → Bool
is_reserved parts =
    (part_is parts 0 (codes "org") && part_is parts 1 (codes "thingpedia"))
    && not (
        part_is parts 2 (codes "test")
        || part_is parts 2 (codes "builtin") && part_is parts 3 (codes "test"))

abbrev pub in_root_org : Row → Bool
in_root_org user = elim user.developer_org [ none ↦ false | some org ↦ org == 1 ]

-- What holds of a tag that passes.
pub record GoodTag (tag : Text) (user : Row) (admin_role : Option ℕ) : Type 0 where
  pub shape : is_tag tag ≡ true
  pub no_file : has_file_extension tag ≡ false
  pub parts : All GoodPart (split b'.' tag)
  pub short : length tag ≤ 128
  pub periods : (has_admin_role admin_role user ≡ true) ⊎ (1 < length (split b'.' tag))
  pub namespace :
      (has_admin_role admin_role user ≡ true)
      ⊎ (in_root_org user ≡ true)
      ⊎ (is_reserved (split b'.' tag) ≡ false)

not-false : (a : Bool) → not a ≡ false → a ≡ true
not-false a h = ground arith

not_ltb : (n : ℕ) → ltb 128 n ≡ false → n ≤ 128
not_ltb n h = ground arith

not_leb : (n : ℕ) → leb n 1 ≡ false → 1 < n
not_leb n h = ground arith

-- The tests of `validateTag` as a chain.
chain-none :
    (a b : Bool) (p : Option TagError) (l r : Bool) (q : Option TagError)
    → (if a
        then some invalid_id
        else if b
        then some invalid_id
        else elim p [ some e ↦ some e | none ↦ if l then some too_long else if r then none else q ])
      ≡ none
    → (a ≡ false) × (b ≡ false) × (p ≡ none) × (l ≡ false) × ((r ≡ true) ⊎ (q ≡ none))
chain-none true b p l r q h = cc
chain-none false true p l r q h = cc
chain-none false false (some e) l r q h = cc
chain-none false false none true r q h = cc
chain-none false false none false true q h = (refl, refl, refl, refl, inl refl)
chain-none false false none false false q h = (refl, refl, refl, refl, inr h)

convention-none :
    (a b c d : Bool)
    → (if a
        then some no_period
        else if b
        then none
        else if c
        then if d then none else some reserved
        else none)
      ≡ none
    → (a ≡ false) × ((b ≡ true) ⊎ ((c && not d) ≡ false))
convention-none true b c d h = cc
convention-none false true c d h = (refl, inl refl)
convention-none false false true true h = (refl, inr refl)
convention-none false false true false h = cc
convention-none false false false d h = (refl, inr refl)

check_convention-passed :
    (parts : List Text) (user : Row)
    → check_convention parts user ≡ none
    → (1 < length parts) × ((in_root_org user ≡ true) ⊎ (is_reserved parts ≡ false))
unfolding check_convention
check_convention-passed parts user h =
    let (a, r) =
      convention-none (leb (length parts) 1) (in_root_org user)
        (part_is parts 0 (codes "org") && part_is parts 1 (codes "thingpedia"))
        (part_is parts 2 (codes "test")
          || part_is parts 2 (codes "builtin") && part_is parts 3 (codes "test"))
        h in
    (not_leb (length parts) a, r)

-- A tag that `validateTag` lets through has the shape of a dotted name whose parts are all good, at
-- most 128 characters and no file extension; and, but for an admin, two parts at least and no
-- place in the reserved namespace that is not one of the root organization.
pub validate_tag-GoodTag :
    (tag : Text) (user : Row) (admin_role : Option ℕ)
    → validate_tag tag user admin_role ≡ none
    → GoodTag tag user admin_role
unfolding validate_tag
validate_tag-GoodTag tag user admin_role h =
    let parts = split b'.' tag in
    let (a, b, p, l, r) =
      chain-none (not (is_tag tag)) (has_file_extension tag) (check_parts parts)
        (ltb 128 (length tag)) (has_admin_role admin_role user) (check_convention parts user) h in
    record {
      shape = not-false _ a;
      no_file = b;
      parts = check_parts-Good parts p;
      short = omega (arith, not_ltb (length tag) l);
      periods = elim r [ inl x ↦ inl x | inr q ↦ inr (check_convention-passed parts user q).0 ];
      namespace = elim r [ inl x ↦ inl x | inr q ↦ inr (check_convention-passed parts user q).1 ];
    }
