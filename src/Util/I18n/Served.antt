-- ===== src/Util/I18n/Served.antt =====
-- util/i18n.ts: the languages that `init` leaves, and what `get` finds among them.
use genie_cloud.Base.{
  ℕ, zero, suc, ◌≡◌, ◌≤◌, ◌<◌, refl, sym, ◌∙◌, subst, true, false, List, [], ◌∷◌, Option, none,
  some, Text, codes, text_eq, text_eq_iff, text_eq_refl, has_text, split, length, lookup,
  lookup-insert, insert, Result, ok, err, All, All-imp, dec_le, Bool-cases, inl, inr, Option-cases,
  arith,
}
use genie_cloud.Util.I18n.{
  prefix, Languages, bind_prefixes, bind_all, init, get_from, get, split_any, splits_locale,
  or_else, allowed_languages,
}

-- Every key is the beginning of its pack, and the pack is of one of the locales.
abbrev pub AreSound : List Text → Languages → Type 0
AreSound locales t =
    (key pack : Text)
    → lookup key t ≡ some pack
    → (has_text locales pack ≡ true) × ((n : ℕ) × (key ≡ prefix (suc n) (split b'-' pack)))

some_value : {x y : Text} → some x ≡ some y → x ≡ y
some_value h = cc

insert-AreSound :
    (locales : List Text) (n : ℕ) (pack : Text) (t : Languages)
    → has_text locales pack ≡ true
    → AreSound locales t
    → AreSound locales (insert (prefix (suc n) (split b'-' pack)) pack t)
insert-AreSound locales n pack t h s key other e =
    let new = prefix (suc n) (split b'-' pack) in
    elim (Bool-cases (text_eq new key)) [
      | inl same ↦
          subst
            (λ l. (has_text locales l ≡ true) × ((m : ℕ) × (key ≡ prefix (suc m) (split b'-' l))))
            (same_pack same) (h, (n, sym ((text_eq_iff new key).0 same)))
      | inr differ ↦ s key other (sym (rw differ refl) ∙ sym (lookup-insert new key pack t) ∙ e)
    ]
  where
    same_pack : text_eq (prefix (suc n) (split b'-' pack)) key ≡ true → pack ≡ other
    same_pack same =
        some_value (
          sym (rw same refl)
          ∙ sym (lookup-insert (prefix (suc n) (split b'-' pack)) key pack t)
          ∙ e)

bind_prefixes-AreSound :
    (locales : List Text) (n : ℕ) (pack : Text) (t : Languages)
    → has_text locales pack ≡ true
    → AreSound locales t
    → AreSound locales (bind_prefixes pack (split b'-' pack) n t)
unfolding bind_prefixes
bind_prefixes-AreSound locales zero pack t h s = s
bind_prefixes-AreSound locales (suc n) pack t h s =
    bind_prefixes-AreSound locales n pack (insert (prefix (suc n) (split b'-' pack)) pack t) h
      (insert-AreSound locales n pack t h s)

ok_value : {x y : Languages} → ◌≡◌ {A = Result Text Languages} (ok x) (ok y) → x ≡ y
ok_value h = cc

bind_all-AreSound :
    (locales rest : List Text) (start t : Languages)
    → All (λ l. has_text locales l ≡ true) rest
    → AreSound locales start
    → bind_all rest start ≡ ok t
    → AreSound locales t
unfolding bind_all
bind_all-AreSound locales [] start t a s e = subst (AreSound locales) (ok_value e) s
bind_all-AreSound locales (l ∷ rest) start t a s e =
    elim (Bool-cases (has_text allowed_languages l)) [
      | inl allowed ↦
          bind_all-AreSound locales rest
            (bind_prefixes l (split b'-' l) (length (split b'-' l)) start) t a.1
            (bind_prefixes-AreSound locales (length (split b'-' l)) l start a.0 s)
            (sym (rw allowed refl) ∙ e)
      | inr refused ↦ absurd (not_ok {x = codes "E_INVALID_CONFIG"} (sym (rw refused refl) ∙ e))
    ]
  where
    not_ok : {x : Text} {y : Languages} → ◌≡◌ {A = Result Text Languages} (err x) (ok y) → ⊥
    not_ok h = cc

all_among : (locales : List Text) → All (λ l. has_text locales l ≡ true) locales
unfolding has_text
all_among [] = tt
all_among (l ∷ ls) =
    (rw (text_eq_refl l) refl, All-imp _ _ (λ k h. ground (arith, h)) ls (all_among ls))

init-AreSound : (locales : List Text) (t : Languages) → init locales ≡ ok t → AreSound locales t
unfolding init lookup
init-AreSound [] t e = absurd cc
init-AreSound (l ∷ ls) t e =
    bind_all-AreSound (l ∷ ls) (l ∷ ls) [] t (all_among (l ∷ ls)) (λ key pack h. absurd cc) e

-- A pack that was found at so many parts, and at no more of them.
pub record IsLongest (languages : Languages) (parts : List Text) (n : ℕ) (pack : Text)
    : Type 0 where
  pub count : ℕ
  pub within : count ≤ n
  pub found : lookup (prefix count parts) languages ≡ some pack
  pub longest : (j : ℕ) → count < j → j ≤ n → lookup (prefix j parts) languages ≡ none

get_from-IsLongest :
    (languages : Languages) (parts : List Text) (n : ℕ) (pack : Text)
    → get_from languages parts n ≡ some pack
    → IsLongest languages parts n pack
unfolding get_from
get_from-IsLongest languages parts zero pack e = record {
  count = 0;
  within = omega arith;
  found = e;
  longest = λ j less most. absurd (omega (arith, less, most));
}
get_from-IsLongest languages parts (suc n) pack e =
    elim (Option-cases (lookup (prefix (suc n) parts) languages)) [
      | inl missing ↦
          let r = get_from-IsLongest languages parts n pack (sym (rw missing refl) ∙ e) in
          record {
            count = r.count;
            within = omega (arith, r.within);
            found = r.found;
            longest = λ j less most. at_most r j less most missing;
          }
      | inr (other, there) ↦ record {
        count = suc n;
        within = omega arith;
        found = there ∙ sym (rw there refl) ∙ e;
        longest = λ j less most. absurd (omega (arith, less, most));
      }
    ]
  where
    at_most :
        (r : IsLongest languages parts n pack) (j : ℕ)
        → r.count < j
        → j ≤ suc n
        → lookup (prefix (suc n) parts) languages ≡ none
        → lookup (prefix j parts) languages ≡ none
    at_most r j less most missing = elim (dec_le j n) [
      | yes before ↦ r.longest j less before
      | no after ↦
          subst (λ k. lookup (prefix k parts) languages ≡ none) {x = suc n}
            (omega (arith, most, after)) missing
    ]

-- The pack is of a locale that is enabled; the beginning of the locale that it was found at begins the
-- pack too, and no longer beginning has a pack.
pub record Served (locales : List Text) (languages : Languages) (locale pack : Text) : Type 0 where
  pub enabled : has_text locales pack ≡ true
  pub at :
      IsLongest languages
        (split_any splits_locale locale)
        (length (split_any splits_locale locale))
        pack
  pub pack_count : ℕ
  pub common :
      prefix at.count (split_any splits_locale locale) ≡ prefix (suc pack_count) (split b'-' pack)

-- Once `init` accepted its languages, a locale that `get` finds a language for without the fallback gets
-- an enabled one, found at a beginning of the locale that begins the language too; no longer beginning
-- has a language.
pub get-Served :
    (locales : List Text) (languages : Languages) (locale pack : Text)
    → init locales ≡ ok languages
    → get languages locale false ≡ some pack
    → Served locales languages locale pack
unfolding get
get-Served locales languages locale pack i e =
    let parts = split_any splits_locale locale in
    let at = get_from-IsLongest languages parts (length parts) pack (without_fallback _ e) in
    let sound = init-AreSound locales languages i (prefix at.count parts) pack at.found in
    record { enabled = sound.0; at = at; pack_count = sound.1.0; common = sound.1.1 }
  where
    without_fallback : (o : Option Text) → or_else o none ≡ some pack → o ≡ some pack
    without_fallback none h = h
    without_fallback (some a) h = h
