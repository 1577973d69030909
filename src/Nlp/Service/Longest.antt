-- ===== src/Nlp/Service/Longest.antt =====
-- nlp/main.ts: which model a locale gets.
use genie_cloud.Base.{
  ℕ, zero, suc, ◌≡◌, ◌≤◌, ◌<◌, refl, sym, ◌∙◌, subst, List, Option, none, some, Text, length,
  lookup, Option-cases, inl, inr, dec_le, arith,
}
use genie_cloud.Util.I18n.{prefix, split_any}
use genie_cloud.Nlp.Service.{
  find_prefix, by_locale, get_model, full_tag, model_key, splits_tag, NlpModel, Service,
}

-- What is found is at so many of the parts, one at least, and there is nothing at more of them.
pub record IsLongest {A : Type 0} (look : Text → Option A) (parts : List Text) (n : ℕ) (a : A)
    : Type 0 where
  pub count : ℕ
  pub positive : 1 ≤ count
  pub within : count ≤ n
  pub found : look (prefix count parts) ≡ some a
  pub longest : (j : ℕ) → count < j → j ≤ n → look (prefix j parts) ≡ none

module _ {A : Type 0} (look : Text → Option A) (parts : List Text) where
  none_above :
      (n count j : ℕ)
      → ((i : ℕ) → count < i → i ≤ n → look (prefix i parts) ≡ none)
      → look (prefix (suc n) parts) ≡ none
      → count < j
      → j ≤ suc n
      → look (prefix j parts) ≡ none
  none_above n count j below missing less most = elim (dec_le j n) [
    | yes before ↦ below j less before
    | no after ↦
        subst (λ k. look (prefix k parts) ≡ none) {x = suc n} (omega (arith, most, after)) missing
  ]

  pub find_prefix-IsLongest :
      (n : ℕ) (a : A) → find_prefix look parts n ≡ some a → IsLongest look parts n a
  unfolding find_prefix
  find_prefix-IsLongest zero a e = absurd cc
  find_prefix-IsLongest (suc n) a e = elim (Option-cases (look (prefix (suc n) parts))) [
    | inl missing ↦
        let r = find_prefix-IsLongest n a (sym (rw missing refl) ∙ e) in
        record {
          count = r.count;
          positive = r.positive;
          within = omega (arith, r.within);
          found = r.found;
          longest = λ j less most. none_above n r.count j r.longest missing less most;
        }
    | inr (other, there) ↦ record {
      count = suc n;
      positive = omega arith;
      within = omega arith;
      found = there ∙ sym (rw there refl) ∙ e;
      longest = λ j less most. absurd (omega (arith, less, most));
    }
  ]

-- The model that a locale gets is the one for the longest beginning of it that has a model of the tag.
pub get_model-IsLongest :
    (s : Service) (tag locale : Text) (m : NlpModel)
    → get_model s tag locale ≡ some m
    → IsLongest
        (λ l. lookup (model_key (full_tag tag) l) s.models)
        (split_any splits_tag locale)
        (length (split_any splits_tag locale))
        m
unfolding get_model by_locale
get_model-IsLongest s tag locale m e =
    find_prefix-IsLongest (λ l. lookup (model_key (full_tag tag) l) s.models)
      (split_any splits_tag locale) (length (split_any splits_tag locale)) m e
