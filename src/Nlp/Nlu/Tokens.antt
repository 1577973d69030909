-- ===== src/Nlp/Nlu/Tokens.antt =====
-- nlp/nlu.ts and nlp/query.ts on nlp/main.ts: about the access tokens that a server asks for.
use genie_cloud.Base.{
  Bool, true, false, ◌≡◌, refl, sym, ap, ◌∙◌, subst, not, ◌&&◌, ◌||◌, List, [], ◌∷◌, Text, codes,
  text_eq, Option, none, some, Result, ok, err, two_steps, lookup, lookup-insert, insert,
  Option-cases, Bool-cases, inl, inr, if◌then◌else◌,
}
use genie_cloud.Util.I18n.{Languages, get, truthy, prefix, split_any, locale_to_language}
use genie_cloud.Nlp.Service.{
  Token, undefined, null, token, NlpModel, Service, Spec, Download, get_model, new_model, model_key,
  full_tag, load_exact_matcher, load_matchers, load_models, load, new_service, splits_tag,
}
use genie_cloud.Nlp.Service.Longest.{get_model-IsLongest}
use genie_cloud.Nlp.Nlu.{
  Request, Data, Refusal, Failure, response, rejected, LogRow, Prediction, answer_with, unless,
  is_some, query, Answer, text_or, select_model, found_or, first_model, fallbacks, is_refused,
  run_nlu, ask_model, ask_selected, fit,
}
use genie_cloud.Nlp.Nlu.Answering.{is_ok, good_store, Send, fit-others}

-- No model of the table asks for a token.
abbrev AsksNone : Service → Type 0
AsksNone s = (key : Text) (m : NlpModel) → lookup key s.models ≡ some m → m.access_token ≡ undefined

some_model : {x y : NlpModel} → some x ≡ some y → x ≡ y
some_model h = cc

load_models-AsksNone :
    (specs : List Spec) (s : Service) → AsksNone s → AsksNone (load_models specs s)
unfolding load_models new_model
load_models-AsksNone [] s h = h
load_models-AsksNone (spec ∷ specs) s h =
    let new = new_model spec s in
    load_models-AsksNone specs (record s { models = insert new.id new s.models })
      λ key m e. elim (Bool-cases (text_eq new.id key)) [
        | inl same ↦
            subst (λ k. k.access_token ≡ undefined)
              (some_model {x = new}
                (sym (rw same refl) ∙ sym (lookup-insert new.id key new s.models) ∙ e))
              refl
        | inr other ↦
            h key m (sym (rw other refl) ∙ sym (lookup-insert new.id key new s.models) ∙ e)
      ]

ok_value : {x y : Service} → ◌≡◌ {A = Result Text Service} (ok x) (ok y) → x ≡ y
ok_value h = cc

load_matchers-models :
    (download : Text → Download) (locales : List Text) (s t : Service)
    → load_matchers download locales s ≡ ok t
    → t.models ≡ s.models
unfolding load_matchers
load_matchers-models download [] s t e = ap (λ u. u.models) (sym (ok_value e))
load_matchers-models download (l ∷ ls) s t e =
    let first = two_steps (load_exact_matcher [] (download (locale_to_language l))) _ t e in
    load_matchers-models download ls
      (record s { exact_matchers = insert (locale_to_language l) first.value s.exact_matchers }) t
      first.goes_on

load-AsksNone :
    (download : Text → Download) (locales : List Text) (specs : List Spec) (s : Service)
    → load download locales specs ≡ ok s
    → AsksNone s
unfolding load new_service lookup
load-AsksNone download locales specs s e =
    let first = two_steps (load_matchers download locales new_service) _ s e in
    subst AsksNone (ok_value first.goes_on) (
      load_models-AsksNone specs first.value λ key m h. absurd (
        none_there key m
          (load_matchers-models download locales new_service first.value first.is_value) h))
  where
    not_some : {m : NlpModel} → none ≡ some m → ⊥
    not_some h = cc

    none_there :
        (key : Text) (m : NlpModel) {t : List (Text × NlpModel)}
        → t ≡ []
        → lookup key t ≡ some m
        → ⊥
    none_there key m e h = not_some (sym (ap (lookup key) e) ∙ h)

module _ (s : Service) (asks_none : AsksNone s) where
  get_model-open :
      (tag locale : Text) (m : NlpModel)
      → get_model s tag locale ≡ some m
      → m.access_token ≡ undefined
  get_model-open tag locale m e =
      let at = get_model-IsLongest s tag locale m e in
      asks_none (model_key (full_tag tag) (prefix at.count (split_any splits_tag locale))) m
        at.found

  first_model-open :
      (locale : Text) (tags : List Text) (m : NlpModel)
      → first_model s locale tags ≡ some m
      → m.access_token ≡ undefined
  unfolding first_model
  first_model-open locale [] m e = absurd cc
  first_model-open locale (tag ∷ tags) m e = elim (Option-cases (get_model s tag locale)) [
    | inl missing ↦ first_model-open locale tags m (sym (rw (missing, first_model) refl) ∙ e)
    | inr (other, there) ↦
        get_model-open tag locale m (there ∙ sym (rw (there, first_model) refl) ∙ e)
  ]

  select_model-open :
      (req : Request) (body : Data) (m : NlpModel)
      → select_model s req body ≡ ok m
      → m.access_token ≡ undefined
  unfolding select_model
  select_model-open req body m e = elim (Option-cases (truthy req.model_tag)) [
    | inl missing ↦ first_model-open req.locale (fallbacks body.developer_key) m (
        found_or-ok (500, codes "No default model") _ m (sym (rw (missing, select_model) refl) ∙ e))
    | inr (tag, there) ↦
        get_model-open tag req.locale m
          (found_or-ok (404, codes "No such model") _ m (sym (rw (there, select_model) refl) ∙ e))
  ]
    where
      found_or-ok :
          (r : Refusal) (o : Option NlpModel) (n : NlpModel) → found_or r o ≡ ok n → o ≡ some n
      found_or-ok r none n h = absurd cc
      found_or-ok r (some k) n h = cc

abbrev pub is_undefined : Token → Bool
is_undefined undefined = true
is_undefined null = false
is_undefined (token t) = false

refused-open : (m given : Token) → m ≡ undefined → is_refused m given ≡ not (is_undefined given)
unfolding is_refused
refused-open undefined undefined h = refl
refused-open undefined null h = refl
refused-open undefined (token t) h = refl
refused-open null given h = absurd cc
refused-open (token t) given h = absurd cc

-- Whether a query ends with a response that is no answer.
abbrev pub is_response : Result Failure Answer → Bool
is_response (ok a) = false
is_response (err (response r)) = true
is_response (err (rejected e)) = false

answer_with-is_response :
    (send : Send) (log : LogRow → Option Text) (store : Text) (body : Data) (m : NlpModel)
    (p : Result Text Prediction)
    → is_response (answer_with send log store body m p) ≡ false
unfolding answer_with
answer_with-is_response send log store body m (err e) = refl
answer_with-is_response send log store body m (ok q) = no_response _ _
  where
    no_response : (o : Option Text) (x : Answer) → is_response (unless o x) ≡ false
    no_response none x = refl
    no_response (some e) x = refl

ask-open :
    (send : Send) (log : LogRow → Option Text) (store : Text) (body : Data)
    (r : Result Refusal NlpModel)
    → ((m : NlpModel) → r ≡ ok m → m.access_token ≡ undefined)
    → is_response (ask_selected send log store body r)
      ≡ not (is_ok r && is_undefined body.access_token)
unfolding ask_selected ask_model
ask-open send log store body (err refusal) h = refl
ask-open send log store body (ok m) h =
    by_refusal (is_refused m.access_token (fit m body).access_token) _
      (answer_with-is_response send log store (fit m body) m _)
    ∙ refused-open m.access_token (fit m body).access_token (h m refl)
    ∙ ap (λ t. not (is_undefined t)) (fit-others m body).0
  where
    by_refusal :
        (b : Bool) (a : Result Failure Answer)
        → is_response a ≡ false
        → is_response (if b then err (response (404, codes "No such model")) else a) ≡ b
    by_refusal true a h = refl
    by_refusal false a h = h

run_nlu-load :
    (send : Send) (log : LogRow → Option Text) (download : Text → Download) (locales : List Text)
    (specs : List Spec) (s : Service) (req : Request) (body : Data)
    → load download locales specs ≡ ok s
    → is_response (run_nlu send log s req body)
      ≡ not (good_store body && (is_ok (select_model s req body) && is_undefined body.access_token))
unfolding run_nlu
run_nlu-load send log download locales specs s req body e =
    let store = text_or (codes "no") (truthy body.store) in
    by_store (text_eq store (codes "yes")) (text_eq store (codes "no"))
      (ask_selected send log store body (select_model s req body)) _
      (ask-open send log store body (select_model s req body)
        (select_model-open s (load-AsksNone download locales specs s e) req body))
  where
    by_store :
        (online off : Bool) (r : Result Failure Answer) (b : Bool)
        → is_response r ≡ not b
        → is_response (
            if not online && not off
            then err (response (400, codes "Invalid store parameter"))
            else r)
          ≡ not ((online || off) && b)
    by_store true off r b h = h
    by_store false true r b h = h
    by_store false false r b h = refl

-- Whatever access tokens the models are configured with, a server that loaded them answers a query with
-- an error status of its own exactly if it does not support the language, the query asks for a store
-- that there is not, no model is selected, or an access token is given. This holds also where the
-- predictor or the table rejects, which is thrown.
pub query-load :
    (send : Send) (log : LogRow → Option Text) (download : Text → Download) (locales : List Text)
    (specs : List Spec) (languages : Languages) (s : Service) (req : Request) (body : Data)
    → load download locales specs ≡ ok s
    → is_response (query send log languages s req body)
      ≡ not (
          is_some (get languages req.locale false)
          && (good_store body
              && (is_ok (select_model s req body) && is_undefined body.access_token)))
unfolding query
query-load send log download locales specs languages s req body e =
    by_language (get languages req.locale false) (run_nlu send log s req body) _
      (run_nlu-load send log download locales specs s req body e)
  where
    by_language :
        (o : Option Text) (r : Result Failure Answer) (b : Bool)
        → is_response r ≡ not b
        → is_response
            (elim o [ none ↦ err (response (404, codes "Unsupported language")) | some pack ↦ r ])
          ≡ not (is_some o && b)
    by_language none r b h = refl
    by_language (some pack) r b h = h
