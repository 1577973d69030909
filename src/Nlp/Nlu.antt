-- ===== src/Nlp/Nlu.antt =====
-- nlp/nlu.ts and nlp/query.ts: a query to a model. The predictor and the table of
-- the utterances are arguments; a text of the request that is empty counts as none.
pub mod Answering
pub mod Tokens
mod Tests
use genie_cloud.Base.{
  ℕ, Bool, true, false, not, ◌&&◌, ◌||◌, List, [], ◌∷◌, Option, none, some, Text, codes, text_eq,
  if◌then◌else◌, split, join, Result, ok, err,
}
use genie_cloud.Util.I18n.{Languages, get, truthy}
use genie_cloud.Nlp.Service.{Token, undefined, null, token, NlpModel, Service, get_model}

-- The parameters of the path and of the query or the body.
pub record Request : Type 0 where
  pub model_tag : Option Text
  pub locale : Text

pub record Data : Type 0 where
  pub q : Text
  pub store : Option Text
  pub expect : Option Text
  pub context : Option Text
  pub entities : Option (List (Text × Text))
  pub developer_key : Option Text
  pub access_token : Token

-- A response that is no answer: its status and its error.
abbrev pub Refusal : Type 0
Refusal = ℕ × Text

pub record Prediction : Type 0 where
  pub tokens : List Text
  pub candidates : List (List Text)

-- A row that `logUtterance` writes.
pub record LogRow : Type 0 where
  pub language : Text
  pub preprocessed : Text
  pub context : Option Text
  pub target_code : Text

pub record Answer : Type 0 where
  pub model : NlpModel
  pub context : Option (List Text)
  pub entities : Option (List (Text × Text))
  pub prediction : Prediction
  pub logged : Option LogRow

abbrev pub text_or : Text → Option Text → Text
text_or d none = d
text_or d (some t) = t

abbrev pub is_some : {A : Type 0} → Option A → Bool
is_some none = false
is_some (some a) = true

-- `isValidDeveloperKey`
unfoldable pub is_valid_developer_key : Option Text → Bool
unfolding text_eq
is_valid_developer_key none = false
is_valid_developer_key (some []) = false
is_valid_developer_key (some (c ∷ s)) =
    not (text_eq (c ∷ s) (codes "null")) && not (text_eq (c ∷ s) (codes "undefined"))

-- The context and the entities that a model is given.
unfoldable pub fit : NlpModel → Data → Data
fit model body =
    if model.contextual && not (is_some (truthy body.context))
    then record body { context = some (codes "null"); entities = some [] }
    else if not model.contextual
    then record body { context = none; entities = none }
    else body

-- The first model that is there.
unfoldable pub first_model : Service → Text → List Text → Option NlpModel
unfolding get_model
first_model s locale [] = none
first_model s locale (tag ∷ tags) =
    let rest = first_model s locale tags in
    elim (get_model s tag locale) [ none ↦ rest | some model ↦ some model ]

unfoldable pub fallbacks : Option Text → List Text
unfolding is_valid_developer_key
fallbacks developer_key =
    if is_valid_developer_key developer_key
    then codes "org.thingpedia.models.developer" ∷ codes "org.thingpedia.models.default" ∷ []
    else codes "org.thingpedia.models.default" ∷ codes "org.thingpedia.models.developer" ∷ []

abbrev pub found_or : Refusal → Option NlpModel → Result Refusal NlpModel
found_or refusal none = err refusal
found_or refusal (some model) = ok model

-- The model of a request, by its tag or by the fallbacks.
unfoldable pub select_model : Service → Request → Data → Result Refusal NlpModel
unfolding get_model first_model fallbacks
select_model s req body = elim (truthy req.model_tag) [
  | none ↦
      found_or (500, codes "No default model")
        (first_model s req.locale (fallbacks body.developer_key))
  | some tag ↦ found_or (404, codes "No such model") (get_model s tag req.locale)
]

-- Whether a token lets a request through: `model.accessToken !== null && ... !== ...`
unfoldable pub is_refused : Token → Token → Bool
unfolding text_eq
is_refused null given = false
is_refused undefined undefined = false
is_refused undefined null = true
is_refused undefined (token t) = true
is_refused (token s) undefined = true
is_refused (token s) null = true
is_refused (token s) (token t) = not (text_eq s t)

abbrev pub is_empty : {A : Type 0} → List A → Bool
is_empty [] = true
is_empty (x ∷ xs) = false

unfoldable pub first_code : List (List Text) → Text
unfolding join
first_code [] = []
first_code (c ∷ cs) = join (codes " ") c

-- The context of a row: none for the text `null`.
abbrev pub context_row : Option Text → Option Text
context_row none = none
context_row (some t) = if text_eq t (codes "null") then none else some t

-- The row that is logged.
unfoldable pub log_row : NlpModel → Text → Data → Prediction → Option LogRow
unfolding text_eq join first_code
log_row model store body p =
    if not (text_eq store (codes "no"))
      && not (text_eq (text_or [] body.expect) (codes "MultipleChoice"))
      && not (is_empty p.tokens)
    then some (record {
      language = model.locale;
      preprocessed = join (codes " ") p.tokens;
      context = context_row (truthy body.context);
      target_code = first_code p.candidates;
    })
    else none

unfoldable pub split_context : Option Text → Option (List Text)
unfolding split
split_context none = none
split_context (some t) = some (split b' ' t)

abbrev pub entities_with : Option Text → Option (List (Text × Text)) → Option (List (Text × Text))
entities_with none entities = none
entities_with (some t) entities = entities

-- How a query ends without an answer: a response, or an error that is thrown.
pub data Failure : Type 0 where
  response : Refusal → Failure
  rejected : Text → Failure

abbrev pub unless : Option Text → Answer → Result Failure Answer
unless none a = ok a
unless (some e) a = err (rejected e)

-- The predictor, which may reject, and the table, which may refuse a row with an error.
module _
    (send_utterance : NlpModel
      → Text
      → Option (List Text)
      → Option (List (Text × Text))
      → Data
      → Result Text Prediction)
    (log_utterance : LogRow → Option Text) where
  abbrev pub log_failure : Option LogRow → Option Text
  log_failure none = none
  log_failure (some row) = log_utterance row

  abbrev pub answer_of : Text → Data → NlpModel → Prediction → Answer
  answer_of store body model prediction = record {
    model = model;
    context = split_context (truthy body.context);
    entities = entities_with (truthy body.context) body.entities;
    prediction = prediction;
    logged = log_row model store body prediction;
  }

  -- What follows the prediction.
  unfoldable pub answer_with :
      Text → Data → NlpModel → Result Text Prediction → Result Failure Answer
  unfolding log_row split_context
  answer_with store body model (err e) = err (rejected e)
  answer_with store body model (ok prediction) =
      unless (log_failure (log_row model store body prediction))
        (answer_of store body model prediction)

  -- The end of `runNLU`, from the check of the token on.
  unfoldable pub ask_model : Text → Data → NlpModel → Result Failure Answer
  unfolding is_refused answer_with split_context
  ask_model store body model =
      let context = split_context (truthy body.context) in
      let entities = entities_with (truthy body.context) body.entities in
      if is_refused model.access_token body.access_token
      then err (response (404, codes "No such model"))
      else answer_with store body model (send_utterance model body.q context entities body)

  unfoldable pub ask_selected : Text → Data → Result Refusal NlpModel → Result Failure Answer
  unfolding ask_model fit
  ask_selected store body (err refusal) = err (response refusal)
  ask_selected store body (ok model) = ask_model store (fit model body) model

  -- `runNLU`
  unfoldable pub run_nlu : Service → Request → Data → Result Failure Answer
  unfolding select_model text_eq ask_selected
  run_nlu s req body =
      let store = text_or (codes "no") (truthy body.store) in
      if not (text_eq store (codes "yes")) && not (text_eq store (codes "no"))
      then err (response (400, codes "Invalid store parameter"))
      else ask_selected store body (select_model s req body)

  -- `query` of query.ts
  unfoldable pub query : Languages → Service → Request → Data → Result Failure Answer
  unfolding run_nlu get
  query languages s req body = elim (get languages req.locale false) [
    | none ↦ err (response (404, codes "Unsupported language"))
    | some pack ↦ run_nlu s req body
  ]
