-- ===== src/Nlp/Learn.antt =====
-- nlp/learn.ts: a sentence that the server learns. The tokenizer, the parser of ThingTalk, and the answers
-- of the database are arguments; the number of an owner is taken to be one that is not negative.
pub mod Stored
mod Tests
use genie_cloud.Base.{
  ℕ, suc, Bool, true, false, not, ◌&&◌, ◌||◌, List, [], ◌∷◌, Option, none, some, Text, codes,
  text_eq, has_text, if◌then◌else◌, ◌==◌, length, split, join, Result, ok, err, ◌>>=◌, ◌>>◌,
}
use genie_cloud.Util.I18n.{Languages, get, truthy, locale_to_language}
use genie_cloud.Nlp.Service.{Token, Exact, matcher_of, dummy, NlpModel, Service, get_model}
use genie_cloud.Nlp.Nlu.{is_refused, is_empty, is_some, found_or, text_or}

pub record Request : Type 0 where
  pub model_tag : Option Text
  pub locale : Text
  pub q : Text
  pub store : Text
  pub access_token : Token
  pub thingtalk_version : Text
  pub target : Text
  pub owner : Option Text

-- A response: its status and what it says.
abbrev pub Response : Type 0
Response = ℕ × Text

-- The row of the table of examples.
pub record Row : Type 0 where
  pub language : Text
  pub utterance : Text
  pub preprocessed : Text
  pub type : Text
  pub flags : Text
  pub target_code : Text
  pub owner : Option ℕ

-- What was done in the transaction: the row, and who likes it.
pub record Created : Type 0 where
  pub row : Row
  pub liked_by : Option ℕ

-- What a request ends with: the response, what was created, what the exact matcher of the model is
-- given, and the error that is thrown.
pub record Outcome : Type 0 where
  pub response : Option Response
  pub created : Option Created
  pub learnt : Option (List Text × List Text)
  pub error : Option Text

unfoldable pub check : Bool → Response → Result Response (Unit {0})
check true r = ok tt
check false r = err r

abbrev pub stores : List Text
stores = codes "no" ∷ codes "automatic" ∷ codes "online" ∷ codes "commandpedia" ∷ []

-- What the checks leave: the model, the tokens, and the code.
pub record Prepared : Type 0 where
  pub model : NlpModel
  pub tokens : List Text
  pub sequence : List Text

-- How the code of a request parses: to a normal form, or not.
abbrev pub parsed_or : Option (List Text) → Result Response (List Text)
parsed_or none = err (400, codes "Invalid ThingTalk")
parsed_or (some sequence) = ok sequence

-- Whether a store is trained on, and the type of the row.
unfoldable pub is_trainable : Text → Bool
unfolding text_eq
is_trainable store = text_eq store (codes "online") || text_eq store (codes "commandpedia")

abbrev pub first_is : Text → List Text → Bool
first_is t [] = false
first_is t (s ∷ ss) = text_eq s t

unfoldable pub row_type : Text → List Text → Text
unfolding text_eq
row_type store sequence =
    if text_eq store (codes "online") && first_is (codes "bookkeeping") sequence
    then codes "online-bookkeeping"
    else store

-- What the database answers for a user: an id, that there is none, or another error.
pub data UserAnswer : Type 0 where
  user_id : ℕ → UserAnswer
  no_user : UserAnswer
  failed : Text → UserAnswer

-- The owner of a row: none or an id; otherwise a response, or an error that is thrown.
pub data Owner : Type 0 where
  owned : Option ℕ → Owner
  invalid_owner : Owner
  thrown : Text → Owner

abbrev pub by_user : UserAnswer → Owner
by_user (user_id id) = owned (some id)
by_user no_user = invalid_owner
by_user (failed code) = thrown code

abbrev pub by_number : Option ℕ → Owner
by_number none = invalid_owner
by_number (some id) = owned (some id)

abbrev pub is_cloud_id : Text → Bool
is_cloud_id owner = length owner == 8 || length owner == 16 || length owner == 64

-- The first checks of `learn`; an error is a response that ends it.
unfoldable pub check_request : Languages → Request → Result Response (Unit {0})
unfolding check get has_text
check_request languages req =
    check (has_text stores req.store) (400, codes "Invalid store parameter")
    >> check (not (text_eq req.store (codes "commandpedia") && not (is_some (truthy req.owner))))
        (400, codes "Missing owner for commandpedia command")
    >> check (is_some (get languages req.locale false)) (404, codes "Unsupported language")

unfoldable pub model_of : Service → Request → Result Response NlpModel
unfolding get_model
model_of s req =
    found_or (404, codes "No such model")
      (get_model s (text_or (codes "org.thingpedia.models.default") req.model_tag) req.locale)

-- The row that the transaction creates.
unfoldable pub create_row : Request → Prepared → Option ℕ → Created
unfolding is_trainable row_type locale_to_language join
create_row req p owner = record {
  row = record {
    language = locale_to_language req.locale;
    utterance = req.q;
    preprocessed = join (codes " ") p.tokens;
    type = row_type req.store p.sequence;
    flags = if is_trainable req.store then codes "training,exact" else [];
    target_code = join (codes " ") p.sequence;
    owner = owner;
  };
  liked_by = if text_eq req.store (codes "commandpedia") then owner else none;
}

-- Whether `model.exact` is undefined: the server has no exact matcher for the model.
abbrev pub is_missing : Exact → Bool
is_missing (matcher_of none) = true
is_missing (matcher_of (some t)) = false
is_missing dummy = false

-- The end of `learn`, after the transaction, by the id of the new row. A call of `add` where the exact
-- matcher is missing is a type error.
unfoldable pub finish : Request → NlpModel → Created → ℕ → Outcome
unfolding is_trainable split
finish req model c example_id =
    if example_id == 0
    then record { response = none; created = some c; learnt = none; error = none }
    else if is_trainable req.store && is_missing model.exact
    then record {
      response = none;
      created = some c;
      learnt = none;
      error = some (codes "TypeError");
    }
    else record {
      response = some (200, codes "Learnt successfully");
      created = some c;
      learnt =
          if is_trainable req.store
          then some (split b' ' c.row.preprocessed, split b' ' c.row.target_code)
          else none;
      error = none;
    }

abbrev pub only : Response → Outcome
only r = record { response = some r; created = none; learnt = none; error = none }

abbrev pub only_error : Text → Outcome
only_error code = record { response = none; created = none; learnt = none; error = some code }

-- The transaction and what follows; the id that `create` gives is an argument.
unfoldable pub store_by : ℕ → Request → Prepared → Owner → Outcome
unfolding create_row finish
store_by example_id req p (owned owner) = finish req p.model (create_row req p owner) example_id
store_by example_id req p invalid_owner = only (400, codes "Invalid command owner")
store_by example_id req p (thrown code) = only_error code

module _ (tokenize : Text → List Text) (latest_version : Text)
    (parse : NlpModel → List Text → List Text → Option (List Text))
    (get_id_by_cloud_id : Text → UserAnswer) (parse_int : Text → Option ℕ) where
  -- The checks of a request with its model.
  unfoldable pub check_model : Request → NlpModel → Result Response (Unit {0})
  unfolding check is_refused
  check_model req model =
      check (not (is_refused model.access_token req.access_token)) (404, codes "No such model")
      >> check (not (is_empty (tokenize req.q))) (400, codes "Refusing to learn an empty sentence")
      >> check (text_eq req.thingtalk_version latest_version)
          (200, codes "Ignored request from older ThingTalk")

  -- The code of the request, where it is to be stored.
  unfoldable pub parse_target : Request → NlpModel → Result Response Prepared
  unfolding check split
  parse_target req model =
      parsed_or (parse model (split b' ' req.target) (tokenize req.q)) >>= λ sequence.
      check (not (text_eq req.store (codes "no"))) (200, codes "Learnt successfully")
      >> ok (record { model = model; tokens = tokenize req.q; sequence = sequence })

  -- `learn` up to its transaction.
  unfoldable pub prepare : Languages → Service → Request → Result Response Prepared
  unfolding check_request model_of check_model parse_target
  prepare languages s req = check_request languages req >>= λ u.
      model_of s req >>= λ model. check_model req model >>= λ v. parse_target req model

  -- The owner of the row.
  unfoldable pub owner_of : Option Text → Owner
  owner_of none = owned none
  owner_of (some owner) =
      if is_cloud_id owner then by_user (get_id_by_cloud_id owner) else by_number (parse_int owner)

  unfoldable pub learn_prepared : ℕ → Request → Result Response Prepared → Outcome
  unfolding store_by owner_of
  learn_prepared example_id req (err r) = only r
  learn_prepared example_id req (ok p) = store_by example_id req p (owner_of (truthy req.owner))

  -- `learn`
  unfoldable pub learn : Languages → Service → ℕ → Request → Outcome
  unfolding prepare learn_prepared
  learn languages s example_id req = learn_prepared example_id req (prepare languages s req)
