-- ===== src/Nlp/Nlu/Tests.antt =====
-- nlp/nlu.ts: requests to a model that is configured with a token, without and with that token.
use genie_cloud.Base.{
  ◌≡◌, ◌&&◌, refl, not, true, false, [], ◌∷◌, Option, none, some, Text, codes, ok, split, join,
}
use genie_cloud.Util.I18n.{Languages, get}
use genie_cloud.Nlp.Service.{
  Token, undefined, token, Spec, Service, NlpModel, Download, failed, new_service, load_models,
  load,
}
use genie_cloud.Nlp.Service.Tests.{no_file}
use genie_cloud.Nlp.Nlu.{
  Request, Data, Prediction, LogRow, is_some, query, Answer, select_model, run_nlu,
}
use genie_cloud.Nlp.Nlu.Answering.{Send, Answered, run_nlu-Answered, is_ok, good_store}
use genie_cloud.Nlp.Nlu.Tokens.{query-load, is_response}

abbrev secret : Spec
secret = record {
  tag = codes "org.thingpedia.models.default";
  locale = codes "en";
  owner = some 4;
  model_url = codes "file:///m";
  access_token = token (codes "s3cret");
  contextual = true;
  use_exact = false;
}

abbrev loaded_model : NlpModel
loaded_model = record {
  id = codes "@org.thingpedia.models.default/en";
  url = codes "file:///m";
  access_token = undefined;
  locale = codes "en";
  language_tag = codes "en";
  contextual = true;
  exact = genie_cloud.Nlp.Service.dummy;
  org = record { id = 4; is_admin = false };
}

abbrev server : Service
server = record {
  models = (loaded_model.id, loaded_model) ∷ [];
  exact_matchers = (codes "en", []) ∷ [];
}

loads_server : load no_file (codes "en" ∷ []) (secret ∷ []) ≡ ok server
unfolding load
loads_server = refl

abbrev req : Request
req = record { model_tag = none; locale = codes "en-US" }

abbrev anonymous : Data
anonymous = record {
  q = codes "hello";
  store = some (codes "yes");
  expect = none;
  context = none;
  entities = none;
  developer_key = some (codes "null");
  access_token = undefined;
}

abbrev echoed : Text → Prediction
echoed q = record { tokens = q ∷ []; candidates = (codes "bookkeeping" ∷ codes "yes" ∷ []) ∷ [] }

abbrev echo : Send
echo m q context entities body = ok (echoed q)

abbrev no_failure : LogRow → Option Text
no_failure row = none

abbrev languages : Languages
languages = (codes "en", codes "en-US") ∷ []

abbrev answer : Answer
answer = record {
  model = loaded_model;
  context = some (codes "null" ∷ []);
  entities = some [];
  prediction = echoed (codes "hello");
  logged = some (record {
    language = codes "en";
    preprocessed = codes "hello";
    context = none;
    target_code = codes "bookkeeping yes";
  });
}

answers_anonymous : run_nlu echo no_failure server req anonymous ≡ ok answer
unfolding run_nlu join split
answers_anonymous = refl

run_nlu-Answered_example : Answered echo server req anonymous answer
run_nlu-Answered_example =
    run_nlu-Answered echo no_failure server req anonymous answer answers_anonymous

query-load_example :
    is_response (
      query echo no_failure languages server req
        (record anonymous { access_token = token (codes "s3cret") }))
    ≡ not (
        is_some (get languages (codes "en-US") false)
        && (good_store anonymous
            && (is_ok (
                  select_model server req
                    (record anonymous { access_token = token (codes "s3cret") }))
                && false)))
query-load_example =
    query-load echo no_failure no_file (codes "en" ∷ []) (secret ∷ []) languages server req
      (record anonymous { access_token = token (codes "s3cret") }) loads_server
