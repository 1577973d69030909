-- ===== src/Nlp/Learn/Tests.antt =====
-- nlp/learn.ts: a sentence that is stored, and one without an owner.
use genie_cloud.Base.{ℕ, ap, ◌≡◌, refl, true, List, [], ◌∷◌, Option, none, some, Text, codes, split}
use genie_cloud.Util.I18n.{Languages}
use genie_cloud.Nlp.Service.{undefined, matcher_of, NlpModel, Service}
use genie_cloud.Nlp.Learn.{Request, Created, Outcome, UserAnswer, no_user, learn}
use genie_cloud.Nlp.Learn.Stored.{IsStored, learn-IsStored}

abbrev languages : Languages
languages = (codes "en", codes "en-US") ∷ []

abbrev default_model : NlpModel
default_model = record {
  id = codes "@org.thingpedia.models.default/en";
  url = codes "file:///m";
  access_token = undefined;
  locale = codes "en";
  language_tag = codes "en";
  contextual = true;
  exact = matcher_of (some (codes "en"));
  org = record { id = 1; is_admin = true };
}

abbrev server : Service
server = record { models = (default_model.id, default_model) ∷ []; exact_matchers = [] }

abbrev req : Request
req = record {
  model_tag = none;
  locale = codes "en-US";
  q = codes "a b";
  store = codes "online";
  access_token = undefined;
  thingtalk_version = codes "2";
  target = codes "bookkeeping yes";
  owner = none;
}

abbrev tokenize : Text → List Text
tokenize q = split b' ' q

abbrev parse : NlpModel → List Text → List Text → Option (List Text)
parse m sequence tokens = some sequence

abbrev nobody : Text → UserAnswer
nobody owner = no_user

abbrev no_number : Text → Option ℕ
no_number t = none

abbrev created : Created
created = record {
  row = record {
    language = codes "en";
    utterance = codes "a b";
    preprocessed = codes "a b";
    type = codes "online-bookkeeping";
    flags = codes "training,exact";
    target_code = codes "bookkeeping yes";
    owner = none;
  };
  liked_by = none;
}

abbrev outcome : Outcome
outcome = record {
  response = some (200, codes "Learnt successfully");
  created = some created;
  learnt = some (codes "a" ∷ codes "b" ∷ [], codes "bookkeeping" ∷ codes "yes" ∷ []);
  error = none;
}

learns : learn tokenize (codes "2") parse nobody no_number languages server 7 req ≡ outcome
unfolding learn
learns = refl

refuses_owner :
    learn tokenize
      (codes "2")
      parse
      nobody
      no_number
      languages
      server
      7
      (record req { owner = some (codes "x") })
    ≡ record {
      response = some (400, codes "Invalid command owner");
      created = none;
      learnt = none;
      error = none;
    }
unfolding learn
refuses_owner = refl

learn-IsStored_example :
    IsStored tokenize
      (codes "2")
      parse
      nobody
      no_number
      languages
      server
      7
      req
      (learn tokenize (codes "2") parse nobody no_number languages server 7 req)
      created
learn-IsStored_example =
    learn-IsStored tokenize (codes "2") parse nobody no_number languages server 7 req created
      (ap (λ out. out.created) learns)

-- Where the exact matcher is missing, the row is stored and the request throws.
fails_unmatched :
    learn tokenize
      (codes "2")
      parse
      nobody
      no_number
      languages
      (record server {
        models = (default_model.id, record default_model { exact = matcher_of none }) ∷ [];
      })
      7
      req
    ≡ record {
      response = none;
      created = some created;
      learnt = none;
      error = some (codes "TypeError");
    }
unfolding learn
fails_unmatched = refl
