-- ===== src/Util/Validation/Device/Tests.antt =====
-- util/validation.ts: a device that is accepted, and the place of a syntax error.
use genie_cloud.Base.{
  ℕ, ◌≡◌, refl, Bool, true, false, List, [], ◌∷◌, Option, none, some, Text, codes, ok, err, split,
  length,
}
use genie_cloud.Util.User.{Row}
use genie_cloud.Util.Validation.Loading.{ClassDef, Dataset, library, locate}
use genie_cloud.Util.Validation.Loading.Location.{reported, locate-reported}
use genie_cloud.Util.Validation.Device.{DeviceMetadata, Services, validate_device}
use genie_cloud.Util.Validation.Device.Accepted.{Accepted, validate_device-Accepted}

abbrev admin : Row
admin = record {
  id = 5;
  username = codes "dev";
  human_name = none;
  email = codes "dev@example.com";
  email_verified = true;
  locale = codes "en-US";
  timezone = codes "UTC";
  password = none;
  salt = none;
  cloud_id = [];
  auth_token = [];
  storage_key = [];
  developer_org = some 9;
  developer_status = 1;
  roles = 4;
  profile_flags = 0;
  totp_key = none;
}

abbrev weather_class : ClassDef
weather_class = record {
  kind = codes "org.weather";
  is_abstract = false;
  loader = some (codes "org.thingpedia.v2");
  has_config = false;
  metadata = codes "name" ∷ [];
  annotations = [];
  entities = [];
  actions = [];
  queries = [];
  name = none;
  description = none;
  canonical = none;
  thingpedia_name = none;
  thingpedia_description = none;
  subcategory = none;
  license = none;
  license_gplcompatible = false;
  website = none;
  repository = none;
  issue_tracker = none;
}

abbrev weather_dataset : Dataset
weather_dataset = record { name = codes "org.weather"; language = some (codes "en"); examples = [] }

abbrev services : Services
services = record {
  parse = λ a b. library (weather_class ∷ []) (weather_dataset ∷ []);
  is_template = λ ts. true;
  preprocesses = λ a. true;
  is_replaceable = λ t. true;
  tokenized = λ t. t;
  find_non_existing = λ es. [];
  inherited = [];
  converts = λ ex. true;
}

abbrev weather : DeviceMetadata
weather = record {
  name = codes "Weather";
  description = codes "the weather";
  primary_kind = codes "org.weather";
  license = codes "MIT";
  license_gplcompatible = true;
  subcategory = codes "data-management";
  website = none;
  repository = none;
  issue_tracker = none;
}

abbrev accepted : ClassDef × Dataset × List Text
accepted = elim (validate_device services admin weather [] []) [
  | ok r ↦ r
  | err e ↦ (weather_class, weather_dataset, [])
]

validate_device-Accepted_example : Accepted admin weather accepted
unfolding validate_device genie_cloud.Base.text_eq genie_cloud.Util.Validation.validate_tag
    genie_cloud.Util.User.has_file_extension genie_cloud.Util.User.ends_with
    genie_cloud.Base.to_lower split genie_cloud.Base.has_text
    genie_cloud.Util.Validation.Manifest.validate_metadata
    genie_cloud.Util.Validation.Manifest.validate_annotations
    genie_cloud.Util.Validation.Manifest.validate_all_invocations
    genie_cloud.Util.Validation.Manifest.validate_invocation
    genie_cloud.Util.Validation.Dataset.validate_dataset
validate_device-Accepted_example =
    validate_device-Accepted services admin weather [] [] accepted refl

abbrev two_lines : Text
two_lines = codes "class @a\n{}"

locate-reported_example : locate two_lines 4 ≡ reported (length (split 10 two_lines)) 4
locate-reported_example = locate-reported two_lines 4
