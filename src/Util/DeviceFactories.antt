-- ===== src/Util/DeviceFactories.antt =====
-- util/device_factories.ts: how a device is configured, by the module of its class. The parameters of the
-- configuration are as ThingTalk gives them.
pub mod Discovery
mod Tests
use genie_cloud.Base.{
  ℕ, Bool, true, false, List, [], ◌∷◌, ◌++◌, map, Option, none, some, Text, codes, text_eq,
  starts_with, drop, length, if◌then◌else◌, ◌==◌, to_lower, Result, ok, err, decimal,
}
use genie_cloud.Util.Tokenize.{clean, replace_char}

-- A type of ThingTalk, as far as a field looks at it.
pub data FieldType : Type 0 where
  entity : Text → FieldType
  number_type measure_type boolean_type other_type : FieldType

-- The value of an input parameter.
pub data ParamValue : Type 0 where
  arg_map : List (Text × FieldType) → ParamValue
  texts : List Text → ParamValue
  number : ℕ → ParamValue

pub record Config : Type 0 where
  pub config_module : Text
  pub in_params : List (Text × ParamValue)

pub record ClassDef : Type 0 where
  pub is_abstract : Bool
  pub config : Config

pub record Device : Type 0 where
  pub category : Text
  pub primary_kind : Text
  pub name : Text

pub record Field : Type 0 where
  pub name : Text
  pub label : Text
  pub type : Text

-- What a factory is, besides the category, the kind and the name of its device.
pub data FactoryType : Type 0 where
  discovery : Text → FactoryType
  interactive no_config oauth2 : FactoryType
  form : List Field → FactoryType

pub record Factory : Type 0 where
  pub type : FactoryType
  pub category : Text
  pub kind : Text
  pub text : Text

-- `entityTypeToHTMLType`
unfoldable pub entity_type_to_html_type : Text → Text
unfolding text_eq
entity_type_to_html_type type =
    if text_eq type (codes "tt:password")
    then codes "password"
    else if text_eq type (codes "tt:url")
    then codes "url"
    else if text_eq type (codes "tt:phone_number")
    then codes "tel"
    else if text_eq type (codes "tt:email_address")
    then codes "email"
    else codes "text"

-- `getInputParam`
unfoldable pub get_input_param : Text → List (Text × ParamValue) → Option ParamValue
unfolding text_eq
get_input_param name [] = none
get_input_param name ((n, v) ∷ ps) =
    let later = get_input_param name ps in if text_eq n name then some v else later

unfoldable pub html_type : FieldType → Text
unfolding entity_type_to_html_type
html_type (entity type) = entity_type_to_html_type type
html_type number_type = codes "number"
html_type measure_type = codes "number"
html_type boolean_type = codes "checkbox"
html_type other_type = codes "text"

unfoldable pub fields_of : List (Text × FieldType) → List Field
unfolding html_type clean
fields_of [] = []
fields_of ((k, type) ∷ ps) =
    record { name = k; label = clean k; type = html_type type } ∷ fields_of ps

-- `toFields`; a parameter that is no map of arguments is not one that ThingTalk gives.
unfoldable pub to_fields : Option ParamValue → List Field
unfolding fields_of
to_fields none = []
to_fields (some (arg_map ps)) = fields_of ps
to_fields (some (texts ts)) = []
to_fields (some (number n)) = []

abbrev pub basic_fields : List Field
basic_fields =
    record { name = codes "username"; label = codes "Username"; type = codes "text" }
    ∷ record { name = codes "password"; label = codes "Password"; type = codes "password" }
    ∷ []

unfoldable pub factory : Device → FactoryType → Factory
factory device type = record {
  type = type;
  category = device.category;
  kind = device.primary_kind;
  text = device.name;
}

-- The cases of `makeDeviceFactory`, in their order; none is null.
unfoldable pub config_factory : Config → Device → Result Text (Option Factory)
unfolding factory to_fields get_input_param text_eq
config_factory c device =
    let m = c.config_module in
    if text_eq m (codes "org.thingpedia.config.builtin")
    then ok none
    else if text_eq m (codes "org.thingpedia.config.discovery.bluetooth")
    then ok (some (factory device (discovery (codes "bluetooth"))))
    else if text_eq m (codes "org.thingpedia.config.discovery.upnp")
    then ok (some (factory device (discovery (codes "upnp"))))
    else if text_eq m (codes "org.thingpedia.config.interactive")
    then ok (some (factory device interactive))
    else if text_eq m (codes "org.thingpedia.config.none")
    then ok (some (factory device no_config))
    else if text_eq m (codes "org.thingpedia.config.oauth2")
    then ok (some (factory device oauth2))
    else if text_eq m (codes "org.thingpedia.config.custom_oauth")
    then ok (some (factory device oauth2))
    else if text_eq m (codes "org.thingpedia.config.form")
    then ok
        (some (factory device (form (to_fields (get_input_param (codes "params") c.in_params)))))
    else if text_eq m (codes "org.thingpedia.config.basic_auth")
    then ok (
        some (
          factory device (
            form (basic_fields ++ to_fields (get_input_param (codes "extra_params") c.in_params)))))
    else err (codes "E_INVALID_DEVICE_AFTER_VALIDATION")

-- `makeDeviceFactory`
unfoldable pub make_device_factory : ClassDef → Device → Result Text (Option Factory)
unfolding config_factory
make_device_factory c device = if c.is_abstract then ok none else config_factory c.config device

-- A discovery service.
pub record Service : Type 0 where
  pub discovery_type : Text
  pub service : Text

unfoldable pub uuid_service : Text → Service
unfolding to_lower
uuid_service u = record {
  discovery_type = codes "bluetooth";
  service = codes "uuid-" ++ map to_lower u;
}

abbrev pub class_service : Option ParamValue → List Service
class_service none = []
class_service (some (arg_map ps)) = []
class_service (some (texts ts)) = []
class_service (some (number n)) =
    if n == 0
    then []
    else record { discovery_type = codes "bluetooth"; service = codes "class-" ++ decimal n } ∷ []

abbrev pub without_urn : Text → Text
without_urn s = if starts_with (codes "urn:") s then drop 4 s else s

unfoldable pub upnp_service : Text → Service
unfolding to_lower starts_with
upnp_service st = record {
  discovery_type = codes "upnp";
  service = replace_char (λ c. c == b':') b'-' (without_urn (map to_lower st));
}

-- The texts of a parameter; without them the code throws.
abbrev pub texts_of : Option ParamValue → Result Text (List Text)
texts_of none = err (codes "TypeError")
texts_of (some (arg_map ps)) = err (codes "TypeError")
texts_of (some (texts ts)) = ok ts
texts_of (some (number n)) = err (codes "TypeError")

abbrev pub services_by :
    (List Text → List Service) → Result Text (List Text) → Result Text (List Service)
services_by f (ok ts) = ok (f ts)
services_by f (err e) = err e

-- `getDiscoveryServices`
unfoldable pub get_discovery_services : ClassDef → Result Text (List Service)
unfolding uuid_service upnp_service get_input_param text_eq
get_discovery_services c =
    let ps = c.config.in_params in
    let bluetooth =
      services_by
        (λ ts. map uuid_service ts ++ class_service (get_input_param (codes "device_class") ps))
        (texts_of (get_input_param (codes "uuids") ps)) in
    let upnp =
      services_by (map upnp_service) (texts_of (get_input_param (codes "search_target") ps)) in
    if c.is_abstract
    then ok []
    else if text_eq c.config.config_module (codes "org.thingpedia.config.discovery.bluetooth")
    then bluetooth
    else if text_eq c.config.config_module (codes "org.thingpedia.config.discovery.upnp")
    then upnp
    else ok []
