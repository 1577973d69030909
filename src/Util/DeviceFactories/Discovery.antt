-- ===== src/Util/DeviceFactories/Discovery.antt =====
-- util/device_factories.ts: about the services of a class and its factory.
use genie_cloud.Base.{
  ◌≡◌, refl, sym, ap, ◌∙◌, subst, Bool, true, false, List, [], ◌∷◌, ◌++◌, map, Option, none, some,
  Text, codes, text_eq, text_eq_sound, if◌then◌else◌, ◌==◌, Result, ok, err, All, if-elim,
}
use genie_cloud.Util.DeviceFactories.{
  ClassDef, ParamValue, arg_map, texts, number, Device, Factory, Service, discovery, factory,
  config_factory, make_device_factory, uuid_service, upnp_service, class_service, services_by,
  get_discovery_services, get_input_param,
}

-- All of one type.
abbrev AreOf : Text → List Service → Type 0
AreOf type ss = All (λ s. s.discovery_type ≡ type) ss

-- The services that a computation gives, where it gives some.
abbrev OfType : Text → Result Text (List Service) → Type 0
OfType type r = (ss : List Service) → r ≡ ok ss → AreOf type ss

ok_value : {x y : List Service} → ◌≡◌ {A = Result Text (List Service)} (ok x) (ok y) → x ≡ y
ok_value h = cc

services_by-OfType :
    (type : Text) (f : List Text → List Service) (r : Result Text (List Text))
    → ((ts : List Text) → AreOf type (f ts))
    → OfType type (services_by f r)
services_by-OfType type f (ok ts) h ss e = subst (AreOf type) (ok_value e) (h ts)
services_by-OfType type f (err x) h ss e = absurd cc

AreOf-append :
    (type : Text) (ss ts : List Service) → AreOf type ss → AreOf type ts → AreOf type (ss ++ ts)
AreOf-append type [] ts a b = b
AreOf-append type (s ∷ ss) ts a b = (a.0, AreOf-append type ss ts a.1 b)

uuid_service-AreOf : (ts : List Text) → AreOf (codes "bluetooth") (map uuid_service ts)
unfolding uuid_service
uuid_service-AreOf [] = tt
uuid_service-AreOf (t ∷ ts) = (refl, uuid_service-AreOf ts)

upnp_service-AreOf : (ts : List Text) → AreOf (codes "upnp") (map upnp_service ts)
unfolding upnp_service
upnp_service-AreOf [] = tt
upnp_service-AreOf (t ∷ ts) = (refl, upnp_service-AreOf ts)

class_service-AreOf : (p : Option ParamValue) → AreOf (codes "bluetooth") (class_service p)
class_service-AreOf none = tt
class_service-AreOf (some (arg_map ps)) = tt
class_service-AreOf (some (texts ts)) = tt
class_service-AreOf (some (number n)) =
    if-elim (AreOf (codes "bluetooth")) (n == 0) (λ e. tt) (λ e. (refl, tt))

bluetooth-factory :
    (m : Text) (ps : List (Text × ParamValue)) (device : Device)
    → m ≡ codes "org.thingpedia.config.discovery.bluetooth"
    → config_factory (record { config_module = m; in_params = ps }) device
      ≡ ok (some (factory device (discovery (codes "bluetooth"))))
unfolding config_factory text_eq
bluetooth-factory m ps device e = rw e refl

upnp-factory :
    (m : Text) (ps : List (Text × ParamValue)) (device : Device)
    → m ≡ codes "org.thingpedia.config.discovery.upnp"
    → config_factory (record { config_module = m; in_params = ps }) device
      ≡ ok (some (factory device (discovery (codes "upnp"))))
unfolding config_factory text_eq
upnp-factory m ps device e = rw e refl

all-factory :
    (device : Device) (type : Text) (r : Result Text (Option Factory)) (ss : List Service)
    → r ≡ ok (some (factory device (discovery type)))
    → AreOf type ss
    → All (λ s. r ≡ ok (some (factory device (discovery s.discovery_type)))) ss
all-factory device type r [] e a = tt
all-factory device type r (s ∷ ss) e a = (
  e ∙ ap (λ t. ok (some (factory device (discovery t)))) (sym a.0),
  all-factory device type r ss e a.1,
)

-- Every service that a class is discovered by is of the type that the factory of its device has.
pub get_discovery_services-factory :
    (c : ClassDef) (device : Device) (ss : List Service)
    → get_discovery_services c ≡ ok ss
    → All
        (λ s.
          make_device_factory c device ≡ ok (some (factory device (discovery s.discovery_type))))
        ss
unfolding get_discovery_services make_device_factory
get_discovery_services-factory c device ss e =
    by_tests c.is_abstract
      (text_eq c.config.config_module (codes "org.thingpedia.config.discovery.bluetooth"))
      (text_eq c.config.config_module (codes "org.thingpedia.config.discovery.upnp")) _ _
      (λ b.
        bluetooth-factory c.config.config_module c.config.in_params device (text_eq_sound _ _ b))
      (λ u. upnp-factory c.config.config_module c.config.in_params device (text_eq_sound _ _ u))
      (services_by-OfType (codes "bluetooth") _ _ λ ts.
        AreOf-append (codes "bluetooth") _ _ (uuid_service-AreOf ts)
          (class_service-AreOf (get_input_param (codes "device_class") c.config.in_params)))
      (services_by-OfType (codes "upnp") _ _ upnp_service-AreOf) e
  where
    Fits : Result Text (Option Factory) → List Service → Type 0
    Fits r ss = All (λ s. r ≡ ok (some (factory device (discovery s.discovery_type)))) ss

    nothing :
        (r : Result Text (Option Factory))
        → ◌≡◌ {A = Result Text (List Service)} (ok []) (ok ss)
        → Fits r ss
    nothing r h = subst (Fits r) (ok_value h) tt

    by_tests :
        (is_abstract is_bluetooth is_upnp : Bool) (bluetooth upnp : Result Text (List Service))
        → (is_bluetooth ≡ true
            → config_factory c.config device
              ≡ ok (some (factory device (discovery (codes "bluetooth")))))
        → (is_upnp ≡ true
            → config_factory c.config device
              ≡ ok (some (factory device (discovery (codes "upnp")))))
        → OfType (codes "bluetooth") bluetooth
        → OfType (codes "upnp") upnp
        → ◌≡◌ {A = Result Text (List Service)}
            (if is_abstract
              then ok []
              else if is_bluetooth
              then bluetooth
              else if is_upnp
              then upnp
              else ok [])
            (ok ss)
        → Fits (if is_abstract then ok none else config_factory c.config device) ss
    by_tests true b u br ur bf uf bo uo h = nothing (ok none) h
    by_tests false true u br ur bf uf bo uo h =
        all-factory device (codes "bluetooth") _ ss (bf refl) (bo ss h)
    by_tests false false true br ur bf uf bo uo h =
        all-factory device (codes "upnp") _ ss (uf refl) (uo ss h)
    by_tests false false false br ur bf uf bo uo h = nothing _ h
