-- ===== src/Util/DeviceFactories/Tests.antt =====
-- util/device_factories.ts: a service of UPnP, and a form.
use genie_cloud.Base.{◌≡◌, refl, false, [], ◌∷◌, All, some, codes, ok}
use genie_cloud.Util.DeviceFactories.{
  ClassDef, Device, texts, discovery, factory, make_device_factory, get_discovery_services, Service,
}
use genie_cloud.Util.DeviceFactories.Discovery.{get_discovery_services-factory}

abbrev upnp_class : ClassDef
upnp_class = record {
  is_abstract = false;
  config = record {
    config_module = codes "org.thingpedia.config.discovery.upnp";
    in_params = (codes "search_target", texts (codes "urn:A:tv:1" ∷ [])) ∷ [];
  };
}

finds_tv :
    get_discovery_services upnp_class
    ≡ ok (record { discovery_type = codes "upnp"; service = codes "a-tv-1" } ∷ [])
unfolding get_discovery_services
finds_tv = refl

abbrev tv : Device
tv = record { category = codes "physical"; primary_kind = codes "com.tv"; name = codes "TV" }

get_discovery_services-factory_example :
    All {A = Service}
      (λ s. make_device_factory upnp_class tv ≡ ok (some (factory tv (discovery s.discovery_type))))
      (record { discovery_type = codes "upnp"; service = codes "a-tv-1" } ∷ [])
get_discovery_services-factory_example =
    get_discovery_services-factory upnp_class tv
      (record { discovery_type = codes "upnp"; service = codes "a-tv-1" } ∷ []) finds_tv
