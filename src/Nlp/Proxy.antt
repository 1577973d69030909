-- ===== src/Nlp/Proxy.antt =====
-- nlp/proxy.ts and nlp/admin.ts: the replicas of a service, and the reloading of its models.
mod Tests
use genie_cloud.Base.{
  ℕ, Bool, true, false, not, ◌&&◌, List, [], ◌∷◌, ◌++◌, Option, none, some, Text, codes, text_eq,
  has_text, if◌then◌else◌, Result, ok, err, ◌>>=◌, map, join, split,
}
use genie_cloud.Util.I18n.{Languages, get, locale_to_language}
use genie_cloud.Nlp.Service.{Service, NlpModel, Matcher, get_exact, get_model}
use genie_cloud.Nlp.Nlu.{is_some}

pub record Interface : Type 0 where
  pub internal : Bool
  pub address : Text

-- `getLocalIps`
unfoldable pub get_local_ips : List Interface → List Text
get_local_ips [] = []
get_local_ips (i ∷ is) =
    let rest = get_local_ips is in if i.internal then rest else i.address ∷ rest

-- A subset of the endpoints of a service: ports and addresses.
pub record Subset : Type 0 where
  pub ports : List Text
  pub addresses : List Text

abbrev pub endpoint : Text → Text → Text
endpoint port ip = ip ++ b':' ∷ port

-- The inner loop of `getEndpoints`.
unfoldable pub addresses_of : Bool → List Text → Text → List Text → List Text
unfolding has_text
addresses_of skip_local local_ips port [] = []
addresses_of skip_local local_ips port (ip ∷ ips) =
    let rest = addresses_of skip_local local_ips port ips in
    if skip_local && has_text local_ips ip then rest else endpoint port ip ∷ rest

unfoldable pub subset_endpoints : Bool → List Text → Subset → Result Text (List Text)
unfolding addresses_of
subset_endpoints skip_local local_ips s = elim s.ports [
  | [] ↦ err (codes "failed to get endpoints port")
  | port ∷ ports ↦ ok (addresses_of skip_local local_ips port s.addresses)
]

-- `getEndpoints`, of the subsets of all items in their order.
unfoldable pub get_endpoints : Bool → List Text → List Subset → Result Text (List Text)
unfolding subset_endpoints
get_endpoints skip_local local_ips [] = ok []
get_endpoints skip_local local_ips (s ∷ ss) = subset_endpoints skip_local local_ips s >>= λ first.
    get_endpoints skip_local local_ips ss >>= λ rest. ok (first ++ rest)

-- `fanout`: the replicas that are sent the request, or the status 500.
unfoldable pub fanout : Result Text (List Text) → Result ℕ (List Text)
fanout (err e) = err 500
fanout (ok []) = err 500
fanout (ok (r ∷ rs)) = ok (r ∷ rs)

-- What the router of nlp/admin.ts does before its routes.
pub data Admission : Type 0 where
  not_authorized handled forwarded : Admission

-- A token that is not configured is equal to one that is not given.
abbrev pub same_token : Option Text → Option Text → Bool
same_token none none = true
same_token none (some t) = false
same_token (some s) none = false
same_token (some s) (some t) = text_eq s t

-- The server's token, the request's, whether there is a proxy, and the header of a request that was
-- forwarded.
unfoldable pub admit : Option Text → Option Text → Bool → Option Text → Admission
unfolding text_eq
admit admin_token given has_proxy header =
    if not (same_token given admin_token)
    then not_authorized
    else if not has_proxy
    then handled
    else if same_token header (some (codes "true"))
    then handled
    else forwarded

-- What a reload does, where it is let through.
pub data Reload : Type 0 where
  refused : ℕ → Text → Reload
  add_example : Text → Text → Reload
  load_matcher : Text → Text → Reload
  reload_model : NlpModel → Reload

abbrev pub reload_matcher : Text → Option Text → Text → Reload
reload_matcher matcher none language = load_matcher matcher language
reload_matcher matcher (some example_id) language = add_example matcher example_id

-- `POST /reload/exact/@:model_tag/:locale`: a matcher is named by its language.
unfoldable pub reload_exact : Languages → Service → Text → Option Text → Reload
unfolding get get_exact locale_to_language
reload_exact languages s locale example_id =
    if not (is_some (get languages locale false))
    then refused 404 (codes "Unsupported language")
    else elim (get_exact s locale) [
      | none ↦ refused 404 (codes "No such model")
      | some matcher ↦ reload_matcher matcher example_id (locale_to_language locale)
    ]

-- `POST /reload/@:model_tag/:locale`
unfoldable pub reload : Languages → Service → Text → Text → Reload
unfolding get get_model
reload languages s model_tag locale =
    if not (is_some (get languages locale false))
    then refused 404 (codes "Unsupported language")
    else elim (get_model s model_tag locale) [
      | none ↦ refused 404 (codes "No such model")
      | some model ↦ reload_model model
    ]
