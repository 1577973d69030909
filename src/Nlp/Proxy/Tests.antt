-- ===== src/Nlp/Proxy/Tests.antt =====
-- nlp/proxy.ts: the replicas but for the local one.
use genie_cloud.Base.{◌≡◌, refl, true, false, [], ◌∷◌, codes, ok, err}
use genie_cloud.Nlp.Proxy.{Subset, get_endpoints, fanout}

abbrev subset : Subset
subset = record { ports = codes "80" ∷ []; addresses = codes "10.0.0.1" ∷ codes "10.0.0.2" ∷ [] }

others : get_endpoints true (codes "10.0.0.2" ∷ []) (subset ∷ []) ≡ ok (codes "10.0.0.1:80" ∷ [])
unfolding get_endpoints
others = refl

nobody : fanout (get_endpoints false [] []) ≡ err 500
unfolding fanout get_endpoints
nobody = refl
