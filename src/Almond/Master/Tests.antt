-- ===== src/Almond/Master/Tests.antt =====
-- almond/master.ts: connections that show a wrong token, the right one, and none.
use genie_cloud.Base.{
  ℕ, ◌≡◌, ◌≤◌, ◌||◌, refl, List, [], ◌∷◌, Option, none, some, Text, codes, any_of,
}
use genie_cloud.Almond.ManagerClient.{new, get_engine, connect}
use genie_cloud.Almond.Master.{
  Message, auth, direct, master, new_control, on_messages, is_null, pause_socket, emit_close,
  send_socket, serve_manager,
}
use genie_cloud.Almond.Master.Guarded.{handed, budget, is_token, on_messages-guarded}
use genie_cloud.Almond.Master.Dialogue.{sent, get_engine-served}

abbrev secret : Option Text
secret = some (codes "secret")

abbrev intruder : List Message
intruder = auth (codes "guess") ∷ direct 3 (codes "r") ∷ auth (codes "secret") ∷ master ∷ []

refused : handed (on_messages secret intruder (new_control secret)).0 ≡ 0
unfolding on_messages new_control genie_cloud.Base.text_eq
refused = refl

on_messages-guarded_example :
    handed (on_messages secret (direct 3 (codes "r") ∷ []) (new_control secret)).0
    ≤ budget (is_null secret || any_of (is_token secret) (direct 3 (codes "r") ∷ []))
on_messages-guarded_example = on_messages-guarded secret (direct 3 (codes "r") ∷ [])

abbrev reply_id : ℕ → Text
reply_id s = codes "reply"

get_engine-served_example :
    ((on_messages secret
        (sent reply_id (λ s. 2) (get_engine 2 secret 7 new).0)
        (new_control secret)).0
      ≡ pause_socket ∷ emit_close ∷ send_socket 7 (codes "reply") ∷ [])
    × ((on_messages secret
          (sent reply_id (λ s. 2) (connect 2 secret 1 new).0)
          (new_control secret)).0
        ≡ serve_manager ∷ [])
unfolding new
get_engine-served_example = get_engine-served reply_id (λ s. 2) 2 secret 7 1 new refl refl
