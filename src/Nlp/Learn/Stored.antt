-- ===== src/Nlp/Learn/Stored.antt =====
-- nlp/learn.ts: about the sentences that are stored.
use genie_cloud.Base.{
  ℕ, ◌≡◌, refl, sym, ap, ◌∙◌, subst, Bool, true, false, not, ◌&&◌, List, Option, none, some, Text,
  codes, text_eq, has_text, split, ◌==◌, Result, ok, err, ◌>>◌, two_steps, arith, if◌then◌else◌,
}
use genie_cloud.Util.I18n.{Languages, get, truthy}
use genie_cloud.Nlp.Service.{Service, NlpModel, get_model}
use genie_cloud.Nlp.Nlu.{is_refused, is_some, is_empty, found_or, text_or}
use genie_cloud.Nlp.Learn.{
  Request, Response, Created, Outcome, Prepared, UserAnswer, Owner, owned, invalid_owner, thrown,
  stores, check, check_request, model_of, check_model, parse_target, parsed_or, is_trainable,
  is_missing, prepare, owner_of, create_row, finish, store_by, learn_prepared, learn,
}

check-holds : (b : Bool) (r : Response) {u : Unit {0}} → check b r ≡ ok u → b ≡ true
unfolding check
check-holds true r e = refl
check-holds false r e = absurd cc

three_hold :
    (a b c : Bool) (q r t : Response) {u : Unit {0}}
    → (check a q >> check b r >> check c t) ≡ ok u
    → (a ≡ true) × (b ≡ true) × (c ≡ true)
unfolding check
three_hold true true true q r t e = (refl, refl, refl)
three_hold true true false q r t e = absurd cc
three_hold true false c q r t e = absurd cc
three_hold false b c q r t e = absurd cc

found_or-some :
    (r : Response) (o : Option NlpModel) (m : NlpModel) → found_or r o ≡ ok m → o ≡ some m
found_or-some r none m e = absurd cc
found_or-some r (some n) m e = cc

parsed_or-some : (o : Option (List Text)) (s : List Text) → parsed_or o ≡ ok s → o ≡ some s
parsed_or-some none s e = absurd cc
parsed_or-some (some t) s e = cc

check_request-holds :
    (languages : Languages) (req : Request) {u : Unit {0}}
    → check_request languages req ≡ ok u
    → (has_text stores req.store ≡ true)
      × (not (text_eq req.store (codes "commandpedia") && not (is_some (truthy req.owner))) ≡ true)
      × (is_some (get languages req.locale false) ≡ true)
unfolding check_request
check_request-holds languages req e = three_hold _ _ _ _ _ _ e

not_created : {c : Created} → none ≡ some c → ⊥
not_created h = cc

negated : (b : Bool) → not b ≡ true → b ≡ false
negated true e = absurd (ground arith)
negated false e = refl

finish-learnt :
    (req : Request) (m : NlpModel) (c : Created) (example_id : ℕ)
    → (is_some (finish req m c example_id).response
        ≡ (not (example_id == 0) && not (is_trainable req.store && is_missing m.exact)))
      × (is_some (finish req m c example_id).learnt
          ≡ (is_trainable req.store && not (example_id == 0) && not (is_missing m.exact)))
      × (is_some (finish req m c example_id).error
          ≡ (is_trainable req.store && not (example_id == 0) && is_missing m.exact))
      × ((finish req m c example_id).created ≡ some c)
unfolding finish
finish-learnt req m c example_id =
    by_tests (example_id == 0) (is_trainable req.store) (is_missing m.exact) _ _
  where
    by_tests :
        (is_zero trained missing : Bool) (r : Response) (l : List Text × List Text)
        → let out : Outcome =
            if is_zero
            then record { response = none; created = some c; learnt = none; error = none }
            else if trained && missing
            then record {
              response = none;
              created = some c;
              learnt = none;
              error = some (codes "TypeError");
            }
            else record {
              response = some r;
              created = some c;
              learnt = if trained then some l else none;
              error = none;
            } in
          (is_some out.response ≡ (not is_zero && not (trained && missing)))
          × (is_some out.learnt ≡ (trained && not is_zero && not missing))
          × (is_some out.error ≡ (trained && not is_zero && missing))
          × (out.created ≡ some c)
    by_tests true true b r l = (refl, refl, refl, refl)
    by_tests true false b r l = (refl, refl, refl, refl)
    by_tests false true true r l = (refl, refl, refl, refl)
    by_tests false true false r l = (refl, refl, refl, refl)
    by_tests false false b r l = (refl, refl, refl, refl)

module _ (tokenize : Text → List Text) (latest_version : Text)
    (parse : NlpModel → List Text → List Text → Option (List Text))
    (get_id_by_cloud_id : Text → UserAnswer) (parse_int : Text → Option ℕ) where
  -- A request that passed the checks.
  pub record Checked (languages : Languages) (s : Service) (req : Request) (p : Prepared)
      : Type 0 where
    pub known_store : has_text stores req.store ≡ true
    pub supported : is_some (get languages req.locale false) ≡ true
    pub selected :
        get_model s (text_or (codes "org.thingpedia.models.default") req.model_tag) req.locale
        ≡ some p.model
    pub permitted : is_refused p.model.access_token req.access_token ≡ false
    pub not_empty : is_empty (tokenize req.q) ≡ false
    pub latest : text_eq req.thingtalk_version latest_version ≡ true
    pub parsed : parse p.model (split b' ' req.target) (tokenize req.q) ≡ some p.sequence
    pub stored : text_eq req.store (codes "no") ≡ false
    pub same_tokens : p.tokens ≡ tokenize req.q
    pub owner_given :
        (text_eq req.store (codes "commandpedia") && not (is_some (truthy req.owner))) ≡ false

  check_model-holds :
      (req : Request) (model : NlpModel) {u : Unit {0}}
      → check_model tokenize latest_version parse get_id_by_cloud_id parse_int req model ≡ ok u
      → (not (is_refused model.access_token req.access_token) ≡ true)
        × (not (is_empty (tokenize req.q)) ≡ true)
        × (text_eq req.thingtalk_version latest_version ≡ true)
  unfolding check_model
  check_model-holds req model e = three_hold _ _ _ _ _ _ e

  prepare-Checked :
      (languages : Languages) (s : Service) (req : Request) (p : Prepared)
      → prepare tokenize latest_version parse get_id_by_cloud_id parse_int languages s req ≡ ok p
      → Checked languages s req p
  unfolding prepare model_of parse_target
  prepare-Checked languages s req p e =
      let first = two_steps (check_request languages req) _ p e in
      let second = two_steps (model_of s req) _ p first.goes_on in
      let third =
        two_steps
          (check_model tokenize latest_version parse get_id_by_cloud_id parse_int req second.value)
          _ p second.goes_on in
      let code =
        two_steps (parsed_or (parse second.value (split b' ' req.target) (tokenize req.q))) _ p
          third.goes_on in
      let last =
        two_steps (check (not (text_eq req.store (codes "no"))) (200, codes "Learnt successfully"))
          _ p code.goes_on in
      let asked = check_request-holds languages req first.is_value in
      let fits = check_model-holds req second.value third.is_value in
      subst (Checked languages s req) (ok_value last.goes_on) (record {
        known_store = asked.0;
        supported = asked.2;
        selected = found_or-some (404, codes "No such model") _ second.value second.is_value;
        permitted = negated _ fits.0;
        not_empty = negated _ fits.1;
        latest = fits.2;
        parsed = parsed_or-some _ code.value code.is_value;
        stored = negated _ (check-holds _ _ last.is_value);
        same_tokens = refl;
        owner_given = negated _ asked.1;
      })
    where
      ok_value : {x y : Prepared} → ◌≡◌ {A = Result Response Prepared} (ok x) (ok y) → x ≡ y
      ok_value h = cc

  -- What is stored is of a request that passed the checks; the row is of that request and its owner; and
  -- how the request ends.
  pub record IsStored (languages : Languages) (s : Service) (example_id : ℕ) (req : Request)
      (out : Outcome) (c : Created) : Type 0 where
    pub prepared : Prepared
    pub checked : Checked languages s req prepared
    pub owner : Option ℕ
    pub is_owner :
        owner_of tokenize latest_version parse get_id_by_cloud_id parse_int (truthy req.owner)
        ≡ owned owner
    pub is_row : c ≡ create_row req prepared owner
    pub responded :
        is_some out.response
        ≡ (not (example_id == 0) && not (is_trainable req.store && is_missing prepared.model.exact))
    pub learnt :
        is_some out.learnt
        ≡ (is_trainable req.store && not (example_id == 0) && not (is_missing prepared.model.exact))
    pub failed :
        is_some out.error
        ≡ (is_trainable req.store && not (example_id == 0) && is_missing prepared.model.exact)

  by_owner :
      (languages : Languages) (s : Service) (example_id : ℕ) (req : Request) (p : Prepared)
      (o : Owner) (out : Outcome) (c : Created)
      → Checked languages s req p
      → owner_of tokenize latest_version parse get_id_by_cloud_id parse_int (truthy req.owner) ≡ o
      → store_by example_id req p o ≡ out
      → out.created ≡ some c
      → IsStored languages s example_id req out c
  unfolding store_by
  by_owner languages s example_id req p (owned owner) out c checked o e made =
      let ends = finish-learnt req p.model (create_row req p owner) example_id in
      record {
        prepared = p;
        checked = checked;
        owner = owner;
        is_owner = o;
        is_row = some_value (sym made ∙ ap (λ u. u.created) (sym e) ∙ ends.3);
        responded = ap (λ u. is_some u.response) (sym e) ∙ ends.0;
        learnt = ap (λ u. is_some u.learnt) (sym e) ∙ ends.1;
        failed = ap (λ u. is_some u.error) (sym e) ∙ ends.2;
      }
    where
      some_value : {x y : Created} → some x ≡ some y → x ≡ y
      some_value h = cc
  by_owner languages s example_id req p invalid_owner out c checked o e made =
      absurd (not_created (ap (λ u. u.created) e ∙ made))
  by_owner languages s example_id req p (thrown code) out c checked o e made =
      absurd (not_created (ap (λ u. u.created) e ∙ made))

  by_prepared :
      (languages : Languages) (s : Service) (example_id : ℕ) (req : Request)
      (r : Result Response Prepared) (out : Outcome) (c : Created)
      → prepare tokenize latest_version parse get_id_by_cloud_id parse_int languages s req ≡ r
      → learn_prepared tokenize latest_version parse get_id_by_cloud_id parse_int example_id req r
        ≡ out
      → out.created ≡ some c
      → IsStored languages s example_id req out c
  unfolding learn_prepared
  by_prepared languages s example_id req (err r) out c is_prepared e made =
      absurd (not_created (ap (λ u. u.created) e ∙ made))
  by_prepared languages s example_id req (ok p) out c is_prepared e made =
      by_owner languages s example_id req p _ out c (prepare-Checked languages s req p is_prepared)
        refl e made

  -- A sentence that `learn` stores comes from a request that passed every check: a known store that is not
  -- `no`, with an owner where that is `commandpedia`, a supported language, a model that lets its token
  -- through, words, the latest version, and code that parses. The row is of that request and its owner.
  -- Where the row has an id, the request fails with an error if the store is trained on and the exact
  -- matcher of the model is missing; otherwise it is answered, and the exact matcher is given the
  -- sentence exactly if the store is trained on.
  pub learn-IsStored :
      (languages : Languages) (s : Service) (example_id : ℕ) (req : Request) (c : Created)
      → (learn tokenize latest_version parse get_id_by_cloud_id parse_int languages s example_id
          req).created
        ≡ some c
      → IsStored languages s example_id req
          (learn tokenize latest_version parse get_id_by_cloud_id parse_int languages s example_id
            req)
          c
  unfolding learn
  learn-IsStored languages s example_id req c made =
      by_prepared languages s example_id req _ _ c refl refl made
