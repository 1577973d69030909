-- ===== src/Nlp/Nlu/Answering.antt =====
-- nlp/nlu.ts: about the requests that are answered.
use genie_cloud.Base.{
  Bool, true, false, ◌≡◌, refl, sym, ap, ◌∙◌, subst, not, ◌&&◌, ◌||◌, List, [], Text, codes,
  text_eq, Option, none, some, Result, ok, err, Option-cases, Bool-cases, inl, inr, arith,
  if◌then◌else◌,
}
use genie_cloud.Util.I18n.{truthy}
use genie_cloud.Nlp.Service.{NlpModel, Service}
use genie_cloud.Nlp.Nlu.{
  Request, Data, Refusal, Failure, response, LogRow, answer_of, unless, answer_with, Answer,
  Prediction, text_or, is_some, is_empty, select_model, is_refused, run_nlu, ask_model,
  ask_selected, fit, log_row, split_context, entities_with,
}

abbrev pub is_ok : {E A : Type 0} → Result E A → Bool
is_ok (ok a) = true
is_ok (err e) = false

abbrev pub good_store : Data → Bool
good_store body =
    text_eq (text_or (codes "no") (truthy body.store)) (codes "yes")
    || text_eq (text_or (codes "no") (truthy body.store)) (codes "no")

-- Whether a row is logged for an answer.
abbrev pub is_logged : Data → Prediction → Bool
is_logged body p =
    not (text_eq (text_or (codes "no") (truthy body.store)) (codes "no"))
    && not (text_eq (text_or [] body.expect) (codes "MultipleChoice"))
    && not (is_empty p.tokens)

abbrev pub Send : Type 0
Send =
    NlpModel
    → Text
    → Option (List Text)
    → Option (List (Text × Text))
    → Data
    → Result Text Prediction

-- The model is the one that the request selects, its token is the one that was given where it has one, it
-- is given a context exactly if it is contextual, and a row is logged exactly if that is asked for.
pub record Answered (send : Send) (s : Service) (req : Request) (body : Data) (a : Answer)
    : Type 0 where
  pub good : good_store body ≡ true
  pub selected : select_model s req body ≡ ok a.model
  pub permitted : is_refused a.model.access_token body.access_token ≡ false
  pub context : is_some a.context ≡ a.model.contextual
  pub predicted : send a.model body.q a.context a.entities (fit a.model body) ≡ ok a.prediction
  pub logged : is_some a.logged ≡ is_logged body a.prediction

fit-context :
    (model : NlpModel) (body : Data)
    → is_some (split_context (truthy (fit model body).context)) ≡ model.contextual
unfolding fit split_context
fit-context model body = elim (Bool-cases model.contextual) [
  | inr plain ↦ rw plain refl
  | inl contextual ↦ elim (Option-cases (truthy body.context)) [
    | inl missing ↦ rw (contextual, missing) refl
    | inr (t, there) ↦ rw (contextual, there, there) refl
  ]
]

pub fit-others :
    (model : NlpModel) (body : Data)
    → ((fit model body).access_token ≡ body.access_token)
      × ((fit model body).q ≡ body.q)
      × ((fit model body).expect ≡ body.expect)
unfolding fit
fit-others model body = elim (Bool-cases model.contextual) [
  | inr plain ↦ rw plain (refl, refl, refl)
  | inl contextual ↦ elim (Option-cases (truthy body.context)) [
    | inl missing ↦ rw (contextual, missing) (refl, refl, refl)
    | inr (t, there) ↦ rw (contextual, there) (refl, refl, refl)
  ]
]

is_some-if : {A : Type 0} (b : Bool) (x : A) → is_some (if b then some x else none) ≡ b
is_some-if true x = refl
is_some-if false x = refl

log_row-is_some :
    (model : NlpModel) (body : Data) (p : Prediction)
    → is_some (log_row model (text_or (codes "no") (truthy body.store)) (fit model body) p)
      ≡ is_logged body p
unfolding log_row
log_row-is_some model body p =
    is_some-if _ _
    ∙ ap
        (λ e.
          not (text_eq (text_or (codes "no") (truthy body.store)) (codes "no"))
          && not (text_eq (text_or [] e) (codes "MultipleChoice"))
          && not (is_empty p.tokens))
        (fit-others model body).2

-- An answer comes of a prediction.
answer_with-ok :
    (send : Send) (log : LogRow → Option Text) (store : Text) (body : Data) (model : NlpModel)
    (p : Result Text Prediction) (a : Answer)
    → answer_with send log store body model p ≡ ok a
    → (q : Prediction) × (p ≡ ok q) × (answer_of send log store body model q ≡ a)
unfolding answer_with
answer_with-ok send log store body model (err e) a h = absurd cc
answer_with-ok send log store body model (ok q) a h = (q, refl, unless-ok _ _ h)
  where
    ok_value : {x : Answer} → ◌≡◌ {A = Result Failure Answer} (ok x) (ok a) → x ≡ a
    ok_value h = cc

    unless-ok : (o : Option Text) (x : Answer) → unless o x ≡ ok a → x ≡ a
    unless-ok none x h = ok_value h
    unless-ok (some e) x h = absurd cc

module _ (send : Send) (log : LogRow → Option Text) (s : Service) (req : Request)
    (body : Data) where
  ask_model-Answered :
      (model : NlpModel) (a : Answer)
      → good_store body ≡ true
      → select_model s req body ≡ ok model
      → ask_model send log (text_or (codes "no") (truthy body.store)) (fit model body) model ≡ ok a
      → Answered send s req body a
  unfolding ask_model
  ask_model-Answered model a good selected e =
      elim (Bool-cases (is_refused model.access_token (fit model body).access_token)) [
        | inl refused ↦
            absurd (not_ok {r = (404, codes "No such model")} (sym (rw refused refl) ∙ e))
        | inr fine ↦
            let store = text_or (codes "no") (truthy body.store) in
            let context = split_context (truthy (fit model body).context) in
            let entities =
              entities_with (truthy (fit model body).context) (fit model body).entities in
            let predicted = send model (fit model body).q context entities (fit model body) in
            let (q, sent, same) =
              answer_with-ok send log store (fit model body) model predicted a
                (sym (rw fine refl) ∙ e) in
            subst (Answered send s req body) same (record {
              good = good;
              selected = selected;
              permitted = ap (is_refused model.access_token) (sym (fit-others model body).0) ∙ fine;
              context = fit-context model body;
              predicted =
                  ap
                    (λ t.
                      send model t (answer_of send log store (fit model body) model q).context
                        (answer_of send log store (fit model body) model q).entities
                        (fit model body))
                    (sym (fit-others model body).1)
                  ∙ sent;
              logged = log_row-is_some model body q;
            })
      ]
    where
      not_ok : {r : Refusal} → ◌≡◌ {A = Result Failure Answer} (err (response r)) (ok a) → ⊥
      not_ok h = cc

  found-Answered :
      (r : Result Refusal NlpModel) (a : Answer)
      → good_store body ≡ true
      → select_model s req body ≡ r
      → ask_selected send log (text_or (codes "no") (truthy body.store)) body r ≡ ok a
      → Answered send s req body a
  unfolding ask_selected
  found-Answered (err refusal) a good selected e = absurd cc
  found-Answered (ok model) a good selected e = ask_model-Answered model a good selected e

  -- A request that is answered asks for a store that there is; the model is the one that it selects by its
  -- tag or by the fallbacks, and the token that was given fits it; the model is given a context exactly if
  -- it is contextual, and the query as it is; a row is logged exactly if the store, the expectation and
  -- the tokens ask for it.
  pub run_nlu-Answered :
      (a : Answer) → run_nlu send log s req body ≡ ok a → Answered send s req body a
  unfolding run_nlu
  run_nlu-Answered a e = elim (Bool-cases (good_store body)) [
    | inl good ↦
        found-Answered (select_model s req body) a good refl (sym (rw (bad_store good) refl) ∙ e)
    | inr bad ↦ absurd (not_ok (sym (rw (bad_store bad) refl) ∙ e))
  ]
    where
      not_ok :
          ◌≡◌ {A = Result Failure Answer}
            (err (response (400, codes "Invalid store parameter")))
            (ok a)
          → ⊥
      not_ok h = cc

      bad_store :
          {b : Bool}
          → good_store body ≡ b
          → (not (text_eq (text_or (codes "no") (truthy body.store)) (codes "yes"))
              && not (text_eq (text_or (codes "no") (truthy body.store)) (codes "no")))
            ≡ not b
      bad_store h = ground (arith, h)
