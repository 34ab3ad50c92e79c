-- ===== src/EditToken/Laws.antt =====
-- What the form of a token sends, and that it cannot be sent again.
use lite_nova.Prelude.{
  ℕ, ◌≡◌, ◌≢◌, refl, ap, ◌∙◌, String, List, ◌∷◌, Option, none, some, arith, Option-cases, ◌⊎◌, inl,
  inr,
}
use lite_nova.Prelude.Int.{ℤ}
use lite_nova.Prelude.Text.{join_comma}
use lite_nova.Effects.{Reply, rejected, resolved, threw, after, type_error}
use lite_nova.EditToken.{Clock, number, Models, chosen, joined, Body, Request, put, TokenForm}
use lite_nova.EditToken.Edits.{Edit, edit_all, edit_all-kept}
use lite_nova.EditToken.Submit.{
  parse_quota, parse_expiry, expiry_of, request_of, settle_submit, send, submit,
}

settle_submit-sent :
    (r : Reply (Unit {0})) (s : TokenForm) → (after (settle_submit r s)).sent ≡ s.sent
unfolding settle_submit
settle_submit-sent (rejected e) s = refl
settle_submit-sent (resolved a) s = ground arith

settle_submit-inputs :
    (r : Reply (Unit {0})) (s : TokenForm) {id : String}
    → s.token_id ≡ some id
    → (after (settle_submit r s)).inputs ≡ s.inputs
unfolding settle_submit
settle_submit-inputs (rejected e) s h = refl
settle_submit-inputs (resolved a) s h = ground arith

settle_submit-token_id :
    (r : Reply (Unit {0})) (s : TokenForm) → (after (settle_submit r s)).token_id ≡ s.token_id
unfolding settle_submit
settle_submit-token_id (rejected e) s = refl
settle_submit-token_id (resolved a) s = ground arith

-- The state in which the reply of a request is awaited.
abbrev written : Option ℤ → Option ℕ → List String → TokenForm → TokenForm
written quota expiry ms s = record s {
  inputs = record (s.inputs) {
    remain_quota = number quota;
    expired_time = expiry_of expiry;
    models = joined (join_comma ms);
  };
}

abbrev pub body : Option ℤ → Option ℕ → List String → TokenForm → Body
body quota expiry ms s = record {
  name = s.inputs.name;
  remain_quota = quota;
  expired_time = expiry;
  unlimited_quota = s.inputs.unlimited_quota;
  models = join_comma ms;
  subnet = s.inputs.subnet;
}

-- The state of a form whose token exists, after `submit` has read its fields.
abbrev read_form : Option ℤ → Option ℕ → TokenForm → TokenForm
read_form quota expiry s = record s {
  inputs = record (s.inputs) { remain_quota = number quota; expired_time = expiry_of expiry };
}

submit-eq-send :
    (c : Clock) (api : Request → Reply (Unit {0})) (s : TokenForm) (expiry : Option ℕ) {id : String}
    → s.token_id ≡ some id
    → parse_expiry c s.inputs.expired_time ≡ some expiry
    → submit c api s
      ≡ send c api
          (parse_quota c s.inputs.remain_quota)
          expiry
          s.inputs.models
          (read_form (parse_quota c s.inputs.remain_quota) expiry s)
unfolding submit
submit-eq-send c api s expiry edit e = ground arith

module _ (c : Clock) (api : Request → Reply (Unit {0})) (quota : Option ℤ) (expiry : Option ℕ)
    (ms : List String) (s : TokenForm) {id : String} (edit : s.token_id ≡ some id) where
  send-chosen :
      ((after (send c api quota expiry (chosen ms) s)).sent
        ≡ put (c.parse_int id) (body quota expiry ms s) ∷ s.sent)
      × ((after (send c api quota expiry (chosen ms) s)).inputs
          ≡ record (s.inputs) { models = joined (join_comma ms) })
      × ((after (send c api quota expiry (chosen ms) s)).token_id ≡ some id)
  unfolding send
  send-chosen = (
    settle_submit-sent _ _ ∙ ap (λ o. request_of c o (body quota expiry ms s) ∷ s.sent) edit,
    settle_submit-inputs _ _ edit,
    settle_submit-token_id _ _ ∙ edit,
  )

submit-unread :
    (c : Clock) (api : Request → Reply (Unit {0})) (s : TokenForm) {id : String}
    → s.token_id ≡ some id
    → parse_expiry c s.inputs.expired_time ≡ none
    → (after (submit c api s)).sent ≡ s.sent
unfolding submit
submit-unread c api s edit e = ground arith

send-joined :
    (c : Clock) (api : Request → Reply (Unit {0})) (quota : Option ℤ) (expiry : Option ℕ)
    (m : String) (s : TokenForm)
    → send c api quota expiry (joined m) s ≡ threw type_error s
unfolding send
send-joined c api quota expiry m s = refl

-- With models that are a text already, `submit` sends nothing; where the expiry can be read it
-- throws.
submit-joined :
    (c : Clock) (api : Request → Reply (Unit {0})) (s : TokenForm) {id m : String}
    → s.token_id ≡ some id
    → s.inputs.models ≡ joined m
    → ((after (submit c api s)).sent ≡ s.sent)
      × ((expiry : Option ℕ)
          → parse_expiry c s.inputs.expired_time ≡ some expiry
          → submit c api s
            ≡ threw type_error (read_form (parse_quota c s.inputs.remain_quota) expiry s))
submit-joined c api s {m} edit h = (
  elim (Option-cases (parse_expiry c s.inputs.expired_time)) [
    | inl e ↦ submit-unread c api s edit e
    | inr (expiry, e) ↦ ap (λ o. (after {S = TokenForm} o).sent) (threw_at expiry e)
  ],
  threw_at,
)
  where
    threw_at :
        (expiry : Option ℕ)
        → parse_expiry c s.inputs.expired_time ≡ some expiry
        → submit c api s
          ≡ threw type_error (read_form (parse_quota c s.inputs.remain_quota) expiry s)
    threw_at expiry e =
        submit-eq-send c api s expiry edit e
        ∙ ap
            (λ ms.
              send c api (parse_quota c s.inputs.remain_quota) expiry ms
                (read_form (parse_quota c s.inputs.remain_quota) expiry s))
            h
        ∙ send-joined c api _ expiry m _

module _ (c : Clock) (api : Request → Reply (Unit {0})) (s : TokenForm) {id : String}
    (edit : s.token_id ≡ some id) where
  -- What `submit` does to the form where it sends a request.
  pub submit-chosen :
      (ms : List String) (expiry : Option ℕ)
      → s.inputs.models ≡ chosen ms
      → parse_expiry c s.inputs.expired_time ≡ some expiry
      → ((after (submit c api s)).sent
          ≡ put (c.parse_int id) (body (parse_quota c s.inputs.remain_quota) expiry ms s) ∷ s.sent)
        × ((after (submit c api s)).inputs ≡ record (s.inputs) {
          remain_quota = number (parse_quota c s.inputs.remain_quota);
          expired_time = expiry_of expiry;
          models = joined (join_comma ms);
        })
        × ((after (submit c api s)).token_id ≡ some id)
  submit-chosen ms expiry m e =
      let quota = parse_quota c s.inputs.remain_quota in
      let same : submit c api s ≡ send c api quota expiry (chosen ms) (read_form quota expiry s) =
        submit-eq-send c api s expiry edit e
        ∙ ap (λ ms. send c api quota expiry ms (read_form quota expiry s)) m in
      let (sent, inputs, token) =
        send-chosen c api quota expiry ms (read_form quota expiry s) edit in
      (
        ap (λ o. (after {S = TokenForm} o).sent) same ∙ sent,
        ap (λ o. (after {S = TokenForm} o).inputs) same ∙ inputs,
        ap (λ o. (after {S = TokenForm} o).token_id) same ∙ token,
      )

  joined_after :
      ((after (submit c api s)).sent ≢ s.sent)
      → (m : String) × ((after (submit c api s)).inputs.models ≡ joined m)
        × ((after (submit c api s)).token_id ≡ some id)
  joined_after grew = elim (Option-cases (parse_expiry c s.inputs.expired_time)) [
    | inl e ↦ absurd (grew (submit-unread c api s edit e))
    | inr (expiry, e) ↦ on_models s.inputs.models refl expiry e
  ]
    where
      on_models :
          (ms : Models)
          → s.inputs.models ≡ ms
          → (expiry : Option ℕ) → parse_expiry c s.inputs.expired_time ≡ some expiry
          → (m : String) × ((after (submit c api s)).inputs.models ≡ joined m)
            × ((after (submit c api s)).token_id ≡ some id)
      on_models (joined m) h expiry e = absurd (grew ((submit-joined c api s edit h).0))
      on_models (chosen ms) h expiry e =
          let (_, inputs, token) = submit-chosen ms expiry h e in
          (join_comma ms, ap (λ i. i.models) inputs, token)

  -- Once the form of an existing token has sent a request, whatever the server answered, and after
  -- any edits that are no choice of the models, submitting the form sends nothing: it throws a
  -- TypeError, unless the expiry cannot be read.
  pub submit-submit :
      (edits : List Edit) (api' : Request → Reply (Unit {0}))
      → (after (submit c api s)).sent ≢ s.sent
      → let t = edit_all c edits (after (submit c api s)) in
        ((after (submit c api' t)).sent ≡ (after (submit c api s)).sent)
        × ((parse_expiry c t.inputs.expired_time ≡ none)
            ⊎ ((u : TokenForm) × (submit c api' t ≡ threw type_error u)))
  submit-submit edits api' grew =
      let (m, h, token) = joined_after grew in
      let (sent, models, id_kept) = edit_all-kept c edits (after (submit c api s)) in
      let t = edit_all c edits (after (submit c api s)) in
      let (quiet, threw_at) = submit-joined c api' t (id_kept ∙ token) (models ∙ h) in
      (
        quiet ∙ sent,
        elim (Option-cases (parse_expiry c t.inputs.expired_time)) [
          | inl e ↦ inl e
          | inr (expiry, e) ↦ inr (_, threw_at expiry e)
        ],
      )
