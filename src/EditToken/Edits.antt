-- ===== src/EditToken/Edits.antt =====
-- The edits of the form of a token that leave its models (web-src/web/src/pages/Token/EditToken.js,
-- handleInputChange, setExpiredTime, setUnlimitedQuota).
use lite_nova.Prelude.{ℕ, ◌≡◌, refl, ◌∙◌, String, List, [], ◌∷◌}
use lite_nova.EditToken.{
  Clock, TokenForm, handle_input_change, to_name, to_quota, to_expired_time, to_subnet,
  set_expired_time, set_unlimited_quota,
}

-- What the user may do to the form besides choosing its models.
pub data Edit : Type 0 where
  name_to quota_to expiry_to subnet_to : String → Edit
  expire_in : (now month day hour minute : ℕ) → Edit
  unlimited : Edit

abbrev pub apply_edit : Clock → Edit → TokenForm → TokenForm
apply_edit c (name_to v) s = handle_input_change (to_name v) s
apply_edit c (quota_to v) s = handle_input_change (to_quota v) s
apply_edit c (expiry_to v) s = handle_input_change (to_expired_time v) s
apply_edit c (subnet_to v) s = handle_input_change (to_subnet v) s
apply_edit c (expire_in now month day hour minute) s =
    set_expired_time c now month day hour minute s
apply_edit c unlimited s = set_unlimited_quota s

abbrev pub edit_all : Clock → List Edit → TokenForm → TokenForm
edit_all c [] s = s
edit_all c (e ∷ es) s = edit_all c es (apply_edit c e s)

apply_edit-kept :
    (c : Clock) (e : Edit) (s : TokenForm)
    → ((apply_edit c e s).sent ≡ s.sent)
      × ((apply_edit c e s).inputs.models ≡ s.inputs.models)
      × ((apply_edit c e s).token_id ≡ s.token_id)
unfolding handle_input_change set_expired_time set_unlimited_quota
apply_edit-kept c (name_to v) s = (refl, refl, refl)
apply_edit-kept c (quota_to v) s = (refl, refl, refl)
apply_edit-kept c (expiry_to v) s = (refl, refl, refl)
apply_edit-kept c (subnet_to v) s = (refl, refl, refl)
apply_edit-kept c (expire_in now month day hour minute) s = (refl, refl, refl)
apply_edit-kept c unlimited s = (refl, refl, refl)

pub edit_all-kept :
    (c : Clock) (es : List Edit) (s : TokenForm)
    → ((edit_all c es s).sent ≡ s.sent)
      × ((edit_all c es s).inputs.models ≡ s.inputs.models)
      × ((edit_all c es s).token_id ≡ s.token_id)
edit_all-kept c [] s = (refl, refl, refl)
edit_all-kept c (e ∷ es) s =
    let (sent, models, id) = apply_edit-kept c e s in
    let (sent', models', id') = edit_all-kept c es (apply_edit c e s) in
    (sent' ∙ sent, models' ∙ models, id' ∙ id)
