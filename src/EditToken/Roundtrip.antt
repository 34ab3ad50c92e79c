-- ===== src/EditToken/Roundtrip.antt =====
-- What a form sends for the token that was loaded into it, and for an expiry that was chosen.
use lite_nova.Prelude.{
  ℕ, ◌+◌, ◌*◌, ◌/◌, ◌≡◌, refl, sym, ap, ◌∙◌, String, List, [], ◌∷◌, Option, none, some, arith,
  Bool-cases, inl, inr, str_eq, eq_iff, if◌then◌else◌, ◌==◌,
}
use lite_nova.Prelude.Text.{split_comma, join_comma, join_comma-split_comma}
use lite_nova.Times.{timestamp2string}
use lite_nova.Times.Laws.{IsDecimal, ReadsBack, date_parse-timestamp2string}
use lite_nova.Effects.{Reply, resolved, after}
use lite_nova.Channels.Rows.{answer_ok}
use lite_nova.EditToken.{
  Clock, never, at, chosen, TokenData, Body, Request, put, TokenForm, loaded_inputs, load_token,
  offset, set_expired_time,
}
use lite_nova.EditToken.Submit.{parse_quota, parse_expiry, submit}
use lite_nova.EditToken.Laws.{body, submit-chosen}

-- The fields of a token as they are sent back.
abbrev pub body_of : TokenData → Body
body_of d = record {
  name = d.name;
  remain_quota = some d.remain_quota;
  expired_time = d.expired_time;
  unlimited_quota = d.unlimited_quota;
  models = d.models;
  subnet = d.subnet;
}

join_loaded : (m : String) → join_comma (if str_eq m "" then [] else split_comma m) ≡ m
join_loaded m = elim (Bool-cases (str_eq m "")) [
  | inl e ↦ rw e (unfold join_comma in sym ((eq_iff m "").0 e))
  | inr e ↦ rw e (join_comma-split_comma m)
]

-- The milliseconds of an expiry in seconds.
abbrev pub millis : Option ℕ → Option ℕ
millis none = none
millis (some t) = some (t * 1000)

parse_expiry-loaded :
    (c : Clock) (e : Option ℕ)
    → IsDecimal c.calendar.number_text
    → ReadsBack c.calendar c.date_parse (millis e)
    → parse_expiry c
        (elim e [ none ↦ never | some t ↦ at (timestamp2string c.calendar (t * 1000)) ])
      ≡ some e
unfolding parse_expiry
parse_expiry-loaded c none decimal back = refl
parse_expiry-loaded c (some t) decimal back =
    rw (date_parse-timestamp2string c.calendar c.date_parse (t * 1000) decimal back, parse_expiry)
      (ap (λ n. some (some n)) (omega arith))

-- In the form of an existing token, a token that is loaded and submitted unchanged is sent back as
-- the server holds it, if its expiry, where it has one, is a time that the calendar knows and whose
-- text in the form YYYY-MM-DD hh:mm:ss is read as that time.
pub submit-load_token :
    (c : Clock) (api : Request → Reply (Unit {0})) (d : TokenData) (s : TokenForm)
    (message : String) {id : String}
    → IsDecimal c.calendar.number_text
    → ReadsBack c.calendar c.date_parse (millis d.expired_time)
    → s.token_id ≡ some id
    → (after (submit c api (load_token c (resolved (answer_ok message (some d))) s))).sent
      ≡ put (c.parse_int id) (body_of d) ∷ s.sent
unfolding load_token loaded_inputs parse_quota
submit-load_token c api d s message {id} decimal back edit =
    let ms : List String = if str_eq d.models "" then [] else split_comma d.models in
    let s' = load_token c (resolved (answer_ok message (some d))) s in
    (submit-chosen c api s' edit ms d.expired_time refl
      (parse_expiry-loaded c d.expired_time decimal back)).0
    ∙ ap (λ m. put (c.parse_int id) (record (body_of d) { models = m }) ∷ s.sent)
        (join_loaded d.models)

module _ (month day hour minute : ℕ) where
  offset-eq :
      offset month day hour minute ≡ month * 2592000 + day * 86400 + hour * 3600 + minute * 60
  unfolding offset
  offset-eq = omega arith

  offset-eq-zero : (offset month day hour minute == 0) ≡ ((month + day + hour + minute) == 0)
  offset-eq-zero = ground (arith, offset-eq)

  -- The time that an offset from `now` names, in milliseconds.
  abbrev pub chosen_time : (now : ℕ) → Option ℕ
  chosen_time now =
      if (month + day + hour + minute) == 0
      then none
      else some (now + 1000 * (month * 2592000 + day * 86400 + hour * 3600 + minute * 60))

  parse_expiry-offset :
      (c : Clock) (now : ℕ)
      → IsDecimal c.calendar.number_text
      → ReadsBack c.calendar c.date_parse (chosen_time now)
      → parse_expiry c (
          if offset month day hour minute == 0
          then never
          else at (timestamp2string c.calendar (now + 1000 * offset month day hour minute)))
        ≡ some (
            if (month + day + hour + minute) == 0
            then none
            else some (now / 1000 + month * 2592000 + day * 86400 + hour * 3600 + minute * 60))
  unfolding parse_expiry
  parse_expiry-offset c now decimal back = elim (Bool-cases ((month + day + hour + minute) == 0)) [
    | inl e ↦ rw (offset-eq-zero, e)
    | inr e ↦
        rw
          (
            offset-eq-zero,
            e,
            offset-eq,
            date_parse-timestamp2string c.calendar c.date_parse _ decimal (rw e at back),
            parse_expiry,
          )
          (ap (λ n. some (some n)) (omega arith))
  ]

-- In the form of an existing token whose models were not joined yet, an expiry that is chosen by
-- an offset is sent as the whole seconds of the clock plus the offset, and no offset as no expiry,
-- if the time that is chosen is one that the calendar knows and whose text in the form
-- YYYY-MM-DD hh:mm:ss is read as that time without the fraction of its second.
pub submit-set_expired_time :
    (c : Clock) (api : Request → Reply (Unit {0})) (now month day hour minute : ℕ) (s : TokenForm)
    (ms : List String) {id : String}
    → IsDecimal c.calendar.number_text
    → ReadsBack c.calendar c.date_parse (chosen_time month day hour minute now)
    → s.token_id ≡ some id
    → s.inputs.models ≡ chosen ms
    → (b : Body) × ((after (submit c api (set_expired_time c now month day hour minute s))).sent
        ≡ put (c.parse_int id) b ∷ s.sent)
      × (b.expired_time ≡ (
          if (month + day + hour + minute) == 0
          then none
          else some (now / 1000 + month * 2592000 + day * 86400 + hour * 3600 + minute * 60)))
unfolding set_expired_time
submit-set_expired_time c api now month day hour minute s ms decimal back edit m =
    let s' = set_expired_time c now month day hour minute s in
    let e =
      if (month + day + hour + minute) == 0
      then none
      else some (now / 1000 + month * 2592000 + day * 86400 + hour * 3600 + minute * 60) in
    (
      body (parse_quota c s'.inputs.remain_quota) e ms s',
      (submit-chosen c api s' edit ms e m
          (parse_expiry-offset month day hour minute c now decimal back)).0,
      refl,
    )
