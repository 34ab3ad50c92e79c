-- ===== src/EditToken/Submit.antt =====
-- `submit` of the form of a token.
use lite_nova.Prelude.{ℕ, ◌+◌, ◌/◌, true, false, not, String, ◌∷◌, Option, none, some}
use lite_nova.Prelude.{str_eq, if◌then◌else◌, ◌&&◌}
use lite_nova.Prelude.Int.{ℤ}
use lite_nova.Prelude.Text.{join_comma}
use lite_nova.Effects.{
  success, type_error, Reply, rejected, resolved, Outcome, done, threw, show_error_text,
}
use lite_nova.EditToken.{
  Clock, Quota, Expiry, Models, Body, Request, TokenForm, is_edit, origin_inputs, number, typed,
  never, at, seconds, chosen, joined, put, post,
}

-- `parseInt(localInputs.remain_quota)`; of a whole number it is that number.
unfoldable pub parse_quota : Clock → Quota → Option ℤ
parse_quota c (number z) = z
parse_quota c (typed v) = c.parse_int v

-- `Math.ceil(time / 1000)`
abbrev pub ceil_seconds : ℕ → ℕ
ceil_seconds time = (time + 999) / 1000

-- `Date.parse(localInputs.expired_time)`, in whole seconds; the outer `none` is NaN, the inner
-- one is -1, which is not parsed. A number is parsed as its text.
unfoldable pub parse_expiry : Clock → Expiry → Option (Option ℕ)
parse_expiry c never = some none
parse_expiry c (at v) = elim (c.date_parse v) [
  | none ↦ none
  | some t ↦ some (some (ceil_seconds t))
]
parse_expiry c (seconds n) = elim (c.date_parse (c.calendar.number_text n)) [
  | none ↦ none
  | some t ↦ some (some (ceil_seconds t))
]

abbrev pub expiry_of : Option ℕ → Expiry
expiry_of none = never
expiry_of (some t) = seconds t

-- The request with its fields, by whether the token exists.
unfoldable pub request_of : Clock → Option String → Body → Request
request_of c none body = post body
request_of c (some id) body = put (c.parse_int id) body

-- The answer of the server to a submitted form.
unfoldable pub settle_submit : Reply (Unit {0}) → TokenForm → Outcome TokenForm
unfolding origin_inputs
settle_submit (rejected e) s = threw e s
settle_submit (resolved a) s = elim a.success [
  | true ↦ elim s.token_id [
    | some id ↦
        done (record s { effects = success "token.edit.messages.update_success" ∷ s.effects })
    | none ↦ done (record s {
      effects = success "token.edit.messages.create_success" ∷ s.effects;
      inputs = origin_inputs false;
    })
  ]
  | false ↦ done (record s { effects = show_error_text a.message s.effects })
]

-- `localInputs.models = localInputs.models.join(',')` and what follows; a text has no `join`.
unfoldable pub send :
    Clock
    → (api : Request → Reply (Unit {0})) → Option ℤ
    → Option ℕ
    → Models
    → TokenForm
    → Outcome TokenForm
unfolding request_of settle_submit
send c api quota expiry (joined m) s = threw type_error s
send c api quota expiry (chosen ms) s =
    let body : Body = record {
      name = s.inputs.name;
      remain_quota = quota;
      expired_time = expiry;
      unlimited_quota = s.inputs.unlimited_quota;
      models = join_comma ms;
      subnet = s.inputs.subnet;
    } in
    let request = request_of c s.token_id body in
    settle_submit (api request) (record s {
      inputs = record (s.inputs) { models = joined (join_comma ms) };
      sent = request ∷ s.sent;
    })

-- `submit`
unfoldable pub submit : Clock → (api : Request → Reply (Unit {0})) → TokenForm → Outcome TokenForm
submit c api s =
    if not (is_edit s) && str_eq s.inputs.name ""
    then done s
    else (let quota = parse_quota c s.inputs.remain_quota in
        let s' = record s { inputs = record (s.inputs) { remain_quota = number quota } } in
        elim (parse_expiry c s.inputs.expired_time) [
          | none ↦ done (record s' {
            effects = show_error_text "token.edit.messages.expire_time_invalid" s.effects;
          })
          | some expiry ↦
              send c api quota expiry s.inputs.models
                (record s' { inputs = record (s'.inputs) { expired_time = expiry_of expiry } })
        ])
