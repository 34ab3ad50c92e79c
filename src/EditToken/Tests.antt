-- ===== src/EditToken/Tests.antt =====
-- The theorems about the form of a token at a concrete form, with a calendar of one minute.
use lite_nova.Prelude.{
  ℕ, ◌/◌, ◌%◌, ltb, ◌==◌, Bool-cases, inl, inr, ◌≡◌, ◌≢◌, ◌⊎◌, refl, false, String, List, [], ◌∷◌,
  none, some, arith, str_eq, if◌then◌else◌,
}
use lite_nova.Prelude.Int.{pos}
use Prim.Native.Char.{Char}
use lite_nova.Times.Laws.{IsDecimal}
use lite_nova.Effects.{Reply, rejected, resolved, text, threw, after, type_error}
use lite_nova.Channels.Rows.{answer_ok}
use lite_nova.EditToken.{
  Clock, number, never, chosen, TokenData, Body, Request, put, TokenForm, load_token,
  set_expired_time,
}
use lite_nova.EditToken.Submit.{parse_expiry, send, submit, request_of, settle_submit}
use lite_nova.EditToken.Laws.{submit-submit}
use lite_nova.EditToken.Edits.{Edit, name_to, expire_in, edit_all}
use lite_nova.EditToken.Roundtrip.{body_of, submit-load_token, submit-set_expired_time}

abbrev digit : ℕ → Char
digit n =
    if n == 0
    then "0"
    else (if n == 1
        then "1"
        else (if n == 2
            then "2"
            else (if n == 5 then "5" else (if n == 6 then "6" else (if n == 7 then "7" else "9")))))

-- The decimal text of a number below 10, and of a larger one with four digits or, below 100, two.
abbrev decimal_text : ℕ → String
decimal_text n =
    if ltb n 10
    then String.◌∷◌ (digit n) ""
    else (if ltb n 100
        then String.◌∷◌ (digit (n / 10)) (String.◌∷◌ (digit (n % 10)) "")
        else String.◌∷◌ (digit (n / 1000)) (
            String.◌∷◌ (digit (n / 100 % 10))
              (String.◌∷◌ (digit (n / 10 % 10)) (String.◌∷◌ (digit (n % 10)) ""))))

decimal_text-IsDecimal : IsDecimal decimal_text
decimal_text-IsDecimal n = elim (Bool-cases (ltb n 10)) [
  | inl e ↦ rw e refl
  | inr e ↦ elim (Bool-cases (ltb n 100)) [ inl q ↦ rw (e, q) refl | inr q ↦ rw (e, q) refl ]
]

-- The calendar of the first two minutes of 1970.
abbrev clock : Clock
clock = record {
  parse_int = λ s. if str_eq s "7" then some (pos 7) else none;
  date_parse = λ s.
      if str_eq s "1970-01-01 00:00:12"
      then some 12_000
      else (if str_eq s "1970-01-01 00:01:05" then some 65_000 else none);
  calendar = record {
    local_time = λ time. some (record {
      year = 1970;
      month = 0;
      day = 1;
      hour = 0;
      minute = time / 60_000;
      second = time / 1000 % 60;
    });
    number_text = decimal_text;
  };
}

abbrev accept : Request → Reply (Unit {0})
accept q = resolved (answer_ok "" tt)

abbrev data_7 : TokenData
data_7 = record {
  name = "key";
  remain_quota = pos 500;
  expired_time = some 12;
  unlimited_quota = false;
  models = "gpt-4,qwen-max";
  subnet = "10.0.0.0/8";
}

abbrev form : TokenForm
form = record {
  token_id = some "7";
  inputs = record {
    name = "key";
    remain_quota = number (some (pos 500));
    expired_time = never;
    unlimited_quota = false;
    models = chosen ("gpt-4" ∷ "qwen-max" ∷ []);
    subnet = "";
  };
  loading = false;
  model_options = [];
  effects = [];
  sent = [];
}

submit-load_token_example :
    (after
      (submit clock accept (load_token clock (resolved (answer_ok "" (some data_7))) form))).sent
    ≡ put (some (pos 7)) (body_of data_7) ∷ []
submit-load_token_example =
    submit-load_token clock accept data_7 form "" decimal_text-IsDecimal (_, refl, refl) refl

submit-set_expired_time_example :
    (b : Body) × ((after (submit clock accept (set_expired_time clock 5_400 0 0 0 1 form))).sent
      ≡ put (some (pos 7)) b ∷ [])
    × (b.expired_time ≡ some 65)
submit-set_expired_time_example =
    submit-set_expired_time clock accept 5_400 0 0 0 1 form ("gpt-4" ∷ "qwen-max" ∷ [])
      decimal_text-IsDecimal (_, refl, refl) refl refl

first_sent : (after (submit clock accept form)).sent ≢ []
unfolding submit send settle_submit parse_expiry request_of
first_sent e = ground arith

-- A new name and an expiry in one minute.
abbrev edits : List Edit
edits = name_to "other" ∷ expire_in 5_000 0 0 0 1 ∷ []

abbrev edited : TokenForm
edited = edit_all clock edits (after (submit clock accept form))

submit-submit_example :
    ((after (submit clock (λ q. rejected (text "offline")) edited)).sent
      ≡ (after (submit clock accept form)).sent)
    × ((parse_expiry clock edited.inputs.expired_time ≡ none)
        ⊎ ((u : TokenForm) × (submit clock (λ q. rejected (text "offline")) edited
              ≡ threw type_error u)))
submit-submit_example =
    submit-submit clock accept form refl edits (λ q. rejected (text "offline")) first_sent
