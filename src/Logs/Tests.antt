-- ===== src/Logs/Tests.antt =====
-- Each theorem about the table of logs on a full page of ten rows.
use lite_nova.Prelude.{ℕ, ◌+◌, ◌≡◌, false, List, [], ◌∷◌, none, some, map, arith, reverse, String}
use lite_nova.Prelude.Int.{pos}
use lite_nova.Effects.{Reply, resolved}
use lite_nova.Listing.{Listing, refs_from}
use lite_nova.Listing.Valid.{IsValid}
use lite_nova.Sorting.Columns.{Js}
use lite_nova.Channels.Rows.{answer_ok}
use lite_nova.Logs.{Log, LogsTable, Texts, Stat, by_created_time, sort_log}
use lite_nova.Logs.Laws.{sort_log-reverse}

abbrev js : Js
js = record {
  to_number = λ s. none;
  parse_int = λ s. none;
  number_text = λ z. "";
  trim = λ s. s;
  locale_greater = λ a b. false;
}

abbrev row : ℕ → Log
row n = record {
  id = n;
  created_at = 100 + n;
  channel = 1;
  type = 2;
  model_name = "gpt-4";
  username = "u";
  token_name = "k";
  prompt_tokens = 3;
  completion_tokens = 4;
  quota = pos n;
  elapsed_time = some 1200;
}

abbrev full : Listing Log
full = record {
  heap = map row (refs_from 0 10);
  items = refs_from 0 10;
  loading = false;
  active_page = 1;
  search_keyword = "";
  searching = false;
  effects = [];
}

abbrev table : LogsTable
table = record {
  listing = full;
  show_stat = false;
  log_type = 0;
  detail_log = none;
  detail_open = false;
  is_admin_user = false;
  inputs = record {
    username = "";
    token_name = "k";
    model_name = "";
    start_timestamp = "1970-01-01 00:00:00";
    end_timestamp = "2026-01-01 00:00:00";
    channel = "";
  };
  stat = record { quota = pos 0; token = pos 0 };
}

abbrev texts : Texts
texts = record { number_text = λ n. "0"; seconds_text = λ s. "0" }

abbrev stats : String → Reply Stat
stats url = resolved (answer_ok "" (record { quota = pos 7; token = pos 9 }))

abbrev pages : String → Reply (List Log)
pages url = resolved (answer_ok "" (row 10 ∷ row 11 ∷ []))

full-IsValid_log : IsValid full
full-IsValid_log = omega arith

sort_log-reverse_example : (sort_log js by_created_time full full).items ≡ reverse full.items
sort_log-reverse_example = sort_log-reverse js full full-IsValid_log
