-- ===== src/Tokens/Tests.antt =====
-- Each theorem about the table of tokens on a full page of ten rows.
use lite_nova.Prelude.{ℕ, ◌≡◌, true, false, List, [], ◌∷◌, Option, none, some, map, String}
use lite_nova.Prelude.Int.{pos}
use lite_nova.Effects.{Reply, resolved, open_window}
use lite_nova.Listing.{Listing, refs_from}
use lite_nova.Channels.Rows.{answer_ok}
use lite_nova.Tokens.{Token, TokensTable, Request}
use lite_nova.Tokens.Links.{Place, lobechat, on_copy, on_open_link, on_open_link-on_copy}

abbrev row : ℕ → Token
row n = record {
  id = n;
  name = "k";
  key = "abc";
  status = 1;
  used_quota = pos 0;
  remain_quota = pos 0;
  unlimited_quota = true;
  created_time = 0;
  expired_time = pos 0;
  deleted = false;
}

abbrev full : Listing Token
full = record {
  heap = map row (refs_from 0 10);
  items = refs_from 0 10;
  loading = false;
  active_page = 1;
  search_keyword = "";
  searching = false;
  effects = [];
}

abbrev table : TokensTable
table = record { listing = full; order_by = "remain_quota" }

abbrev server : Request → Reply (Option Token)
server request = resolved (answer_ok "" (some (record (row 3) { status = 2 })))

abbrev pages : ℕ → String → Reply (List Token)
pages start order = resolved (answer_ok "" (row 10 ∷ row 11 ∷ []))

abbrev place : Place
place = record {
  server_address = some none;
  chat_link = some "https://chat.example";
  origin = "https://nova.example";
  encode = λ s. s;
}

on_open_link-on_copy_example :
    ((on_open_link place lobechat "abc" full).effects
      ≡ open_window (on_copy place (λ u. false) lobechat "abc" full).search_keyword ∷ [])
    × ((on_copy place (λ u. false) lobechat "abc" full).items ≡ full.items)
on_open_link-on_copy_example = on_open_link-on_copy place lobechat "abc" full (λ e. cc)
