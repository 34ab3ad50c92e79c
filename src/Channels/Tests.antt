-- ===== src/Channels/Tests.antt =====
-- Runs of the table of channels on ten rows, and each theorem about it at a concrete input.
use mathlib.Core.List.{Perm}
use mathlib.Core.Logic.{◌↔◌}
use lite_nova.Prelude.{
  ℕ, ◌+◌, ◌≡◌, ◌⊎◌, refl, true, false, not, keep, List, [], ◌∷◌, ◌++◌, Option, none, some, map,
  reverse, arith, str_eq, if◌then◌else◌,
}
use lite_nova.Prelude.Int.{pos, negsuc}
use lite_nova.Prelude.Text.{split_comma}
use lite_nova.Effects.{
  Failure, error_object, Reply, rejected, resolved, done, after, ◌>>=◌, show_error,
}
use lite_nova.Effects.Laws.{ThrowsQuietly, Ends, IsUnanswered, show_error-Throws_iff}
use lite_nova.Paging.{page_count, page_slice}
use lite_nova.Sorting.Columns.{Js}
use lite_nova.Listing.{Listing, refs_from, fresh, rows_at}
use lite_nova.Listing.Laws.{RowChanged}
use lite_nova.Listing.Pages.{without}
use lite_nova.Listing.Valid.{IsValid}
use lite_nova.Channels.{
  ChannelData, Channel, process_channel_data, on_pagination_change, refresh, shown_channels,
  sort_channel, by_id,
}
use lite_nova.Channels.Manage.{
  delete, disable, Request, manage_request, manage_channel, test_channel, ChannelsTable,
}
use lite_nova.Channels.Rows.{answer_ok, change_of, manage_channel-row, manage_channel-refused}
use lite_nova.Channels.Order.{Ascends, StartAlike, sort_channel-Ascends}
use lite_nova.Channels.Pages.{
  on_pagination_change-next, test_channel-drops_loaded, refresh-loading_iff, delete-shown_channels,
}
use lite_nova.Channels.Sessions.{
  refreshes, Session, Reach, start_session, IsSound, render, settle, here, next, handle,
  Reach-IsSound,
}

abbrev js : Js
js = record {
  to_number = λ s. none;
  parse_int = λ s. if str_eq s "-3" then some (negsuc 2) else none;
  number_text = λ z. "";
  trim = λ s. s;
  locale_greater = λ a b. false;
}

abbrev sent : ℕ → ChannelData
sent n = record {
  id = n;
  name = "c";
  group = "vip,default";
  type = 1;
  status = 2;
  response_time = 0;
  test_time = 0;
  balance = pos 0;
  balance_updated_time = 0;
  priority = pos 0;
  models = "gpt-4,qwen-max";
}

abbrev row : ℕ → Channel
row n = record {
  id = n;
  name = "c";
  group = "vip,default";
  type = 1;
  status = 1;
  response_time = 0;
  test_time = 0;
  balance = pos 0;
  balance_updated_time = 0;
  priority = pos 0;
  models = "gpt-4" ∷ "qwen-max" ∷ [];
  test_model = some "gpt-4";
  model_options = none;
  deleted = false;
}

-- A full page of ten channels.
abbrev full : Listing Channel
full = record {
  heap = map row (refs_from 0 10);
  items = refs_from 0 10;
  loading = false;
  active_page = 1;
  search_keyword = "";
  searching = false;
  effects = [];
}

abbrev server : Request → Reply (Option ChannelData)
server request = resolved (answer_ok "" (some (sent 3)))

abbrev pages : ℕ → Reply (List ChannelData)
pages start = resolved (answer_ok "" (sent 10 ∷ sent 11 ∷ []))

abbrev tests : ℕ → Reply ℕ
tests id = resolved (answer_ok "" 2)

abbrev refuses : Request → Reply (Option ChannelData)
refuses request = resolved (record { success = false; message = "no"; payload = none })

processed_models : (process_channel_data (sent 0)).models ≡ "gpt-4" ∷ "qwen-max" ∷ []
unfolding process_channel_data split_comma
processed_models = refl

manage_channel-row_example :
    (t : Listing Channel) × (manage_channel js full server 3 disable 3 full ≡ done t)
    × RowChanged 3 (change_of disable (some (sent 3))) full t
    × (t.items ≡ full.items)
    × (t.active_page ≡ full.active_page)
    × (t.loading ≡ full.loading)
unfolding manage_request page_slice
manage_channel-row_example = manage_channel-row js full server 3 disable 3 full refl tt refl refl

manage_channel-refused_example :
    ((after (manage_channel js full refuses 3 delete 3 full)).heap ≡ full.heap)
    × ((after (manage_channel js full refuses 3 delete 3 full)).items ≡ full.items)
manage_channel-refused_example =
    manage_channel-refused js full refuses 3 delete 3 full (λ request a e r. ground arith)

on_pagination_change-next_example :
    (t : Listing Channel) × (on_pagination_change full pages (page_count 10 + 1) full ≡ done t)
    × (shown_channels t ≡ map process_channel_data (sent 10 ∷ sent 11 ∷ []))
    × (t.items ≡ full.items ++ fresh (map process_channel_data (sent 10 ∷ sent 11 ∷ [])) full)
    × (t.loading ≡ false)
on_pagination_change-next_example = on_pagination_change-next pages full refl (omega arith) refl

test_channel-drops_loaded_example :
    (t : Listing Channel) × ((on_pagination_change full pages (page_count 10 + 1) full
        >>= test_channel full tests 3 3 7 8)
      ≡ done t)
    × (t.items ≡ full.items)
    × (shown_channels t ≡ [])
unfolding page_slice
test_channel-drops_loaded_example =
    test_channel-drops_loaded pages tests 3 3 7 8 full refl refl refl refl

refresh-loading_iff_example :
    ((after (refresh full pages full)).loading ≡ true) ↔ ((e : Failure) × (pages 0 ≡ rejected e))
refresh-loading_iff_example = refresh-loading_iff full pages full

-- A server that sends no channel with its success.
abbrev deletes : Request → Reply (Option ChannelData)
deletes request = resolved (answer_ok "" none)

delete-shown_channels_example :
    (t : Listing Channel) × (manage_channel js full deletes 3 delete 3 full ≡ done t)
    × (shown_channels t
        ≡ keep (λ c. not c.deleted) (rows_at full.heap (without 3 (page_slice 1 full.items))))
unfolding page_slice
delete-shown_channels_example = delete-shown_channels js deletes 3 3 full refl refl

full-IsValid : IsValid full
full-IsValid = omega arith

-- The first render, and the reply to its load.
abbrev first_load : Session
first_load = record start_session { renders = start_session.current ∷ [] }

loaded : Reach js start_session (record first_load {
  current = after (handle js start_session.current (refreshes pages) start_session.current);
})
loaded =
    next (next here (render start_session))
      (settle first_load 0 start_session.current (refreshes pages) refl)

Reach-IsSound_example : IsSound (record first_load {
  current = after (handle js start_session.current (refreshes pages) start_session.current);
})
Reach-IsSound_example = Reach-IsSound loaded

abbrev pair : Listing Channel
pair = record full { heap = row 0 ∷ row 1 ∷ []; items = 0 ∷ 1 ∷ [] }

abbrev table : ChannelsTable
table = record {
  listing = full;
  updating_balance = false;
  show_prompt = true;
  show_detail = false;
  stored_show_detail = none;
  stored_prompt = none;
}

show_error-Throws_iff_example :
    let e = error_object "AxiosError" "Network Error" none in
    (ThrowsQuietly [] (show_error e []) × IsUnanswered e)
    ⊎ (Ends [] (show_error e []) × (¬ IsUnanswered e))
show_error-Throws_iff_example =
    show_error-Throws_iff (error_object "AxiosError" "Network Error" none) []

sort_channel-Ascends_example :
    let u = (sort_channel js by_id full full).items in
    Perm u full.items
    × ((Ascends (λ c. pos c.id) full.heap u × (¬ StartAlike full.heap u full.items))
        ⊎ (Ascends (λ c. pos c.id) full.heap (reverse u)
            × StartAlike full.heap (reverse u) full.items))
    × ((sort_channel js by_id full full).heap ≡ full.heap)
    × ((sort_channel js by_id full full).active_page ≡ full.active_page)
sort_channel-Ascends_example = sort_channel-Ascends js by_id tt full full (λ e. cc)
