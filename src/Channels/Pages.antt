-- ===== src/Channels/Pages.antt =====
-- Loading, paging and refreshing the table of channels: what is shown when the reply is in, and
-- what a reply that comes late does to rows that were loaded in the meantime.
use lite_nova.Prelude.{
  ℕ, ◌+◌, ◌-◌, ◌≤◌, ◌%◌, ◌≡◌, ◌↔◌, refl, ap, sym, ◌∙◌, true, false, not, keep, String, List, [],
  ◌∷◌, ◌++◌, Option, some, map, arith, length, get_elem?, All, length-map, ◌==◌, ==_iff,
  if◌then◌else◌, inl, inr,
}
use lite_nova.Effects.{Reply, rejected, resolved, Answer, done, threw, after, ◌>>=◌, Failure}
use lite_nova.Effects.Laws.{Reply-cases}
use lite_nova.Paging.{page_count, page_slice}
use lite_nova.Paging.Laws.{page_count-mul}
use lite_nova.Listing.{
  Listing, place_rows, push_rows, set_active_page, set_loading, fresh, rows_at, complain,
}
use lite_nova.Listing.Laws.{with_row}
use lite_nova.Listing.Pages.{
  place_rows-next, page_rows-push_rows, page_rows-behind, without, keep-rows_at-modify,
}
use lite_nova.Channels.{
  ChannelData, Channel, process_channel_data, load_channels, on_pagination_change, refresh,
  shown_channels,
}
use mathlib.Core.Bool.{false≢true}
use lite_nova.Sorting.Columns.{Js}
use lite_nova.Channels.Manage.{
  test_channel, Request, delete_channel, delete, manage_channel, manage_request, mark_deleted,
}
use lite_nova.Channels.Rows.{answer_ok, toast_ok, test_channel-row, manage_channel-eq-done}

processed_alive :
    (rows : List ChannelData) → All (λ c. c.deleted ≡ false) (map process_channel_data rows)
unfolding process_channel_data
processed_alive [] = tt
processed_alive (c ∷ rows) = (refl, processed_alive rows)

load_channels-resolved :
    (seen : Listing Channel) (api : ℕ → Reply (List ChannelData)) (start : ℕ) (s : Listing Channel)
    {a : Answer (List ChannelData)}
    → api start ≡ resolved a
    → load_channels seen api start s
      ≡ done (
          set_loading false (
            if a.success
            then place_rows seen.items start (map process_channel_data a.payload) s
            else complain a.message s))
unfolding load_channels
load_channels-resolved seen api start s e = rw (e, load_channels)

load_channels-rejected :
    (seen : Listing Channel) (api : ℕ → Reply (List ChannelData)) (start : ℕ) (s : Listing Channel)
    {failure : Failure}
    → api start ≡ rejected failure
    → load_channels seen api start s ≡ threw failure s
unfolding load_channels
load_channels-rejected seen api start s e = rw (e, load_channels)

-- The state after the page behind the last one was asked for and its rows came.
abbrev with_next_page : List ChannelData → Listing Channel → Listing Channel
with_next_page rows s =
    set_active_page (page_count (length s.items) + 1)
      (set_loading false (push_rows (map process_channel_data rows) s))

on_pagination_change-eq-done :
    (api : ℕ → Reply (List ChannelData)) (s : Listing Channel) {message : String}
    {rows : List ChannelData}
    → length s.items % 10 ≡ 0
    → api (page_count (length s.items)) ≡ resolved (answer_ok message rows)
    → on_pagination_change s api (page_count (length s.items) + 1) s ≡ done (with_next_page rows s)
unfolding on_pagination_change
on_pagination_change-eq-done api s {rows} full e =
    let n : ℕ = page_count (length s.items) in
    let here : ((n + 1) == (n + 1)) ≡ true = (==_iff (n + 1) (n + 1)).1 refl in
    let start : n + 1 - 1 ≡ n = omega arith in
    let rows' : List Channel = map process_channel_data rows in
    rw (here, start)
      (ap (λ o. o >>= λ s'. done (set_active_page (n + 1) s'))
        (load_channels-resolved s api n s e
          ∙ ap (λ t. done (set_loading false t))
              (place_rows-next n rows' s (sym (page_count-mul (length s.items) full)))))

-- Where every page is full, going to the page that the pager offers behind them loads it, and it
-- then shows exactly the rows that the server sent for it, in order.
pub on_pagination_change-next :
    (api : ℕ → Reply (List ChannelData)) (s : Listing Channel) {message : String}
    {rows : List ChannelData}
    → length s.items % 10 ≡ 0
    → length rows ≤ 10
    → api (page_count (length s.items)) ≡ resolved (answer_ok message rows)
    → (t : Listing Channel) × (on_pagination_change s api (page_count (length s.items) + 1) s
        ≡ done t)
      × (shown_channels t ≡ map process_channel_data rows)
      × (t.items ≡ s.items ++ fresh (map process_channel_data rows) s)
      × (t.loading ≡ false)
unfolding shown_channels push_rows
on_pagination_change-next api s {rows} full small e = (
  with_next_page rows s,
  on_pagination_change-eq-done api s full e,
  page_rows-push_rows (λ c. c.deleted) (map process_channel_data rows) s full
      (omega (arith, length-map process_channel_data rows)) (processed_alive rows),
  refl,
  refl,
)

-- A row is tested on a full last page, and the user goes on to the next page before the reply is
-- in. The reply puts the array of the earlier render back: the rows that were loaded are gone, and
-- the page shows none.
pub test_channel-drops_loaded :
    (api : ℕ → Reply (List ChannelData)) (test : ℕ → Reply ℕ) (id idx now now' : ℕ)
    (s : Listing Channel) {message message' : String} {rows : List ChannelData} {time r : ℕ}
    → length s.items % 10 ≡ 0
    → api (page_count (length s.items)) ≡ resolved (answer_ok message rows)
    → test id ≡ resolved (answer_ok message' time)
    → get_elem? (page_slice s.active_page s.items) idx ≡ some r
    → (t : Listing Channel) × ((on_pagination_change s api (page_count (length s.items) + 1) s
          >>= test_channel s test id idx now now')
        ≡ done t)
      × (t.items ≡ s.items)
      × (shown_channels t ≡ [])
unfolding shown_channels
test_channel-drops_loaded api test id idx now now' s {rows} full e a p =
    let s' = with_next_page rows s in
    let (t, settled, _, same, page) = test_channel-row s test id idx now now' s' a p in
    (
      t,
      ap (λ o. o >>= test_channel s test id idx now now')
            (on_pagination_change-eq-done api s full e)
          ∙ settled,
      same,
      page_rows-behind (λ c. c.deleted) t (ap (λ l. length l % 10) same ∙ full)
          (page ∙ ap (λ l. page_count (length l) + 1) (sym same)),
    )

-- A refresh leaves the spinner on exactly when the request was rejected.
pub refresh-loading_iff :
    (seen : Listing Channel) (api : ℕ → Reply (List ChannelData)) (s : Listing Channel)
    → ((after (refresh seen api s)).loading ≡ true)
      ↔ ((e : Failure) × (api (seen.active_page - 1) ≡ rejected e))
unfolding refresh
refresh-loading_iff seen api s = elim (Reply-cases (api (seen.active_page - 1))) [
  | inl (e, q) ↦ (
    λ h. (e, q),
    λ h.
        ap (λ o. (after {S = Listing Channel} o).loading)
          (load_channels-rejected seen api (seen.active_page - 1) (set_loading true s) q),
  )
  | inr (a, q) ↦ (
    λ h. absurd (
        false≢true (
          sym (
            ap (λ o. (after {S = Listing Channel} o).loading)
              (load_channels-resolved seen api (seen.active_page - 1) (set_loading true s) q))
          ∙ h)),
    λ h. cc (q, h.1),
  )
]

-- A deletion that succeeds, whatever else the server sends, takes the row that was clicked off the
-- page, and no other row.
pub delete-shown_channels :
    (js : Js) (api : Request → Reply (Option ChannelData)) (id idx : ℕ) (s : Listing Channel)
    {message : String} {sent : Option ChannelData} {r : ℕ}
    → api (delete_channel id) ≡ resolved (answer_ok message sent)
    → get_elem? (page_slice s.active_page s.items) idx ≡ some r
    → (t : Listing Channel) × (manage_channel js s api id delete idx s ≡ done t)
      × (shown_channels t
          ≡ keep
              (λ c. not c.deleted)
              (rows_at s.heap (without r (page_slice s.active_page s.items))))
unfolding shown_channels manage_request
delete-shown_channels js api id idx s {sent} {r} a p = (
  with_row s.items r mark_deleted (toast_ok s),
  manage_channel-eq-done js s api id delete idx s refl tt a p,
  keep-rows_at-modify (λ c. c.deleted) mark_deleted (λ x. refl) s.heap r
      (page_slice s.active_page s.items),
)
