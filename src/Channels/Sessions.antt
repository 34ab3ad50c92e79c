-- ===== src/Channels/Sessions.antt =====
-- The table of channels over time: renders, and the handlers of any earlier render, whose replies
-- come in any order.
use lite_nova.Prelude.{
  ℕ, zero, suc, ◌≤◌, ◌≡◌, true, false, String, List, [], ◌∷◌, Option, some, arith, get_elem?, All,
}
use lite_nova.Prelude.Int.{ℤ}
use lite_nova.Effects.{Reply, Outcome, done, after}
use lite_nova.Sorting.Columns.{Js}
use lite_nova.Listing.{Listing}
use lite_nova.Listing.Valid.{IsSeen, IsValid, Keeps}
use lite_nova.Prelude.{All-map}
use lite_nova.Listing.Keeps.{sort_rows-Keeps, IsSeen-Keeps, Keeps-refl}
use lite_nova.Channels.{
  ChannelData, Channel, Column, on_pagination_change, refresh, mount, search_channels,
  handle_keyword_change, sort_channel, channel_greater,
}
use mathlib.Core.Path.{subst}
use lite_nova.Channels.Keeps.{
  mount-Keeps, refresh-Keeps, on_pagination_change-Keeps, search_channels-Keeps,
  manage_channel-Keeps, switch_test_model-Keeps, test_channel-Keeps, test_channels-Keeps,
  delete_all_disabled_channels-Keeps, update_channel_balance-Keeps,
}
use lite_nova.Channels.Manage.{
  Action, Request, manage_channel, switch_test_model, test_channel, test_channels,
  delete_all_disabled_channels, update_channel_balance,
}

-- A handler with what the user and the server contribute to it.
pub data Event : Type 0 where
  mounts refreshes : (ℕ → Reply (List ChannelData)) → Event
  paginates : (page : ℕ) → 1 ≤ page → (ℕ → Reply (List ChannelData)) → Event
  searches : (ℕ → Reply (List ChannelData)) → (String → Reply (List ChannelData)) → Event
  types : String → Event
  manages : (Request → Reply (Option ChannelData)) → (id : ℕ) → Action → (idx : ℕ) → Event
  switches : (idx : ℕ) → String → Event
  tests : (ℕ → Reply ℕ) → (id idx now now' : ℕ) → Event
  tests_all : (String → Reply (Unit {0})) → String → Event
  deletes_disabled : Reply ℕ → (ℕ → Reply (List ChannelData)) → Event
  updates_balance : (ℕ → Reply ℤ) → (id idx now : ℕ) → Event
  sorts : Column → Event

unfoldable pub handle :
    Js → (seen : Listing Channel) → Event → Listing Channel → Outcome (Listing Channel)
handle js seen (mounts api) s = mount seen api s
handle js seen (refreshes api) s = refresh seen api s
handle js seen (paginates page h api) s = on_pagination_change seen api page s
handle js seen (searches api search) s = search_channels seen api search s
handle js seen (types value) s = done (handle_keyword_change js value s)
handle js seen (manages api id action idx) s = manage_channel js seen api id action idx s
handle js seen (switches idx model) s = switch_test_model seen idx model s
handle js seen (tests api id idx now now') s = test_channel seen api id idx now now' s
handle js seen (tests_all api scope) s = test_channels api scope s
handle js seen (deletes_disabled reply api) s = delete_all_disabled_channels seen reply api s
handle js seen (updates_balance api id idx now) s = update_channel_balance seen api id idx now s
handle js seen (sorts key) s = done (sort_channel js key seen s)

-- Every handler of any earlier render keeps the invariant and frees no object.
pub handle-Keeps :
    (js : Js) (seen : Listing Channel) (event : Event) (s : Listing Channel)
    → IsSeen seen.items s
    → IsValid s
    → Keeps s (after (handle js seen event s))
unfolding handle
handle-Keeps js seen (mounts api) s h v = mount-Keeps seen s h v api
handle-Keeps js seen (refreshes api) s h v = refresh-Keeps seen s h v api
handle-Keeps js seen (paginates page p api) s h v = on_pagination_change-Keeps seen s h v page p api
handle-Keeps js seen (searches api search) s h v = search_channels-Keeps seen s h v api search
handle-Keeps js seen (types value) s h v = unfold handle_keyword_change in Keeps-refl s v
handle-Keeps js seen (manages api id action idx) s h v =
    manage_channel-Keeps seen s h v js api id action idx
handle-Keeps js seen (switches idx model) s h v = switch_test_model-Keeps seen s h v idx model
handle-Keeps js seen (tests api id idx now now') s h v =
    test_channel-Keeps seen s h v api id idx now now'
handle-Keeps js seen (tests_all api scope) s h v = test_channels-Keeps seen s h v api scope
handle-Keeps js seen (deletes_disabled reply api) s h v =
    delete_all_disabled_channels-Keeps seen s h v reply api
handle-Keeps js seen (updates_balance api id idx now) s h v =
    update_channel_balance-Keeps seen s h v api id idx now
handle-Keeps js seen (sorts key) s h v =
    unfold sort_channel in sort_rows-Keeps (λ c. c.id) (channel_greater js key) seen.items s h v

-- The current state of the component, and the renders whose handlers may still run.
pub record Session : Type 0 where
  pub current : Listing Channel
  pub renders : List (Listing Channel)

-- A new render captures the current state; a handler of some render runs on the current state.
pub data Step (js : Js) : Session → Session → Type 0 where
  render : (w : Session) → Step js w (record w { renders = w.current ∷ w.renders })
  settle :
      (w : Session) (k : ℕ) (seen : Listing Channel) (event : Event)
      → get_elem? w.renders k ≡ some seen
      → Step js w (record w { current = after (handle js seen event w.current) })

pub data Reach (js : Js) (w : Session) : Session → Type 0 where
  here : Reach js w w
  next : {v u : Session} → Reach js w v → Step js v u → Reach js w u

-- The state in which the component starts: no row, the first page, loading.
abbrev pub start_session : Session
start_session = record {
  current = record {
    heap = [];
    items = [];
    loading = true;
    active_page = 1;
    search_keyword = "";
    searching = false;
    effects = [];
  };
  renders = [];
}

-- The current rows are sound, and so are those that any earlier render captured.
abbrev pub IsSound : Session → Type 0
IsSound w = IsValid w.current × All (λ seen. IsSeen seen.items w.current) w.renders

All-get_elem? :
    (P : Listing Channel → Type 0) (xs : List (Listing Channel)) (k : ℕ) {x : Listing Channel}
    → All P xs
    → get_elem? xs k ≡ some x
    → P x
All-get_elem? P [] k h e = cc
All-get_elem? P (y ∷ xs) zero {x} h e = let q : y ≡ x = cc in subst P q h.0
All-get_elem? P (y ∷ xs) (suc k) h e = All-get_elem? P xs k h.1 e

pub Step-IsSound : {js : Js} {w u : Session} → Step js w u → IsSound w → IsSound u
Step-IsSound (render w) h = (h.0, (h.0.0, h.1))
Step-IsSound {js} (settle w k seen event e) h =
    let captured : IsSeen seen.items w.current =
      All-get_elem? (λ r. IsSeen r.items w.current) w.renders k h.1 e in
    let kept = handle-Keeps js seen event w.current captured h.0 in
    (
      kept.0,
      All-map
          (λ (r : Listing Channel) (c : IsSeen r.items w.current).
            IsSeen-Keeps r.items w.current (after (handle js seen event w.current)) c kept)
          w.renders h.1,
    )

-- However renders and replies follow on one another, the rows of the table are objects that
-- exist, no row stands in it twice, the page is at least 1, and the same holds of the rows that
-- the handlers still pending have captured.
pub Reach-IsSound : {js : Js} {w : Session} → Reach js start_session w → IsSound w
Reach-IsSound here = (((tt, tt), omega arith), tt)
Reach-IsSound (next r st) = Step-IsSound st (Reach-IsSound r)
