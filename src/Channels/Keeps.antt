-- ===== src/Channels/Keeps.antt =====
-- Each handler of the table of channels keeps the invariant of the listing and frees no object.
use lite_nova.Prelude.{
  ℕ, ◌+◌, ◌-◌, ◌≤◌, true, String, List, Option, none, some, map, arith, length, Bool-cases,
  Option-cases, inl, inr, if◌then◌else◌, str_eq, ◌==◌,
}
use lite_nova.Prelude.Int.{ℤ}
use lite_nova.Effects.{success, Reply, rejected, resolved, Answer, Outcome, done, after, ◌>>=◌}
use lite_nova.Effects.Laws.{Reply-cases}
use lite_nova.Paging.{page_count, real_idx}
use lite_nova.Sorting.Columns.{Js}
use lite_nova.Listing.{Listing, set_row, set_loading, set_active_page, complain, show}
use lite_nova.Listing.Valid.{IsSeen, IsValid, Keeps}
use lite_nova.Listing.Keeps.{
  place_rows-Keeps, set_rows-Keeps, set_row-Keeps, IsSeen-Keeps, Keeps-refl, Keeps-trans,
  bind-Keeps, catch_error-Keeps,
}
use lite_nova.Channels.{
  ChannelData, Channel, process_channel_data, load_channels, on_pagination_change, refresh, mount,
  search_channels,
}
use lite_nova.Channels.Rows.{toast_ok}
use lite_nova.Channels.Manage.{
  Action, delete, Request, apply_action, manage_request, manage_channel, switch_test_model, tested,
  test_channel, test_channels, delete_all_disabled_channels, update_channel_balance,
}

module _ (seen : Listing Channel) where
  load_channels-Keeps :
      (api : ℕ → Reply (List ChannelData)) (start : ℕ) (s : Listing Channel)
      → IsSeen seen.items s
      → IsValid s
      → Keeps s (after (load_channels seen api start s))
  unfolding load_channels
  load_channels-Keeps api start s h v = elim (Reply-cases (api start)) [
    | inl (e, q) ↦ rw (q, load_channels) (Keeps-refl s v)
    | inr (a, q) ↦ elim (Bool-cases a.success) [
      | inl b ↦
          rw (q, load_channels, b)
            (place_rows-Keeps seen.items start (map process_channel_data a.payload) s h v)
      | inr b ↦ rw (q, load_channels, b) (Keeps-refl s v)
    ]
  ]

  row-Keeps :
      (idx : ℕ) (f : Channel → Channel) (s : Listing Channel)
      → IsSeen seen.items s
      → IsValid s
      → Keeps s (after (set_row seen.items (real_idx seen.active_page idx) f s))
  row-Keeps idx f s h v = set_row-Keeps seen.items (real_idx seen.active_page idx) f s h v

  apply_action-Keeps :
      (action : Action) (idx : ℕ) (sent : Option ChannelData) (s : Listing Channel)
      → IsSeen seen.items s
      → IsValid s
      → Keeps s (after (apply_action seen action idx sent s))
  unfolding apply_action
  apply_action-Keeps delete idx sent s h v = row-Keeps idx _ s h v
  apply_action-Keeps action idx none s h v = Keeps-refl s v
  apply_action-Keeps action idx (some c) s h v = row-Keeps idx _ s h v

  module _ (s : Listing Channel) (h : IsSeen seen.items s) (v : IsValid s) where
    pub mount-Keeps : (api : ℕ → Reply (List ChannelData)) → Keeps s (after (mount seen api s))
    unfolding mount
    mount-Keeps api =
        catch_error-Keeps s (load_channels seen api 0 s) (load_channels-Keeps api 0 s h v)

    pub refresh-Keeps : (api : ℕ → Reply (List ChannelData)) → Keeps s (after (refresh seen api s))
    unfolding refresh
    refresh-Keeps api = load_channels-Keeps api (seen.active_page - 1) (set_loading true s) h v

    pub on_pagination_change-Keeps :
        (page : ℕ)
        → 1 ≤ page
        → (api : ℕ → Reply (List ChannelData))
        → Keeps s (after (on_pagination_change seen api page s))
    unfolding on_pagination_change
    on_pagination_change-Keeps page p api =
        bind-Keeps s
          (if page == (page_count (length seen.items) + 1)
            then load_channels seen api (page - 1) s
            else done s)
          (λ t. done (set_active_page page t)) loaded (λ t k. ((k.0.0, p), k.1))
      where
        loaded : Keeps s (
            after (
              if page == (page_count (length seen.items) + 1)
              then load_channels seen api (page - 1) s
              else done s))
        loaded = elim (Bool-cases (page == (page_count (length seen.items) + 1))) [
          | inl e ↦ rw e (load_channels-Keeps api (page - 1) s h v)
          | inr e ↦ rw e (Keeps-refl s v)
        ]

    pub search_channels-Keeps :
        (api : ℕ → Reply (List ChannelData)) (search : String → Reply (List ChannelData))
        → Keeps s (after (search_channels seen api search s))
    unfolding search_channels
    search_channels-Keeps api search = elim (Bool-cases (str_eq seen.search_keyword "")) [
      | inl e ↦ rw e (
          bind-Keeps s (load_channels seen api 0 s) (λ t. done (set_active_page 1 t))
            (load_channels-Keeps api 0 s h v) (λ t k. ((k.0.0, omega arith), k.1)))
      | inr e ↦ elim (Reply-cases (search seen.search_keyword)) [
        | inl (failure, q) ↦ rw (e, q, search_channels) (Keeps-refl s v)
        | inr (a, q) ↦ elim (Bool-cases a.success) [
          | inl b ↦
              let k = set_rows-Keeps (map process_channel_data a.payload) s v in
              rw (e, q, search_channels, b) ((k.0.0, omega arith), k.1)
          | inr b ↦ rw (e, q, search_channels, b) (Keeps-refl s v)
        ]
      ]
    ]

    pub manage_channel-Keeps :
        (js : Js) (api : Request → Reply (Option ChannelData)) (id : ℕ) (action : Action) (idx : ℕ)
        → Keeps s (after (manage_channel js seen api id action idx s))
    unfolding manage_channel
    manage_channel-Keeps js api id action idx = elim (Option-cases (manage_request js id action)) [
      | inl e ↦ rw (e, manage_channel) (Keeps-refl s v)
      | inr (request, e) ↦ elim (Reply-cases (api request)) [
        | inl (failure, q) ↦ rw (e, manage_channel, q, manage_channel) (Keeps-refl s v)
        | inr (a, q) ↦ elim (Bool-cases a.success) [
          | inl b ↦
              rw (e, manage_channel, q, manage_channel, b)
                (apply_action-Keeps action idx a.payload (toast_ok s) h v)
          | inr b ↦ rw (e, manage_channel, q, manage_channel, b) (Keeps-refl s v)
        ]
      ]
    ]

    pub switch_test_model-Keeps :
        (idx : ℕ) (model : String) → Keeps s (after (switch_test_model seen idx model s))
    unfolding switch_test_model
    switch_test_model-Keeps idx model = row-Keeps idx _ s h v

    pub test_channel-Keeps :
        (api : ℕ → Reply ℕ) (id idx now now' : ℕ)
        → Keeps s (after (test_channel seen api id idx now now' s))
    unfolding test_channel
    test_channel-Keeps api id idx now now' = elim (Reply-cases (api id)) [
      | inl (failure, q) ↦ rw (q, test_channel) (Keeps-refl s v)
      | inr (a, q) ↦
          rw (q, test_channel)
            (bind-Keeps s (first a)
              (set_row seen.items (real_idx seen.active_page idx) (tested a.payload now'))
              (first-Keeps a)
              (λ t k.
                Keeps-trans s t
                  (after
                    (set_row seen.items (real_idx seen.active_page idx) (tested a.payload now') t))
                  k
                  (row-Keeps idx (tested a.payload now') t (IsSeen-Keeps seen.items s t h k) k.0)))
    ]
      where
        first : Answer ℕ → Outcome (Listing Channel)
        first a =
            if a.success
            then (set_row seen.items (real_idx seen.active_page idx) (tested a.payload now) s
                >>= λ s'. done (show (success "channel.messages.test_success") s'))
            else done (complain a.message s)

        first-Keeps : (a : Answer ℕ) → Keeps s (after (first a))
        first-Keeps a = elim (Bool-cases a.success) [
          | inl b ↦
              rw (b, first)
                (bind-Keeps s
                  (set_row seen.items (real_idx seen.active_page idx) (tested a.payload now) s)
                  (λ s'. done (show (success "channel.messages.test_success") s'))
                  (row-Keeps idx (tested a.payload now) s h v) (λ t k. k))
          | inr b ↦ rw (b, first) (Keeps-refl s v)
        ]

    pub test_channels-Keeps :
        (api : String → Reply (Unit {0})) (scope : String)
        → Keeps s (after (test_channels api scope s))
    unfolding test_channels
    test_channels-Keeps api scope = elim (Reply-cases (api scope)) [
      | inl (failure, q) ↦ rw (q, test_channels) (Keeps-refl s v)
      | inr (a, q) ↦ elim (Bool-cases a.success) [
        | inl b ↦ rw (q, test_channels, b) (Keeps-refl s v)
        | inr b ↦ rw (q, test_channels, b) (Keeps-refl s v)
      ]
    ]

    pub delete_all_disabled_channels-Keeps :
        (reply : Reply ℕ) (api : ℕ → Reply (List ChannelData))
        → Keeps s (after (delete_all_disabled_channels seen reply api s))
    unfolding delete_all_disabled_channels
    delete_all_disabled_channels-Keeps (rejected e) api = Keeps-refl s v
    delete_all_disabled_channels-Keeps (resolved a) api = elim (Bool-cases a.success) [
      | inl b ↦ rw b (refreshed api)
      | inr b ↦ rw b (Keeps-refl s v)
    ]
      where
        refreshed :
            (api : ℕ → Reply (List ChannelData))
            → Keeps s (
                after
                  (refresh seen api (show (success "channel.messages.delete_disabled_success") s)))
        refreshed api =
            unfold refresh in
            load_channels-Keeps api (seen.active_page - 1)
              (set_loading true (show (success "channel.messages.delete_disabled_success") s)) h v

    pub update_channel_balance-Keeps :
        (api : ℕ → Reply ℤ) (id idx now : ℕ)
        → Keeps s (after (update_channel_balance seen api id idx now s))
    unfolding update_channel_balance
    update_channel_balance-Keeps api id idx now = elim (Reply-cases (api id)) [
      | inl (failure, q) ↦ rw (q, update_channel_balance) (Keeps-refl s v)
      | inr (a, q) ↦ elim (Bool-cases a.success) [
        | inl b ↦
            rw (q, update_channel_balance, b)
              (bind-Keeps s
                (set_row seen.items (real_idx seen.active_page idx)
                  (λ c. record c { balance = a.payload; balance_updated_time = now }) s)
                (λ s'. done (show (success "channel.messages.balance_update_success") s'))
                (row-Keeps idx (λ c. record c { balance = a.payload; balance_updated_time = now }) s
                  h v)
                (λ t k. k))
        | inr b ↦ rw (q, update_channel_balance, b) (Keeps-refl s v)
      ]
    ]
