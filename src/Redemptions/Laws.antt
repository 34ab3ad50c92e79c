-- ===== src/Redemptions/Laws.antt =====
-- The table of redemption codes: what its handlers leave.
use lite_nova.Prelude.{ℕ, ◌≡◌, refl, ap, true, false, String, List, Option, some, get_elem?}
use lite_nova.Effects.{success, Reply, resolved, done, ◌>>=◌}
use lite_nova.Paging.{page_slice}
use lite_nova.Listing.{Listing, set_rows, set_active_page, set_loading, rows_at, show}
use lite_nova.Listing.Laws.{RowChanged, with_row, set_row-page, with_row-RowChanged, rows_at-fresh}
use lite_nova.Channels.Rows.{answer_ok}
use lite_nova.Redemptions.{
  Redemption, place_redemptions, load_redemptions, Action, delete, Request, manage_request,
  mark_deleted, set_status, apply_action, manage_redemption, refresh, search_redemptions,
}

-- What an action that succeeds does to the object of its row.
abbrev pub change_of : Action → Redemption → Redemption → Redemption
change_of delete sent x = mark_deleted x
change_of action sent x = set_status sent.status x

abbrev toast_ok : Listing Redemption → Listing Redemption
toast_ok s = show (success "token.messages.operation_success") s

apply_action-eq-done :
    (seen : Listing Redemption) (action : Action) (idx : ℕ) (sent : Redemption)
    (s : Listing Redemption) {r : ℕ}
    → get_elem? (page_slice seen.active_page seen.items) idx ≡ some r
    → apply_action seen action idx (some sent) s
      ≡ done (with_row seen.items r (change_of action sent) s)
unfolding apply_action
apply_action-eq-done seen delete idx sent s e =
    set_row-page seen.items seen.active_page idx (change_of delete sent) s e
apply_action-eq-done seen action idx sent s e =
    set_row-page seen.items seen.active_page idx (change_of action sent) s e

module _ (seen : Listing Redemption) (api : Request → Reply (Option Redemption)) where
  -- A successful action changes the object of the row that was shown at `idx`, in the way of the
  -- action, leaves every other object alone, and ends with the array that was shown.
  pub manage_redemption-row :
      (id : ℕ) (action : Action) (idx : ℕ) (s : Listing Redemption) {message : String}
      {sent : Redemption} {r : ℕ}
      → api (manage_request id action) ≡ resolved (answer_ok message (some sent))
      → get_elem? (page_slice seen.active_page seen.items) idx ≡ some r
      → (t : Listing Redemption) × (manage_redemption seen api id action idx s ≡ done t)
        × RowChanged r (change_of action sent) s t
        × (t.items ≡ seen.items)
        × (t.active_page ≡ s.active_page)
  unfolding manage_redemption
  manage_redemption-row id action idx s {sent} {r} a p = (
    with_row seen.items r (change_of action sent) (toast_ok s),
    rw (a, manage_redemption) (apply_action-eq-done seen action idx sent (toast_ok s) p),
    record {
      changed = (with_row-RowChanged seen.items r (change_of action sent) s).changed;
      others = (with_row-RowChanged seen.items r (change_of action sent) s).others;
    },
    refl,
    refl,
  )

module _ (mine : List ℕ) (api : ℕ → Reply (List Redemption)) where
  load_redemptions-first :
      (s : Listing Redemption) {message : String} {rows : List Redemption}
      → api 0 ≡ resolved (answer_ok message rows)
      → load_redemptions mine api 0 s ≡ done (set_loading false (set_rows rows s))
  unfolding load_redemptions place_redemptions
  load_redemptions-first s e = rw (e, load_redemptions)

  -- A refresh and a blank search both end on page one of exactly the rows of the first reply,
  -- whatever was loaded or sorted before, and the refresh ends the loading.
  pub refresh-search_redemptions :
      (query : String → Reply (List Redemption)) (seen s : Listing Redemption) {message : String}
      {rows : List Redemption}
      → seen.search_keyword ≡ ""
      → api 0 ≡ resolved (answer_ok message rows)
      → (t : Listing Redemption) × (refresh mine api s ≡ done t)
        × (search_redemptions seen mine api query s ≡ done t)
        × (rows_at t.heap t.items ≡ rows)
        × (t.active_page ≡ 1)
        × (t.loading ≡ false)
  unfolding refresh search_redemptions set_rows
  refresh-search_redemptions query seen s {rows} blank e = (
    set_active_page 1 (set_loading false (set_rows rows s)),
    ap (λ o. o >>= λ s'. done (set_active_page 1 s'))
        (load_redemptions-first (set_loading true s) e),
    rw blank (ap (λ o. o >>= λ s'. done (set_active_page 1 s')) (load_redemptions-first s e)),
    rows_at-fresh s.heap rows,
    refl,
    refl,
  )
