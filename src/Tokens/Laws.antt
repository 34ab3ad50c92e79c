-- ===== src/Tokens/Laws.antt =====
-- The table of tokens: what its handlers leave, and what its page shows then.
use lite_nova.Prelude.{
  ℕ, ◌+◌, ◌-◌, ◌≤◌, ◌%◌, ◌≡◌, refl, ap, sym, ◌∙◌, true, false, not, keep, String, List, ◌++◌,
  Option, some, arith, length, get_elem?, All, ◌==◌, ==_iff,
}
use lite_nova.Effects.{success, Reply, resolved, done, ◌>>=◌}
use lite_nova.Paging.{page_count, page_slice}
use lite_nova.Paging.Laws.{page_count-mul}
use lite_nova.Listing.{
  Listing, place_rows, push_rows, set_rows, set_active_page, set_loading, fresh, rows_at, show,
}
use lite_nova.Listing.Laws.{RowChanged, with_row, set_row-page, with_row-RowChanged, rows_at-fresh}
use lite_nova.Listing.Pages.{place_rows-next, page_rows-push_rows, without, keep-rows_at-modify}
use lite_nova.Channels.Rows.{answer_ok}
use lite_nova.Tokens.{
  Token, TokensTable, load_tokens, on_pagination_change, Action, delete, Request, delete_token,
  manage_request, mark_deleted, set_status, apply_action, manage_token, search_tokens, shown_tokens,
}

-- What an action that succeeds does to the object of its row.
abbrev pub change_of : Action → Token → Token → Token
change_of delete sent x = mark_deleted x
change_of action sent x = set_status sent.status x

abbrev toast_ok : Listing Token → Listing Token
toast_ok s = show (success "token.messages.operation_success") s

apply_action-eq-done :
    (seen : Listing Token) (action : Action) (idx : ℕ) (sent : Token) (s : Listing Token) {r : ℕ}
    → get_elem? (page_slice seen.active_page seen.items) idx ≡ some r
    → apply_action seen action idx (some sent) s
      ≡ done (with_row seen.items r (change_of action sent) s)
unfolding apply_action
apply_action-eq-done seen delete idx sent s e =
    set_row-page seen.items seen.active_page idx (change_of delete sent) s e
apply_action-eq-done seen action idx sent s e =
    set_row-page seen.items seen.active_page idx (change_of action sent) s e

module _ (seen : Listing Token) (api : Request → Reply (Option Token)) where
  manage_token-eq-done :
      (id : ℕ) (action : Action) (idx : ℕ) (s : Listing Token) {message : String} {sent : Token}
      {r : ℕ}
      → api (manage_request id action) ≡ resolved (answer_ok message (some sent))
      → get_elem? (page_slice seen.active_page seen.items) idx ≡ some r
      → manage_token seen api id action idx s
        ≡ done (with_row seen.items r (change_of action sent) (toast_ok s))
  unfolding manage_token
  manage_token-eq-done id action idx s {sent} a p =
      rw (a, manage_token) (apply_action-eq-done seen action idx sent (toast_ok s) p)

  -- A successful action changes the object of the row that was shown at `idx`, in the way of the
  -- action, leaves every other object alone, and ends with the array that was shown.
  pub manage_token-row :
      (id : ℕ) (action : Action) (idx : ℕ) (s : Listing Token) {message : String} {sent : Token}
      {r : ℕ}
      → api (manage_request id action) ≡ resolved (answer_ok message (some sent))
      → get_elem? (page_slice seen.active_page seen.items) idx ≡ some r
      → (t : Listing Token) × (manage_token seen api id action idx s ≡ done t)
        × RowChanged r (change_of action sent) s t
        × (t.items ≡ seen.items)
        × (t.active_page ≡ s.active_page)
  manage_token-row id action idx s {sent} {r} a p = (
    with_row seen.items r (change_of action sent) (toast_ok s),
    manage_token-eq-done id action idx s a p,
    record {
      changed = (with_row-RowChanged seen.items r (change_of action sent) s).changed;
      others = (with_row-RowChanged seen.items r (change_of action sent) s).others;
    },
    refl,
    refl,
  )

load_tokens-resolved :
    (seen : TokensTable) (api : ℕ → String → Reply (List Token)) (start : ℕ) (s : Listing Token)
    {message : String} {rows : List Token}
    → api start seen.order_by ≡ resolved (answer_ok message rows)
    → load_tokens seen api start s
      ≡ done (set_loading false (place_rows seen.listing.items start rows s))
unfolding load_tokens
load_tokens-resolved seen api start s e = rw (e, load_tokens)

-- Where every page is full, going to the page that the pager offers behind them loads it in the
-- order that is chosen, and it then shows exactly the rows that the server sent for it.
pub on_pagination_change-next_token :
    (api : ℕ → String → Reply (List Token)) (s : TokensTable) {message : String} {rows : List Token}
    → length s.listing.items % 10 ≡ 0
    → length rows ≤ 10
    → All (λ x. x.deleted ≡ false) rows
    → api (page_count (length s.listing.items)) s.order_by ≡ resolved (answer_ok message rows)
    → (t : Listing Token) × (on_pagination_change s api
          (page_count (length s.listing.items) + 1)
          s.listing
        ≡ done t)
      × (shown_tokens t ≡ rows)
      × (t.items ≡ s.listing.items ++ fresh rows s.listing)
unfolding on_pagination_change shown_tokens push_rows
on_pagination_change-next_token api s {rows} full small alive e =
    let n : ℕ = page_count (length s.listing.items) in
    let here : ((n + 1) == (n + 1)) ≡ true = (==_iff (n + 1) (n + 1)).1 refl in
    let start : n + 1 - 1 ≡ n = omega arith in
    (
      set_active_page (n + 1) (set_loading false (push_rows rows s.listing)),
      rw (here, start)
          (ap (λ o. o >>= λ s'. done (set_active_page (n + 1) s'))
            (load_tokens-resolved s api n s.listing e
              ∙ ap (λ t. done (set_loading false t))
                  (place_rows-next n rows s.listing
                    (sym (page_count-mul (length s.listing.items) full))))),
      page_rows-push_rows (λ x. x.deleted) rows s.listing full small alive,
      refl,
    )

-- A blank search loads the first page, in the order that was chosen until then, shows page one of
-- just these rows, and takes the choice of the order back.
pub search_tokens-blank :
    (api : ℕ → String → Reply (List Token)) (query : String → Reply (List Token))
    (seen s : TokensTable) {message : String} {rows : List Token}
    → seen.listing.search_keyword ≡ ""
    → api 0 seen.order_by ≡ resolved (answer_ok message rows)
    → (t : TokensTable) × (search_tokens seen api query s ≡ done t)
      × (rows_at t.listing.heap t.listing.items ≡ rows)
      × (t.listing.active_page ≡ 1)
      × (t.order_by ≡ "")
unfolding search_tokens place_rows set_rows load_tokens
search_tokens-blank api query seen s {rows} blank e = (
  record {
    listing = set_active_page 1 (set_loading false (set_rows rows s.listing));
    order_by = "";
  },
  rw (blank, load_tokens-resolved seen api 0 s.listing e),
  rows_at-fresh s.listing.heap rows,
  refl,
  refl,
)

-- A deletion that succeeds takes the row that was clicked off the page, and no other row.
pub delete-shown_tokens :
    (api : Request → Reply (Option Token)) (id idx : ℕ) (s : Listing Token) {message : String}
    {sent : Token} {r : ℕ}
    → api (delete_token id) ≡ resolved (answer_ok message (some sent))
    → get_elem? (page_slice s.active_page s.items) idx ≡ some r
    → (t : Listing Token) × (manage_token s api id delete idx s ≡ done t)
      × (shown_tokens t
          ≡ keep
              (λ x. not x.deleted)
              (rows_at s.heap (without r (page_slice s.active_page s.items))))
unfolding shown_tokens manage_request
delete-shown_tokens api id idx s {r} a p = (
  with_row s.items r mark_deleted (toast_ok s),
  manage_token-eq-done s api id delete idx s a p,
  keep-rows_at-modify (λ x. x.deleted) mark_deleted (λ x. refl) s.heap r
      (page_slice s.active_page s.items),
)
