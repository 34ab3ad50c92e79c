-- ===== src/Users/Laws.antt =====
-- The table of users: what its handlers leave, and what its page shows then.
use lite_nova.Prelude.{
  ℕ, zero, suc, ◌+◌, ◌-◌, ◌/◌, ◌≤◌, ◌%◌, ◌≡◌, ◌≢◌, refl, ap, ◌∙◌, true, false, String, List, [],
  ◌∷◌, ◌++◌, Option, some, arith, length, get_elem?, All, ◌==◌, ==_iff,
}
use lite_nova.Effects.{success, Reply, resolved, done, ◌>>=◌}
use lite_nova.Paging.{page_count, page_slice}
use lite_nova.Listing.{Listing, push_rows, set_active_page, set_loading, fresh, show}
use lite_nova.Listing.Laws.{RowChanged, with_row, set_row-page, with_row-RowChanged}
use lite_nova.Listing.Pages.{page_rows-push_rows, suc-eq-zero}
use lite_nova.Channels.Rows.{answer_ok}
use lite_nova.Users.{
  User, UsersTable, place_users, load_users, on_pagination_change, Action, delete, Request,
  mark_deleted, set_status, apply_action, manage_user, shown_users,
}

-- What an action that succeeds does to the object of its row.
abbrev pub change_of : Action → User → User → User
change_of delete sent x = mark_deleted x
change_of action sent x = set_status sent x

abbrev toast_ok : Listing User → Listing User
toast_ok s = show (success "user.messages.operation_success") s

apply_action-eq-done :
    (seen : Listing User) (action : Action) (idx : ℕ) (sent : User) (s : Listing User) {r : ℕ}
    → get_elem? (page_slice seen.active_page seen.items) idx ≡ some r
    → apply_action seen action idx (some sent) s
      ≡ done (with_row seen.items r (change_of action sent) s)
unfolding apply_action
apply_action-eq-done seen delete idx sent s e =
    set_row-page seen.items seen.active_page idx (change_of delete sent) s e
apply_action-eq-done seen action idx sent s e =
    set_row-page seen.items seen.active_page idx (change_of action sent) s e

module _ (seen : Listing User) (api : Request → Reply (Option User)) where
  manage_user-eq-done :
      (username : String) (action : Action) (idx : ℕ) (s : Listing User) {message : String}
      {sent : User} {r : ℕ}
      → api (record { username = username; action = action })
        ≡ resolved (answer_ok message (some sent))
      → get_elem? (page_slice seen.active_page seen.items) idx ≡ some r
      → manage_user seen api username action idx s
        ≡ done (with_row seen.items r (change_of action sent) (toast_ok s))
  unfolding manage_user
  manage_user-eq-done username action idx s {sent} a p =
      rw (a, manage_user) (apply_action-eq-done seen action idx sent (toast_ok s) p)

  -- A successful action changes the object of the row that was shown at `idx`: a deletion marks
  -- it, any other takes the status and the role that the server sent. Every other object stays.
  pub manage_user-row :
      (username : String) (action : Action) (idx : ℕ) (s : Listing User) {message : String}
      {sent : User} {r : ℕ}
      → api (record { username = username; action = action })
        ≡ resolved (answer_ok message (some sent))
      → get_elem? (page_slice seen.active_page seen.items) idx ≡ some r
      → (t : Listing User) × (manage_user seen api username action idx s ≡ done t)
        × RowChanged r (change_of action sent) s t
        × (t.items ≡ seen.items)
        × (t.active_page ≡ s.active_page)
  manage_user-row username action idx s {sent} {r} a p = (
    with_row seen.items r (change_of action sent) (toast_ok s),
    manage_user-eq-done username action idx s a p,
    record {
      changed = (with_row-RowChanged seen.items r (change_of action sent) s).changed;
      others = (with_row-RowChanged seen.items r (change_of action sent) s).others;
    },
    refl,
    refl,
  )

load_users-resolved :
    (order_by : String) (mine : List ℕ) (api : ℕ → String → Reply (List User)) (start : ℕ)
    (s : Listing User) {message : String} {rows : List User}
    → api start order_by ≡ resolved (answer_ok message rows)
    → load_users order_by mine api start s
      ≡ done (set_loading false (place_users mine start rows s))
unfolding load_users
load_users-resolved order_by mine api start s e = rw (e, load_users)

place_users-push_rows :
    (start : ℕ) (rows : List User) (s : Listing User)
    → s.items ≢ []
    → page_count (length s.items) ≡ start
    → place_users s.items start rows s ≡ push_rows rows s
unfolding place_users page_count
place_users-push_rows zero rows s some_row e = absurd (some_row (empty s.items e))
  where
    empty : (xs : List ℕ) → (length xs + 9) / 10 ≡ 0 → xs ≡ []
    empty [] e = refl
    empty (x ∷ xs) e = absurd (omega arith)
place_users-push_rows (suc n) rows s some_row e = rw (suc-eq-zero n) refl

-- On an array that has rows and only full pages, going to the page that the pager offers behind
-- them pushes that page onto the array, and it shows exactly the rows that the server sent.
pub on_pagination_change-next_user :
    (api : ℕ → String → Reply (List User)) (s : UsersTable) {message : String} {rows : List User}
    → s.listing.items ≢ []
    → length s.listing.items % 10 ≡ 0
    → length rows ≤ 10
    → All (λ x. x.deleted ≡ false) rows
    → api (page_count (length s.listing.items)) s.order_by ≡ resolved (answer_ok message rows)
    → (t : Listing User) × (on_pagination_change s s.listing.items api
          (page_count (length s.listing.items) + 1)
          s.listing
        ≡ done t)
      × (shown_users t ≡ rows)
      × (t.items ≡ s.listing.items ++ fresh rows s.listing)
unfolding on_pagination_change shown_users push_rows
on_pagination_change-next_user api s {rows} some_row full small alive e =
    let n : ℕ = page_count (length s.listing.items) in
    let here : ((n + 1) == (n + 1)) ≡ true = (==_iff (n + 1) (n + 1)).1 refl in
    let start : n + 1 - 1 ≡ n = omega arith in
    (
      set_active_page (n + 1) (set_loading false (push_rows rows s.listing)),
      rw (here, start)
          (ap (λ o. o >>= λ s'. done (set_active_page (n + 1) s'))
            (load_users-resolved s.order_by s.listing.items api n s.listing e
              ∙ ap (λ t. done (set_loading false t))
                  (place_users-push_rows n rows s.listing some_row refl))),
      page_rows-push_rows (λ x. x.deleted) rows s.listing full small alive,
      refl,
    )
