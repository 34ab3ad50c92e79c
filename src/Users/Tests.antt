-- ===== src/Users/Tests.antt =====
-- Each theorem about the table of users on a full page of ten rows.
use lite_nova.Prelude.{
  ℕ, ◌+◌, ◌≡◌, refl, false, List, [], ◌∷◌, ◌++◌, Option, some, map, arith, String,
}
use lite_nova.Prelude.Int.{pos}
use lite_nova.Effects.{Reply, resolved, done}
use lite_nova.Paging.{page_count}
use lite_nova.Listing.{Listing, refs_from, fresh}
use lite_nova.Channels.Rows.{answer_ok}
use lite_nova.Users.{User, UsersTable, on_pagination_change, Request, shown_users}
use lite_nova.Users.Laws.{on_pagination_change-next_user}

abbrev row : ℕ → User
row n = record {
  id = n;
  username = "u";
  group = "default";
  quota = pos 0;
  role = 1;
  status = 1;
  deleted = false;
}

abbrev full : Listing User
full = record {
  heap = map row (refs_from 0 10);
  items = refs_from 0 10;
  loading = false;
  active_page = 1;
  search_keyword = "";
  searching = false;
  effects = [];
}

abbrev table : UsersTable
table = record { listing = full; order_by = "quota" }

abbrev server : Request → Reply (Option User)
server request = resolved (answer_ok "" (some (record (row 3) { role = 10 })))

abbrev pages : ℕ → String → Reply (List User)
pages start order = resolved (answer_ok "" (row 10 ∷ row 11 ∷ []))

on_pagination_change-next_user_example :
    (t : Listing User) × (on_pagination_change table full.items pages (page_count 10 + 1) full
      ≡ done t)
    × (shown_users t ≡ row 10 ∷ row 11 ∷ [])
    × (t.items ≡ full.items ++ fresh (row 10 ∷ row 11 ∷ []) full)
on_pagination_change-next_user_example =
    on_pagination_change-next_user pages table (λ e. cc) refl (omega arith) (refl, (refl, tt)) refl
