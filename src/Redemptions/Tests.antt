-- ===== src/Redemptions/Tests.antt =====
-- Each theorem about the table of redemption codes on a full page of ten rows.
use lite_nova.Prelude.{ℕ, ◌≡◌, refl, false, List, [], ◌∷◌, Option, some, map}
use lite_nova.Prelude.Int.{pos}
use lite_nova.Effects.{Reply, Failure, rejected, resolved, done}
use lite_nova.Listing.{Listing, refs_from, rows_at}
use lite_nova.Channels.Rows.{answer_ok}
use lite_nova.Redemptions.{Redemption, Request, refresh, search_redemptions}
use lite_nova.Redemptions.Laws.{refresh-search_redemptions}

abbrev row : ℕ → Redemption
row n = record {
  id = n;
  name = "r";
  key = "abc";
  status = 1;
  quota = pos 100;
  created_time = 0;
  redeemed_time = 0;
  deleted = false;
}

abbrev full : Listing Redemption
full = record {
  heap = map row (refs_from 0 10);
  items = refs_from 0 10;
  loading = false;
  active_page = 1;
  search_keyword = "";
  searching = false;
  effects = [];
}

abbrev server : Request → Reply (Option Redemption)
server request = resolved (answer_ok "" (some (record (row 3) { status = 2 })))

abbrev pages : ℕ → Reply (List Redemption)
pages start = resolved (answer_ok "" (row 10 ∷ row 11 ∷ []))

refresh-search_redemptions_example :
    (t : Listing Redemption) × (refresh full.items pages full ≡ done t)
    × (search_redemptions full full.items pages (λ q. rejected (Failure.text "down")) full ≡ done t)
    × (rows_at t.heap t.items ≡ row 10 ∷ row 11 ∷ [])
    × (t.active_page ≡ 1)
    × (t.loading ≡ false)
refresh-search_redemptions_example =
    refresh-search_redemptions full.items pages (λ q. rejected (Failure.text "down")) full full refl
      refl
