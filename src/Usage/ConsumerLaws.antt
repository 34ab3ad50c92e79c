-- ===== src/Usage/ConsumerLaws.antt =====
-- The ranking of the consumers: what each is charged with, and which are shown.
use lite_nova.Prelude.{
  ℕ, ◌+◌, ◌≡◌, ◌≤◌, ◌∙◌, ap, sym, String, List, [], ◌∷◌, none, some, arith, map, All, All-map,
  All-image, All-take, length, length-take, str_eq, if◌then◌else◌,
}
use lite_nova.Sums.{sum_of}
use lite_nova.Sorting.Laws.{All-sort}
use lite_nova.Grouping.Laws.{lookup, of_key, extend, lookup-group, group-IsMap, IsMap-entries}
use lite_nova.Usage.{Raw}
use lite_nova.Usage.Money.{Rate, cost_cents}
use lite_nova.Usage.Tokens.{reduce}
use lite_nova.Usage.Consumers.{
  ConsumerType, SortDimension, SortOrder, consumer_key, Spent, first_spent, more_spent, spent_map,
  Consumer, consumer_of, set_share, consumer_greater, all_consumers, compute_top_consumers,
}

module _ (number_text : ℕ → String) (type : ConsumerType) where
  -- The rows of a consumer.
  abbrev pub rows_of : String → List Raw → List Raw
  rows_of id rs = of_key (consumer_key number_text type) id rs

  -- The sums over some rows.
  abbrev pub Sums : Spent → List Raw → Type 0
  Sums v rs =
      (v.requests ≡ sum_of (λ r. r.count) rs)
      × (v.tokens ≡ sum_of (λ r. r.token_used) rs)
      × (v.quota ≡ sum_of (λ r. r.quota) rs)

  extend_more :
      (rs : List Raw) (v w : Spent)
      → extend (consumer_key number_text type) (first_spent number_text type) more_spent (some v) rs
        ≡ some w
      → (w.requests ≡ v.requests + sum_of (λ r. r.count) rs)
        × (w.tokens ≡ v.tokens + sum_of (λ r. r.token_used) rs)
        × (w.quota ≡ v.quota + sum_of (λ r. r.quota) rs)
  extend_more [] v w h = ground arith
  extend_more (r ∷ rs) v w h = omega (arith, extend_more rs (more_spent r v) w h)

  extend-Sums :
      (rs : List Raw) (w : Spent)
      → extend (consumer_key number_text type) (first_spent number_text type) more_spent none rs
        ≡ some w
      → Sums w rs
  extend-Sums [] w h = cc
  extend-Sums (r ∷ rs) w h = omega (arith, extend_more rs (first_spent number_text type r) w h)

  spent_map-Sums :
      (rs : List Raw) → All (λ e. Sums e.1 (rows_of e.0 rs)) (spent_map number_text type rs)
  unfolding spent_map
  spent_map-Sums rs =
      All-map
        (λ (e : String × Spent) (found : lookup e.0 (spent_map number_text type rs) ≡ some e.1).
          extend-Sums (rows_of e.0 rs) e.1 (
            sym (
              lookup-group (consumer_key number_text type) (first_spent number_text type) more_spent
                rs e.0 [])
            ∙ found))
        (spent_map number_text type rs)
        (IsMap-entries (spent_map number_text type rs) (group-IsMap _ _ _ rs [] tt))

  -- A consumer that is charged with exactly the rows of its key.
  abbrev pub IsCharged : List Raw → Rate → Consumer → Type 0
  IsCharged rs rate x =
      (x.requests ≡ sum_of (λ r. r.count) (rows_of x.id rs))
      × (x.tokens ≡ sum_of (λ r. r.token_used) (rows_of x.id rs))
      × (x.cost ≡ cost_cents rate (sum_of (λ r. r.quota) (rows_of x.id rs)))

  all_consumers-IsCharged :
      (rs : List Raw) (by : SortDimension) (order : SortOrder) (rate : Rate)
      → All (IsCharged rs rate) (all_consumers number_text rs type by order rate)
  unfolding all_consumers set_share
  all_consumers-IsCharged rs by order rate =
      let entries = spent_map number_text type rs in
      let total = reduce (λ x. x.cost) 0 (map (consumer_of rate type) entries) in
      All-sort (consumer_greater by order) (IsCharged rs rate) _ (
        All-image (IsCharged rs rate) (set_share total) (map (consumer_of rate type) entries) (
          All-image (λ x. IsCharged rs rate (set_share total x)) (consumer_of rate type) entries
            (All-map
              (λ (e : String × Spent) (h : Sums e.1 (rows_of e.0 rs)).
                (h.0, h.1, ap (cost_cents rate) h.2))
              entries (spent_map-Sums rs))))

  -- Each consumer that is shown is charged with the requests, the tokens and the rounded cost of
  -- exactly the rows of its key, and at most `limit` of them are shown.
  pub compute_top_consumers-rows :
      (rs : List Raw) (by : SortDimension) (order : SortOrder) (limit : ℕ) (rate : Rate)
      → All
          (λ x.
            (x.requests ≡ sum_of (λ r. r.count) (rows_of x.id rs))
            × (x.tokens ≡ sum_of (λ r. r.token_used) (rows_of x.id rs))
            × (x.cost ≡ cost_cents rate (sum_of (λ r. r.quota) (rows_of x.id rs))))
          (compute_top_consumers number_text rs type by order limit rate).consumers
        × (length (compute_top_consumers number_text rs type by order limit rate).consumers ≤ limit)
  unfolding compute_top_consumers
  compute_top_consumers-rows rs by order limit rate = (
    All-take (IsCharged rs rate) limit _ (all_consumers-IsCharged rs by order rate),
    omega (arith, length-take limit (all_consumers number_text rs type by order rate)),
  )

  -- How often a key occurs among consumers.
  abbrev pub times_listed : String → List Consumer → ℕ
  times_listed id xs = sum_of (λ (x : Consumer). if str_eq x.id id then 1 else 0) xs
