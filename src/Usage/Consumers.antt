-- ===== src/Usage/Consumers.antt =====
-- `computeTopConsumers`.
use Prim.Native.String.{◌++◌}
use lite_nova.Prelude.{ℕ, ◌+◌, ◌*◌, Bool, String, List, [], map, take, ltb, str_eq, if◌then◌else◌}
use lite_nova.Sorting.{sort}
use lite_nova.Grouping.{group}
use lite_nova.Usage.{Raw}
use lite_nova.Usage.Money.{Rate, round_ratio, cost_cents}
use lite_nova.Usage.Tokens.{reduce}

pub data ConsumerType : Type 0 where
  api_key user project channel group_of_users : ConsumerType

pub data SortDimension : Type 0 where
  by_requests by_tokens by_cost by_latency : SortDimension

pub data SortOrder : Type 0 where
  asc desc : SortOrder

-- `r.username || String(r.user_id)`
abbrev pub user_key : (ℕ → String) → Raw → String
user_key number_text r = if str_eq r.username "" then number_text r.user_id else r.username

abbrev pub user_name : (ℕ → String) → Raw → String
user_name number_text r =
    if str_eq r.username "" then "User #" ++ number_text r.user_id else r.username

-- The `switch` that finds the key and the name of a row.
unfoldable pub consumer_key : (ℕ → String) → ConsumerType → Raw → String
consumer_key number_text channel r = number_text r.channel_id
consumer_key number_text group_of_users r = r.group
consumer_key number_text _ r = user_key number_text r

unfoldable pub consumer_name : (ℕ → String) → ConsumerType → Raw → String
consumer_name number_text channel r = "Channel #" ++ number_text r.channel_id
consumer_name number_text group_of_users r = if str_eq r.group "" then "default" else r.group
consumer_name number_text _ r = user_name number_text r

-- A value of `map`.
pub record Spent : Type 0 where
  pub name : String
  pub requests : ℕ
  pub tokens : ℕ
  pub quota : ℕ

abbrev pub first_spent : (ℕ → String) → ConsumerType → Raw → Spent
first_spent number_text type r = record {
  name = consumer_name number_text type r;
  requests = r.count;
  tokens = r.token_used;
  quota = r.quota;
}

abbrev pub more_spent : Raw → Spent → Spent
more_spent r v = record v {
  requests = v.requests + r.count;
  tokens = v.tokens + r.token_used;
  quota = v.quota + r.quota;
}

-- `map`, after the loop
unfoldable pub spent_map : (ℕ → String) → ConsumerType → List Raw → List (String × Spent)
spent_map number_text type rs =
    group (consumer_key number_text type) (first_spent number_text type) more_spent rs []

-- `ConsumerStats`: the cost in cents, the share in hundredths of a percent.
pub record Consumer : Type 0 where
  pub id : String
  pub name : String
  pub type : ConsumerType
  pub requests : ℕ
  pub tokens : ℕ
  pub cost : ℕ
  pub share : ℕ

abbrev pub consumer_of : Rate → ConsumerType → String × Spent → Consumer
consumer_of rate type e = record {
  id = e.0;
  name = e.1.name;
  type = type;
  requests = e.1.requests;
  tokens = e.1.tokens;
  cost = cost_cents rate e.1.quota;
  share = 0;
}

-- `c.share = …`
unfoldable pub set_share : (total_cost : ℕ) → Consumer → Consumer
set_share total_cost x = record x {
  share = if ltb 0 total_cost then round_ratio (x.cost * 10000) total_cost else 0;
}

-- `sortBy === 'latency' ? a.cost : a[sortBy]`
unfoldable pub sort_value : SortDimension → Consumer → ℕ
sort_value by_requests x = x.requests
sort_value by_tokens x = x.tokens
sort_value by_cost x = x.cost
sort_value by_latency x = x.cost

-- Whether the comparison function is positive.
unfoldable pub consumer_greater : SortDimension → SortOrder → Consumer → Consumer → Bool
unfolding sort_value
consumer_greater by desc a b = ltb (sort_value by a) (sort_value by b)
consumer_greater by asc a b = ltb (sort_value by b) (sort_value by a)

-- The consumers before the cut to `limit`.
unfoldable pub all_consumers :
    (ℕ → String) → List Raw → ConsumerType → SortDimension → SortOrder → Rate → List Consumer
unfolding spent_map set_share reduce consumer_greater
all_consumers number_text rs type by order rate =
    let consumers = map (consumer_of rate type) (spent_map number_text type rs) in
    let total_cost = reduce (λ x. x.cost) 0 consumers in
    sort (consumer_greater by order) (map (set_share total_cost) consumers)

pub record TopConsumers : Type 0 where
  pub consumers : List Consumer
  pub sort_by : SortDimension
  pub sort_order : SortOrder
  pub consumer_type : ConsumerType

-- `computeTopConsumers`
unfoldable pub compute_top_consumers :
    (ℕ → String)
    → List Raw
    → ConsumerType
    → SortDimension
    → SortOrder
    → (limit : ℕ) → Rate
    → TopConsumers
unfolding all_consumers
compute_top_consumers number_text rs type by order limit rate = record {
  consumers = take limit (all_consumers number_text rs type by order rate);
  sort_by = by;
  sort_order = order;
  consumer_type = type;
}
