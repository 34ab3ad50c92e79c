-- ===== src/Usage/Buckets.antt =====
-- The buckets partition the rows: each holds exactly the rows of its key, in their order.
use lite_nova.Prelude.{
  ℕ, ◌≡◌, ◌≢◌, ap, sym, ◌∙◌, Bool, false, String, List, [], ◌∷◌, ◌++◌, none, some, arith, keep, map,
  push, str_eq, All, All-map, append_assoc, append-nil, All-image,
}
use lite_nova.Sums.{sum_of, sum_of-append, sum_of-map, sum_of-sort}
use lite_nova.Sorting.{sort}
use lite_nova.Sorting.Laws.{IsOrder, IsSorted, All-sort, sort-IsSorted}
use lite_nova.Grouping.Laws.{
  lookup, IsMap, extend, lookup-group, group-IsMap, sum_of-group, IsMap-entries, IsApart,
  IsApart-map, IsApart-sort, IsMap-IsApart,
}
use lite_nova.Usage.{
  Raw, TimeGranularity, Calendar, timestamp_to_date_key, TimeBucket, bucket_of, raw_key, bucket_map,
  aggregate_by_time,
}

-- The rows whose time has a key.
abbrev pub rows_of : Calendar → TimeGranularity → String → List Raw → List Raw
rows_of c g k rs = keep (λ r. str_eq (timestamp_to_date_key c r.created_at g) k) rs

module _ (c : Calendar) (g : TimeGranularity) where
  extend-push :
      (rs xs : List Raw)
      → extend (raw_key c g) (λ r. r ∷ []) (λ r records. push records r) (some xs) rs
        ≡ some (xs ++ rs)
  extend-push [] xs = ap some (sym (append-nil xs))
  extend-push (r ∷ rs) xs = extend-push rs (push xs r) ∙ ap some (append_assoc xs (r ∷ []) rs)

  extend_rows :
      (rs xs : List Raw)
      → extend (raw_key c g) (λ r. r ∷ []) (λ r records. push records r) none rs ≡ some xs
      → (xs ≡ rs) × (rs ≢ [])
  extend_rows [] xs h = cc
  extend_rows (r ∷ rs) xs h = (cc (h, extend-push rs (r ∷ [])), λ e. cc)

  bucket_map-IsMap : (rs : List Raw) → IsMap (bucket_map c g rs)
  unfolding bucket_map
  bucket_map-IsMap rs = group-IsMap _ _ _ rs [] tt

  bucket_map-rows :
      (rs : List Raw) → All (λ e. (e.1 ≡ rows_of c g e.0 rs) × (e.1 ≢ [])) (bucket_map c g rs)
  unfolding bucket_map
  bucket_map-rows rs =
      All-map
        (λ (e : String × List Raw) (found : lookup e.0 (bucket_map c g rs) ≡ some e.1).
          let (same, some_row) = extend_rows (rows_of c g e.0 rs) e.1 (
            sym (lookup-group (raw_key c g) (λ r. r ∷ []) (λ r records. push records r) rs e.0 [])
            ∙ found) in
          (same, λ q. some_row (sym same ∙ q)))
        (bucket_map c g rs) (IsMap-entries (bucket_map c g rs) (bucket_map-IsMap rs))

  IsSorted-keys :
      (gt : String → String → Bool) (es : List (String × List Raw))
      → IsSorted (λ a b. gt a.0 b.0) es
      → IsSorted gt (map (λ b. b.date_key) (map bucket_of es))
  IsSorted-keys gt [] h = tt
  IsSorted-keys gt (e ∷ es) (p, h) = (
    All-image (λ k. gt e.0 k ≡ false) (λ b. b.date_key) (map bucket_of es)
        (All-image (λ (b : TimeBucket). gt e.0 b.date_key ≡ false) bucket_of es p),
    IsSorted-keys gt es h,
  )

  -- Each bucket holds exactly the rows whose time has its key, in the order of the data, and at
  -- least one.
  pub aggregate_by_time-rows :
      (rs : List Raw)
      → All
          (λ b. (b.records ≡ rows_of c g b.date_key rs) × (b.records ≢ []))
          (aggregate_by_time c rs g)
  unfolding aggregate_by_time
  aggregate_by_time-rows rs =
      All-image (λ (b : TimeBucket). (b.records ≡ rows_of c g b.date_key rs) × (b.records ≢ []))
        bucket_of (sort (λ a b. c.locale_greater a.0 b.0) (bucket_map c g rs))
        (All-sort (λ a b. c.locale_greater a.0 b.0) _ (bucket_map c g rs) (bucket_map-rows rs))

  -- Nothing is lost and nothing counted twice: whatever is summed over the rows of the buckets is
  -- the sum over the data.
  pub aggregate_by_time-sum :
      (f : Raw → ℕ) (rs : List Raw)
      → sum_of (λ b. sum_of f b.records) (aggregate_by_time c rs g) ≡ sum_of f rs
  unfolding aggregate_by_time bucket_map
  aggregate_by_time-sum f rs =
      let gt = λ (a b : String × List Raw). c.locale_greater a.0 b.0 in
      sum_of-map (λ b. sum_of f b.records) bucket_of (sort gt (bucket_map c g rs))
      ∙ sum_of-sort (λ (e : String × List Raw). sum_of f e.1) gt (bucket_map c g rs)
      ∙ sum_of-group (raw_key c g) (λ r. r ∷ []) (λ r records. push records r) (sum_of f) f
          (λ r. omega arith) (λ r records. omega (arith, sum_of-append f records (r ∷ []))) rs []
      ∙ omega arith

  -- The keys of the buckets are pairwise different, and they ascend in the order of the locale, if
  -- that is an order.
  pub aggregate_by_time-IsSorted :
      (rs : List Raw)
      → IsOrder c.locale_greater
      → IsApart (λ b. b.date_key) (aggregate_by_time c rs g)
        × IsSorted c.locale_greater (map (λ b. b.date_key) (aggregate_by_time c rs g))
  unfolding aggregate_by_time
  aggregate_by_time-IsSorted rs o =
      let gt = λ (a b : String × List Raw). c.locale_greater a.0 b.0 in
      let sorted = sort gt (bucket_map c g rs) in
      (
        IsApart-map (λ (b : TimeBucket). b.date_key) bucket_of sorted
            (IsApart-sort (λ e. e.0) gt (bucket_map c g rs)
              (IsMap-IsApart (bucket_map c g rs) (bucket_map-IsMap rs))),
        IsSorted-keys c.locale_greater sorted (
            sort-IsSorted gt
              (record { asym = λ a b. o.asym a.0 b.0; trans = λ x y z. o.trans x.0 y.0 z.0 })
              (bucket_map c g rs)),
      )
