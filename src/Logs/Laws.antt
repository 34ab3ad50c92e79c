-- ===== src/Logs/Laws.antt =====
-- The table of logs: what is asked of the server, and in which order its rows stand.
use mathlib.Core.List.{Perm}
use lite_nova.Prelude.{
  ℕ, ◌≡◌, ◌≢◌, ◌⊎◌, inl, inr, refl, ap, sym, ◌∙◌, true, false, String, List, [], ◌∷◌, none, some,
  arith, get_elem?, if◌then◌else◌, reverse, Bool-cases, Option-cases, ◌≤◌, ◌<◌, ◌↔◌, length,
  get_elem?_of_lt,
}
use lite_nova.Prelude.Int.{ℤ, pos, ltb_ℤ}
use lite_nova.Effects.{Reply, Failure, done, threw, after}
use lite_nova.Effects.Laws.{Reply-cases}
use lite_nova.Sorting.Laws.{IsOrder, IsSorted}
use lite_nova.Sorting.Columns.{Js, num}
use lite_nova.Listing.Refs.{Below}
use lite_nova.Prelude.{All-map}
use lite_nova.Listing.Valid.{IsValid}
use lite_nova.Listing.{Listing, sort_rows, by_row, toggled}
use lite_nova.Listing.Laws.{toggled-perm, toggled-IsSorted, toggled_of_IsSorted, sort_rows-items}
use lite_nova.Logs.{
  Log, red, Stat, LogsTable, Texts, get_color_by_elapsed_time, take_stat, stat_url, self_stat_url,
  username, channel, handle_input_change, common_query, handle_eye_click, logs_url, load_logs,
  Column, by_created_time, by_channel, by_type, by_model_name, by_username, by_token_name,
  by_prompt_tokens, by_completion_tokens, by_quota, cell, log_cell_greater, log_greater, sort_log,
}

-- The columns that hold numbers.
abbrev pub IsNumeric : Column → Type 0
IsNumeric by_created_time = ⊥
IsNumeric by_model_name = ⊥
IsNumeric by_username = ⊥
IsNumeric by_token_name = ⊥
IsNumeric key = Unit

number_of : (key : Column) → IsNumeric key → (x : Log) → (z : ℤ) × (cell key x ≡ num z)
number_of by_created_time n x = absurd n
number_of by_channel n x = (pos x.channel, refl)
number_of by_type n x = (pos x.type, refl)
number_of by_model_name n x = absurd n
number_of by_username n x = absurd n
number_of by_token_name n x = absurd n
number_of by_prompt_tokens n x = (pos x.prompt_tokens, refl)
number_of by_completion_tokens n x = (pos x.completion_tokens, refl)
number_of by_quota n x = (x.quota, refl)

ltb_ℤ-asym : (x y : ℤ) → ltb_ℤ x y ≡ true → ltb_ℤ y x ≡ false
ltb_ℤ-asym x y h = ground arith

ltb_ℤ-trans : (x y z : ℤ) → ltb_ℤ x y ≡ false → ltb_ℤ y z ≡ false → ltb_ℤ x z ≡ false
ltb_ℤ-trans x y z h k = ground arith

module _ (js : Js) (key : Column) (n : IsNumeric key) where
  greater-eq :
      (a b : Log) → log_greater js key a b ≡ ltb_ℤ (number_of key n a).0 (number_of key n b).0
  unfolding log_cell_greater
  greater-eq a b = rw ((number_of key n a).1, (number_of key n b).1)

  log_greater-IsOrder : IsOrder (log_greater js key)
  log_greater-IsOrder = record {
    asym = λ a b h.
        greater-eq b a
        ∙ ltb_ℤ-asym (number_of key n a).0 (number_of key n b).0 (sym (greater-eq a b) ∙ h);
    trans = λ a b c h k.
        greater-eq a c
        ∙ ltb_ℤ-trans (number_of key n a).0 (number_of key n b).0 (number_of key n c).0
            (sym (greater-eq a b) ∙ h) (sym (greater-eq b c) ∙ k);
  }

  -- Sorting by a column of numbers rearranges the rows of the render; they then descend in that
  -- column, read forwards or backwards. No object changes.
  pub sort_log-IsSorted :
      (seen s : Listing Log)
      → seen.items ≢ []
      → Perm (sort_log js key seen s).items seen.items
        × (IsSorted (by_row s.heap (log_greater js key)) (sort_log js key seen s).items
            ⊎ IsSorted
                (by_row s.heap (log_greater js key))
                (reverse (sort_log js key seen s).items))
        × ((sort_log js key seen s).heap ≡ s.heap)
  unfolding sort_log
  sort_log-IsSorted seen s some_row =
      let gt = log_greater js key in
      let (items, heap, page) = sort_rows-items (λ x. x.id) gt seen.items s some_row in
      let perm = toggled-perm (λ x. x.id) gt s.heap seen.items in
      let ordered = toggled-IsSorted (λ x. x.id) gt log_greater-IsOrder s.heap seen.items in
      (rw items perm, rw items ordered, heap)

module _ (js : Js) (heap : List Log) where
  row_below : (a b : ℕ) → b < length heap → by_row heap (log_greater js by_created_time) a b ≡ false
  row_below a b lt =
      let (y, e) = get_elem?_of_lt heap b lt in
      elim (Option-cases (get_elem? heap a)) [
        | inl q ↦ rw q refl
        | inr (x, q) ↦ rw (q, e) (unfold log_cell_greater in refl)
      ]

  IsSorted-Below :
      (items : List ℕ)
      → Below (length heap) items
      → IsSorted (by_row heap (log_greater js by_created_time)) items
  IsSorted-Below [] h = tt
  IsSorted-Below (a ∷ items) (lt, h) =
      (All-map (λ b lt. row_below a b lt) items h, IsSorted-Below items h)

sort_log-items :
    (js : Js) (s : Listing Log) (items : List ℕ)
    → s.items ≡ items
    → Below (length s.heap) s.items
    → (sort_log js by_created_time s s).items ≡ reverse s.items
unfolding sort_log sort_rows
sort_log-items js s [] e h = rw e refl
sort_log-items js s (r ∷ rest) e h =
    let gt = log_greater js by_created_time in
    let (x, k) = get_elem?_of_lt s.heap r ((rw e at h).0) in
    let (items, _, _) = sort_rows-items (λ x. x.id) gt s.items s (λ q. cc (e, q)) in
    items
    ∙ ap (toggled s.heap (λ x. x.id) gt) e
    ∙ toggled_of_IsSorted (λ x. x.id) gt s.heap r rest k
        (IsSorted-Below js s.heap (r ∷ rest) (rw e at h))
    ∙ sym (ap reverse e)

-- Sorting by the column of the time only turns the rows round, whatever their times are: the
-- column asks for a field that a log does not have.
pub sort_log-reverse :
    (js : Js) (s : Listing Log)
    → IsValid s
    → (sort_log js by_created_time s s).items ≡ reverse s.items
sort_log-reverse js s v = sort_log-items js s s.items refl v.0.0

-- A log whose time is known is never labelled black, the colour for an unknown time, a time of 0
-- not excepted; from ten seconds on the label is red.
pub get_color_by_elapsed_time-ne_black :
    (time : ℕ)
    → (get_color_by_elapsed_time (some time) ≢ get_color_by_elapsed_time none)
      × ((get_color_by_elapsed_time (some time) ≡ red) ↔ (10000 ≤ time))
unfolding get_color_by_elapsed_time
get_color_by_elapsed_time-ne_black time = (ground arith, ground arith)

-- A click on the statistics hides them where they are shown, and asks nothing; where they are
-- hidden, it shows them if the server answers at all, and throws if the request is rejected.
pub handle_eye_click-show_stat :
    (w : Texts) (api : String → Reply Stat) (s : LogsTable)
    → ((s.show_stat ≡ true) × (handle_eye_click w s api s ≡ done (record s { show_stat = false })))
      ⊎ ((s.show_stat ≡ false)
          × (((t : LogsTable) × (handle_eye_click w s api s ≡ done t) × (t.show_stat ≡ true))
              ⊎ ((e : Failure) × (handle_eye_click w s api s ≡ threw e s))))
unfolding handle_eye_click take_stat
handle_eye_click-show_stat w api s = elim (Bool-cases s.show_stat) [
  | inl e ↦ inl (e, rw e refl)
  | inr e ↦ inr (
    e,
    elim (Reply-cases (api (if s.is_admin_user then stat_url w s else self_stat_url w s))) [
      | inl (failure, a) ↦ inr (failure, rw (a, e) refl)
      | inr (answer, a) ↦ inl (after (handle_eye_click w s api s), rw (a, e) refl, rw (a, e) refl)
    ],
  )
]

-- For a user who is no administrator, neither the address of the logs nor that of the statistics
-- depends on the fields that only an administrator sees.
pub load_logs_self :
    (w : Texts) (api : String → Reply (List Log)) (user channel_id : String) (start : ℕ)
    (s : LogsTable) (t : Listing Log)
    → s.is_admin_user ≡ false
    → load_logs w
        (handle_input_change username user (handle_input_change channel channel_id s))
        api
        start
        t
      ≡ load_logs w s api start t
unfolding load_logs logs_url handle_input_change common_query
load_logs_self w api user channel_id start s t e = rw e refl
