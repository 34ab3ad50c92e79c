-- ===== src/Channels/Order.antt =====
-- Sorting the table of channels by a column.
use mathlib.Core.List.{Perm, reverse-reverse}
use lite_nova.Prelude.{
  ℕ, ◌≡◌, ◌≢◌, refl, ap, sym, ◌∙◌, ◌⊎◌, true, false, List, [], ◌∷◌, some, reverse, arith, Option,
  none, All, All-map, Bool-cases, inl, inr, ◌==◌, ==_iff, get_elem?,
}
use lite_nova.Prelude.Int.{ℤ, pos, ltb_ℤ, ◌≤ℤ◌}
use lite_nova.Sorting.{sort}
use lite_nova.Sorting.Laws.{IsOrder, IsSorted, sort-IsSorted}
use lite_nova.Sorting.Columns.{Js, num, cell_greater}
use lite_nova.Listing.{Listing, toggled, by_row, opt_greater, same_id, same_head}
use lite_nova.Listing.Laws.{toggled-perm, by_row-IsOrder, toggled_of_IsSorted, sort_rows-items}
use lite_nova.Channels.{
  Channel, Column, by_id, by_name, by_group, by_type, by_status, by_response_time, by_balance,
  by_priority, cell, channel_greater, sort_channel,
}

-- The columns that hold numbers.
abbrev pub IsNumeric : Column → Type 0
IsNumeric by_name = ⊥
IsNumeric by_group = ⊥
IsNumeric key = Unit

number_of : (key : Column) → IsNumeric key → (c : Channel) → (z : ℤ) × (cell key c ≡ num z)
number_of by_id n c = (pos c.id, refl)
number_of by_name n c = absurd n
number_of by_group n c = absurd n
number_of by_type n c = (pos c.type, refl)
number_of by_status n c = (pos c.status, refl)
number_of by_response_time n c = (pos c.response_time, refl)
number_of by_balance n c = (c.balance, refl)
number_of by_priority n c = (c.priority, refl)

ltb_ℤ-asym : (x y : ℤ) → ltb_ℤ y x ≡ true → ltb_ℤ x y ≡ false
ltb_ℤ-asym x y h = ground arith

ltb_ℤ-trans : (x y z : ℤ) → ltb_ℤ y x ≡ false → ltb_ℤ z y ≡ false → ltb_ℤ z x ≡ false
ltb_ℤ-trans x y z h k = ground arith

module _ (js : Js) (key : Column) (n : IsNumeric key) where
  greater-eq :
      (a b : Channel)
      → channel_greater js key a b ≡ ltb_ℤ (number_of key n b).0 (number_of key n a).0
  unfolding cell_greater
  greater-eq a b = rw ((number_of key n a).1, (number_of key n b).1)

  -- On a column of numbers the comparison is a consistent order.
  pub channel_greater-IsOrder : IsOrder (channel_greater js key)
  channel_greater-IsOrder = record {
    asym = λ a b h.
        greater-eq b a
        ∙ ltb_ℤ-asym (number_of key n a).0 (number_of key n b).0 (sym (greater-eq a b) ∙ h);
    trans = λ a b c h k.
        greater-eq a c
        ∙ ltb_ℤ-trans (number_of key n a).0 (number_of key n b).0 (number_of key n c).0
            (sym (greater-eq a b) ∙ h) (sym (greater-eq b c) ∙ k);
  }

-- The number that a row shows in a column of numbers.
abbrev pub value_of : (key : Column) → IsNumeric key → Channel → ℤ
value_of by_id n c = pos c.id
value_of by_name n c = absurd n
value_of by_group n c = absurd n
value_of by_type n c = pos c.type
value_of by_status n c = pos c.status
value_of by_response_time n c = pos c.response_time
value_of by_balance n c = c.balance
value_of by_priority n c = c.priority

-- Two rows, where there are two, with the lower number first.
abbrev pub AreUp : (Channel → ℤ) → Option Channel → Option Channel → Type 0
AreUp value (some x) (some y) = value x ≤ℤ value y
AreUp value _ _ = Unit

-- Each row has a number that is not above those of the rows behind it.
abbrev pub Ascends : (Channel → ℤ) → List Channel → List ℕ → Type 0
Ascends value heap [] = Unit
Ascends value heap (r ∷ rs) =
    All (λ q. AreUp value (get_elem? heap r) (get_elem? heap q)) rs × Ascends value heap rs

-- Two rows with one id.
abbrev pub AreOne : Option Channel → Option Channel → Type 0
AreOne (some x) (some y) = x.id ≡ y.id
AreOne _ _ = ⊥

-- Two arrays that begin with rows of one id.
abbrev pub StartAlike : List Channel → List ℕ → List ℕ → Type 0
StartAlike heap (r ∷ rs) (q ∷ qs) = AreOne (get_elem? heap r) (get_elem? heap q)
StartAlike heap _ _ = ⊥

value_of-number_of :
    (key : Column) (n : IsNumeric key) (c : Channel) → value_of key n c ≡ (number_of key n c).0
unfolding number_of
value_of-number_of by_id n c = refl
value_of-number_of by_name n c = absurd n
value_of-number_of by_group n c = absurd n
value_of-number_of by_type n c = refl
value_of-number_of by_status n c = refl
value_of-number_of by_response_time n c = refl
value_of-number_of by_balance n c = refl
value_of-number_of by_priority n c = refl

le_of_not_greater : (x y : ℤ) → ltb_ℤ y x ≡ false → x ≤ℤ y
le_of_not_greater x y h = ground arith

same_head-AreOne :
    (x y : Option Channel)
    → ((same_id (λ c. c.id) x y ≡ true) × AreOne x y)
      ⊎ ((same_id (λ c. c.id) x y ≡ false) × (¬ AreOne x y))
same_head-AreOne none y = inr (refl, λ h. h)
same_head-AreOne (some x) none = inr (refl, λ h. h)
same_head-AreOne (some x) (some y) = elim (Bool-cases (x.id == y.id)) [
  | inl e ↦ inl (e, (==_iff x.id y.id).0 e)
  | inr e ↦ inr (e, λ h. cc (e, (==_iff x.id y.id).1 h))
]

same_head-StartAlike :
    (heap : List Channel) (xs ys : List ℕ)
    → ((same_head (λ c. c.id) heap xs ys ≡ true) × StartAlike heap xs ys)
      ⊎ ((same_head (λ c. c.id) heap xs ys ≡ false) × (¬ StartAlike heap xs ys))
same_head-StartAlike heap [] ys = inr (refl, λ h. h)
same_head-StartAlike heap (r ∷ rs) [] = inr (refl, λ h. h)
same_head-StartAlike heap (r ∷ rs) (q ∷ qs) = same_head-AreOne (get_elem? heap r) (get_elem? heap q)

module _ (js : Js) (key : Column) (n : IsNumeric key) where
  up_of :
      (x y : Option Channel)
      → opt_greater (channel_greater js key) x y ≡ false
      → AreUp (value_of key n) x y
  up_of none y h = tt
  up_of (some x) none h = tt
  up_of (some x) (some y) h =
      rw (value_of-number_of key n x, value_of-number_of key n y)
        (le_of_not_greater (number_of key n x).0 (number_of key n y).0
          (sym (greater-eq js key n x y) ∙ h))

  Ascends-IsSorted :
      (heap : List Channel) (items : List ℕ)
      → IsSorted (by_row heap (channel_greater js key)) items
      → Ascends (value_of key n) heap items
  Ascends-IsSorted heap [] h = tt
  Ascends-IsSorted heap (r ∷ rs) (p, h) = (
    All-map
        (λ (q : ℕ) (e : by_row heap (channel_greater js key) r q ≡ false).
          up_of (get_elem? heap r) (get_elem? heap q) e)
        rs p,
    Ascends-IsSorted heap rs h,
  )

  toggled-Ascends :
      (heap : List Channel) (items : List ℕ)
      → let u = toggled heap (λ c. c.id) (channel_greater js key) items in
        (Ascends (value_of key n) heap u × (¬ StartAlike heap u items))
        ⊎ (Ascends (value_of key n) heap (reverse u) × StartAlike heap (reverse u) items)
  unfolding toggled
  toggled-Ascends heap items =
      let gt = channel_greater js key in
      let sorted = sort (by_row heap gt) items in
      let up = Ascends-IsSorted heap sorted (
        sort-IsSorted (by_row heap gt) (by_row-IsOrder heap gt (channel_greater-IsOrder js key n))
          items) in
      elim (same_head-StartAlike heap sorted items) [
        | inl (e, alike) ↦ inr (rw (e, reverse-reverse) up, rw (e, reverse-reverse) alike)
        | inr (e, differ) ↦ inl (rw e up, rw e differ)
      ]

  -- Sorting a table that has rows by a column of numbers rearranges the rows of the render: they
  -- ascend in the number that the column shows or, if the ascending order would begin with the row
  -- that was the first, by its id, they descend. No object changes, nor the page.
  pub sort_channel-Ascends :
      (seen s : Listing Channel)
      → seen.items ≢ []
      → let u = (sort_channel js key seen s).items in
        Perm u seen.items
        × ((Ascends (value_of key n) s.heap u × (¬ StartAlike s.heap u seen.items))
            ⊎ (Ascends (value_of key n) s.heap (reverse u)
                × StartAlike s.heap (reverse u) seen.items))
        × ((sort_channel js key seen s).heap ≡ s.heap)
        × ((sort_channel js key seen s).active_page ≡ s.active_page)
  unfolding sort_channel
  sort_channel-Ascends seen s some_row =
      let gt = channel_greater js key in
      let (items, heap, page) = sort_rows-items (λ c. c.id) gt seen.items s some_row in
      (
        rw items (toggled-perm (λ c. c.id) gt s.heap seen.items),
        rw items (toggled-Ascends s.heap seen.items),
        heap,
        page,
      )

-- On rows that ascend already in a column, sorting by it turns them round.
pub sort_channel_of_IsSorted :
    (js : Js) (key : Column) (s : Listing Channel) (r : ℕ) (rest : List ℕ) {x : Channel}
    → s.items ≡ r ∷ rest
    → get_elem? s.heap r ≡ some x
    → IsSorted (by_row s.heap (channel_greater js key)) s.items
    → (sort_channel js key s s).items ≡ reverse s.items
unfolding sort_channel
sort_channel_of_IsSorted js key s r rest e k h =
    let gt = channel_greater js key in
    let (items, _, _) = sort_rows-items (λ c. c.id) gt s.items s (λ q. cc (e, q)) in
    items
    ∙ ap (toggled s.heap (λ c. c.id) gt) e
    ∙ toggled_of_IsSorted (λ c. c.id) gt s.heap r rest k (rw e at h)
    ∙ sym (ap reverse e)
