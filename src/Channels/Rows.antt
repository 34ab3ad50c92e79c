-- ===== src/Channels/Rows.antt =====
-- The handlers that act on a row act on the row that was shown, and only after the server agreed.
use lite_nova.Prelude.{
  ℕ, ◌≡◌, refl, sym, ◌∙◌, ap, ◌≢◌, inl, inr, true, false, String, Option, none, some, arith,
  get_elem?, Option-cases, modify, modify_comm, get_elem?-modify_self, get_elem?-modify_ne,
}
use lite_nova.Prelude.Int.{ℤ, pos, negsuc, ◌≤ℤ◌}
use lite_nova.Effects.{success, Reply, resolved, Answer, done, after, ◌>>=◌}
use lite_nova.Effects.Laws.{Reply-cases}
use lite_nova.Paging.{page_slice, real_idx}
use lite_nova.Sorting.Columns.{Js}
use lite_nova.Listing.{Listing, set_row, show}
use lite_nova.Listing.Laws.{RowChanged, with_row, set_row-page, with_row-RowChanged}
use lite_nova.Channels.{ChannelData, Channel}
use lite_nova.Channels.Manage.{
  Action, delete, enable, disable, priority, weight, Request, put_weight, clamp_weight,
  manage_request, mark_deleted, set_status, apply_action, manage_channel, tested, test_channel,
}

-- What an action that succeeds does to the object of its row.
abbrev pub change_of : Action → Option ChannelData → Channel → Channel
change_of delete sent c = mark_deleted c
change_of action none c = c
change_of action (some sent) c = set_status sent.status c

-- What the server sends with a success: the channel, but nothing is asked of the reply to a
-- deletion.
abbrev pub Carries : Action → Option ChannelData → Type 0
Carries delete sent = Unit
Carries action none = ⊥
Carries action (some sent) = Unit

abbrev pub answer_ok : {A : Type 0} → String → A → Answer A
answer_ok message a = record { success = true; message = message; payload = a }

abbrev pub toast_ok : Listing Channel → Listing Channel
toast_ok s = show (success "channel.messages.operation_success") s

apply_action-eq-done :
    (seen : Listing Channel) (action : Action) (idx : ℕ) (sent : Option ChannelData)
    (s : Listing Channel) {r : ℕ}
    → Carries action sent
    → get_elem? (page_slice seen.active_page seen.items) idx ≡ some r
    → apply_action seen action idx sent s ≡ done (with_row seen.items r (change_of action sent) s)
unfolding apply_action
apply_action-eq-done seen delete idx sent s h e =
    set_row-page seen.items seen.active_page idx (change_of delete sent) s e
apply_action-eq-done seen action idx (some sent) s h e =
    set_row-page seen.items seen.active_page idx (change_of action (some sent)) s e
apply_action-eq-done seen enable idx none s h e = absurd h
apply_action-eq-done seen disable idx none s h e = absurd h
apply_action-eq-done seen (priority value) idx none s h e = absurd h
apply_action-eq-done seen (weight value) idx none s h e = absurd h

clamp_weight-nonneg : (w : Option ℤ) (z : ℤ) → clamp_weight w ≡ some z → pos 0 ≤ℤ z
clamp_weight-nonneg none z h = cc
clamp_weight-nonneg (some (pos n)) z h = ground arith
clamp_weight-nonneg (some (negsuc n)) z h = ground arith

-- A weight that is sent to the server is never negative.
pub manage_request-weight :
    (js : Js) (id id' : ℕ) (action : Action) (z : ℤ)
    → manage_request js id action ≡ some (put_weight id' (some z))
    → (pos 0 ≤ℤ z) × (id' ≡ id)
unfolding manage_request
manage_request-weight js id id' (weight value) z h =
    ground (arith, clamp_weight-nonneg (js.parse_int value) z)
manage_request-weight js id id' (priority value) z h = ground arith
manage_request-weight js id id' _ z h = cc

module _ (js : Js) (seen : Listing Channel) (api : Request → Reply (Option ChannelData)) where
  pub manage_channel-eq-done :
      (id : ℕ) (action : Action) (idx : ℕ) (s : Listing Channel) {request : Request}
      {message : String} {sent : Option ChannelData} {r : ℕ}
      → manage_request js id action ≡ some request
      → Carries action sent
      → api request ≡ resolved (answer_ok message sent)
      → get_elem? (page_slice seen.active_page seen.items) idx ≡ some r
      → manage_channel js seen api id action idx s
        ≡ done (with_row seen.items r (change_of action sent) (toast_ok s))
  unfolding manage_channel
  manage_channel-eq-done id action idx s {sent} e h a p =
      rw (e, manage_channel, a, manage_channel)
        (apply_action-eq-done seen action idx sent (toast_ok s) h p)

  -- An action that the server answers with success, and with a channel unless it is a deletion,
  -- changes the object of the row that was shown at `idx`, in the way of the action, leaves every
  -- other object alone, and ends with the array that was shown.
  pub manage_channel-row :
      (id : ℕ) (action : Action) (idx : ℕ) (s : Listing Channel) {request : Request}
      {message : String} {sent : Option ChannelData} {r : ℕ}
      → manage_request js id action ≡ some request
      → Carries action sent
      → api request ≡ resolved (answer_ok message sent)
      → get_elem? (page_slice seen.active_page seen.items) idx ≡ some r
      → (t : Listing Channel) × (manage_channel js seen api id action idx s ≡ done t)
        × RowChanged r (change_of action sent) s t
        × (t.items ≡ seen.items)
        × (t.active_page ≡ s.active_page)
        × (t.loading ≡ s.loading)
  manage_channel-row id action idx s {sent} {r} e h a p = (
    with_row seen.items r (change_of action sent) (toast_ok s),
    manage_channel-eq-done id action idx s e h a p,
    record {
      changed = (with_row-RowChanged seen.items r (change_of action sent) s).changed;
      others = (with_row-RowChanged seen.items r (change_of action sent) s).others;
    },
    refl,
    refl,
    refl,
  )

  -- An object or the array of rows differs afterwards only if a request was sent and the server
  -- answered it with success.
  pub manage_channel-refused :
      (id : ℕ) (action : Action) (idx : ℕ) (s : Listing Channel)
      → ((request : Request) (a : Answer (Option ChannelData))
          → manage_request js id action ≡ some request
          → api request ≡ resolved a
          → a.success ≡ false)
      → ((after (manage_channel js seen api id action idx s)).heap ≡ s.heap)
        × ((after (manage_channel js seen api id action idx s)).items ≡ s.items)
  unfolding manage_channel
  manage_channel-refused id action idx s quiet = elim (Option-cases (manage_request js id action)) [
    | inl e ↦ rw (e, manage_channel) (refl, refl)
    | inr (request, e) ↦ elim (Reply-cases (api request)) [
      | inl (failure, a) ↦ rw (e, manage_channel, a, manage_channel) (refl, refl)
      | inr (answer, a) ↦
          rw (e, manage_channel, a, manage_channel, quiet request answer e a) (refl, refl)
    ]
  ]

-- Two actions on different rows of one render that succeed, each with a channel unless it is a
-- deletion, settled one after the other in either
-- order, leave the same objects and the same array, with both changes made.
pub manage_channel-manage_channel :
    (js : Js) (seen : Listing Channel) (api : Request → Reply (Option ChannelData)) (id id' : ℕ)
    (action action' : Action) (idx idx' : ℕ) (s : Listing Channel) {q q' : Request} {m m' : String}
    {sent sent' : Option ChannelData} {r r' : ℕ}
    → manage_request js id action ≡ some q
    → Carries action sent
    → api q ≡ resolved (answer_ok m sent)
    → get_elem? (page_slice seen.active_page seen.items) idx ≡ some r
    → manage_request js id' action' ≡ some q'
    → Carries action' sent'
    → api q' ≡ resolved (answer_ok m' sent')
    → get_elem? (page_slice seen.active_page seen.items) idx' ≡ some r'
    → r ≢ r'
    → (t : Listing Channel) × ((manage_channel js seen api id action idx s
          >>= manage_channel js seen api id' action' idx')
        ≡ done t)
      × ((manage_channel js seen api id' action' idx' s
            >>= manage_channel js seen api id action idx)
          ≡ done t)
      × (t.heap ≡ modify (modify s.heap r (change_of action sent)) r' (change_of action' sent'))
      × (t.items ≡ seen.items)
manage_channel-manage_channel js seen api id id' action action' idx idx' s {sent} {sent'} {r} {r'} e
      h a p e' h' a' p' n =
    (
      t,
      ap (λ o. o >>= manage_channel js seen api id' action' idx')
            (manage_channel-eq-done js seen api id action idx s e h a p)
          ∙ manage_channel-eq-done js seen api id' action' idx'
              (with_row seen.items r f (toast_ok s)) e' h' a' p',
      ap (λ o. o >>= manage_channel js seen api id action idx)
            (manage_channel-eq-done js seen api id' action' idx' s e' h' a' p')
          ∙ manage_channel-eq-done js seen api id action idx
              (with_row seen.items r' f' (toast_ok s)) e h a p
          ∙ ap (λ h. done (record t { heap = h })) (modify_comm s.heap r' r f' f (λ q. n (sym q))),
      refl,
      refl,
    )
  where
    f : Channel → Channel
    f = change_of action sent

    f' : Channel → Channel
    f' = change_of action' sent'

    t : Listing Channel
    t = with_row seen.items r' f' (toast_ok (with_row seen.items r f (toast_ok s)))

-- A successful test writes the row that was shown, twice, and the second time stays.
pub test_channel-row :
    (seen : Listing Channel) (api : ℕ → Reply ℕ) (id idx now now' : ℕ) (s : Listing Channel)
    {message : String} {time r : ℕ}
    → api id ≡ resolved (answer_ok message time)
    → get_elem? (page_slice seen.active_page seen.items) idx ≡ some r
    → (t : Listing Channel) × (test_channel seen api id idx now now' s ≡ done t)
      × RowChanged r (tested time now') s t
      × (t.items ≡ seen.items)
      × (t.active_page ≡ s.active_page)
unfolding test_channel
test_channel-row seen api id idx now now' s {time} {r} a p = (
  with_row seen.items r f'
      (show (success "channel.messages.test_success") (with_row seen.items r f s)),
  rw (a, test_channel)
      (ap
          (λ o.
            (o >>= λ t. done (show (success "channel.messages.test_success") t))
            >>= set_row seen.items (real_idx seen.active_page idx) f')
          (set_row-page seen.items seen.active_page idx f s p)
        ∙ set_row-page seen.items seen.active_page idx f' _ p),
  record {
    changed =
        λ x k. get_elem?-modify_self (modify s.heap r f) r f' (get_elem?-modify_self s.heap r f k);
    others = λ q n.
        get_elem?-modify_ne (modify s.heap r f) r q f' n ∙ get_elem?-modify_ne s.heap r q f n;
  },
  refl,
  refl,
)
  where
    f : Channel → Channel
    f = tested time now

    f' : Channel → Channel
    f' = tested time now'
