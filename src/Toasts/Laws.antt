-- ===== src/Toasts/Laws.antt =====
-- Every toast that is to go by itself has a timer and no other has one, so that once the timers are
-- fired, only the toasts that wait for their user are left.
use lite_nova.Prelude.{
  ℕ, suc, ◌+◌, ◌≡◌, ◌≤◌, ◌<◌, refl, sym, ap, ◌∙◌, Bool, true, false, not, ◌&&◌, ◌||◌, List, [], ◌∷◌,
  ◌++◌, keep, push, map, if◌then◌else◌, Bool-cases, inl, inr, arith, All, All-map, All-image,
  append-nil,
}
use lite_nova.Prelude.Keep.{
  All-every, All-keep, keep-append, keep-keep, keep-cong, map-keep, map-append,
}
use lite_nova.Prelude.Int.{pos_part}
use lite_nova.Toasts.{
  ToastId, same_id, ToastItem, ToastOptions, Toasts, duration_of, is_positive, set_timer,
  generate_id, add, remove, clear, adds, removes, clears, Reach, start, step,
}

-- Whether an id is among others.
abbrev pub has_id : ToastId → List ToastId → Bool
has_id q [] = false
has_id q (i ∷ ids) = same_id q i || has_id q ids

-- No two toasts have one id.
abbrev pub AreApart : List ToastItem → Type 0
AreApart [] = Unit
AreApart (t ∷ ts) = All (λ u. same_id u.id t.id ≡ false) ts × AreApart ts

abbrev pub goes : ToastItem → Bool
goes t = is_positive t.duration

-- The ids of the toasts that go by themselves.
abbrev pub going : List ToastItem → List ToastId
going ts = map (λ t. t.id) (keep goes ts)

-- The ids are apart, none is above the counter, and the timers are those of the toasts that go by
-- themselves.
pub record IsValid (s : Toasts) : Type 0 where
  pub apart : AreApart s.toasts
  pub below : All (λ t. t.id.count ≤ s.id_counter) s.toasts
  pub timed : map (λ t. t.0) s.timers ≡ going s.toasts

AreApart-keep : (p : ToastItem → Bool) (ts : List ToastItem) → AreApart ts → AreApart (keep p ts)
AreApart-keep p [] h = tt
AreApart-keep p (t ∷ ts) (a, h) = elim (Bool-cases (p t)) [
  | inl e ↦ rw (e, keep) (All-keep (λ u. same_id u.id t.id ≡ false) p ts a, AreApart-keep p ts h)
  | inr e ↦ rw (e, keep) (AreApart-keep p ts h)
]

All-push :
    (P : ToastItem → Type 0) (ts : List ToastItem) (u : ToastItem)
    → All P ts
    → P u
    → All P (push ts u)
All-push P [] u h q = (q, tt)
All-push P (t ∷ ts) u (p, h) q = (p, All-push P ts u h q)

AreApart-push :
    (ts : List ToastItem) (u : ToastItem)
    → AreApart ts
    → All (λ t. same_id u.id t.id ≡ false) ts
    → AreApart (push ts u)
AreApart-push [] u h new = (tt, tt)
AreApart-push (t ∷ ts) u (a, h) (n, new) =
    (All-push (λ x. same_id x.id t.id ≡ false) ts u a n, AreApart-push ts u h new)

-- An id with a higher count is another.
same_id-lt : (a b : ToastId) → a.count < b.count → (same_id b a ≡ false) × (same_id a b ≡ false)
unfolding same_id
same_id-lt a b h = ground arith

-- An id that no timer has is put behind the others.
set_timer-push :
    (id : ToastId) (due : ℕ) (timers : List (ToastId × ℕ))
    → All (λ t. same_id t.0 id ≡ false) timers
    → set_timer id due timers ≡ push timers (id, due)
unfolding set_timer
set_timer-push id due [] h = refl
set_timer-push id due ((i, d) ∷ timers) (e, h) =
    rw e (ap ((i, d) ∷◌) (set_timer-push id due timers h))

-- Removing commutes with reading the ids of the toasts that go.
going-keep :
    (id : ToastId) (ts : List ToastItem)
    → going (keep (λ t. not (same_id t.id id)) ts) ≡ keep (λ i. not (same_id i id)) (going ts)
going-keep id ts =
    let stays : ToastItem → Bool = λ t. not (same_id t.id id) in
    ap (map (λ t. t.id)) (
      keep-keep goes stays ts
      ∙ keep-cong (λ t. stays t && goes t) (λ t. goes t && stays t) ts
          (All-every ts (λ t. and_comm (stays t) (goes t)))
      ∙ sym (keep-keep stays goes ts))
    ∙ map-keep (λ (t : ToastItem). t.id) (λ i. not (same_id i id)) (keep goes ts)
  where
    and_comm : (a b : Bool) → (a && b) ≡ (b && a)
    and_comm true true = refl
    and_comm true false = refl
    and_comm false true = refl
    and_comm false false = refl

going-push :
    (ts : List ToastItem) (t : ToastItem) (b : Bool)
    → goes t ≡ b
    → going (push ts t) ≡ (if b then push (going ts) t.id else going ts)
going-push ts t b e =
    ap (map (λ t. t.id)) (keep-append goes ts (t ∷ []))
    ∙ map-append (λ (t : ToastItem). t.id) (keep goes ts) (keep goes (t ∷ []))
    ∙ last b e
  where
    last :
        (b : Bool)
        → goes t ≡ b
        → going ts ++ going (t ∷ []) ≡ (if b then push (going ts) t.id else going ts)
    last true e = rw (e, keep) refl
    last false e = rw (e, keep) (append-nil (going ts))

-- What is so of the ids of all toasts is so of those with a timer.
All-going : (P : ToastId → Type 0) (ts : List ToastItem) → All (λ t. P t.id) ts → All P (going ts)
All-going P ts h =
    All-image P (λ (t : ToastItem). t.id) (keep goes ts) (All-keep (λ t. P t.id) goes ts h)

All-ids :
    (P : ToastId → Type 0) (timers : List (ToastId × ℕ))
    → All P (map (λ t. t.0) timers)
    → All (λ t. P t.0) timers
All-ids P [] h = tt
All-ids P (t ∷ timers) (q, h) = (q, All-ids P timers h)

remove-IsValid : (id : ToastId) (s : Toasts) → IsValid s → IsValid (remove id s)
unfolding remove
remove-IsValid id s v = record {
  apart = AreApart-keep (λ t. not (same_id t.id id)) s.toasts v.apart;
  below = All-keep (λ t. t.id.count ≤ s.id_counter) (λ t. not (same_id t.id id)) s.toasts v.below;
  timed =
      map-keep (λ (t : ToastId × ℕ). t.0) (λ i. not (same_id i id)) s.timers
      ∙ ap (keep (λ i. not (same_id i id))) v.timed
      ∙ sym (going-keep id s.toasts);
}

add-IsValid :
    (now : ℕ) (options : ToastOptions) (s : Toasts) → IsValid s → IsValid (add now options s)
unfolding add
add-IsValid now options s v =
    let id = generate_id now s in
    let toast : ToastItem = record {
      id = id;
      type = options.type;
      title = options.title;
      message = options.message;
      duration = duration_of options;
    } in
    let fresh : All (λ t. same_id id t.id ≡ false) s.toasts =
      All-map
        (λ (t : ToastItem) (h : t.id.count ≤ s.id_counter). (same_id-lt t.id id (omega arith)).0)
        s.toasts v.below in
    let older : All (λ t. same_id t.id id ≡ false) s.toasts =
      All-map
        (λ (t : ToastItem) (h : t.id.count ≤ s.id_counter). (same_id-lt t.id id (omega arith)).1)
        s.toasts v.below in
    let timerless : All (λ t. same_id t.0 id ≡ false) s.timers =
      All-ids (λ i. same_id i id ≡ false) s.timers
        (rw v.timed (All-going (λ i. same_id i id ≡ false) s.toasts older)) in
    record {
      apart = AreApart-push s.toasts toast v.apart fresh;
      below =
          All-push (λ t. t.id.count ≤ suc s.id_counter) s.toasts toast
            (All-map (λ (t : ToastItem) (h : t.id.count ≤ s.id_counter). omega arith) s.toasts
              v.below)
            (omega arith);
      timed = elim (Bool-cases (goes toast)) [
        | inl e ↦
            rw e (
              ap (map (λ (t : ToastId × ℕ). t.0))
                (set_timer-push id (now + pos_part (duration_of options)) s.timers timerless)
              ∙ map-append (λ (t : ToastId × ℕ). t.0) s.timers
                  ((id, now + pos_part (duration_of options)) ∷ [])
              ∙ ap (λ ids. push ids id) v.timed)
            ∙ sym (going-push s.toasts toast true e)
        | inr e ↦ rw e v.timed ∙ sym (going-push s.toasts toast false e)
      ];
    }

-- However toasts are added, removed by their user or their timer, and cleared: no two of them have
-- one id, no id is above the counter, and the timers that are set are exactly those of the toasts
-- with a duration above 0.
pub Reach-IsValid : (s : Toasts) → Reach s → IsValid s
unfolding clear
Reach-IsValid _ start = record { apart = tt; below = tt; timed = refl }
Reach-IsValid _ (step r (adds now options s)) = add-IsValid now options s (Reach-IsValid s r)
Reach-IsValid _ (step r (removes id s)) = remove-IsValid id s (Reach-IsValid s r)
Reach-IsValid _ (step r (clears s)) = record { apart = tt; below = tt; timed = refl }
