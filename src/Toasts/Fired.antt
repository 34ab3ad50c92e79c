-- ===== src/Toasts/Fired.antt =====
-- What is left once all timers are fired.
use lite_nova.Prelude.{
  ℕ, ◌≡◌, refl, ap, ◌∙◌, Bool, true, false, not, ◌&&◌, ◌||◌, List, [], ◌∷◌, keep, map, ◌==◌,
  Bool-cases, inl, inr, arith, All, All-map,
}
use lite_nova.Prelude.Keep.{All-every, keep-keep, keep-cong, keep_none}
use lite_nova.Prelude.Int.{ℤ, pos, negsuc}
use lite_nova.Toasts.{is_positive, ToastId, same_id, ToastItem, Toasts, remove, fire_all, Reach}
use lite_nova.Toasts.Laws.{has_id, AreApart, goes, going, Reach-IsValid}

same_id_self : (i : ToastId) → same_id i i ≡ true
unfolding same_id
same_id_self i = ground arith

same_id_comm : (i j : ToastId) → same_id i j ≡ same_id j i
unfolding same_id
same_id_comm i j = ground arith

not-or : (a b : Bool) → (not a && not b) ≡ not (a || b)
not-or true b = refl
not-or false b = refl

-- Firing timers removes the toasts and the timers with those ids.
fire_all-toasts :
    (ids : List ToastId) (s : Toasts)
    → (fire_all ids s).toasts ≡ keep (λ t. not (has_id t.id ids)) s.toasts
unfolding fire_all remove
fire_all-toasts [] s = keep_every s.toasts
  where
    keep_every : (ts : List ToastItem) → ts ≡ keep (λ t. true) ts
    keep_every [] = refl
    keep_every (t ∷ ts) = ap (t ∷◌) (keep_every ts)
fire_all-toasts (i ∷ ids) s =
    fire_all-toasts ids (remove i s)
    ∙ keep-keep (λ t. not (has_id t.id ids)) (λ t. not (same_id t.id i)) s.toasts
    ∙ keep-cong _ _ s.toasts (All-every s.toasts (λ t. not-or (same_id t.id i) (has_id t.id ids)))

fire_all-timers :
    (ids : List ToastId) (s : Toasts)
    → (fire_all ids s).timers ≡ keep (λ t. not (has_id t.0 ids)) s.timers
unfolding fire_all remove
fire_all-timers [] s = keep_every s.timers
  where
    keep_every : (ts : List (ToastId × ℕ)) → ts ≡ keep (λ t. true) ts
    keep_every [] = refl
    keep_every (t ∷ ts) = ap (t ∷◌) (keep_every ts)
fire_all-timers (i ∷ ids) s =
    fire_all-timers ids (remove i s)
    ∙ keep-keep (λ t. not (has_id t.0 ids)) (λ t. not (same_id t.0 i)) s.timers
    ∙ keep-cong _ _ s.timers (All-every s.timers (λ t. not-or (same_id t.0 i) (has_id t.0 ids)))

-- An id that differs from those of some toasts is not among those that go.
has_id-going_ne :
    (q : ToastId) (ts : List ToastItem)
    → All (λ u. same_id u.id q ≡ false) ts
    → has_id q (going ts) ≡ false
has_id-going_ne q [] h = refl
has_id-going_ne q (t ∷ ts) (e, h) = elim (Bool-cases (goes t)) [
  | inl e' ↦ rw (e', keep) (rw (same_id_comm q t.id, e) (has_id-going_ne q ts h))
  | inr e' ↦ rw (e', keep) (has_id-going_ne q ts h)
]

has_id-going_cons :
    (q : ToastId) (t : ToastItem) (ts : List ToastItem)
    → same_id q t.id ≡ false
    → has_id q (going (t ∷ ts)) ≡ has_id q (going ts)
has_id-going_cons q t ts e = elim (Bool-cases (goes t)) [
  | inl e' ↦ rw (e', keep, e) refl
  | inr e' ↦ rw (e', keep) refl
]

has_id-going_self :
    (t : ToastItem) (ts : List ToastItem)
    → All (λ u. same_id u.id t.id ≡ false) ts
    → has_id t.id (going (t ∷ ts)) ≡ goes t
has_id-going_self t ts a = elim (Bool-cases (goes t)) [
  | inl e ↦ rw (e, keep, same_id_self t.id) refl
  | inr e ↦ rw (e, keep) (has_id-going_ne t.id ts a)
]

-- A toast goes exactly if its id is among those that go.
has_id-going : (ts : List ToastItem) → AreApart ts → All (λ t. has_id t.id (going ts) ≡ goes t) ts
has_id-going [] h = tt
has_id-going (t ∷ ts) (a, h) = (has_id-going_self t ts a, later ts a (has_id-going ts h))
  where
    later :
        (us : List ToastItem)
        → All (λ u. same_id u.id t.id ≡ false) us
        → All (λ u. has_id u.id (going ts) ≡ goes u) us
        → All (λ u. has_id u.id (going (t ∷ ts)) ≡ goes u) us
    later [] b k = tt
    later (u ∷ us) (e, b) (p, k) = (has_id-going_cons u.id t ts e ∙ p, later us b k)

-- The ids of the timers are among them.
has_id_self :
    (timers : List (ToastId × ℕ)) → All (λ t. has_id t.0 (map (λ u. u.0) timers) ≡ true) timers
has_id_self [] = tt
has_id_self (t ∷ timers) = (
  rw (same_id_self t.0) refl,
  All-map
      (λ (u : ToastId × ℕ) (h : has_id u.0 (map (λ u. u.0) timers) ≡ true).
        ap (same_id u.0 t.0 ||◌) h ∙ or-true (same_id u.0 t.0))
      timers (has_id_self timers),
)
  where
    or-true : (b : Bool) → (b || true) ≡ true
    or-true true = refl
    or-true false = refl

-- A duration of 0 or less.
abbrev pub is_unlimited : ℤ → Bool
is_unlimited (pos n) = n == 0
is_unlimited (negsuc n) = true

-- Once every timer that is set has been fired, in whatever order, no timer is set, and what is left
-- are exactly the toasts that have a duration of 0 or less, in their order.
pub fire_all-toasts_left :
    (s : Toasts) (ids : List ToastId)
    → Reach s
    → ((q : ToastId) → has_id q ids ≡ has_id q (map (λ t. t.0) s.timers))
    → ((fire_all ids s).timers ≡ [])
      × ((fire_all ids s).toasts ≡ keep (λ t. is_unlimited t.duration) s.toasts)
fire_all-toasts_left s ids r same =
    let v = Reach-IsValid s r in
    (
      fire_all-timers ids s
          ∙ keep_none (λ t. not (has_id t.0 ids)) s.timers
              (All-map
                (λ (t : ToastId × ℕ) (h : has_id t.0 (map (λ u. u.0) s.timers) ≡ true).
                  ap not (same t.0 ∙ h))
                s.timers (has_id_self s.timers)),
      fire_all-toasts ids s
          ∙ keep-cong (λ t. not (has_id t.id ids)) (λ t. is_unlimited t.duration) s.toasts
              (All-map
                (λ (t : ToastItem) (h : has_id t.id (going s.toasts) ≡ goes t).
                  ap not (same t.id ∙ ap (has_id t.id) v.timed ∙ h) ∙ not-goes t.duration)
                s.toasts (has_id-going s.toasts v.apart)),
    )
  where
    not-goes : (n : ℤ) → not (is_positive n) ≡ is_unlimited n
    not-goes (pos n) = ground arith
    not-goes (negsuc n) = refl
