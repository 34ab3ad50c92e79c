-- ===== src/Toasts/Tests.antt =====
-- The theorems about toasts on two of them.
use lite_nova.Prelude.{◌≡◌, refl, [], ◌∷◌, none, some, keep}
use lite_nova.Toasts.{
  ToastOptions, info, error, Toasts, no_toasts, duration_of, set_timer, add, fire_all, adds, Reach,
  start, step,
}
use lite_nova.Toasts.Laws.{IsValid, Reach-IsValid}
use lite_nova.Toasts.Fired.{is_unlimited, fire_all-toasts_left}

abbrev saved : ToastOptions
saved = record { type = info; title = "saved"; message = none; duration = none }

abbrev broken : ToastOptions
broken = record { type = error; title = "broken"; message = some "offline"; duration = none }

abbrev both : Toasts
both = add 30 broken (add 20 saved no_toasts)

both-Reach : Reach both
both-Reach = step (step start (adds 20 saved no_toasts)) (adds 30 broken (add 20 saved no_toasts))

Reach-IsValid_example : IsValid both
Reach-IsValid_example = Reach-IsValid both both-Reach

fire_all-toasts_left_example :
    let s = fire_all (record { count = 1; time = 20 } ∷ []) both in
    (s.timers ≡ []) × (s.toasts ≡ keep (λ t. is_unlimited t.duration) both.toasts)
unfolding add duration_of set_timer
fire_all-toasts_left_example =
    fire_all-toasts_left both (record { count = 1; time = 20 } ∷ []) both-Reach (λ q. refl)
