-- ===== src/Sessions/Countdown.antt =====
-- The button that is disabled for half a minute (the second effect of
-- components/PasswordResetForm.js; components/PasswordResetConfirm.js and
-- components/RegisterForm.js have the same).
use lite_nova.Prelude.{
  ℕ, zero, suc, ◌-◌, ◌≡◌, ap, refl, ◌∙◌, Bool, true, false, ◌&&◌, ltb, ◌==◌, if◌then◌else◌, arith,
}

pub record Countdown : Type 0 where
  pub disable_button : Bool
  pub countdown : ℕ

abbrev pub ready : Countdown
ready = record { disable_button = false; countdown = 30 }

-- The effect, which runs after a change: it sets the interval (`ticks`), or starts again at 0.
unfoldable pub ticks : Countdown → Bool
ticks c = c.disable_button && ltb 0 c.countdown

unfoldable pub settle : Countdown → Countdown
unfolding ticks
settle c = if ticks c then c else (if c.countdown == 0 then ready else c)

-- One second: the interval, if it is set, counts down, and the effect runs.
unfoldable pub second : Countdown → Countdown
unfolding ticks settle
second c = if ticks c then settle (record c { countdown = c.countdown - 1 }) else c

unfoldable pub seconds : ℕ → Countdown → Countdown
unfolding second
seconds zero c = c
seconds (suc n) c = seconds n (second c)

-- `setDisableButton(true)`
abbrev pub press : Countdown → Countdown
press c = record c { disable_button = true }

seconds-ready : (n : ℕ) → seconds n ready ≡ ready
unfolding seconds second ticks
seconds-ready zero = refl
seconds-ready (suc n) = seconds-ready n

abbrev pub running : ℕ → Countdown
running k = record { disable_button = true; countdown = k }

second-running : (k : ℕ) → second (running (suc k)) ≡ (if k == 0 then ready else running k)
unfolding second settle ticks
second-running k = ground arith

seconds-running :
    (n k : ℕ) → seconds n (running (suc k)) ≡ (if ltb n (suc k) then running (suc k - n) else ready)
unfolding seconds
seconds-running zero k = ground arith
seconds-running (suc n) zero = ap (seconds n) (second-running 0) ∙ seconds-ready n ∙ ground arith
seconds-running (suc n) (suc k) =
    ap (seconds n) (second-running (suc k) ∙ ground arith) ∙ seconds-running n k ∙ ground arith

-- A button that is pressed stays disabled and counts down one for each second, and it is enabled
-- again, with the full count, once as many seconds are over as it had left.
pub seconds-press :
    (n k : ℕ) (b : Bool)
    → seconds n (press (record { disable_button = b; countdown = suc k }))
      ≡ (if ltb n (suc k) then running (suc k - n) else ready)
seconds-press n k b = seconds-running n k
