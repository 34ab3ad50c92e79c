-- ===== src/Toasts.antt =====
-- The toasts of the design system and their timers
-- (frontend/T-003-design-system/src/composables/use-toast.ts).
pub mod Laws
pub mod Fired
pub mod Tests
use lite_nova.Prelude.{
  ℕ, suc, ◌+◌, Bool, false, not, ◌&&◌, String, List, [], ◌∷◌, Option, none, some, keep, push, map,
  ltb, ◌==◌, if◌then◌else◌,
}
use lite_nova.Prelude.Int.{ℤ, pos, negsuc, pos_part}

-- `ln-toast-${count}-${time}`, by its two numbers.
pub record ToastId : Type 0 where
  pub count : ℕ
  pub time : ℕ

unfoldable pub same_id : ToastId → ToastId → Bool
same_id a b = (a.count == b.count) && (a.time == b.time)

pub data ToastType : Type 0 where
  success info warning error : ToastType

pub record ToastItem : Type 0 where
  pub id : ToastId
  pub type : ToastType
  pub title : String
  pub message : Option String
  pub duration : ℤ

pub record ToastOptions : Type 0 where
  pub type : ToastType
  pub title : String
  pub message : Option String
  pub duration : Option ℤ

-- `DEFAULT_DURATIONS`
unfoldable pub default_duration : ToastType → ℤ
default_duration error = pos 0
default_duration _ = pos 5000

-- The shared state. `timers` holds for each toast whose timer is set when it is due; a timer that is
-- not cleared before is fired then, and calls `remove`.
pub record Toasts : Type 0 where
  pub id_counter : ℕ
  pub timers : List (ToastId × ℕ)
  pub toasts : List ToastItem

abbrev pub no_toasts : Toasts
no_toasts = record { id_counter = 0; timers = []; toasts = [] }

-- `options.duration ?? DEFAULT_DURATIONS[options.type]`
unfoldable pub duration_of : ToastOptions → ℤ
unfolding default_duration
duration_of options = elim options.duration [
  | none ↦ default_duration options.type
  | some duration ↦ duration
]

-- `timers.set(id, timer)`
unfoldable pub set_timer : ToastId → ℕ → List (ToastId × ℕ) → List (ToastId × ℕ)
unfolding same_id
set_timer id due [] = (id, due) ∷ []
set_timer id due ((i, d) ∷ timers) =
    if same_id i id then (i, due) ∷ timers else (i, d) ∷ set_timer id due timers

-- `duration > 0`
abbrev pub is_positive : ℤ → Bool
is_positive (pos n) = ltb 0 n
is_positive (negsuc n) = false

-- `generateId` at the time `now`, with the counter behind it
abbrev pub generate_id : (now : ℕ) → Toasts → ToastId
generate_id now s = record { count = suc s.id_counter; time = now }

-- `add` at the time `now`
unfoldable pub add : (now : ℕ) → ToastOptions → Toasts → Toasts
unfolding duration_of set_timer
add now options s =
    let id = generate_id now s in
    let duration = duration_of options in
    record {
      id_counter = suc s.id_counter;
      timers =
          if is_positive duration
          then set_timer id (now + pos_part duration) s.timers
          else s.timers;
      toasts = push s.toasts (record {
        id = id;
        type = options.type;
        title = options.title;
        message = options.message;
        duration = duration;
      });
    }

-- `remove`
unfoldable pub remove : ToastId → Toasts → Toasts
unfolding same_id
remove id s = record s {
  timers = keep (λ t. not (same_id t.0 id)) s.timers;
  toasts = keep (λ t. not (same_id t.id id)) s.toasts;
}

-- `clear`
unfoldable pub clear : Toasts → Toasts
clear s = record s { timers = []; toasts = [] }

-- The timers that are fired, one after the other.
unfoldable pub fire_all : List ToastId → Toasts → Toasts
unfolding remove
fire_all [] s = s
fire_all (id ∷ ids) s = fire_all ids (remove id s)

-- What can happen: a toast is added, one is removed (by its user or its timer), or all are cleared.
pub data Step : Toasts → Toasts → Type 0 where
  adds : (now : ℕ) (options : ToastOptions) (s : Toasts) → Step s (add now options s)
  removes : (id : ToastId) (s : Toasts) → Step s (remove id s)
  clears : (s : Toasts) → Step s (clear s)

pub data Reach : Toasts → Type 0 where
  start : Reach no_toasts
  step : {s s' : Toasts} → Reach s → Step s s' → Reach s'
