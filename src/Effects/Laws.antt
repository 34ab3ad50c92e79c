-- ===== src/Effects/Laws.antt =====
-- When `showError` itself throws, and the cases of a reply.
use lite_nova.Prelude.{
  ◌≡◌, refl, ◌≢◌, ◌⊎◌, inl, inr, ℕ, String, List, ◌∷◌, Option, none, some, eq_iff, str_eq, ◌==◌,
  false, Bool-cases,
}
use lite_nova.Effects.{
  Effect, Failure, text, error_object, Reply, rejected, resolved, Answer, Outcome, done, threw,
  show_error, show_error_text, show_status, show_axios, type_error,
}

pub Reply-cases :
    {A : Type 0} (r : Reply A)
    → ((e : Failure) × (r ≡ rejected e)) ⊎ ((a : Answer A) × (r ≡ resolved a))
Reply-cases (rejected e) = inl (e, refl)
Reply-cases (resolved a) = inr (a, refl)

-- An error object of Axios for a request that no server answered.
abbrev pub IsUnanswered : Failure → Type 0
IsUnanswered (text message) = ⊥
IsUnanswered (error_object name message response) =
    (name ≡ "AxiosError") × (message ≢ "") × (response ≡ none)

-- The outcome is one that leaves the messages as they were and throws a TypeError.
abbrev pub ThrowsQuietly : List Effect → Outcome (List Effect) → Type 0
ThrowsQuietly shown o = o ≡ threw type_error shown

-- The outcome ends, and at most one message was put before the others.
abbrev pub Ends : List Effect → Outcome (List Effect) → Type 0
Ends shown o = (o ≡ done shown) ⊎ ((x : Effect) × (o ≡ done (x ∷ shown)))

show_error_text-Ends :
    (message : String) (shown : List Effect) → Ends shown (done (show_error_text message shown))
unfolding show_error_text
show_error_text-Ends message shown = elim (Bool-cases (str_eq message "")) [
  | inl e ↦ rw e (inl refl)
  | inr e ↦ rw e (inr (_, refl))
]

show_status-Ends :
    (status : ℕ) (message : String) (shown : List Effect)
    → Ends shown (done (show_status status message shown))
unfolding show_status
show_status-Ends status message shown = elim (Bool-cases (status == 401)) [
  | inl e ↦ rw e (inr (_, refl))
  | inr e ↦ rw e (elim (Bool-cases (status == 429)) [
    | inl e' ↦ rw e' (inr (_, refl))
    | inr e' ↦ rw e' (elim (Bool-cases (status == 500)) [
      | inl f ↦ rw f (inr (_, refl))
      | inr f ↦ rw f (elim (Bool-cases (status == 405)) [
        | inl f' ↦ rw f' (inr (_, refl))
        | inr f' ↦ rw f' (inr (_, refl))
      ])
    ])
  ])
]

-- `showError` throws exactly on an Axios error with a message and without a response: it is then a
-- TypeError, and no message was shown. On everything else it ends, with at most one message.
pub show_error-Throws_iff :
    (e : Failure) (shown : List Effect)
    → (ThrowsQuietly shown (show_error e shown) × IsUnanswered e)
      ⊎ (Ends shown (show_error e shown) × (¬ IsUnanswered e))
unfolding show_error
show_error-Throws_iff (text message) shown = inr (show_error_text-Ends message shown, λ h. h)
show_error-Throws_iff (error_object name message response) shown =
    elim (Bool-cases (str_eq message "")) [
      | inl e ↦ rw e (inr (inr (_, refl), λ h. h.1 ((eq_iff message "").0 e)))
      | inr e ↦ elim (Bool-cases (str_eq name "AxiosError")) [
        | inr e' ↦
            rw (e, e') (inr (inr (_, refl), λ h. let q = (eq_iff name "AxiosError").1 h.0 in cc))
        | inl e' ↦ rw (e, e') (axios response ((eq_iff name "AxiosError").0 e') (unequal e))
      ]
    ]
  where
    unequal : str_eq message "" ≡ false → message ≢ ""
    unequal e h = let q = (eq_iff message "").1 h in cc

    axios :
        (response : Option ℕ)
        → name ≡ "AxiosError"
        → message ≢ ""
        → (ThrowsQuietly shown (show_axios message response shown)
            × ((name ≡ "AxiosError") × (message ≢ "") × (response ≡ none)))
          ⊎ (Ends shown (show_axios message response shown)
              × (¬ ((name ≡ "AxiosError") × (message ≢ "") × (response ≡ none))))
    axios none h n = inl (refl, (h, n, refl))
    axios (some status) h n = inr (show_status-Ends status message shown, λ k. let q = k.2 in cc)
