-- ===== src/Listing/Keeps.antt =====
-- Every update keeps the invariant and frees no object, as one statement for the handlers.
use lite_nova.Prelude.{
  ℕ, ◌≤◌, ◌≡◌, Bool, List, [], ◌∷◌, ◌++◌, arith, length, get_elem?, length-append, length-modify,
  Bool-cases, Option-cases, inl, inr, ◌==◌,
}
use lite_nova.Effects.{Effect, Outcome, done, threw, after, show_error, ◌>>=◌}
use lite_nova.Listing.{Listing, set_rows, push_rows, place_rows, set_row, sort_rows, catch_error}
use lite_nova.Listing.Refs.{Below-le}
use lite_nova.Listing.Valid.{
  IsSeen, IsValid, Keeps, set_rows-IsValid, splice_rows-IsValid, push_rows-IsValid, set_row-IsValid,
  sort_rows-IsValid,
}

module _ {Row : Type 0} where
  pub place_rows-Keeps :
      (seen : List ℕ) (start : ℕ) (rows : List Row) (s : Listing Row)
      → IsSeen seen s
      → IsValid s
      → Keeps s (place_rows seen start rows s)
  unfolding place_rows
  place_rows-Keeps seen start rows s h v =
      let more : length s.heap ≤ length (s.heap ++ rows) =
        omega (arith, length-append s.heap rows) in
      elim (Bool-cases (start == 0)) [
        | inl e ↦ rw e (set_rows-IsValid rows s v, more)
        | inr e ↦ rw e (splice_rows-IsValid seen start rows s h v, more)
      ]

  pub set_rows-Keeps : (rows : List Row) (s : Listing Row) → IsValid s → Keeps s (set_rows rows s)
  unfolding set_rows
  set_rows-Keeps rows s v = (set_rows-IsValid rows s v, omega (arith, length-append s.heap rows))

  pub push_rows-Keeps : (rows : List Row) (s : Listing Row) → IsValid s → Keeps s (push_rows rows s)
  unfolding push_rows
  push_rows-Keeps rows s v = (push_rows-IsValid rows s v, omega (arith, length-append s.heap rows))

  length-set_row :
      (seen : List ℕ) (i : ℕ) (f : Row → Row) (s : Listing Row)
      → length (after (set_row seen i f s)).heap ≡ length s.heap
  unfolding set_row
  length-set_row seen i f s = elim (Option-cases (get_elem? seen i)) [
    | inl e ↦ rw (e, set_row)
    | inr (r, e) ↦ rw (e, set_row) (length-modify s.heap r f)
  ]

  pub set_row-Keeps :
      (seen : List ℕ) (i : ℕ) (f : Row → Row) (s : Listing Row)
      → IsSeen seen s
      → IsValid s
      → Keeps s (after (set_row seen i f s))
  set_row-Keeps seen i f s h v =
      (set_row-IsValid seen i f s h v, omega (arith, length-set_row seen i f s))

  pub sort_rows-Keeps :
      (id : Row → ℕ) (gt : Row → Row → Bool) (seen : List ℕ) (s : Listing Row)
      → IsSeen seen s
      → IsValid s
      → Keeps s (sort_rows id gt seen s)
  sort_rows-Keeps id gt seen s h v = (sort_rows-IsValid id gt seen s h v, same seen)
    where
      same : (seen : List ℕ) → length s.heap ≤ length (sort_rows id gt seen s).heap
      same [] = unfold sort_rows in omega arith
      same (r ∷ seen) = unfold sort_rows in omega arith

  -- An array that was captured before is still good after such a change.
  pub IsSeen-Keeps : (seen : List ℕ) (s t : Listing Row) → IsSeen seen s → Keeps s t → IsSeen seen t
  IsSeen-Keeps seen s t h k = (Below-le _ _ seen k.1 h.0, h.1)

  pub Keeps-refl : (s : Listing Row) → IsValid s → Keeps s s
  Keeps-refl s v = (v, omega arith)

  pub Keeps-trans : (s t u : Listing Row) → Keeps s t → Keeps t u → Keeps s u
  Keeps-trans s t u h k = (k.0, omega arith)

  -- What follows on a handler that has ended keeps the invariant if it does so from there.
  pub bind-Keeps :
      (s : Listing Row) (o : Outcome (Listing Row)) (k : Listing Row → Outcome (Listing Row))
      → Keeps s (after o)
      → ((t : Listing Row) → Keeps s t → Keeps s (after (k t)))
      → Keeps s (after (o >>= k))
  bind-Keeps s (done t) k h next = next t h
  bind-Keeps s (threw e t) k h next = h

  pub catch_error-Keeps :
      (s : Listing Row) (o : Outcome (Listing Row))
      → Keeps s (after o)
      → Keeps s (after (catch_error o))
  unfolding catch_error
  catch_error-Keeps s (done t) h = h
  catch_error-Keeps s (threw e t) h = on_show (show_error e t.effects)
    where
      on_show :
          (o : Outcome (List Effect))
          → Keeps s (
              after {S = Listing Row} (elim o [
                | done shown ↦ done (record t { effects = shown })
                | threw e' shown ↦ threw e' (record t { effects = shown })
              ]))
      on_show (done shown) = h
      on_show (threw e' shown) = h
