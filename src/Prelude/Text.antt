-- ===== src/Prelude/Text.antt =====
-- `split(',')` and `join(',')` of JavaScript, over native strings.

use Prim.Native.Char.{Char, code}
use Prim.Native.String.{String, [], ◌∷◌, ◌++◌}
use mathlib.Core.Path.{◌≡◌, refl, sym, ap, ◌∙◌}
use mathlib.Core.Logic.{◌≢◌, inl, inr}
use mathlib.Core.List.{List, [], ◌∷◌}
use native.Mathlib.Omega.{arith}
use text.Mathlib.TextEquality.{Char-path}
use text.Mathlib.TextLemmas.{nil-append, cons-append}
use lite_nova.Prelude.Tests.{◌==◌, if◌then◌else◌, Bool-cases, ==_iff}
use lite_nova.Prelude.Lists.{All}

-- One more character in front of the first part.
abbrev push_front : Char → List String → List String
push_front c [] = (c ∷ "") ∷ []
push_front c (p ∷ ps) = (c ∷ p) ∷ ps

-- `s.split(',')`
unfoldable pub split_comma : String → List String
split_comma [] = "" ∷ []
split_comma (c ∷ s) =
    let rest = split_comma s in if code c == b',' then "" ∷ rest else push_front c rest

-- `ps.join(',')`
unfoldable pub join_comma : List String → String
join_comma [] = ""
join_comma (p ∷ []) = p
join_comma (p ∷ q ∷ ps) = p ++ ("," ++ join_comma (q ∷ ps))

abbrev pub NoComma : String → Type 0
NoComma [] = Unit
NoComma (c ∷ s) = (code c ≢ b',') × NoComma s

split_comma_of_NoComma : (p : String) → NoComma p → split_comma p ≡ p ∷ []
unfolding split_comma
split_comma_of_NoComma [] h = refl
split_comma_of_NoComma (c ∷ s) (n, h) = ground (arith, split_comma_of_NoComma s h)

split_comma-append : (p r : String) → NoComma p → split_comma (p ++ ("," ++ r)) ≡ p ∷ split_comma r
unfolding split_comma
split_comma-append [] r h = rw (nil-append, cons-append, nil-append)
split_comma-append (c ∷ p) r (n, h) =
    rw (cons-append c p ("," ++ r)) (ground (arith, split_comma-append p r h))

-- A non-empty list of texts without commas comes back from `join` and `split`.
pub split_comma-join_comma :
    (p : String) (ps : List String)
    → All NoComma (p ∷ ps)
    → split_comma (join_comma (p ∷ ps)) ≡ p ∷ ps
unfolding join_comma
split_comma-join_comma p [] h = split_comma_of_NoComma p h.0
split_comma-join_comma p (q ∷ ps) h =
    split_comma-append p (join_comma (q ∷ ps)) h.0 ∙ ap (p ∷◌) (split_comma-join_comma q ps h.1)

join_comma-push_front :
    (c : Char) (p : String) (ps : List String)
    → join_comma (push_front c (p ∷ ps)) ≡ c ∷ join_comma (p ∷ ps)
unfolding join_comma
join_comma-push_front c p [] = refl
join_comma-push_front c p (q ∷ ps) = cons-append c p ("," ++ join_comma (q ∷ ps))

join_comma-comma :
    (c : Char) (p : String) (ps : List String)
    → code c ≡ b','
    → join_comma ("" ∷ p ∷ ps) ≡ c ∷ join_comma (p ∷ ps)
unfolding join_comma
join_comma-comma c p ps e =
    rw (nil-append, cons-append, nil-append)
      (ap (λ d. d ∷ join_comma (p ∷ ps)) (sym (Char-path c "," e)))

pub split_comma-cons : (s : String) → (p : String) × (ps : List String) × (split_comma s ≡ p ∷ ps)
unfolding split_comma
split_comma-cons [] = ("", [], refl)
split_comma-cons (c ∷ s) = elim (Bool-cases (code c == b',')) [
  | inl e ↦ ("", split_comma s, rw e)
  | inr e ↦ let (p, ps, q) = split_comma-cons s in (c ∷ p, ps, rw (e, q))
]

-- Joining what was split gives the text back.
pub join_comma-split_comma : (s : String) → join_comma (split_comma s) ≡ s
unfolding split_comma
join_comma-split_comma [] = unfold join_comma in refl
join_comma-split_comma (c ∷ s) =
    let (p, ps, q) = split_comma-cons s in
    let ih : join_comma (p ∷ ps) ≡ s = ap join_comma (sym q) ∙ join_comma-split_comma s in
    elim (Bool-cases (code c == b',')) [
      | inl e ↦ rw (e, q) (join_comma-comma c p ps ((==_iff _ _).0 e) ∙ ap (c ∷◌) ih)
      | inr e ↦ rw (e, q) (join_comma-push_front c p ps ∙ ap (c ∷◌) ih)
    ]
