-- ===== src/EditChannel/Sent.antt =====
-- What the form of a channel is to send, field by field (web-src/web/src/pages/Channel/EditChannel.js,
-- submit).
use Prim.Native.Char.{Char, code}
use Prim.Native.String.{◌++◌}
use text.Mathlib.TextEquality.{Char-path}
use text.Mathlib.TextLemmas.{nil-append, cons-append}
use lite_nova.Prelude.{
  ◌≡◌, ◌≢◌, ◌⊎◌, inl, inr, refl, sym, ap, ◌∙◌, Bool, true, false, String, Option, none, some, arith,
  Bool-cases, str_eq, eq_iff, ◌&&◌, ◌==◌, ==_iff, ℕ, if◌then◌else◌,
}
use lite_nova.Prelude.Text.{join_comma}
use lite_nova.EditChannel.{Config, Inputs, Wire, Host, is_nil}
use lite_nova.EditChannel.Submit.{is_given, written, compose_key, remove_trailing_slash, to_wire}

-- Three fields of a configuration that are no empty texts.
abbrev pub AreGiven : (a b c : Option String) → Type 0
AreGiven a b c = (a ≢ some "") × (b ≢ some "") × (c ≢ some "")

abbrev pub three : (a b c : Option String) → String
three a b c = written a ++ ("|" ++ (written b ++ ("|" ++ written c)))

-- `k` is the key that the form has: the one that was typed or, where none was, the one that the
-- configuration gives, that of AWS before that of Vertex AI.
abbrev pub IsKey : Config → (typed k : String) → Type 0
IsKey c typed k =
    ((typed ≢ "") × (k ≡ typed))
    ⊎ ((typed ≡ "")
        × ((AreGiven c.ak c.sk c.region × (k ≡ three c.ak c.sk c.region))
            ⊎ ((¬ AreGiven c.ak c.sk c.region)
                × ((AreGiven c.region c.vertex_ai_project_id c.vertex_ai_adc
                      × (k ≡ three c.region c.vertex_ai_project_id c.vertex_ai_adc))
                    ⊎ ((¬ AreGiven c.region c.vertex_ai_project_id c.vertex_ai_adc) × (k ≡ ""))))))

-- A complete form with a key: a new channel has a name and the key is not empty, there is a model
-- unless the type needs none, and a model mapping is JSON.
abbrev pub IsComplete : Host → Bool → (k : String) → Inputs → Type 0
IsComplete h edit k i =
    ((edit ≡ true) ⊎ ((i.name ≢ "") × (k ≢ "")))
    × ((i.type ≡ 43) ⊎ (is_nil i.models ≡ false))
    × ((i.model_mapping ≡ "") ⊎ (h.verify_json i.model_mapping ≡ true))

-- A text without the slash that it ends in, if it ends in one.
abbrev pub IsTrimmed : (before after : String) → Type 0
IsTrimmed before after =
    (after ++ "/" ≡ before) ⊎ ((after ≡ before) × (¬ ((u : String) × (u ++ "/" ≡ before))))

abbrev pub HasOther : Inputs → String → Type 0
HasOther i other =
    ((i.type ≡ 3) × (i.other ≡ "") × (other ≡ "2024-03-01-preview"))
    ⊎ ((¬ ((i.type ≡ 3) × (i.other ≡ ""))) × (other ≡ i.other))

abbrev pub HasKey : (k sent : String) → Type 0
HasKey k sent =
    ((k ≡ "undefined|undefined|undefined") × (sent ≡ ""))
    ⊎ ((k ≢ "undefined|undefined|undefined") × (sent ≡ k))

-- What is sent of a form with a key.
abbrev pub IsSent : Host → Config → (k : String) → Inputs → Wire → Type 0
IsSent h c k i w =
    (w.name ≡ i.name)
    × (w.type ≡ i.type)
    × (w.models ≡ join_comma i.models)
    × (w.group ≡ join_comma i.groups)
    × (w.model_mapping ≡ i.model_mapping)
    × (w.system_prompt ≡ i.system_prompt)
    × (w.config ≡ h.stringify c)
    × HasKey k w.key
    × IsTrimmed i.base_url w.base_url
    × HasOther i w.other

are_given :
    (a b c : Option String) → (is_given a && (is_given b && is_given c)) ≡ true → AreGiven a b c
are_given a b c h = (given a (ground arith), given b (ground arith), given c (ground arith))
  where
    given : (o : Option String) → is_given o ≡ true → o ≢ some ""
    given none h e = cc
    given (some v) h e = ground (arith, eq_iff v "")

not_given :
    (a b c : Option String) → (is_given a && (is_given b && is_given c)) ≡ false → ¬ AreGiven a b c
not_given a b c h (p, q, r) =
    let x : is_given a ≡ true = given a p in
    let y : is_given b ≡ true = given b q in let z : is_given c ≡ true = given c r in ground arith
  where
    given : (o : Option String) → o ≢ some "" → is_given o ≡ true
    given none h = refl
    given (some v) h = elim (Bool-cases (str_eq v "")) [
      | inl e ↦ absurd (h (ap some ((eq_iff v "").0 e)))
      | inr e ↦ rw e refl
    ]

pub compose_key-IsKey : (c : Config) (typed : String) → IsKey c typed (compose_key c typed)
unfolding compose_key
compose_key-IsKey c typed = elim (Bool-cases (str_eq typed "")) [
  | inr e ↦ rw e (inl (λ q. cc (e, (eq_iff typed "").1 q), refl))
  | inl e ↦ elim (Bool-cases (is_given c.ak && (is_given c.sk && is_given c.region))) [
    | inl q ↦ rw (e, q) (inr ((eq_iff typed "").0 e, inl (are_given c.ak c.sk c.region q, refl)))
    | inr q ↦
        elim (Bool-cases
          (is_given c.region && (is_given c.vertex_ai_project_id && is_given c.vertex_ai_adc))) [
            | inl r ↦
                rw (e, q, r)
                  (inr (
                    (eq_iff typed "").0 e,
                    inr (
                      not_given c.ak c.sk c.region q,
                      inl (are_given c.region c.vertex_ai_project_id c.vertex_ai_adc r, refl),
                    ),
                  ))
            | inr r ↦
                rw (e, q, r)
                  (inr (
                    (eq_iff typed "").0 e,
                    inr (
                      not_given c.ak c.sk c.region q,
                      inr (
                        not_given c.region c.vertex_ai_project_id c.vertex_ai_adc r,
                        (eq_iff typed "").0 e,
                      ),
                    ),
                  ))
          ]
  ]
]

abbrev tail : String → String
tail String.[] = ""
tail (String.◌∷◌ c s) = s

abbrev head : String → ℕ
head String.[] = 0
head (String.◌∷◌ c s) = code c

no_slash_end : ¬ ((u : String) × (u ++ "/" ≡ ""))
no_slash_end (String.[], e) = cc (nil-append "/", e)
no_slash_end (String.◌∷◌ c u, e) = cc (cons-append c u "/", e)

IsTrimmed-cons :
    (c : Char) (s t : String) → s ≢ "" → IsTrimmed s t → IsTrimmed (String.◌∷◌ c s) (String.◌∷◌ c t)
IsTrimmed-cons c s t n (inl e) = inl (cons-append c t "/" ∙ ap (String.◌∷◌ c) e)
IsTrimmed-cons c s t n (inr (e, none_there)) = inr (ap (String.◌∷◌ c) e, on_rest)
  where
    on_rest : ¬ ((u : String) × (u ++ "/" ≡ String.◌∷◌ c s))
    on_rest (String.[], q) = n (sym (ap tail (sym (nil-append "/") ∙ q)))
    on_rest (String.◌∷◌ d u, q) = none_there (u, ap tail (sym (cons-append d u "/") ∙ q))

IsTrimmed-one : (c : Char) → IsTrimmed (String.◌∷◌ c "") (remove_trailing_slash (String.◌∷◌ c ""))
unfolding remove_trailing_slash
IsTrimmed-one c = elim (Bool-cases (code c == 47)) [
  | inl e ↦
      let slash : c ≡ "/" = Char-path c "/" ((==_iff (code c) 47).0 e) in
      rw e (inl (nil-append "/" ∙ ap (λ d. String.◌∷◌ d "") (sym slash)))
  | inr e ↦ rw e (inr (refl, on_rest e))
]
  where
    on_rest : (code c == 47) ≡ false → ¬ ((u : String) × (u ++ "/" ≡ String.◌∷◌ c ""))
    on_rest e (String.[], q) =
        let k : 47 ≡ code c = ap head (sym (nil-append "/") ∙ q) in ground arith
    on_rest e (String.◌∷◌ d u, q) = no_slash_end (u, ap tail (sym (cons-append d u "/") ∙ q))

pub remove_trailing_slash-IsTrimmed : (s : String) → IsTrimmed s (remove_trailing_slash s)
unfolding remove_trailing_slash
remove_trailing_slash-IsTrimmed String.[] = inr (refl, no_slash_end)
remove_trailing_slash-IsTrimmed (String.◌∷◌ c String.[]) = IsTrimmed-one c
remove_trailing_slash-IsTrimmed (String.◌∷◌ c (String.◌∷◌ d s)) =
    IsTrimmed-cons c (String.◌∷◌ d s) (remove_trailing_slash (String.◌∷◌ d s)) (λ e. cc)
      (remove_trailing_slash-IsTrimmed (String.◌∷◌ d s))

pub to_wire-IsSent :
    (h : Host) (c : Config) (k : String) (i : Inputs)
    → IsSent h c k i (to_wire h c (record i { key = k }))
unfolding to_wire
to_wire-IsSent h c k i = (
  refl,
  refl,
  refl,
  refl,
  refl,
  refl,
  refl,
  key k,
  remove_trailing_slash-IsTrimmed i.base_url,
  other i.type i.other,
)
  where
    key : (k : String) → HasKey k (if str_eq k "undefined|undefined|undefined" then "" else k)
    key k = elim (Bool-cases (str_eq k "undefined|undefined|undefined")) [
      | inl e ↦ rw e (inl ((eq_iff k _).0 e, refl))
      | inr e ↦ rw e (inr (λ q. cc (e, (eq_iff k _).1 q), refl))
    ]

    other :
        (type : ℕ) (o : String)
        → ((type ≡ 3)
            × (o ≡ "")
            × ((if type == 3 && str_eq o "" then "2024-03-01-preview" else o)
                ≡ "2024-03-01-preview"))
          ⊎ ((¬ ((type ≡ 3) × (o ≡ "")))
              × ((if type == 3 && str_eq o "" then "2024-03-01-preview" else o) ≡ o))
    other type o = elim (Bool-cases (type == 3 && str_eq o "")) [
      | inl e ↦ rw e (inl (ground (arith, eq_iff o ""), ground (arith, eq_iff o ""), refl))
      | inr e ↦ rw e (inr (λ (p, q). ground (arith, eq_iff o ""), refl))
    ]
