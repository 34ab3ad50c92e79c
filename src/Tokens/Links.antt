-- ===== src/Tokens/Links.antt =====
-- The links that the table of tokens copies and opens.
use Prim.Native.String.{◌++◌}
use lite_nova.Prelude.{Bool, false, not, ap, String, Option, none, some, str_eq, if◌then◌else◌}
use lite_nova.Prelude.{◌∷◌, ◌≡◌, ◌≢◌, refl}
use lite_nova.Effects.{success, warning, open_window}
use lite_nova.Listing.{Listing, show}
use lite_nova.Tokens.{Token}

-- What the handlers read outside the component: the `server_address` of the stored status, which
-- the status may lack, where a status is stored; the stored link of the chat, the origin of the
-- page, and `encodeURIComponent`.
pub record Place : Type 0 where
  pub server_address : Option (Option String)
  pub chat_link : Option String
  pub origin : String
  pub encode : String → String

-- The values of the two menus; `raw` is the empty text.
pub data Link : Type 0 where
  raw next ama opencat lobechat : Link

-- A link that is stored, as a condition.
abbrev pub is_stored : Option String → Bool
is_stored none = false
is_stored (some link) = not (str_eq link "")

-- A link that is stored, as a text: where none is, JavaScript writes "null".
abbrev pub link_text : Option String → String
link_text none = "null"
link_text (some link) = link

-- `serverAddress` of `onCopy`, as its templates write it: what the status lacks is "undefined".
unfoldable pub copy_address : Place → String
copy_address p = elim p.server_address [
  | none ↦ p.origin
  | some none ↦ "undefined"
  | some (some address) ↦ if str_eq address "" then p.origin else address
]

-- `nextUrl` of `onCopy`
unfoldable pub next_url : Place → String → String
unfolding copy_address
next_url p key =
    if is_stored p.chat_link
    then link_text p.chat_link
      ++ ("/#/?settings={\"key\":\"sk-" ++ (key ++ ("\",\"url\":\"" ++ (copy_address p ++ "\"}"))))
    else "https://app.nextchat.dev/#/?settings={\"key\":\"sk-"
      ++ (key ++ ("\",\"url\":\"" ++ (copy_address p ++ "\"}")))

-- The text that `onCopy` copies.
unfoldable pub copied : Place → Link → String → String
unfolding copy_address next_url
copied p ama key = "ama://set-api-key?server=" ++ (p.encode (copy_address p) ++ ("&key=sk-" ++ key))
copied p opencat key =
    "opencat://team/join?domain=" ++ (p.encode (copy_address p) ++ ("&token=sk-" ++ key))
copied p next key = next_url p key
copied p lobechat key =
    link_text p.chat_link
    ++ ("/?settings={\"keyVaults\":{\"openai\":{\"apiKey\":\"sk-"
        ++ (key ++ ("\",\"baseURL\":\"" ++ (copy_address p ++ "/v1\"}}}"))))
copied p raw key = "sk-" ++ key

-- `onCopy`; `copy` says whether the clipboard took the text.
unfoldable pub on_copy :
    Place → (copy : String → Bool) → Link → String → Listing Token → Listing Token
on_copy p copy type key s =
    if copy (copied p type key) then show (success "token.messages.copy_success") s else record s {
      effects = warning "token.messages.copy_failed" ∷ s.effects;
      search_keyword = copied p type key;
    }

-- `serverAddress` of `onOpenLink`
unfoldable pub open_address : Place → String
open_address p = elim p.server_address [
  | none ↦ p.origin
  | some none ↦ "undefined"
  | some (some address) ↦ if str_eq address "" then p.origin else address
]

-- `defaultUrl` of `onOpenLink`
unfoldable pub default_url : Place → String → String
unfolding open_address
default_url p key =
    if is_stored p.chat_link
    then link_text p.chat_link
      ++ ("/#/?settings={\"key\":\"sk-" ++ (key ++ ("\",\"url\":\"" ++ (open_address p ++ "\"}"))))
    else "https://app.nextchat.dev/#/?settings={\"key\":\"sk-"
      ++ (key ++ ("\",\"url\":\"" ++ (open_address p ++ "\"}")))

-- The address that `onOpenLink` opens.
unfoldable pub opened : Place → Link → String → String
unfolding open_address default_url
opened p ama key = "ama://set-api-key?server=" ++ (p.encode (open_address p) ++ ("&key=sk-" ++ key))
opened p opencat key =
    "opencat://team/join?domain=" ++ (p.encode (open_address p) ++ ("&token=sk-" ++ key))
opened p lobechat key =
    link_text p.chat_link
    ++ ("/?settings={\"keyVaults\":{\"openai\":{\"apiKey\":\"sk-"
        ++ (key ++ ("\",\"baseURL\":\"" ++ (open_address p ++ "/v1\"}}}"))))
opened p _ key = default_url p key

-- `onOpenLink`
unfoldable pub on_open_link : Place → Link → String → Listing Token → Listing Token
on_open_link p type key s = show (open_window (opened p type key)) s

open_address-copy_address : (p : Place) → open_address p ≡ copy_address p
unfolding open_address copy_address
open_address-copy_address p = refl

default_url-next_url : (p : Place) (key : String) → default_url p key ≡ next_url p key
unfolding default_url next_url
default_url-next_url p key = refl

opened-copied :
    (p : Place) (type : Link) (key : String) → type ≢ raw → opened p type key ≡ copied p type key
unfolding opened copied
opened-copied p raw key n = absurd (n refl)
opened-copied p next key n = default_url-next_url p key
opened-copied p ama key n =
    ap (λ a. "ama://set-api-key?server=" ++ (p.encode a ++ ("&key=sk-" ++ key)))
      (open_address-copy_address p)
opened-copied p opencat key n = rw (open_address-copy_address p) refl
opened-copied p lobechat key n = rw (open_address-copy_address p) refl

-- Both menus lead to one link, for each of its kinds but the bare key: where the clipboard fails,
-- the search field holds the very link that would be opened.
pub on_open_link-on_copy :
    (p : Place) (type : Link) (key : String) (s : Listing Token)
    → type ≢ raw
    → ((on_open_link p type key s).effects
        ≡ open_window (on_copy p (λ u. false) type key s).search_keyword ∷ s.effects)
      × ((on_copy p (λ u. false) type key s).items ≡ s.items)
unfolding on_open_link on_copy
on_open_link-on_copy p type key s n =
    (ap (λ u. open_window u ∷ s.effects) (opened-copied p type key n), refl)
