-- ===== src/Channels/Panel.antt =====
-- The switches of the table of channels and the local storage behind them.
use lite_nova.Prelude.{◌≡◌, refl, Bool, true, false, not, str_eq}
use lite_nova.Channels.Manage.{
  ChannelsTable, toggle_show_detail, dismiss_prompt, remount, bool_text,
}

stored : (b : Bool) → str_eq (bool_text b) "true" ≡ b
stored true = refl
stored false = refl

-- What the user chose is what the next mount shows, for the details and for the prompt.
pub remount-toggle_show_detail :
    (s : ChannelsTable)
    → ((remount (toggle_show_detail s s)).show_detail ≡ not s.show_detail)
      × ((remount (dismiss_prompt s)).show_prompt ≡ false)
      × ((remount (toggle_show_detail s s)).show_prompt ≡ (remount s).show_prompt)
      × ((remount (dismiss_prompt s)).show_detail ≡ (remount s).show_detail)
unfolding remount toggle_show_detail dismiss_prompt
remount-toggle_show_detail s = (stored (not s.show_detail), refl, refl, refl)
