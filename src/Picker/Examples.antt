-- ===== src/Picker/Examples.antt =====
-- Two hosts, and the keys `w`, arrow down and Enter.
use jump_host.Base.{
  ◌≤◌, ◌≡◌, refl, some, List, [], ◌∷◌, arith, nat_eq, text_eq, text_beq, length, filter, In, Text,
  text, starts_with, index_of,
}
use jump_host.Directory.Host.{Host}
use jump_host.Directory.Samples.{web01}
use jump_host.Picker.Keys.{
  State, shows, visible, done, on, key_of, render, on_key, on_data, run, pick_host,
}
use jump_host.Picker.Choice.{pick_host-enter}
use jump_host.Picker.Rows.{ChosenFrom, pick_host-row}

abbrev same : Text → Text
same t = t

abbrev hosts : List Host
hosts = web01 ∷ []

second : pick_host same hosts (text "w" ∷ (27 ∷ text "[B") ∷ (13 ∷ []) ∷ []) ≡ done (some web01)
unfolding pick_host run on_data on_key key_of render visible shows filter index_of starts_with
    text_beq
second = refl

pick_host-row_example :
    ChosenFrom same hosts
      (pick_host same hosts)
      (text "w" ∷ (27 ∷ text "[B") ∷ (13 ∷ []) ∷ [])
      web01
pick_host-row_example =
    pick_host-row same hosts (text "w" ∷ (27 ∷ text "[B") ∷ (13 ∷ []) ∷ []) web01 second

abbrev typed_w : State
typed_w = record { typed = text "w"; selected = some 0 }

after_w : pick_host same hosts (text "w" ∷ []) ≡ on typed_w
unfolding pick_host run on_data on_key key_of render visible shows filter index_of starts_with
    text_beq
after_w = refl

shown : 1 ≤ length (visible same hosts (text "w"))
unfolding visible shows filter index_of starts_with
shown = omega arith

pick_host-enter_example :
    (h : Host) × (on_data same hosts typed_w (13 ∷ []) ≡ done (some h))
    × In h (visible same hosts (text "w"))
pick_host-enter_example = pick_host-enter same hosts (text "w" ∷ []) typed_w after_w shown
