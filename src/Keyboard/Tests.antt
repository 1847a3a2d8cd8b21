-- ===== src/Keyboard/Tests.antt =====
-- Keys that are typed, and the theorems on them.
use mylysos.Base.{◌≡◌, refl, some, [], ◌∷◌, update}
use mylysos.Ring.{empty_queue, push_item, pop_item, next_index}
use mylysos.Keyboard.{
  KbdData, initialize_driver, reset_indicator, irq_handler, translator_round, get_key,
  translate_key, press_key, press_modifier, key_family, toggle_indicator,
}
use mylysos.Keyboard.Keys.{held, translate_keys, translate_keys-held}

abbrev idle : KbdData
idle = initialize_driver []

-- Caps Lock, then the key of A: the interrupts fill the raw queue, two rounds of the translator
-- pass it on, and a capital A is read.
abbrev typed : KbdData
typed = (translator_round (translator_round (irq_handler 0x1e (irq_handler 0x3a idle))).1).1

typed_key : (get_key typed).0 ≡ some (record { kind = 0; key = 65 })
unfolding get_key translator_round irq_handler initialize_driver reset_indicator translate_key
    press_key press_modifier key_family toggle_indicator push_item pop_item next_index update
typed_key = refl

translate_keys-held_example :
    (translate_keys (0x2a ∷ 0x1e ∷ 0xaa ∷ []) idle).shift_key_pressed
    ≡ held idle.shift_key_pressed (0x2a ∷ 0x1e ∷ 0xaa ∷ [])
translate_keys-held_example = translate_keys-held (0x2a ∷ 0x1e ∷ 0xaa ∷ []) idle

-- One key waits in the raw queue.
abbrev waiting_key : KbdData
waiting_key = record idle { raw_keydata_q = (push_item 64 0x1e (empty_queue (λ i. 0))).1 }
