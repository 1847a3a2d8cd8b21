-- ===== src/Keyboard.antt =====
-- The keyboard driver, mylysos/kbddrv.c. A round of the translator thread is one function. The
-- waits for the controller are left out; the writes to its port are listed in their order.
pub mod Table
pub mod Keys
mod Tests
use mylysos.Base.{
  ℕ, ◌+◌, ◌-◌, Bool, true, false, ◌||◌, Option, none, some, List, [], ◌∷◌, ◌++◌, bit_and, bit_or,
  ltb, leb, ◌==◌, if◌then◌else◌, get_or,
}
use mylysos.Ring.{RingQueue, push_item, pop_item, empty_queue}
use mylysos.Keyboard.Table.{ascii_code}

abbrev pub kbd_led_scrolllock : ℕ
kbd_led_scrolllock = 0x01

abbrev pub kbd_led_numlock : ℕ
kbd_led_numlock = 0x02

abbrev pub kbd_led_capslock : ℕ
kbd_led_capslock = 0x04

abbrev pub raw_key_data_q_size : ℕ
raw_key_data_q_size = 64

abbrev pub user_key_data_q_size : ℕ
user_key_data_q_size = 32

abbrev pub kbd_ktype_general : ℕ
kbd_ktype_general = 0

pub record KbdKeyData : Type 0 where
  pub kind : ℕ
  pub key : ℕ

pub record KbdData : Type 0 where
  pub indicator_status : ℕ
  pub shift_key_pressed : Bool
  pub ctrl_key_pressed : Bool
  pub alt_key_pressed : Bool
  pub raw_keydata_q : RingQueue ℕ
  pub user_keydata_q : RingQueue KbdKeyData
  pub ports : List (ℕ × ℕ)

-- KbdpPushRawKeyData and KbdpPopRawKeyData.
abbrev pub push_raw_key_data : ℕ → RingQueue ℕ → Bool × RingQueue ℕ
push_raw_key_data = push_item raw_key_data_q_size

abbrev pub pop_raw_key_data : RingQueue ℕ → Option ℕ × RingQueue ℕ
pop_raw_key_data = pop_item raw_key_data_q_size

-- KbdpPushUserKeyData and KbdpPopUserKeyData.
abbrev pub push_user_key_data : KbdKeyData → RingQueue KbdKeyData → Bool × RingQueue KbdKeyData
push_user_key_data = push_item user_key_data_q_size

abbrev pub pop_user_key_data : RingQueue KbdKeyData → Option KbdKeyData × RingQueue KbdKeyData
pop_user_key_data = pop_item user_key_data_q_size

-- KbdpResetIndicator.
unfoldable pub reset_indicator : KbdData → KbdData
reset_indicator d = record d { ports = d.ports ++ (0x60, 0xed) ∷ (0x60, d.indicator_status) ∷ [] }

-- The part of KbdInitializeDriver on the data.
unfoldable pub initialize_driver : (ports : List (ℕ × ℕ)) → KbdData
initialize_driver ports = reset_indicator (record {
  indicator_status = kbd_led_numlock;
  shift_key_pressed = false;
  ctrl_key_pressed = false;
  alt_key_pressed = false;
  raw_keydata_q = empty_queue (λ i. 0);
  user_keydata_q = empty_queue (λ i. record { kind = 0; key = 0 });
  ports = ports;
})

-- KbdGetKey.
unfoldable pub get_key : KbdData → Option KbdKeyData × KbdData
get_key d = let (k, q) = pop_user_key_data d.user_keydata_q in (k, record d { user_keydata_q = q })

-- Kbd_IRQ_Handler, when the port reads `key_code`.
unfoldable pub irq_handler : (key_code : ℕ) → KbdData → KbdData
irq_handler key_code d =
    if (key_code == 0xff) || (key_code == 0x00)
    then d
    else if key_code == 0xfa
    then d
    else record d { raw_keydata_q = (push_raw_key_data key_code d.raw_keydata_q).1 }

-- The branch of the translator for a key that is released.
unfoldable pub release_key : (raw_key : ℕ) → KbdData → KbdData
release_key raw_key d =
    if (raw_key == 0xaa) || (raw_key == 0xb6)
    then record d { shift_key_pressed = false }
    else if raw_key == 0xb8
    then record d { alt_key_pressed = false }
    else if raw_key == 0x9d
    then record d { ctrl_key_pressed = false }
    else d

-- The branch at $reset.
unfoldable pub toggle_indicator : (indicator : ℕ) → KbdData → KbdData
toggle_indicator indicator d = reset_indicator (record d {
  indicator_status =
      if bit_and d.indicator_status indicator == 0
      then bit_or d.indicator_status indicator
      else bit_and d.indicator_status (0xff - indicator);
})

-- The keys that are held down while others are pressed.
unfoldable pub press_modifier : (raw_key : ℕ) → KbdData → KbdData
press_modifier raw_key d =
    if (raw_key == 0x2a) || (raw_key == 0x36)
    then record d { shift_key_pressed = true }
    else if raw_key == 0x1d
    then record d { ctrl_key_pressed = true }
    else if raw_key == 0x38
    then record d { alt_key_pressed = true }
    else d

-- The row of the table.
unfoldable pub key_family : KbdData → ℕ
key_family d =
    let shifted = bit_or 0x00 (if d.shift_key_pressed then 0x02 else 0) in
    bit_or shifted (if bit_and d.indicator_status kbd_led_capslock == 0 then 0 else 0x01)

unfoldable pub press_key : (raw_key : ℕ) → KbdData → KbdData
press_key raw_key d =
    let d = press_modifier raw_key d in
    let key = get_or (get_or ascii_code (key_family d) []) raw_key 0 in
    record d {
      user_keydata_q =
          (push_user_key_data (record { kind = kbd_ktype_general; key = key }) d.user_keydata_q).1;
    }

-- What KbdpTranslatorThread does with a key.
unfoldable pub translate_key : (raw_key : ℕ) → KbdData → KbdData
translate_key raw_key d =
    if leb 0x80 raw_key
    then release_key raw_key d
    else if raw_key == 0x45
    then toggle_indicator kbd_led_numlock d
    else if raw_key == 0x3a
    then toggle_indicator kbd_led_capslock d
    else if raw_key == 0x46
    then toggle_indicator kbd_led_scrolllock d
    else press_key raw_key d

-- A round of KbdpTranslatorThread; the first result is false where it gives way to another task.
unfoldable pub translator_round : KbdData → Bool × KbdData
translator_round d =
    let (k, q) = pop_raw_key_data d.raw_keydata_q in
    let d = record d { raw_keydata_q = q } in
    elim k [ none ↦ (false, d) | some raw_key ↦ (true, translate_key raw_key d) ]
