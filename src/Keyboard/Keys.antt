-- ===== src/Keyboard/Keys.antt =====
-- What the translator makes of the keys.
use mylysos.Base.{
  ℕ, ◌<◌, ◌≡◌, ◌≢◌, inl, inr, refl, sym, ap, ◌∙◌, Bool, true, false, ◌||◌, List, [], ◌∷◌, ◌++◌,
  get_or, arith, bit_and, ◌==◌, if◌then◌else◌, Bool-cases,
}
use mylysos.Ring.Fifo.{contents, IsValid}
use mylysos.Keyboard.{
  KbdData, KbdKeyData, kbd_led_capslock, kbd_ktype_general, raw_key_data_q_size,
  user_key_data_q_size, key_family, press_modifier, press_key, release_key, toggle_indicator,
  reset_indicator, translate_key,
}
use mylysos.Keyboard.Table.{ascii_code}

-- Each row that the translator chooses is in the table, and has a character for each scan code.
pub key_family-lt : (d : KbdData) → key_family d < 4
unfolding key_family
key_family-lt d = elim (Bool-cases d.shift_key_pressed) [
  | inl s ↦ elim (Bool-cases (bit_and d.indicator_status kbd_led_capslock == 0)) [
    | inl c ↦ rw (s, c) (omega arith)
    | inr c ↦ rw (s, c) (omega arith)
  ]
  | inr s ↦ elim (Bool-cases (bit_and d.indicator_status kbd_led_capslock == 0)) [
    | inl c ↦ rw (s, c) (omega arith)
    | inr c ↦ rw (s, c) (omega arith)
  ]
]

-- Whether a Shift key is down after some keys.
pub held : Bool → List ℕ → Bool
held b [] = b
held b (k ∷ ks) =
    if (k == 0x2a) || (k == 0x36)
    then held true ks
    else if (k == 0xaa) || (k == 0xb6)
    then held false ks
    else held b ks

pub translate_keys : List ℕ → KbdData → KbdData
translate_keys [] d = d
translate_keys (k ∷ ks) d = translate_keys ks (translate_key k d)

shift_after :
    (k : ℕ) (d : KbdData)
    → (translate_key k d).shift_key_pressed ≡ held d.shift_key_pressed (k ∷ [])
unfolding translate_key release_key toggle_indicator reset_indicator press_key press_modifier held
shift_after k d = ground arith

held-nil : (b : Bool) → b ≡ held b []
unfolding held
held-nil b = refl

held-step : (b : Bool) (k : ℕ) (ks : List ℕ) → held b (k ∷ ks) ≡ held (held b (k ∷ [])) ks
unfolding held
held-step b k ks = ground arith

-- After any keys the translator takes Shift to be down exactly if the last key of the four codes
-- of the two Shift keys was one of the two for pressing, or there was none and it was down before.
pub translate_keys-held :
    (ks : List ℕ) (d : KbdData)
    → (translate_keys ks d).shift_key_pressed ≡ held d.shift_key_pressed ks
unfolding translate_keys
translate_keys-held [] d = held-nil d.shift_key_pressed
translate_keys-held (k ∷ ks) d =
    translate_keys-held ks (translate_key k d)
    ∙ ap (λ b. held b ks) (shift_after k d)
    ∙ sym (held-step d.shift_key_pressed k ks)

-- The scan codes that are passed on.
pub record IsOrdinary (k : ℕ) : Type 0 where
  pub below : k < 0x80
  pub not_num : k ≢ 0x45
  pub not_caps : k ≢ 0x3a
  pub not_scroll : k ≢ 0x46

-- What an ordinary key becomes.
abbrev pub key_data_of : ℕ → KbdData → KbdKeyData
key_data_of k d = record {
  kind = kbd_ktype_general;
  key = get_or (get_or ascii_code (key_family (press_modifier k d)) []) k 0;
}

pub record KeysValid (d : KbdData) : Type 0 where
  pub raw_valid : IsValid raw_key_data_q_size d.raw_keydata_q
  pub user_valid : IsValid user_key_data_q_size d.user_keydata_q

-- The state after a key went through.
pub record PassedOn (d : KbdData) (k : ℕ) (rest : List ℕ) (d' : KbdData) : Type 0 where
  pub valid : KeysValid d'
  pub taken : contents raw_key_data_q_size d'.raw_keydata_q ≡ rest
  pub stored :
      contents user_key_data_q_size d'.user_keydata_q
      ≡ contents user_key_data_q_size d.user_keydata_q ++ key_data_of k d ∷ []
