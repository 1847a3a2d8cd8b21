-- ===== src/Keyboard/Table.antt =====
-- The table m_AsciiCode of mylysos/kbddrv.c: the character for each scan code, in its five rows.
use mylysos.Base.{ℕ, List, [], ◌∷◌}

-- ASCII TABLE.
abbrev pub ascii_org : List ℕ
ascii_org =
    0x00 ∷ 0x1b ∷ 0x31 ∷ 0x32 ∷ 0x33 ∷ 0x34 ∷ 0x35 ∷ 0x36 ∷ 0x37 ∷ 0x38 ∷ 0x39 ∷ 0x30 ∷ 0x2d ∷ 0x3d
    ∷ 0x08 ∷ 0x09 ∷ 0x71 ∷ 0x77 ∷ 0x65 ∷ 0x72 ∷ 0x74 ∷ 0x79 ∷ 0x75 ∷ 0x69 ∷ 0x6f ∷ 0x70 ∷ 0x5b
    ∷ 0x5d ∷ 0x0d ∷ 0x00 ∷ 0x61 ∷ 0x73 ∷ 0x64 ∷ 0x66 ∷ 0x67 ∷ 0x68 ∷ 0x6a ∷ 0x6b ∷ 0x6c ∷ 0x3b
    ∷ 0x27 ∷ 0x60 ∷ 0x00 ∷ 0x5c ∷ 0x7a ∷ 0x78 ∷ 0x63 ∷ 0x76 ∷ 0x62 ∷ 0x6e ∷ 0x6d ∷ 0x2c ∷ 0x2e
    ∷ 0x2f ∷ 0x00 ∷ 0x2a ∷ 0x00 ∷ 0x20 ∷ 0x00 ∷ 0x03 ∷ 0x03 ∷ 0x03 ∷ 0x03 ∷ 0x08 ∷ 0x03 ∷ 0x03
    ∷ 0x03 ∷ 0x03 ∷ 0x03 ∷ 0x00 ∷ 0x00 ∷ 0x00 ∷ 0x00 ∷ 0x00 ∷ 0x2d ∷ 0x00 ∷ 0x00 ∷ 0x00 ∷ 0x2b
    ∷ 0x00 ∷ 0x00 ∷ 0x00 ∷ 0x00 ∷ 0x7f ∷ 0x00 ∷ 0x00 ∷ 0x5c ∷ 0x03 ∷ 0x03 ∷ 0x00 ∷ 0x00 ∷ 0x00
    ∷ 0x00 ∷ 0x00 ∷ 0x00 ∷ 0x00 ∷ 0x0d ∷ 0x00 ∷ 0x2f ∷ 0x00 ∷ 0x00 ∷ 0x00 ∷ 0x00 ∷ 0x00 ∷ 0x00
    ∷ 0x00 ∷ 0x00 ∷ 0x00 ∷ 0x00 ∷ 0x00 ∷ 0x00 ∷ 0x7f ∷ 0x00 ∷ 0x00 ∷ 0x00 ∷ 0x00 ∷ 0x00 ∷ 0x00
    ∷ 0x00 ∷ 0x00 ∷ 0x00 ∷ 0x00 ∷ 0x2f ∷ 0x00 ∷ 0x00 ∷ 0x00 ∷ 0x00 ∷ 0x00 ∷ []

-- ASCII TABLE WITH CAPSLOCK.
abbrev pub ascii_with_capslock : List ℕ
ascii_with_capslock =
    0x00 ∷ 0x1b ∷ 0x31 ∷ 0x32 ∷ 0x33 ∷ 0x34 ∷ 0x35 ∷ 0x36 ∷ 0x37 ∷ 0x38 ∷ 0x39 ∷ 0x30 ∷ 0x2d ∷ 0x3d
    ∷ 0x08 ∷ 0x09 ∷ 0x51 ∷ 0x57 ∷ 0x45 ∷ 0x52 ∷ 0x54 ∷ 0x59 ∷ 0x55 ∷ 0x49 ∷ 0x4f ∷ 0x50 ∷ 0x5b
    ∷ 0x5d ∷ 0x0d ∷ 0x00 ∷ 0x41 ∷ 0x53 ∷ 0x44 ∷ 0x46 ∷ 0x47 ∷ 0x48 ∷ 0x4a ∷ 0x4b ∷ 0x4c ∷ 0x3b
    ∷ 0x27 ∷ 0x60 ∷ 0x00 ∷ 0x5c ∷ 0x5a ∷ 0x58 ∷ 0x43 ∷ 0x56 ∷ 0x42 ∷ 0x4e ∷ 0x4d ∷ 0x2c ∷ 0x2e
    ∷ 0x2f ∷ 0x00 ∷ 0x2a ∷ 0x00 ∷ 0x20 ∷ 0x00 ∷ 0x03 ∷ 0x03 ∷ 0x03 ∷ 0x03 ∷ 0x08 ∷ 0x03 ∷ 0x03
    ∷ 0x03 ∷ 0x03 ∷ 0x03 ∷ 0x00 ∷ 0x00 ∷ 0x00 ∷ 0x00 ∷ 0x00 ∷ 0x2d ∷ 0x00 ∷ 0x00 ∷ 0x00 ∷ 0x2b
    ∷ 0x00 ∷ 0x00 ∷ 0x00 ∷ 0x00 ∷ 0x7f ∷ 0x00 ∷ 0x00 ∷ 0x5c ∷ 0x03 ∷ 0x03 ∷ 0x00 ∷ 0x00 ∷ 0x00
    ∷ 0x00 ∷ 0x00 ∷ 0x00 ∷ 0x00 ∷ 0x0d ∷ 0x00 ∷ 0x2f ∷ 0x00 ∷ 0x00 ∷ 0x00 ∷ 0x00 ∷ 0x00 ∷ 0x00
    ∷ 0x00 ∷ 0x00 ∷ 0x00 ∷ 0x00 ∷ 0x00 ∷ 0x00 ∷ 0x7f ∷ 0x00 ∷ 0x00 ∷ 0x00 ∷ 0x00 ∷ 0x00 ∷ 0x00
    ∷ 0x00 ∷ 0x00 ∷ 0x00 ∷ 0x00 ∷ 0x2f ∷ 0x00 ∷ 0x00 ∷ 0x00 ∷ 0x00 ∷ 0x00 ∷ []

-- ASCII WITH SHIFT.
abbrev pub ascii_with_shift : List ℕ
ascii_with_shift =
    0x00 ∷ 0x1b ∷ 0x21 ∷ 0x40 ∷ 0x23 ∷ 0x24 ∷ 0x25 ∷ 0x5e ∷ 0x26 ∷ 0x2a ∷ 0x28 ∷ 0x29 ∷ 0x5f ∷ 0x2b
    ∷ 0x7e ∷ 0x7e ∷ 0x51 ∷ 0x57 ∷ 0x45 ∷ 0x52 ∷ 0x54 ∷ 0x59 ∷ 0x55 ∷ 0x49 ∷ 0x4f ∷ 0x50 ∷ 0x7b
    ∷ 0x7d ∷ 0x7e ∷ 0x00 ∷ 0x41 ∷ 0x53 ∷ 0x44 ∷ 0x46 ∷ 0x47 ∷ 0x48 ∷ 0x4a ∷ 0x4b ∷ 0x4c ∷ 0x3a
    ∷ 0x27 ∷ 0x7e ∷ 0x00 ∷ 0x7c ∷ 0x5a ∷ 0x58 ∷ 0x43 ∷ 0x56 ∷ 0x42 ∷ 0x4e ∷ 0x4d ∷ 0x3c ∷ 0x3e
    ∷ 0x3f ∷ 0x00 ∷ 0x2a ∷ 0x00 ∷ 0x01 ∷ 0x00 ∷ 0x01 ∷ 0x01 ∷ 0x01 ∷ 0x01 ∷ 0x01 ∷ 0x01 ∷ 0x01
    ∷ 0x01 ∷ 0x01 ∷ 0x01 ∷ 0x00 ∷ 0x00 ∷ 0x00 ∷ 0x00 ∷ 0x00 ∷ 0x2d ∷ 0x00 ∷ 0x00 ∷ 0x00 ∷ 0x2b
    ∷ 0x00 ∷ 0x00 ∷ 0x00 ∷ 0x01 ∷ 0x7f ∷ 0x00 ∷ 0x00 ∷ 0x00 ∷ 0x01 ∷ 0x01 ∷ 0x00 ∷ 0x00 ∷ 0x00
    ∷ 0x00 ∷ 0x00 ∷ 0x00 ∷ 0x00 ∷ 0x0d ∷ 0x00 ∷ 0x2f ∷ 0x00 ∷ 0x00 ∷ 0x00 ∷ 0x00 ∷ 0x00 ∷ 0x00
    ∷ 0x00 ∷ 0x00 ∷ 0x00 ∷ 0x00 ∷ 0x00 ∷ 0x00 ∷ 0x7f ∷ 0x00 ∷ 0x00 ∷ 0x00 ∷ 0x00 ∷ 0x00 ∷ 0x00
    ∷ 0x00 ∷ 0x00 ∷ 0x00 ∷ 0x00 ∷ 0x2f ∷ 0x00 ∷ 0x00 ∷ 0x00 ∷ 0x00 ∷ 0x00 ∷ []

-- ASCII WITH CAPSLOCK & SHIFT.
abbrev pub ascii_with_capslock_shift : List ℕ
ascii_with_capslock_shift =
    0x00 ∷ 0x1b ∷ 0x21 ∷ 0x40 ∷ 0x23 ∷ 0x24 ∷ 0x25 ∷ 0x5e ∷ 0x26 ∷ 0x2a ∷ 0x28 ∷ 0x29 ∷ 0x5f ∷ 0x2b
    ∷ 0x7e ∷ 0x7e ∷ 0x71 ∷ 0x77 ∷ 0x65 ∷ 0x72 ∷ 0x74 ∷ 0x79 ∷ 0x75 ∷ 0x69 ∷ 0x6f ∷ 0x70 ∷ 0x7b
    ∷ 0x7d ∷ 0x7e ∷ 0x00 ∷ 0x61 ∷ 0x73 ∷ 0x64 ∷ 0x66 ∷ 0x67 ∷ 0x68 ∷ 0x6a ∷ 0x6b ∷ 0x6c ∷ 0x3a
    ∷ 0x27 ∷ 0x7e ∷ 0x00 ∷ 0x7c ∷ 0x7a ∷ 0x78 ∷ 0x63 ∷ 0x76 ∷ 0x62 ∷ 0x6e ∷ 0x6d ∷ 0x3c ∷ 0x3e
    ∷ 0x3f ∷ 0x00 ∷ 0x2a ∷ 0x00 ∷ 0x01 ∷ 0x00 ∷ 0x01 ∷ 0x01 ∷ 0x01 ∷ 0x01 ∷ 0x01 ∷ 0x01 ∷ 0x01
    ∷ 0x01 ∷ 0x01 ∷ 0x01 ∷ 0x00 ∷ 0x00 ∷ 0x00 ∷ 0x00 ∷ 0x00 ∷ 0x2d ∷ 0x00 ∷ 0x00 ∷ 0x00 ∷ 0x2b
    ∷ 0x00 ∷ 0x00 ∷ 0x00 ∷ 0x01 ∷ 0x7f ∷ 0x00 ∷ 0x00 ∷ 0x00 ∷ 0x01 ∷ 0x01 ∷ 0x00 ∷ 0x00 ∷ 0x00
    ∷ 0x00 ∷ 0x00 ∷ 0x00 ∷ 0x00 ∷ 0x0d ∷ 0x00 ∷ 0x2f ∷ 0x00 ∷ 0x00 ∷ 0x00 ∷ 0x00 ∷ 0x00 ∷ 0x00
    ∷ 0x00 ∷ 0x00 ∷ 0x00 ∷ 0x00 ∷ 0x00 ∷ 0x00 ∷ 0x7f ∷ 0x00 ∷ 0x00 ∷ 0x00 ∷ 0x00 ∷ 0x00 ∷ 0x00
    ∷ 0x00 ∷ 0x00 ∷ 0x00 ∷ 0x00 ∷ 0x2f ∷ 0x00 ∷ 0x00 ∷ 0x00 ∷ 0x00 ∷ 0x00 ∷ []

-- ASCII WITH CONTROL.
abbrev pub ascii_with_control : List ℕ
ascii_with_control =
    0x00 ∷ 0x00 ∷ 0x02 ∷ 0x02 ∷ 0x02 ∷ 0x02 ∷ 0x02 ∷ 0x02 ∷ 0x02 ∷ 0x02 ∷ 0x02 ∷ 0x02 ∷ 0x00 ∷ 0x00
    ∷ 0x7f ∷ 0x7f ∷ 0x11 ∷ 0x17 ∷ 0x05 ∷ 0x12 ∷ 0x14 ∷ 0x19 ∷ 0x15 ∷ 0x09 ∷ 0x0f ∷ 0x10 ∷ 0x02
    ∷ 0x02 ∷ 0x0a ∷ 0x00 ∷ 0x01 ∷ 0x13 ∷ 0x04 ∷ 0x06 ∷ 0x07 ∷ 0x08 ∷ 0x0a ∷ 0x0b ∷ 0x0c ∷ 0x00
    ∷ 0x00 ∷ 0x00 ∷ 0x00 ∷ 0x00 ∷ 0x1a ∷ 0x18 ∷ 0x03 ∷ 0x16 ∷ 0x02 ∷ 0x0e ∷ 0x0d ∷ 0x00 ∷ 0x00
    ∷ 0x00 ∷ 0x00 ∷ 0x00 ∷ 0x00 ∷ 0x00 ∷ 0x00 ∷ 0x02 ∷ 0x02 ∷ 0x02 ∷ 0x02 ∷ 0x02 ∷ 0x02 ∷ 0x02
    ∷ 0x02 ∷ 0x02 ∷ 0x02 ∷ 0x00 ∷ 0x00 ∷ 0x00 ∷ 0x00 ∷ 0x00 ∷ 0x00 ∷ 0x00 ∷ 0x00 ∷ 0x00 ∷ 0x00
    ∷ 0x00 ∷ 0x00 ∷ 0x00 ∷ 0x02 ∷ 0x00 ∷ 0x00 ∷ 0x00 ∷ 0x00 ∷ 0x02 ∷ 0x02 ∷ 0x00 ∷ 0x00 ∷ 0x00
    ∷ 0x00 ∷ 0x00 ∷ 0x00 ∷ 0x00 ∷ 0x00 ∷ 0x00 ∷ 0x02 ∷ 0x00 ∷ 0x00 ∷ 0x00 ∷ 0x00 ∷ 0x00 ∷ 0x00
    ∷ 0x00 ∷ 0x00 ∷ 0x00 ∷ 0x00 ∷ 0x00 ∷ 0x00 ∷ 0x00 ∷ 0x00 ∷ 0x00 ∷ 0x02 ∷ 0x00 ∷ 0x00 ∷ 0x00
    ∷ 0x00 ∷ 0x00 ∷ 0x00 ∷ 0x00 ∷ 0x00 ∷ 0x00 ∷ 0x00 ∷ 0x00 ∷ 0x00 ∷ 0x00 ∷ []

abbrev pub ascii_code : List (List ℕ)
ascii_code =
    ascii_org ∷ ascii_with_capslock ∷ ascii_with_shift ∷ ascii_with_capslock_shift
    ∷ ascii_with_control ∷ []
