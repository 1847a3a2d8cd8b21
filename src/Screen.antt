-- ===== src/Screen.antt =====
-- The screen driver, mylysos/6845crt.c. The bytes of the memory are named by their address, the
-- writes to ports are listed in their order, and a text is the list of its bytes without the 0 at
-- its end.
pub mod Scroll
pub mod Bounds
mod Tests
use mylysos.Base.{
  ℕ, zero, suc, ◌+◌, ◌-◌, ◌*◌, ◌/◌, ◌%◌, ◌^◌, Bool, true, false, ◌&&◌, List, [], ◌∷◌, ◌++◌, Option,
  none, some, ltb, leb, ◌==◌, if◌then◌else◌, update, u8, u16,
}

abbrev pub screen_cx : ℕ
screen_cx = 80

abbrev pub screen_cy : ℕ
screen_cy = 25

abbrev pub video_buffer_address : ℕ
video_buffer_address = 0xb8000

abbrev pub video_buffer_size : ℕ
video_buffer_size = screen_cx * screen_cy * 2

abbrev pub video_buffer_end : ℕ
video_buffer_end = video_buffer_address + video_buffer_size

abbrev pub default_attribute : ℕ
default_attribute = 7

abbrev pub key_lf : ℕ
key_lf = 10

abbrev pub key_cr : ℕ
key_cr = 13

abbrev pub key_tab : ℕ
key_tab = 9

abbrev pub key_backspace : ℕ
key_backspace = 8

pub record Screen : Type 0 where
  pub cursor_x : ℕ
  pub cursor_y : ℕ
  pub memory : ℕ → ℕ
  pub ports : List (ℕ × ℕ)

-- A loop that copies bytes upwards one by one.
unfoldable pub copy_bytes : ℕ → (dst src : ℕ) → (ℕ → ℕ) → ℕ → ℕ
copy_bytes zero dst src m = m
copy_bytes (suc n) dst src m = copy_bytes n (dst + 1) (src + 1) (update m dst (m src))

-- A loop that writes blanks.
unfoldable pub blank_cells : ℕ → (p : ℕ) → (ℕ → ℕ) → ℕ → ℕ
blank_cells zero p m = m
blank_cells (suc n) p m = blank_cells n (p + 2) (update (update m p 0x20) (p + 1) default_attribute)

-- CrtpScrollOneLine: its first loop runs over all the lines but the first, its second over the
-- last line.
unfoldable pub scroll_one_line : (ℕ → ℕ) → ℕ → ℕ
scroll_one_line m = blank_cells screen_cx (video_buffer_end - screen_cx * 2) (
    copy_bytes (video_buffer_size - screen_cx * 2) video_buffer_address
      (video_buffer_address + screen_cx * 2) m)

-- CrtpKeyCR, on the pointer into the video memory.
unfoldable pub key_cr_ptr : ℕ → ℕ
key_cr_ptr p = let x = u16 ((p - video_buffer_address) / 2 % screen_cx) in p - x * 2

-- CrtpKeyLF, on the pointer and the memory.
unfoldable pub key_lf_ptr : ℕ × (ℕ → ℕ) → ℕ × (ℕ → ℕ)
key_lf_ptr (p, m) =
    let pos = (p - video_buffer_address) / 2 in
    let y = u16 (pos / screen_cx) in
    let x = u16 (pos % screen_cx) in
    if y == screen_cy - 1
    then (video_buffer_end - (screen_cx - x) * 2, scroll_one_line m)
    else (p + screen_cx * 2, m)

-- CrtpKeyBackspace.
unfoldable pub key_backspace_ptr : ℕ × (ℕ → ℕ) → ℕ × (ℕ → ℕ)
key_backspace_ptr (p, m) =
    if ltb p (video_buffer_address + 2) then (p, m) else (p - 2, update m (p - 2) 0x20)

-- A character cell.
unfoldable pub put_cell : (c attr : ℕ) → ℕ × (ℕ → ℕ) → ℕ × (ℕ → ℕ)
put_cell c attr (p, m) = (p + 2, update (update m p c) (p + 1) attr)

-- The test at the head of the loop of CrtPrintTextXYWithAttr.
unfoldable pub wrap_ptr : ℕ × (ℕ → ℕ) → ℕ × (ℕ → ℕ)
wrap_ptr (p, m) = if leb video_buffer_end p then (p - screen_cx * 2, scroll_one_line m) else (p, m)

-- The rest of its body, for the character `c`.
unfoldable pub print_char : (attr c : ℕ) → ℕ × (ℕ → ℕ) → ℕ × (ℕ → ℕ)
print_char attr c (p, m) =
    if c == key_lf
    then (p, m)
    else if c == key_cr
    then key_lf_ptr (key_cr_ptr p, m)
    else if c == key_backspace
    then key_backspace_ptr (p, m)
    else if c == key_tab
    then put_cell 0x20 attr (put_cell 0x20 attr (put_cell 0x20 attr (put_cell 0x20 attr (p, m))))
    else put_cell c attr (p, m)

-- The loop.
unfoldable pub print_chars : (attr : ℕ) → List ℕ → ℕ × (ℕ → ℕ) → ℕ × (ℕ → ℕ)
print_chars attr [] s = s
print_chars attr (c ∷ cs) s = print_chars attr cs (print_char attr c (wrap_ptr s))

-- CrtpGetNextVideoPtrWithPos.
unfoldable pub next_video_ptr_with_pos : (x y : ℕ) → ℕ
next_video_ptr_with_pos x y = video_buffer_address + (x + y * screen_cx) * 2

-- CrtpGetNextVideoPtr.
unfoldable pub next_video_ptr : Screen → ℕ
next_video_ptr s = video_buffer_address + (s.cursor_x + s.cursor_y * screen_cx) * 2

-- CrtpSetCursorPos.
unfoldable pub set_cursor_pos : (x y : ℕ) → Screen → Screen
set_cursor_pos x y s =
    let pos = x + y * screen_cx in
    record s {
      cursor_x = x;
      cursor_y = y;
      ports =
          s.ports
          ++ (0x3d4, 0x0e) ∷ (0x3d5, u8 (pos / 2 ^ 8)) ∷ (0x3d4, 0x0f) ∷ (0x3d5, u8 pos) ∷ [];
    }

-- CrtpUpdateCursorPosByPtr.
unfoldable pub update_cursor_pos_by_ptr : ℕ → Screen → Screen
update_cursor_pos_by_ptr p s =
    let pos = (p - video_buffer_address) / 2 in
    set_cursor_pos (u16 (pos % screen_cx)) (u16 (pos / screen_cx)) s

-- CrtPrintTextXYWithAttr; `none` is the null pointer.
unfoldable pub print_text_xy_with_attr : Option (List ℕ) → (x y attr : ℕ) → Screen → Bool × Screen
print_text_xy_with_attr none x y attr s = (false, s)
print_text_xy_with_attr (some text) x y attr s =
    let start =
      if (x == 0xffff) && (y == 0xffff) then next_video_ptr s else next_video_ptr_with_pos x y in
    let (p, m) = print_chars attr text (start, s.memory) in
    (true, update_cursor_pos_by_ptr p (record s { memory = m }))

-- CrtPrintText.
unfoldable pub print_text : Option (List ℕ) → Screen → Bool × Screen
print_text text s = print_text_xy_with_attr text 0xffff 0xffff default_attribute s

-- CrtClearScreen.
unfoldable pub clear_screen : Screen → Screen
clear_screen s =
    set_cursor_pos 0 0
      (record s { memory = blank_cells (screen_cx * screen_cy) video_buffer_address s.memory })

-- CrtInitializeDriver.
unfoldable pub initialize_driver : Screen → Bool × Screen
initialize_driver s = (true, clear_screen s)

-- CrtGetCursorPos.
unfoldable pub get_cursor_pos : Screen → ℕ × ℕ
get_cursor_pos s = (u8 s.cursor_x, u8 s.cursor_y)
