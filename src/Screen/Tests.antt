-- ===== src/Screen/Tests.antt =====
-- A screen, and the theorems on it.
use mylysos.Base.{◌+◌, ◌*◌, ◌≤◌, ◌<◌, ◌≡◌, inl, refl, [], ◌∷◌, some, arith}
use mylysos.Screen.{
  Screen, screen_cx, screen_cy, print_text_xy_with_attr, next_video_ptr, update_cursor_pos_by_ptr,
  print_text, print_chars, print_char, wrap_ptr, put_cell, key_cr_ptr, key_lf_ptr, set_cursor_pos,
  key_backspace_ptr,
}
use mylysos.Screen.Bounds.{NoTabs, print_text-Inside}

abbrev screen : Screen
screen = record { cursor_x = 79; cursor_y = 1; memory = λ a. 0; ports = [] }

-- An A fills the second line, a CR goes on to the fourth, and a B stands there.
printed : (print_text (some (65 ∷ 13 ∷ 66 ∷ [])) screen).1.cursor_y ≡ 3
unfolding print_text print_text_xy_with_attr print_chars print_char wrap_ptr put_cell key_cr_ptr
    key_lf_ptr next_video_ptr update_cursor_pos_by_ptr set_cursor_pos key_backspace_ptr
printed = refl

text-NoTabs : NoTabs (65 ∷ 13 ∷ [])
unfolding NoTabs
text-NoTabs = (λ e. omega (arith, e), (λ e. omega (arith, e), tt))

print_text-Inside_example :
    ((print_text_xy_with_attr (some (65 ∷ 13 ∷ [])) 0xffff 0xffff 7 screen).1.memory 5 ≡ 0)
    × ((print_text_xy_with_attr (some (65 ∷ 13 ∷ [])) 0xffff 0xffff 7 screen).1.cursor_x
        < screen_cx)
    × ((print_text_xy_with_attr (some (65 ∷ 13 ∷ [])) 0xffff 0xffff 7 screen).1.cursor_x
          + (print_text_xy_with_attr (some (65 ∷ 13 ∷ [])) 0xffff 0xffff 7 screen).1.cursor_y
            * screen_cx
        ≤ screen_cx * screen_cy)
print_text-Inside_example =
    print_text-Inside (65 ∷ 13 ∷ []) 7 5 screen text-NoTabs (omega arith) (inl (omega arith))
