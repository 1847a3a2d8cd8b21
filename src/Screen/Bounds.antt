-- ===== src/Screen/Bounds.antt =====
-- Printing stays in the video memory, and the cursor stands where the printing ended.
use mathlib.Core.Path.{subst}
use native.Mathlib.Decide.{ℕ_discrete}
use mylysos.Base.{
  ℕ, ◌+◌, ◌-◌, ◌*◌, ◌%◌, ◌≤◌, ◌<◌, ◌≡◌, ◌≢◌, ◌⊎◌, refl, sym, ◌∙◌, List, [], ◌∷◌, some, arith,
  update, update_ne,
}
use mylysos.Screen.{
  Screen, screen_cx, screen_cy, video_buffer_address, video_buffer_end, key_tab, key_cr, key_lf,
  key_backspace, scroll_one_line, key_cr_ptr, key_lf_ptr, key_backspace_ptr, put_cell, wrap_ptr,
  print_char, print_chars, next_video_ptr, update_cursor_pos_by_ptr, set_cursor_pos,
  print_text_xy_with_attr,
}
use mylysos.Screen.Scroll.{scroll_one_line_lem}

unfoldable pub NoTabs : List ℕ → Type 0
NoTabs [] = Unit
NoTabs (c ∷ cs) = (c ≢ key_tab) × NoTabs cs

module _ (a v : ℕ) (o : (a < video_buffer_address) ⊎ (video_buffer_end ≤ a)) where
  -- The pointer is at a cell of the video memory or at its end, and the byte at `a`, outside the
  -- video memory, is `v`.
  pub record Inside (s : ℕ × (ℕ → ℕ)) : Type 0 where
    pub from : video_buffer_address ≤ s.0
    pub to : s.0 ≤ video_buffer_end
    pub even : (s.0 - video_buffer_address) % 2 ≡ 0
    pub kept : s.1 a ≡ v

  scrolled : (m : ℕ → ℕ) → m a ≡ v → scroll_one_line m a ≡ v
  scrolled m e = (scroll_one_line_lem m 0 0 a (omega arith) (omega arith) o).3 ∙ e

  wrap-Inside :
      (p : ℕ) (m : ℕ → ℕ)
      → Inside (p, m)
      → Inside (wrap_ptr (p, m)) × ((wrap_ptr (p, m)).0 < video_buffer_end)
  unfolding wrap_ptr
  wrap-Inside p m h =
      let s = scrolled m h.kept in
      (
        record {
          from = ground (arith, h.to);
          to = ground (arith, h.to);
          even = ground (arith, h.to);
          kept = ground (arith, s, h.kept);
        },
        ground (arith, h.to),
      )

  put_cell-Inside :
      (c attr p : ℕ) (m : ℕ → ℕ)
      → Inside (p, m)
      → p < video_buffer_end
      → Inside (put_cell c attr (p, m))
  unfolding put_cell
  put_cell-Inside c attr p m h lt = record {
    from = omega (arith, h.from);
    to = omega (arith, h.from, h.even);
    even = omega (arith, h.from, h.even);
    kept =
        update_ne _ (p + 1) attr a (λ e. ground (arith, e, o, h.from, h.even))
        ∙ update_ne m p c a (λ e. ground (arith, e, o, h.from))
        ∙ h.kept;
  }

  backspace-Inside : (p : ℕ) (m : ℕ → ℕ) → Inside (p, m) → Inside (key_backspace_ptr (p, m))
  unfolding key_backspace_ptr
  backspace-Inside p m h =
      let kept : video_buffer_address + 2 ≤ p → update m (p - 2) 0x20 a ≡ m a =
        λ q. update_ne m (p - 2) 0x20 a (λ e. ground (arith, e, o, h.to, q)) in
      record {
        from = ground (arith, h.from);
        to = ground (arith, h.to);
        even = ground (arith, h.from, h.even);
        kept = ground (arith, h.kept, kept);
      }

  cr-Inside :
      (p : ℕ) (m : ℕ → ℕ)
      → Inside (p, m)
      → p < video_buffer_end
      → Inside (key_cr_ptr p, m) × (key_cr_ptr p < video_buffer_end)
  unfolding key_cr_ptr
  cr-Inside p m h lt = (
    record {
      from = omega (arith, h.from);
      to = omega (arith, h.to);
      even = omega (arith, h.from, h.even);
      kept = h.kept;
    },
    omega arith,
  )

  lf-Inside :
      (p : ℕ) (m : ℕ → ℕ) → Inside (p, m) → p < video_buffer_end → Inside (key_lf_ptr (p, m))
  unfolding key_lf_ptr
  lf-Inside p m h lt =
      let s = scrolled m h.kept in
      record {
        from = ground (arith, h.from);
        to = ground (arith, h.from);
        even = ground (arith, h.from, h.even);
        kept = ground (arith, s, h.kept);
      }

  -- A character that is not a TAB.
  print_char-Inside :
      (attr c p : ℕ) (m : ℕ → ℕ)
      → c ≢ key_tab
      → Inside (p, m)
      → p < video_buffer_end
      → Inside (print_char attr c (p, m))
  unfolding print_char
  print_char-Inside attr c p m n h lt = elim (ℕ_discrete c key_lf) [
    | yes e ↦ rw e h
    | no lf ↦ elim (ℕ_discrete c key_cr) [
      | yes e ↦ rw e (lf-Inside (key_cr_ptr p) m (cr-Inside p m h lt).0 (cr-Inside p m h lt).1)
      | no cr ↦ elim (ℕ_discrete c key_backspace) [
        | yes e ↦ rw e (backspace-Inside p m h)
        | no back ↦
            let other : print_char attr c (p, m) ≡ put_cell c attr (p, m) =
              ground (arith, n, lf, cr, back) in
            subst Inside (sym other) (put_cell-Inside c attr p m h lt)
      ]
    ]
  ]

  print_chars-Inside :
      (attr : ℕ) (cs : List ℕ) (p : ℕ) (m : ℕ → ℕ)
      → NoTabs cs
      → Inside (p, m)
      → Inside (print_chars attr cs (p, m))
  unfolding print_chars NoTabs
  print_chars-Inside attr [] p m n h = h
  print_chars-Inside attr (c ∷ cs) p m (n, ns) h =
      let (w, lt) = wrap-Inside p m h in
      let (q, m') = wrap_ptr (p, m) in
      let (r, m'') = print_char attr c (q, m') in
      print_chars-Inside attr cs r m'' ns (print_char-Inside attr c q m' n w lt)

-- The cursor stands at the cell to which it was moved.
pub next_video_ptr-update_cursor_pos_by_ptr :
    (p : ℕ) (s : Screen)
    → video_buffer_address ≤ p
    → p ≤ video_buffer_end
    → (p - video_buffer_address) % 2 ≡ 0
    → next_video_ptr (update_cursor_pos_by_ptr p s) ≡ p
unfolding next_video_ptr update_cursor_pos_by_ptr set_cursor_pos
next_video_ptr-update_cursor_pos_by_ptr p s h k e = omega arith

start-Inside :
    (a : ℕ) (s : Screen)
    → s.cursor_x + s.cursor_y * screen_cx ≤ screen_cx * screen_cy
    → (o : (a < video_buffer_address) ⊎ (video_buffer_end ≤ a))
    → Inside a (s.memory a) o (next_video_ptr s, s.memory)
unfolding next_video_ptr
start-Inside a s h o = record {
  from = omega arith;
  to = omega arith;
  even = omega arith;
  kept = refl;
}

-- A text without TABs, printed at a cursor on the screen or just behind its last cell, leaves
-- every byte outside the video memory as it is and the cursor on the screen or just behind it.
pub print_text-Inside :
    (text : List ℕ) (attr a : ℕ) (s : Screen)
    → NoTabs text
    → s.cursor_x + s.cursor_y * screen_cx ≤ screen_cx * screen_cy
    → (a < video_buffer_address) ⊎ (video_buffer_end ≤ a)
    → ((print_text_xy_with_attr (some text) 0xffff 0xffff attr s).1.memory a ≡ s.memory a)
      × ((print_text_xy_with_attr (some text) 0xffff 0xffff attr s).1.cursor_x < screen_cx)
      × ((print_text_xy_with_attr (some text) 0xffff 0xffff attr s).1.cursor_x
            + (print_text_xy_with_attr (some text) 0xffff 0xffff attr s).1.cursor_y * screen_cx
          ≤ screen_cx * screen_cy)
unfolding print_text_xy_with_attr update_cursor_pos_by_ptr set_cursor_pos
print_text-Inside text attr a s n h o =
    let start : Inside a (s.memory a) o (next_video_ptr s, s.memory) = start-Inside a s h o in
    let i = print_chars-Inside a (s.memory a) o attr text (next_video_ptr s) s.memory n start in
    let p = (print_chars attr text (next_video_ptr s, s.memory)).0 in
    (i.kept, omega (arith, i.from, i.to), omega (arith, i.from, i.to))
