-- ===== src/Screen/Scroll.antt =====
-- What scrolling and clearing write.
use mylysos.Base.{
  ℕ, zero, suc, ◌+◌, ◌-◌, ◌*◌, ◌≤◌, ◌<◌, ◌≡◌, ◌⊎◌, inl, refl, sym, ap, ◌∙◌, arith, update,
  update_self, update_ne,
}
use mylysos.Screen.{
  copy_bytes, blank_cells, scroll_one_line, screen_cx, video_buffer_address, video_buffer_size,
  video_buffer_end, default_attribute,
}

-- Outside the bytes it writes a copy leaves the memory as it is.
pub copy_bytes-outside :
    (n dst src : ℕ) (m : ℕ → ℕ) (a : ℕ) → (a < dst) ⊎ (dst + n ≤ a) → copy_bytes n dst src m a ≡ m a
unfolding copy_bytes
copy_bytes-outside zero dst src m a o = refl
copy_bytes-outside (suc n) dst src m a o =
    copy_bytes-outside n (dst + 1) (src + 1) (update m dst (m src)) a (ground (arith, o))
    ∙ update_ne m dst (m src) a (λ e. omega (arith, e, o))

-- A copy to lower addresses moves the old bytes.
pub copy_bytes-inside :
    (n dst d : ℕ) (m : ℕ → ℕ) (i : ℕ)
    → 0 < d
    → i < n
    → copy_bytes n dst (dst + d) m (dst + i) ≡ m (dst + d + i)
unfolding copy_bytes
copy_bytes-inside zero dst d m i p q = absurd (omega arith)
copy_bytes-inside (suc n) dst d m zero p q =
    let a : dst + 0 ≡ dst = omega arith in
    let b : dst + d + 0 ≡ dst + d = omega arith in
    ap (copy_bytes n (dst + 1) (dst + d + 1) (update m dst (m (dst + d)))) a
    ∙ copy_bytes-outside n (dst + 1) (dst + d + 1) (update m dst (m (dst + d))) dst
        (inl (omega arith))
    ∙ update_self m dst (m (dst + d))
    ∙ ap m (sym b)
copy_bytes-inside (suc n) dst d m (suc i) p q =
    let m' = update m dst (m (dst + d)) in
    let a : dst + d + 1 ≡ dst + 1 + d = omega arith in
    let b : dst + suc i ≡ dst + 1 + i = omega arith in
    let c : dst + 1 + d + i ≡ dst + d + suc i = omega arith in
    ap (λ s. copy_bytes n (dst + 1) s m' (dst + suc i)) a
    ∙ ap (copy_bytes n (dst + 1) (dst + 1 + d) m') b
    ∙ copy_bytes-inside n (dst + 1) d m' i p (omega arith)
    ∙ update_ne m dst (m (dst + d)) (dst + 1 + d + i) (λ e. omega (arith, e))
    ∙ ap m c

pub blank_cells-outside :
    (n p : ℕ) (m : ℕ → ℕ) (a : ℕ) → (a < p) ⊎ (p + n * 2 ≤ a) → blank_cells n p m a ≡ m a
unfolding blank_cells
blank_cells-outside zero p m a o = refl
blank_cells-outside (suc n) p m a o =
    blank_cells-outside n (p + 2) _ a (ground (arith, o))
    ∙ update_ne _ (p + 1) default_attribute a (λ e. omega (arith, e, o))
    ∙ update_ne m p 0x20 a (λ e. omega (arith, e, o))

pub blank_cells-inside :
    (n p : ℕ) (m : ℕ → ℕ) (i : ℕ)
    → i < n
    → (blank_cells n p m (p + i * 2) ≡ 0x20)
      × (blank_cells n p m (p + i * 2 + 1) ≡ default_attribute)
unfolding blank_cells
blank_cells-inside zero p m i q = absurd (omega arith)
blank_cells-inside (suc n) p m zero q =
    let m' = update (update m p 0x20) (p + 1) default_attribute in
    let a : p + 0 * 2 ≡ p = omega arith in
    let b : p + 0 * 2 + 1 ≡ p + 1 = omega arith in
    (
      ap (blank_cells n (p + 2) m') a
          ∙ blank_cells-outside n (p + 2) m' p (inl (omega arith))
          ∙ update_ne _ (p + 1) default_attribute p (λ e. omega (arith, e))
          ∙ update_self m p 0x20,
      ap (blank_cells n (p + 2) m') b
          ∙ blank_cells-outside n (p + 2) m' (p + 1) (inl (omega arith))
          ∙ update_self _ (p + 1) default_attribute,
    )
blank_cells-inside (suc n) p m (suc i) q =
    let m' = update (update m p 0x20) (p + 1) default_attribute in
    let a : p + suc i * 2 ≡ p + 2 + i * 2 = omega arith in
    let (x, y) = blank_cells-inside n (p + 2) m' i (omega arith) in
    (ap (blank_cells n (p + 2) m') a ∙ x, ap (λ j. blank_cells n (p + 2) m' (j + 1)) a ∙ y)

-- CrtpScrollOneLine moves each byte of the lines from the second on up by one line, leaves blanks
-- in the last line, and writes nothing outside the video memory.
pub scroll_one_line_lem :
    (m : ℕ → ℕ) (i j a : ℕ)
    → i < video_buffer_size - screen_cx * 2
    → j < screen_cx
    → (a < video_buffer_address) ⊎ (video_buffer_end ≤ a)
    → (scroll_one_line m (video_buffer_address + i) ≡ m (video_buffer_address + screen_cx * 2 + i))
      × (scroll_one_line m (video_buffer_end - screen_cx * 2 + j * 2) ≡ 0x20)
      × (scroll_one_line m (video_buffer_end - screen_cx * 2 + j * 2 + 1) ≡ default_attribute)
      × (scroll_one_line m a ≡ m a)
unfolding scroll_one_line
scroll_one_line_lem m i j a p q o =
    let moved =
      copy_bytes (video_buffer_size - screen_cx * 2) video_buffer_address
        (video_buffer_address + screen_cx * 2) m in
    let last = video_buffer_end - screen_cx * 2 in
    let (x, y) = blank_cells-inside screen_cx last moved j q in
    (
      blank_cells-outside screen_cx last moved (video_buffer_address + i) (inl (omega arith))
          ∙ copy_bytes-inside (video_buffer_size - screen_cx * 2) video_buffer_address
              (screen_cx * 2) m i (omega arith) p,
      x,
      y,
      blank_cells-outside screen_cx last moved a (ground (arith, o))
          ∙ copy_bytes-outside (video_buffer_size - screen_cx * 2) video_buffer_address
              (video_buffer_address + screen_cx * 2) m a (ground (arith, o)),
    )
