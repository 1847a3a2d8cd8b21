-- ===== src/FileSystem/Names.antt =====
-- The names that FsGetFileList makes of the entries of the directory.
use mathlib.Core.List.{append-nil}
use mathlib.Core.Path.{subst}
use mylysos.Base.{
  ℕ, zero, suc, ◌+◌, ◌≤◌, ◌<◌, ◌^◌, ◌≡◌, ◌≢◌, ◌⊎◌, inl, inr, refl, ap, ◌∙◌, List, [], ◌∷◌, ◌++◌,
  length, length-append, arith, ◌==◌, if◌then◌else◌, update, update_self, update_ne, Bool-cases,
}
use mylysos.Strings.Walks.{IsString, terminator, char}
use mylysos.FileSystem.Directory.{DirectoryEntry, copy_part, write_filename}

-- The characters of a part up to a space.
unfoldable pub until_space : (room : ℕ) → (part : ℕ → ℕ) → (j : ℕ) → List ℕ
until_space zero part j = []
until_space (suc room) part j =
    if part j == b' ' then [] else part j ∷ until_space room part (j + 1)

-- The name of an entry: its name, a dot and its extension.
unfoldable pub dotted : DirectoryEntry → List ℕ
dotted e = until_space 8 e.filename 0 ++ b'.' ∷ until_space 3 e.extension 0

-- The bytes of a part are characters.
abbrev pub Plain : (ℕ → ℕ) → Type 0
Plain part = (i : ℕ) → (part i ≢ 0) × (part i < 2 ^ 8)

pub length-until_space : (room : ℕ) (part : ℕ → ℕ) (j : ℕ) → length (until_space room part j) ≤ room
unfolding until_space
length-until_space zero part j = omega arith
length-until_space (suc room) part j = elim (Bool-cases (part j == b' ')) [
  | inl e ↦ rw e (omega arith)
  | inr e ↦ let rest = length-until_space room part (j + 1) in rw e (omega (arith, rest))
]

pub length-dotted : (e : DirectoryEntry) → length (dotted e) ≤ 12
unfolding dotted
length-dotted e =
    let l = until_space 8 e.filename 0 in
    let x = until_space 3 e.extension 0 in
    omega (
      arith,
      length-append l (b'.' ∷ x),
      length-until_space 8 e.filename 0,
      length-until_space 3 e.extension 0,
    )

-- What the loop over a part leaves: `l` at `p`.
record PartCopied (m : ℕ → ℕ) (p j : ℕ) (l : List ℕ) (r : (ℕ → ℕ) × ℕ) : Type 0 where
  reached : r.1 ≡ j + length l
  others : (a : ℕ) → (a < p) ⊎ (p + length l ≤ a) → r.0 a ≡ m a
  chars :
      (n : ℕ → ℕ) (rest : List ℕ)
      → ((a : ℕ) → p ≤ a → a < p + length l → n a ≡ r.0 a)
      → IsString n (p + length l) rest
      → IsString n p (l ++ rest)

PartCopied-nil : (m : ℕ → ℕ) (p j : ℕ) → PartCopied m p j [] (m, j)
PartCopied-nil m p j = record {
  reached = omega arith;
  others = λ a h. refl;
  chars = λ n rest h w. subst (λ x. IsString n x rest) (omega arith) w;
}

PartCopied-cons :
    (m : ℕ → ℕ) (dest j c : ℕ) (l : List ℕ) (r : (ℕ → ℕ) × ℕ)
    → c ≢ 0
    → c < 2 ^ 8
    → PartCopied (update m (dest + j) c) (dest + (j + 1)) (j + 1) l r
    → PartCopied m (dest + j) j (c ∷ l) r
PartCopied-cons m dest j c l r n b d = record {
  reached = omega (arith, d.reached);
  others =
      λ a h. d.others a (ground (arith, h)) ∙ update_ne m (dest + j) c a (λ q. omega (arith, q, h));
  chars = λ k rest h w.
      let first : r.0 (dest + j) ≡ c =
        d.others (dest + j) (inl (omega arith)) ∙ update_self m (dest + j) c in
      char (dest + j) c (l ++ rest) (h (dest + j) (omega arith) (omega arith) ∙ first) n b (
        subst (λ x. IsString k x (l ++ rest)) (omega arith)
          (d.chars k rest (λ a q s. h a (omega (arith, q)) (omega (arith, s)))
            (subst (λ x. IsString k x rest) (omega arith) w)));
}

copy_part-PartCopied :
    (room : ℕ) (part : ℕ → ℕ) (dest j : ℕ) (m : ℕ → ℕ)
    → Plain part
    → PartCopied m (dest + j) j (until_space room part j) (copy_part room part dest j m)
unfolding until_space copy_part
copy_part-PartCopied zero part dest j m plain = PartCopied-nil m (dest + j) j
copy_part-PartCopied (suc room) part dest j m plain = elim (Bool-cases (part j == b' ')) [
  | inl e ↦ rw e (PartCopied-nil m (dest + j) j)
  | inr e ↦ rw e (
      PartCopied-cons m dest j (part j) (until_space room part (j + 1)) _ (plain j).0 (plain j).1
        (copy_part-PartCopied room part dest (j + 1) (update m (dest + j) (part j)) plain))
]

-- What the listing leaves in the array for the name.
pub record Named (before : ℕ → ℕ) (p : ℕ) (e : DirectoryEntry) (after : ℕ → ℕ) : Type 0 where
  pub name : IsString after p (dotted e)
  pub others : (a : ℕ) → (a < p) ⊎ (p + 12 < a) → after a ≡ before a

-- The dot, the extension and the terminator behind the name.
Named-parts :
    (m : ℕ → ℕ) (p : ℕ) (e : DirectoryEntry) (r s : (ℕ → ℕ) × ℕ)
    → PartCopied m (p + 0) 0 (until_space 8 e.filename 0) r
    → PartCopied (update r.0 (p + r.1) b'.') (p + (r.1 + 1) + 0) 0 (until_space 3 e.extension 0) s
    → Named m p e (update s.0 (p + (r.1 + 1) + s.1) 0)
unfolding dotted
Named-parts m p e r s c d =
    let l = until_space 8 e.filename 0 in
    let x = until_space 3 e.extension 0 in
    let short_name = length-until_space 8 e.filename 0 in
    let short_extension = length-until_space 3 e.extension 0 in
    let at_dot = p + r.1 in
    let at_end = p + (r.1 + 1) + s.1 in
    let after = update s.0 at_end 0 in
    let no_end : (a : ℕ) → a < at_end → after a ≡ s.0 a =
      λ a h. update_ne s.0 at_end 0 a (λ q. omega (arith, q, h)) in
    let extension_there : IsString after (p + (r.1 + 1) + 0) (x ++ []) =
      d.chars after [] (λ a q h. no_end a (omega (arith, h, d.reached)))
        (terminator _ (ap after (omega (arith, d.reached)) ∙ update_self s.0 at_end 0)) in
    let dot : after at_dot ≡ b'.' =
      no_end at_dot (omega arith)
      ∙ d.others at_dot (inl (omega arith))
      ∙ update_self r.0 at_dot b'.' in
    let dot_there : IsString after at_dot (b'.' ∷ x) =
      char at_dot b'.' x dot (λ q. omega (arith, q)) (omega arith)
        (subst (λ y. IsString after (at_dot + 1) y) (append-nil x)
          (subst (λ y. IsString after y (x ++ [])) (omega arith) extension_there)) in
    let name_kept : (a : ℕ) → a < at_dot → after a ≡ r.0 a = λ a h.
      no_end a (omega (arith, h))
      ∙ d.others a (inl (omega (arith, h)))
      ∙ update_ne r.0 at_dot b'.' a (λ q. omega (arith, q, h)) in
    record {
      name =
          subst (λ y. IsString after y (l ++ b'.' ∷ x)) (omega arith)
            (c.chars after (b'.' ∷ x) (λ a q h. name_kept a (omega (arith, h, c.reached)))
              (subst (λ y. IsString after y (b'.' ∷ x)) (omega (arith, c.reached)) dot_there));
      others = λ a h.
          update_ne s.0 at_end 0 a
            (λ q. omega (arith, q, h, c.reached, d.reached, short_name, short_extension))
          ∙ d.others a (ground (arith, h, c.reached, short_name, short_extension))
          ∙ update_ne r.0 at_dot b'.' a (λ q. omega (arith, q, h, c.reached, short_name))
          ∙ c.others a (ground (arith, h, short_name));
    }

-- The listing makes the name of an entry out of its two parts, within the 13 bytes of the array.
pub write_filename-Named :
    (m : ℕ → ℕ) (p : ℕ) (e : DirectoryEntry)
    → Plain e.filename
    → Plain e.extension
    → Named m p e (write_filename e p m)
unfolding write_filename
write_filename-Named m p e name extension =
    let r = copy_part 8 e.filename p 0 m in
    Named-parts m p e r _ (copy_part-PartCopied 8 e.filename p 0 m name)
      (copy_part-PartCopied 3 e.extension (p + (r.1 + 1)) 0 (update r.0 (p + r.1) b'.') extension)
