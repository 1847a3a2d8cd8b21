-- ===== src/Strings.antt =====
-- The functions of mylysos/string.c that walk along strings, over a memory of bytes. Their loops
-- run on fuel, `none` where it is used up; a round for each character and one for the terminator is
-- enough.
pub mod Walks
pub mod Changes
mod Tests
use mylysos.Base.{
  ℕ, zero, suc, ◌+◌, not, ◌||◌, Option, none, some, ◌==◌, if◌then◌else◌, sub8, update, leb, u8, ◌-◌,
  ◌&&◌,
}

-- strlen, with the characters counted so far.
unfoldable pub strlen : (fuel : ℕ) → (memory : ℕ → ℕ) → (s counted : ℕ) → Option ℕ
strlen zero memory s counted = none
strlen (suc fuel) memory s counted =
    let rest = strlen fuel memory (s + 1) (counted + 1) in
    if memory s == 0 then some counted else rest

-- strcmp: the bits of the char that is returned.
unfoldable pub strcmp : (fuel : ℕ) → (memory : ℕ → ℕ) → (cs ct : ℕ) → Option ℕ
strcmp zero memory cs ct = none
strcmp (suc fuel) memory cs ct =
    let res = sub8 (memory cs) (memory ct) in
    let rest = strcmp fuel memory (cs + 1) (ct + 1) in
    if not (res == 0) || memory cs == 0 then some res else rest

-- strcpy: the memory behind it.
unfoldable pub strcpy : (fuel : ℕ) → (memory : ℕ → ℕ) → (dest src : ℕ) → Option (ℕ → ℕ)
strcpy zero memory dest src = none
strcpy (suc fuel) memory dest src =
    let written = update memory dest (memory src) in
    let rest = strcpy fuel written (dest + 1) (src + 1) in
    if memory src == 0 then some written else rest

-- memset of `size` bytes to the byte of `ch`.
unfoldable pub memset : (size : ℕ) → (memory : ℕ → ℕ) → (source ch : ℕ) → ℕ → ℕ
memset zero memory source ch = memory
memset (suc size) memory source ch = memset size (update memory source (u8 ch)) (source + 1) ch

-- The char that strupr writes. Chars are signed, so that those from 128 on are below 'a'.
unfoldable pub to_upper : ℕ → ℕ
to_upper c = if leb b'a' c && leb c b'z' then c - b'a' + b'A' else c

-- strupr: the memory behind it; what it returns is its argument.
unfoldable pub strupr : (fuel : ℕ) → (memory : ℕ → ℕ) → (cp : ℕ) → Option (ℕ → ℕ)
strupr zero memory cp = none
strupr (suc fuel) memory cp =
    let rest = strupr fuel (update memory cp (to_upper (memory cp))) (cp + 1) in
    if memory cp == 0 then some memory else rest

-- The loop of strrchr, from `n` characters behind the start down to the start; 0 for NULL.
unfoldable pub search_back : (n : ℕ) → (memory : ℕ → ℕ) → (s c : ℕ) → ℕ
search_back zero memory s c = if memory s == u8 c then s else 0
search_back (suc n) memory s c =
    let rest = search_back n memory s c in if memory (s + suc n) == u8 c then s + suc n else rest

-- strrchr.
unfoldable pub strrchr : (fuel : ℕ) → (memory : ℕ → ℕ) → (s c : ℕ) → Option ℕ
strrchr fuel memory s c = elim (strlen fuel memory s 0) [
  | none ↦ none
  | some n ↦ some (search_back n memory s c)
]

-- The first loop of strcat: the address of the terminator.
unfoldable pub end_of : (fuel : ℕ) → (memory : ℕ → ℕ) → (dest : ℕ) → Option ℕ
end_of zero memory dest = none
end_of (suc fuel) memory dest =
    let rest = end_of fuel memory (dest + 1) in if not (memory dest == 0) then rest else some dest

-- strcat: the memory behind it. Its second loop is that of strcpy; each loop has its own fuel.
unfoldable pub strcat : (fuel rounds : ℕ) → (memory : ℕ → ℕ) → (dest src : ℕ) → Option (ℕ → ℕ)
strcat fuel rounds memory dest src = elim (end_of fuel memory dest) [
  | none ↦ none
  | some end ↦ strcpy rounds memory end src
]
