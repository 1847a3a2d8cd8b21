-- ===== src/Strings/Walks.antt =====
-- What the walks along strings give.
use mathlib.Core.Path.{subst}
use mylysos.Base.{
  ℕ, suc, ◌+◌, ◌≤◌, ◌<◌, ◌^◌, ◌≡◌, ◌≢◌, ◌⊎◌, inl, inr, refl, sym, ap, ◌∙◌, Option, some, List, [],
  ◌∷◌, length, arith, false, ◌==◌, zero, not, ◌||◌, sub8, update, update_self, update_ne, drop,
  get_or, Bool-cases,
}
use mylysos.Strings.{strlen, strcmp, strcpy}

-- The characters stand in memory from an address on, with a terminator behind them.
pub data IsString (memory : ℕ → ℕ) : ℕ → List ℕ → Type 0 where
  terminator : (p : ℕ) → memory p ≡ 0 → IsString memory p []
  char :
      (p : ℕ) (c : ℕ) (cs : List ℕ)
      → memory p ≡ c
      → c ≢ 0
      → c < 2 ^ 8
      → IsString memory (p + 1) cs
      → IsString memory p (c ∷ cs)

strlen-from :
    (memory : ℕ → ℕ) (s counted : ℕ) (cs : List ℕ)
    → IsString memory s cs
    → strlen (suc (length cs)) memory s counted ≡ some (counted + length cs)
unfolding strlen
strlen-from memory s counted _ (terminator _ e) = ground (arith, e)
strlen-from memory s counted _ (char _ c cs e n b rest) =
    let test : (memory s == 0) ≡ false = ground (arith, e, n) in
    rw (strlen, test) (strlen-from memory (s + 1) (counted + 1) cs rest ∙ ap some (omega arith))

-- strlen counts the characters of a string.
pub strlen-length :
    (memory : ℕ → ℕ) (s : ℕ) (cs : List ℕ)
    → IsString memory s cs
    → strlen (suc (length cs)) memory s 0 ≡ some (length cs)
strlen-length memory s cs w = strlen-from memory s 0 cs w ∙ ap some (omega arith)

-- What strcmp says of two strings.
pub data Compared (cs ds : List ℕ) : Option ℕ → Type 0 where
  same : cs ≡ ds → Compared cs ds (some 0)
  different : (r : ℕ) → r ≢ 0 → cs ≢ ds → Compared cs ds (some r)

Compared-cons :
    (c : ℕ) {cs ds : List ℕ} {o : Option ℕ} → Compared cs ds o → Compared (c ∷ cs) (c ∷ ds) o
Compared-cons c (same e) = same (ap (λ l. c ∷ l) e)
Compared-cons c (different r n d) = different r n (λ e. d (ap (drop 1) e))

strcmp-stops :
    (memory : ℕ → ℕ) (fuel s t : ℕ) (cs ds : List ℕ)
    → sub8 (memory s) (memory t) ≢ 0
    → cs ≢ ds
    → Compared cs ds (strcmp (suc fuel) memory s t)
unfolding strcmp
strcmp-stops memory fuel s t cs ds n d =
    let test : (sub8 (memory s) (memory t) == 0) ≡ false = ground (arith, n) in
    rw (strcmp, test) (different _ n d)

-- strcmp gives 0 for equal strings, and another value for different ones.
pub strcmp-Compared :
    (memory : ℕ → ℕ) (s t : ℕ) (cs ds : List ℕ)
    → IsString memory s cs
    → IsString memory t ds
    → Compared cs ds (strcmp (suc (length cs)) memory s t)
unfolding strcmp
strcmp-Compared memory s t _ _ (terminator _ e) (terminator _ f) = rw (strcmp, e, f) (same refl)
strcmp-Compared memory s t _ _ (terminator _ e) (char _ d ds f n b rest) =
    strcmp-stops memory 0 s t [] (d ∷ ds) (λ z. omega (arith, z, e, f, n, b))
      (λ q. n (sym (ap (λ l. get_or l 0 0) q)))
strcmp-Compared memory s t _ _ (char _ c cs e n b rest) (terminator _ f) =
    strcmp-stops memory (suc (length cs)) s t (c ∷ cs) [] (λ z. omega (arith, z, e, f, n, b))
      (λ q. n (ap (λ l. get_or l 0 0) q))
strcmp-Compared memory s t _ _ (char _ c cs e n b rest) (char _ d ds f m a more) =
    elim (Bool-cases (c == d)) [
      | inl q ↦
          let eq : c ≡ d = ground (arith, q) in
          let zero_res : sub8 (memory s) (memory t) ≡ 0 = omega (arith, e, f, eq) in
          let test : (memory s == 0) ≡ false = ground (arith, e, n) in
          rw (strcmp, zero_res, test)
            (subst
              (λ x. Compared (c ∷ cs) (x ∷ ds) (strcmp (suc (length cs)) memory (s + 1) (t + 1))) eq
              (Compared-cons c (strcmp-Compared memory (s + 1) (t + 1) cs ds rest more)))
      | inr q ↦
          strcmp-stops memory (suc (length cs)) s t (c ∷ cs) (d ∷ ds)
            (λ z. ground (arith, z, e, f, b, a, q))
            (λ p. ground (arith, q, ap (λ l. get_or l 0 0) p))
    ]

strcmp-longer :
    (f g : ℕ) (memory : ℕ → ℕ) (s t r : ℕ)
    → f ≤ g
    → strcmp f memory s t ≡ some r
    → strcmp g memory s t ≡ some r
unfolding strcmp
strcmp-longer zero g memory s t r le e = ground (arith, e)
strcmp-longer (suc f) zero memory s t r le e = absurd (omega (arith, le))
strcmp-longer (suc f) (suc g) memory s t r le e =
    let more = strcmp-longer f g memory (s + 1) (t + 1) r (omega (arith, le)) in
    elim (Bool-cases (not (sub8 (memory s) (memory t) == 0) || memory s == 0)) [
      | inl q ↦ rw q (sym (rw q refl) ∙ e)
      | inr q ↦ rw q (more (sym (rw q refl) ∙ e))
    ]

Compared-result : {cs ds : List ℕ} {o : Option ℕ} → Compared cs ds o → (r : ℕ) × (o ≡ some r)
Compared-result (same e) = (0, refl)
Compared-result (different r n d) = (r, refl)

-- strcmp with at least as much fuel.
pub strcmp-Compared_longer :
    (fuel : ℕ) (memory : ℕ → ℕ) (s t : ℕ) (cs ds : List ℕ)
    → length cs < fuel
    → IsString memory s cs
    → IsString memory t ds
    → Compared cs ds (strcmp fuel memory s t)
strcmp-Compared_longer fuel memory s t cs ds enough v w =
    let c = strcmp-Compared memory s t cs ds v w in
    let (r, e) = Compared-result c in
    let longer = strcmp-longer (suc (length cs)) fuel memory s t r (omega (arith, enough)) e in
    subst (Compared cs ds) (e ∙ sym longer) c

-- Where two memories agree on a string, it stands in both.
pub IsString-agree :
    (m n : ℕ → ℕ) (p : ℕ) (cs : List ℕ)
    → IsString m p cs
    → ((a : ℕ) → p ≤ a → a ≤ p + length cs → n a ≡ m a)
    → IsString n p cs
IsString-agree m n p _ (terminator _ e) h = terminator p (h p (omega arith) (omega arith) ∙ e)
IsString-agree m n p _ (char _ c cs e z b rest) h =
    char p c cs (h p (omega arith) (omega arith) ∙ e) z b
      (IsString-agree m n (p + 1) cs rest (λ a q r. h a (omega (arith, q)) (omega (arith, r))))

-- What a copy of a string leaves in memory.
pub record Copied (before : ℕ → ℕ) (dest src : ℕ) (cs : List ℕ) (after : ℕ → ℕ) : Type 0 where
  pub copy : IsString after dest cs
  pub original : IsString after src cs
  pub others : (a : ℕ) → (a < dest) ⊎ (dest + length cs < a) → after a ≡ before a

Apart : ℕ → ℕ → ℕ → Type 0
Apart dest src n = (dest + n < src) ⊎ (src + n < dest)

copy_rest :
    (m : ℕ → ℕ) (dest src c : ℕ) (cs : List ℕ) (after : ℕ → ℕ)
    → Apart dest src (suc (length cs))
    → m src ≡ c
    → c ≢ 0
    → c < 2 ^ 8
    → Copied (update m dest (m src)) (dest + 1) (src + 1) cs after
    → Copied m dest src (c ∷ cs) after
unfolding Apart
copy_rest m dest src c cs after apart e n b r =
    let first : after dest ≡ c =
      r.others dest (inl (omega arith)) ∙ update_self m dest (m src) ∙ e in
    let others : (a : ℕ) → (a < dest) ⊎ (dest + suc (length cs) < a) → after a ≡ m a = λ a h.
      r.others a (ground (arith, h)) ∙ update_ne m dest (m src) a (λ q. omega (arith, q, h)) in
    record {
      copy = char dest c cs first n b r.copy;
      original = char src c cs (others src (ground (arith, apart)) ∙ e) n b r.original;
      others = others;
    }

-- strcpy copies a string to a place apart from it, and changes nothing else.
pub strcpy-Copied :
    (m : ℕ → ℕ) (dest src : ℕ) (cs : List ℕ)
    → IsString m src cs
    → (dest + length cs < src) ⊎ (src + length cs < dest)
    → (after : ℕ → ℕ) × (strcpy (suc (length cs)) m dest src ≡ some after)
      × Copied m dest src cs after
unfolding strcpy Apart
strcpy-Copied m dest src [] (terminator _ e) apart =
    let after = update m dest (m src) in
    let others : (a : ℕ) → (a < dest) ⊎ (dest + 0 < a) → after a ≡ m a =
      λ a h. update_ne m dest (m src) a (λ q. omega (arith, q, h)) in
    (
      after,
      rw (strcpy, e) refl,
      record {
        copy = terminator dest (update_self m dest (m src) ∙ e);
        original = terminator src (others src (ground (arith, apart)) ∙ e);
        others = others;
      },
    )
strcpy-Copied m dest src (c ∷ cs) (char _ _ _ e n b rest) apart =
    let moved =
      IsString-agree m (update m dest (m src)) (src + 1) cs rest
        (λ a p q. update_ne m dest (m src) a (λ z. omega (arith, z, p, q, apart))) in
    let (after, r, done) =
      strcpy-Copied (update m dest (m src)) (dest + 1) (src + 1) cs moved (ground (arith, apart)) in
    let test : (m src == 0) ≡ false = ground (arith, e, n) in
    (after, rw (strcpy, test) r, copy_rest m dest src c cs after apart e n b done)
