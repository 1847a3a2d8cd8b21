-- ===== src/Strings/Changes.antt =====
-- What strupr, strrchr and strcat give.
use mylysos.Base.{
  zero, ℕ, suc, ◌+◌, ◌≤◌, ◌<◌, ◌^◌, ◌≡◌, ◌≢◌, ◌⊎◌, inl, inr, refl, sym, ap, ◌∙◌, some, List, [],
  ◌∷◌, length, arith, false, ◌==◌, ◌++◌, update, update_self, update_ne, Bool-cases,
}
use mathlib.Core.List.{map}
use mathlib.Core.Option.{none-ne-some}
use mathlib.Core.Path.{subst}
use mylysos.Strings.{strupr, to_upper, strcat, end_of}
use mylysos.Strings.Walks.{IsString, terminator, char, IsString-agree, strcpy-Copied}

to_upper_nonzero : (c : ℕ) → c ≢ 0 → to_upper c ≢ 0
unfolding to_upper
to_upper_nonzero c n = ground (arith, n)

to_upper_byte : (c : ℕ) → c < 2 ^ 8 → to_upper c < 2 ^ 8
unfolding to_upper
to_upper_byte c n = ground (arith, n)

-- What strupr leaves in memory.
pub record Raised (before : ℕ → ℕ) (s : ℕ) (cs : List ℕ) (after : ℕ → ℕ) : Type 0 where
  pub raised : IsString after s (map to_upper cs)
  pub others : (a : ℕ) → (a < s) ⊎ (s + length cs ≤ a) → after a ≡ before a

-- strupr writes the capitals of a string in its place, and changes nothing else.
pub strupr-Raised :
    (m : ℕ → ℕ) (s : ℕ) (cs : List ℕ)
    → IsString m s cs
    → (after : ℕ → ℕ) × (strupr (suc (length cs)) m s ≡ some after) × Raised m s cs after
unfolding strupr
strupr-Raised m s [] (terminator _ e) =
    (m, rw (strupr, e) refl, record { raised = terminator s e; others = λ a h. refl })
strupr-Raised m s (c ∷ cs) (char _ _ _ e n b rest) =
    let m' = update m s (to_upper (m s)) in
    let moved =
      IsString-agree m m' (s + 1) cs rest
        (λ a p q. update_ne m s (to_upper (m s)) a (λ z. omega (arith, z, p))) in
    let (after, r, done) = strupr-Raised m' (s + 1) cs moved in
    let test : (m s == 0) ≡ false = ground (arith, e, n) in
    let first : after s ≡ to_upper c =
      done.others s (inl (omega arith)) ∙ update_self m s (to_upper (m s)) ∙ ap to_upper e in
    (
      after,
      rw (strupr, test) r,
      record {
        raised =
            char s (to_upper c) (map to_upper cs) first (to_upper_nonzero c n) (to_upper_byte c b)
              done.raised;
        others = λ a h.
            done.others a (ground (arith, h))
            ∙ update_ne m s (to_upper (m s)) a (λ q. omega (arith, q, h));
      },
    )

end_of-IsString :
    (m : ℕ → ℕ) (p : ℕ) (cs : List ℕ)
    → IsString m p cs
    → end_of (suc (length cs)) m p ≡ some (p + length cs)
unfolding end_of
end_of-IsString m p [] (terminator _ e) = rw (end_of, e) (ap some (omega arith))
end_of-IsString m p (c ∷ cs) (char _ _ _ e n b rest) =
    let test : (m p == 0) ≡ false = ground (arith, e, n) in
    rw (end_of, test) (end_of-IsString m (p + 1) cs rest ∙ ap some (omega arith))

-- Two strings are one where the second starts at the terminator of the first.
IsString-append :
    (m n : ℕ → ℕ) (p : ℕ) (ds cs : List ℕ)
    → IsString m p ds
    → ((a : ℕ) → p ≤ a → a < p + length ds → n a ≡ m a)
    → IsString n (p + length ds) cs
    → IsString n p (ds ++ cs)
IsString-append m n p [] cs _ h w = subst (λ x. IsString n x cs) (omega arith) w
IsString-append m n p (d ∷ ds) cs (char _ _ _ e z b rest) h w =
    char p d (ds ++ cs) (h p (omega arith) (omega arith) ∙ e) z b (
      IsString-append m n (p + 1) ds cs rest (λ a q r. h a (omega (arith, q)) (omega (arith, r)))
        (subst (λ x. IsString n x cs) (omega arith) w))

-- What strcat leaves in memory.
pub record Appended (before : ℕ → ℕ) (dest : ℕ) (ds cs : List ℕ) (after : ℕ → ℕ) : Type 0 where
  pub appended : IsString after dest (ds ++ cs)
  pub others : (a : ℕ) → (a < dest) ⊎ (dest + length ds + length cs < a) → after a ≡ before a

-- strcat puts a string behind another one that it does not overlap, and changes nothing else.
pub strcat-Appended :
    (m : ℕ → ℕ) (dest src : ℕ) (ds cs : List ℕ)
    → IsString m dest ds
    → IsString m src cs
    → (dest + length ds + length cs < src) ⊎ (src + length cs < dest)
    → (after : ℕ → ℕ) × (strcat (suc (length ds)) (suc (length cs)) m dest src ≡ some after)
      × Appended m dest ds cs after
unfolding strcat
strcat-Appended m dest src ds cs v w apart =
    let (after, r, done) = strcpy-Copied m (dest + length ds) src cs w (ground (arith, apart)) in
    let kept : (a : ℕ)
        → (a < dest + length ds) ⊎ (dest + length ds + length cs < a)
        → after a ≡ m a =
      λ a h. done.others a h in
    (
      after,
      rw (strcat, end_of-IsString m dest ds v) r,
      record {
        appended = IsString-append m after dest ds cs v (λ a p q. kept a (inl q)) done.copy;
        others = λ a h. kept a (ground (arith, h));
      },
    )

strupr-longer :
    (f g : ℕ) (m : ℕ → ℕ) (s : ℕ) (after : ℕ → ℕ)
    → f ≤ g
    → strupr f m s ≡ some after
    → strupr g m s ≡ some after
unfolding strupr
strupr-longer zero g m s after le e = absurd (none-ne-some after e)
strupr-longer (suc f) zero m s after le e = absurd (omega (arith, le))
strupr-longer (suc f) (suc g) m s after le e =
    let more = strupr-longer f g (update m s (to_upper (m s))) (s + 1) after (omega (arith, le)) in
    elim (Bool-cases (m s == 0)) [
      | inl q ↦ rw q (sym (rw q refl) ∙ e)
      | inr q ↦ rw q (more (sym (rw q refl) ∙ e))
    ]

-- strupr with at least as much fuel.
pub strupr-Raised_longer :
    (fuel : ℕ) (m : ℕ → ℕ) (s : ℕ) (cs : List ℕ)
    → length cs < fuel
    → IsString m s cs
    → (after : ℕ → ℕ) × (strupr fuel m s ≡ some after) × Raised m s cs after
strupr-Raised_longer fuel m s cs enough v =
    let (after, run, raised) = strupr-Raised m s cs v in
    (after, strupr-longer (suc (length cs)) fuel m s after (omega (arith, enough)) run, raised)
