-- ===== src/Worker/Names.antt =====
-- internal/worker/worker.go: splitRepo and prLockKey.
use github_pr_review_agent.Common.{
  ℕ, ◌≡◌, ◌≢◌, ◌+◌, refl, Option, none, some, [], ◌∷◌, ◌++◌, Text, codes, ◌==◌, leb, ◌&&◌,
  if◌then◌else◌, is_empty, ◌||◌, arith, All, decimal, decimal-IsDigit, decimal_injective, IsDigit,
  ◌↔◌, map_option, ==_refl, subst, sym,
}

-- strings.SplitN(s, sep, 2): what stands before and behind the first separator.
unfoldable pub cut : ℕ → Text → Option (Text × Text)
cut sep [] = none
cut sep (c ∷ s) =
    if c == sep then some ([], s) else map_option (λ (p : Text × Text). (c ∷ p.0, p.1)) (cut sep s)

both_named : Text × Text → Option (Text × Text)
both_named (owner, repo) = if is_empty owner || is_empty repo then none else some (owner, repo)

named_parts : Option (Text × Text) → Option (Text × Text)
unfolding both_named
named_parts none = none
named_parts (some parts) = both_named parts

unfoldable pub split_repo : Text → Option (Text × Text)
unfolding cut named_parts
split_repo repo = named_parts (cut b'/' repo)

-- strings.ToLower on ASCII, which the names of repositories are.
lower : ℕ → ℕ
lower c = if leb b'A' c && leb c b'Z' then c + 32 else c

unfoldable pub to_lower : Text → Text
unfolding lower
to_lower [] = []
to_lower (c ∷ s) = lower c ∷ to_lower s

unfoldable pub pr_lock_key : Text → ℕ → Text
pr_lock_key repo number = codes "review:pr:" ++ (to_lower repo ++ b':' ∷ decimal number)

abbrev pub Lacks : ℕ → Text → Type 0
Lacks b = All (λ c. c ≢ b)

cut-some : (sep : ℕ) (s a b : Text) → cut sep s ≡ some (a, b) → (s ≡ a ++ sep ∷ b) × Lacks sep a
unfolding cut
cut-some sep [] a b h = cc
cut-some sep (c ∷ s) [] b h = ground arith
cut-some sep (c ∷ s) (d ∷ a) b h = ground (arith, cut-some sep s a b)

cut-append : (sep : ℕ) (a b : Text) → Lacks sep a → cut sep (a ++ sep ∷ b) ≡ some (a, b)
unfolding cut
cut-append sep [] b h = rw (==_refl sep) refl
cut-append sep (c ∷ a) b h = ground (arith, cut-append sep a b h.1)

named_parts-cut :
    (o : Option (Text × Text)) (owner repo : Text)
    → named_parts o ≡ some (owner, repo)
    → (o ≡ some (owner, repo)) × (owner ≢ []) × (repo ≢ [])
unfolding named_parts
named_parts-cut none owner repo h = cc
named_parts-cut (some (a, b)) owner repo h = ground arith

named_parts_of :
    (owner repo : Text)
    → owner ≢ []
    → repo ≢ []
    → named_parts (some (owner, repo)) ≡ some (owner, repo)
unfolding named_parts
named_parts_of owner repo o r = ground arith

-- A repository name is valid exactly if it is an owner, a slash and a name, neither of them empty
-- and the owner without a slash; splitRepo gives these two.
split_repo_iff :
    (s owner repo : Text)
    → (split_repo s ≡ some (owner, repo))
      ↔ (s ≡ owner ++ b'/' ∷ repo) × Lacks b'/' owner × (owner ≢ []) × (repo ≢ [])
unfolding split_repo
split_repo_iff s owner repo = (
  λ h.
      let (e, o, r) = named_parts-cut (cut b'/' s) owner repo h in
      let (spelt, lacks) = cut-some b'/' s owner repo e in (spelt, lacks, o, r),
  λ h. rw (h.0, cut-append b'/' owner repo h.1) (named_parts_of owner repo h.2 h.3),
)

Lacks-digits : (s : Text) → All IsDigit s → Lacks b':' s
Lacks-digits [] h = tt
Lacks-digits (c ∷ s) h = (omega arith, Lacks-digits s h.1)

Lacks-append : (sep : ℕ) (a b : Text) → Lacks sep (a ++ sep ∷ b) → ⊥
Lacks-append sep [] b h = h.0 refl
Lacks-append sep (c ∷ a) b h = Lacks-append sep a b h.1

-- What stands before and behind the last separator.
last_sep :
    (sep : ℕ) (a b p q : Text)
    → Lacks sep p
    → Lacks sep q
    → a ++ sep ∷ p ≡ b ++ sep ∷ q
    → (a ≡ b) × (p ≡ q)
last_sep sep [] [] p q hp hq e = (refl, cc)
last_sep sep [] (c ∷ b) p q hp hq e =
    absurd (Lacks-append sep b q (subst (Lacks sep) (tail_eq e) hp))
  where
    tail_eq : {x y : ℕ} {s t : Text} → ◌≡◌ {A = Text} (x ∷ s) (y ∷ t) → s ≡ t
    tail_eq h = cc
last_sep sep (c ∷ a) [] p q hp hq e =
    absurd (Lacks-append sep a p (subst (Lacks sep) (sym (tail_eq e)) hq))
  where
    tail_eq : {x y : ℕ} {s t : Text} → ◌≡◌ {A = Text} (x ∷ s) (y ∷ t) → s ≡ t
    tail_eq h = cc
last_sep sep (c ∷ a) (d ∷ b) p q hp hq e = ground (arith, last_sep sep a b p q hp hq)

-- Two tasks have the same lock key only if they are for the same pull request: the same number, and
-- the same repository up to the case of its letters.
pr_lock_key_injective :
    (repo repo' : Text) (number number' : ℕ)
    → pr_lock_key repo number ≡ pr_lock_key repo' number'
    → (to_lower repo ≡ to_lower repo') × (number ≡ number')
unfolding pr_lock_key
pr_lock_key_injective repo repo' number number' e =
    let (names, numbers) =
      last_sep b':' (to_lower repo) (to_lower repo') (decimal number) (decimal number')
        (Lacks-digits (decimal number) (decimal-IsDigit number))
        (Lacks-digits (decimal number') (decimal-IsDigit number')) (cc) in
    (names, decimal_injective number number' numbers)
