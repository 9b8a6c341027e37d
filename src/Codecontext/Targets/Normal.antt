-- ===== src/Codecontext/Targets/Normal.antt =====
-- What normalizeLines (internal/codecontext/codecontext.go) gives.
use github_pr_review_agent.Common.{
  ℕ, ℤ, pos, negsuc, ◌<◌, ◌==◌, Bool, true, false, ◌||◌, List, [], ◌∷◌, ◌++◌, any, any-append, All,
  leb, ◌≡◌, refl, ◌∙◌, subst, ==→≡, inl, inr, arith, Bool-cases,
}
use github_pr_review_agent.Codecontext.Targets.{
  add_line, add_lines, insert_int, sort_ints, normalize_lines,
}

abbrev pub has : ℕ → List ℕ → Bool
has n lines = any lines (λ m. m == n)

-- A value that is the line `n`, which is positive.
abbrev pub asks_for : ℕ → ℤ → Bool
asks_for n (pos m) = m == n
asks_for n (negsuc m) = false

-- Each line is positive and below those after it.
abbrev pub Increasing : List ℕ → Type 0
Increasing [] = Unit
Increasing (n ∷ ns) = (0 < n) × All (λ m. n < m) ns × Increasing ns

has-insert_int : (k n : ℕ) (ns : List ℕ) → has k (insert_int n ns) ≡ ((n == k) || has k ns)
unfolding insert_int any
has-insert_int k n [] = refl
has-insert_int k n (m ∷ ms) = ground (arith, has-insert_int k n ms)

has-sort_ints : (k : ℕ) (ns : List ℕ) → has k (sort_ints ns) ≡ has k ns
unfolding sort_ints any
has-sort_ints k [] = refl
has-sort_ints k (n ∷ ns) = ground (arith, has-insert_int k n (sort_ints ns), has-sort_ints k ns)

All-insert_int : (P : ℕ → Type 0) (n : ℕ) (ns : List ℕ) → P n → All P ns → All P (insert_int n ns)
unfolding insert_int
All-insert_int P n [] h k = (h, tt)
All-insert_int P n (m ∷ ms) h k = elim (Bool-cases (leb n m)) [
  | inl first ↦ rw first (h, k)
  | inr later ↦ rw later (k.0, All-insert_int P n ms h k.1)
]

below-All : (n m : ℕ) (ms : List ℕ) → n < m → All (λ k. m < k) ms → All (λ k. n < k) ms
below-All n m [] h k = tt
below-All n m (x ∷ ms) h k = (omega (arith, k.0), below-All n m ms h k.1)

insert_int-Increasing :
    (n : ℕ) (ns : List ℕ) → 0 < n → has n ns ≡ false → Increasing ns → Increasing (insert_int n ns)
unfolding insert_int any
insert_int-Increasing n [] positive new h = (positive, tt, tt)
insert_int-Increasing n (m ∷ ms) positive new h = elim (Bool-cases (leb n m)) [
  | inl first ↦
      let below : n < m = ground (arith, new) in
      rw first (positive, (below, below-All n m ms below h.1), h)
  | inr later ↦ rw later (
    h.0,
    All-insert_int (λ k. m < k) n ms (ground arith) h.1,
    insert_int-Increasing n ms positive (ground (arith, new)) h.2,
  )
]

-- The lines that were gathered are positive, and each differs from those after it.
Distinct : List ℕ → Type 0
Distinct [] = Unit
Distinct (n ∷ ns) = (0 < n) × (has n ns ≡ false) × Distinct ns

sort_ints-Increasing : (ns : List ℕ) → Distinct ns → Increasing (sort_ints ns)
unfolding sort_ints Distinct
sort_ints-Increasing [] h = tt
sort_ints-Increasing (n ∷ ns) h =
    insert_int-Increasing n (sort_ints ns) h.0 (has-sort_ints n ns ∙ h.1)
      (sort_ints-Increasing ns h.2)

append-Distinct :
    (ns : List ℕ) (n : ℕ) → Distinct ns → 0 < n → has n ns ≡ false → Distinct (ns ++ n ∷ [])
unfolding Distinct any
append-Distinct [] n h positive new = (positive, refl, tt)
append-Distinct (m ∷ ns) n h positive new = (
  h.0,
  any-append ns (n ∷ []) (λ k. k == m) ∙ ground (arith, h.1, new),
  append-Distinct ns n h.2 positive (ground (arith, new)),
)

add_line-Distinct : (ns : List ℕ) (z : ℤ) → Distinct ns → Distinct (add_line ns z)
unfolding add_line
add_line-Distinct ns (negsuc n) h = h
add_line-Distinct ns (pos n) h = elim (Bool-cases ((n == 0) || has n ns)) [
  | inl known ↦ rw known h
  | inr new ↦ rw new (append-Distinct ns n h (ground (arith, new)) (ground (arith, new)))
]

add_lines-Distinct : (ns : List ℕ) (values : List ℤ) → Distinct ns → Distinct (add_lines ns values)
unfolding add_lines
add_lines-Distinct ns [] h = h
add_lines-Distinct ns (z ∷ values) h =
    add_lines-Distinct (add_line ns z) values (add_line-Distinct ns z h)

already_there :
    (k n : ℕ) (ns : List ℕ)
    → 0 < k
    → ((n == 0) || has n ns) ≡ true
    → has k ns ≡ (has k ns || (n == k))
already_there k n ns positive known = elim (Bool-cases (n == k)) [
  | inl same ↦
      let there : ((k == 0) || has k ns) ≡ true =
        subst (λ m. ((m == 0) || has m ns) ≡ true) (==→≡ n k same) known in
      ground (arith, there)
  | inr other ↦ ground (arith, other)
]

has-add_line :
    (k : ℕ) (ns : List ℕ) (z : ℤ) → 0 < k → has k (add_line ns z) ≡ (has k ns || asks_for k z)
unfolding add_line
has-add_line k ns (negsuc n) positive = ground arith
has-add_line k ns (pos n) positive = elim (Bool-cases ((n == 0) || has n ns)) [
  | inl known ↦ rw known (already_there k n ns positive known)
  | inr new ↦ rw (new, any-append ns (n ∷ []) (λ m. m == k)) (unfold any in ground arith)
]

has-add_lines :
    (k : ℕ) (ns : List ℕ) (values : List ℤ)
    → 0 < k
    → has k (add_lines ns values) ≡ (has k ns || any values (asks_for k))
unfolding add_lines any
has-add_lines k ns [] positive = ground arith
has-add_lines k ns (z ∷ values) positive =
    has-add_lines k (add_line ns z) values positive ∙ ground (arith, has-add_line k ns z positive)

-- For any values: the lines are positive and strictly increasing, and a positive line is among them
-- exactly if it is one of the values.
pub normalize_lines_lem :
    (values : List ℤ)
    → Increasing (normalize_lines values)
      × ((n : ℕ) → 0 < n → has n (normalize_lines values) ≡ any values (asks_for n))
unfolding normalize_lines
normalize_lines_lem values = (
  sort_ints-Increasing (add_lines [] values) (add_lines-Distinct [] values (unfold Distinct in tt)),
  λ n positive.
      has-sort_ints n (add_lines [] values)
      ∙ (has-add_lines n [] values positive ∙ (unfold any in refl)),
)
