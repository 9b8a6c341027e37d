-- ===== src/Review/Prompt/Fetching.antt =====
-- fetchFileContents (internal/review/service.go): its batches against one pass over the files.
use github_pr_review_agent.Common.{
  ℕ, zero, suc, ◌-◌, ◌<◌, ◌≤◌, ◌==◌, false, List, [], ◌∷◌, ◌++◌, append_assoc, append-nil, Text,
  length, length-append, take, take-append, select, ltb, min, ◌≡◌, refl, sym, ap, ◌∙◌, inl, inr,
  arith, Bool-cases,
}
use github_pr_review_agent.Store.Transaction.{Result}
use github_pr_review_agent.Review.Prompt.{
  PullRequestFile, FileContent, has_readable_extension, file_fetch_concurrency, next_batch,
  fetch_one, fetch_all, fetch_batches, fetch_file_contents,
}

abbrev pub readable : List PullRequestFile → List PullRequestFile
readable = select (λ f. has_readable_extension f.filename)

next_batch-readable :
    (size : ℕ) (files : List PullRequestFile)
    → (next_batch size files).0 ++ readable (next_batch size files).1 ≡ readable files
unfolding next_batch
next_batch-readable zero files = refl
next_batch-readable (suc size) [] = refl
next_batch-readable (suc size) (f ∷ files) = elim (Bool-cases (has_readable_extension f.filename)) [
  | inl e ↦ rw (e, next_batch) (ap (λ t. f ∷ t) (next_batch-readable size files))
  | inr e ↦ rw (e, next_batch) (next_batch-readable (suc size) files)
]

next_batch_bounds :
    (size : ℕ) (files : List PullRequestFile)
    → (length (next_batch size files).0 ≤ size) × (length (next_batch size files).1 ≤ length files)
unfolding next_batch
next_batch_bounds zero files = (omega arith, omega arith)
next_batch_bounds (suc size) [] = (omega arith, omega arith)
next_batch_bounds (suc size) (f ∷ files) =
    ground (arith, next_batch_bounds size files, next_batch_bounds (suc size) files)

-- A batch takes a file.
next_batch_progress :
    (size : ℕ) (f : PullRequestFile) (files : List PullRequestFile)
    → 0 < size
    → length (next_batch size (f ∷ files)).1 ≤ length files
unfolding next_batch
next_batch_progress zero f files h = absurd (omega arith)
next_batch_progress (suc size) f files h =
    ground (arith, next_batch_bounds size files, next_batch_bounds (suc size) files)

take-nil : (n : ℕ) → take {A = FileContent} n [] ≡ []
take-nil zero = refl
take-nil (suc n) = refl

module _ (get : Text → Result Text) where
  length-fetch_one : (f : PullRequestFile) → length (fetch_one get f) ≤ 1
  unfolding fetch_one
  length-fetch_one f = ground arith

  length-fetch_all : (files : List PullRequestFile) → length (fetch_all get files) ≤ length files
  unfolding fetch_all
  length-fetch_all [] = omega arith
  length-fetch_all (f ∷ files) = omega (
    arith,
    length-append (fetch_one get f) (fetch_all get files),
    length-fetch_one f,
    length-fetch_all files,
  )

  fetch_all-append :
      (xs ys : List PullRequestFile)
      → fetch_all get (xs ++ ys) ≡ fetch_all get xs ++ fetch_all get ys
  unfolding fetch_all
  fetch_all-append [] ys = refl
  fetch_all-append (f ∷ xs) ys =
      ap (λ t. fetch_one get f ++ t) (fetch_all-append xs ys)
      ∙ sym (append_assoc (fetch_one get f) (fetch_all get xs) (fetch_all get ys))

  batch_splits :
      (size : ℕ) (files : List PullRequestFile)
      → fetch_all get (readable files)
        ≡ fetch_all get (next_batch size files).0
          ++ fetch_all get (readable (next_batch size files).1)
  batch_splits size files =
      ap (fetch_all get) (sym (next_batch-readable size files))
      ∙ fetch_all-append (next_batch size files).0 (readable (next_batch size files).1)

  -- With a batch of what fits, the contents go on as those of one pass.
  take_batch :
      (max size : ℕ) (files : List PullRequestFile) (contents : List FileContent)
      → size ≤ max - length contents
      → (contents ++ fetch_all get (next_batch size files).0)
          ++ take
              (max - length (contents ++ fetch_all get (next_batch size files).0))
              (fetch_all get (readable (next_batch size files).1))
        ≡ contents ++ take (max - length contents) (fetch_all get (readable files))
  take_batch max size files contents fits =
      let got = fetch_all get (next_batch size files).0 in
      let left = fetch_all get (readable (next_batch size files).1) in
      let few : length got ≤ max - length contents =
        omega
          (arith, length-fetch_all (next_batch size files).0, (next_batch_bounds size files).0) in
      let room : max - length (contents ++ got) ≡ max - length contents - length got =
        omega (arith, length-append contents got) in
      append_assoc contents got _
      ∙ ap (λ t. contents ++ t)
          (ap (λ n. got ++ take n left) room
            ∙ (sym (take-append (max - length contents) got left few)
                ∙ ap (take (max - length contents)) (sym (batch_splits size files))))

  nothing_left :
      (max : ℕ) (contents xs : List FileContent)
      → max ≤ length contents
      → contents ≡ contents ++ take (max - length contents) xs
  nothing_left max contents xs h =
      let none_fit : max - length contents ≡ 0 = omega arith in
      sym (ap (λ n. contents ++ take n xs) none_fit ∙ append-nil contents)

  nothing_fetched :
      (max : ℕ) (contents : List FileContent)
      → contents ≡ contents ++ take (max - length contents) (fetch_all get [])
  unfolding fetch_all
  nothing_fetched max contents =
      sym (ap (λ t. contents ++ t) (take-nil (max - length contents)) ∙ append-nil contents)

  -- What is still to be fetched, batch by batch.
  fetch_batches_lem :
      (max fuel : ℕ) (files : List PullRequestFile) (contents : List FileContent)
      → length files ≤ fuel
      → length contents ≤ max
      → fetch_batches get (λ left. false) max fuel files contents
        ≡ contents ++ take (max - length contents) (fetch_all get (readable files))
  unfolding fetch_batches
  fetch_batches_lem max zero [] contents h room = nothing_fetched max contents
  fetch_batches_lem max zero (f ∷ files) contents h room = absurd (omega arith)
  fetch_batches_lem max (suc fuel) [] contents h room = nothing_fetched max contents
  fetch_batches_lem max (suc fuel) (f ∷ files) contents h room =
      let size = min file_fetch_concurrency (max - length contents) in
      elim (Bool-cases (ltb (length contents) max)) [
        | inr full ↦ rw full (nothing_left max contents _ (ground arith))
        | inl more ↦ rw more (
            fetch_batches_lem max fuel (next_batch size (f ∷ files)).1
              (contents ++ fetch_all get (next_batch size (f ∷ files)).0)
              (omega (arith, next_batch_progress size f files (ground arith)))
              (omega (
                arith,
                length-append contents (fetch_all get (next_batch size (f ∷ files)).0),
                length-fetch_all (next_batch size (f ∷ files)).0,
                (next_batch_bounds size (f ∷ files)).0,
              ))
            ∙ take_batch max size (f ∷ files) contents (omega arith))
      ]

  -- While the context is not cancelled, the batches give what one pass over the files would: the
  -- contents of the readable files that GitHub returns and that are not blank, in the order of the
  -- files, as many as the limit allows. A file that fails takes no place of another.
  pub fetch_file_contents_complete :
      (max : ℕ) (files : List PullRequestFile)
      → fetch_file_contents get (λ left. false) max files
        ≡ take max (fetch_all get (readable files))
  unfolding fetch_file_contents
  fetch_file_contents_complete zero files = refl
  fetch_file_contents_complete (suc max) files =
      let positive : (suc max == 0) ≡ false = ground arith in
      let all : suc max - 0 ≡ suc max = omega arith in
      rw positive (
        fetch_batches_lem (suc max) (length files) files [] (omega arith) (omega arith)
        ∙ ap (λ n. take n (fetch_all get (readable files))) all)
