-- ===== src/Fsimpl/Readdir/Resume.antt =====
-- fsimpl/readdir/readdir.go: windows of a directory that follow one another.
use p.Base.{
  ℕ, zero, suc, ◌+◌, ◌-◌, ◌%◌, ◌^◌, ◌≤◌, ◌<◌, ◌≡◌, refl, sym, ap, ◌∙◌, List, [], ◌∷◌, ◌++◌, length,
  take, drop, take_all, drop_all, drop-drop, length-drop, length-take, arith, le→leb, lt→leb,
  lt→ltb, le→ltb, ◌≢◌,
}
use native.Mathlib.Decide.{dec_le}
use p.Types.Qid.{Qid}
use p.Types.Dirent.{Dirent}
use p.Fsimpl.Readdir.{min_of, dirents_at, readdir}

zero_left : {n : ℕ} → 0 + n ≡ n
zero_left = omega arith

suc_left : (m n : ℕ) → suc m + n ≡ suc (m + n)
suc_left m n = omega arith

module _ {ℓ} {A : Type ℓ} where
  take_none : (n : ℕ) → take {A = A} n [] ≡ []
  take_none zero = refl
  take_none (suc n) = refl

  take-plus : (m n : ℕ) (xs : List A) → take (m + n) xs ≡ take m xs ++ take n (drop m xs)
  take-plus zero n xs = ap (λ k. take k xs) zero_left
  take-plus (suc m) n [] = take_none (suc m + n) ∙ sym (take_none n)
  take-plus (suc m) n (x ∷ xs) =
      ap (λ k. take k (x ∷ xs)) (suc_left m n) ∙ ap (λ zs. x ∷ zs) (take-plus m n xs)

  length-take_le : (n : ℕ) (xs : List A) → length (take n xs) ≤ length xs
  length-take_le zero xs = omega arith
  length-take_le (suc n) [] = omega arith
  length-take_le (suc n) (x ∷ xs) = omega (arith, length-take_le n xs)

  -- What follows a window that is cut at the end starts where the window ends.
  drop-take :
      (offset n : ℕ) (xs : List A)
      → drop (offset + length (take n (drop offset xs))) xs ≡ drop (offset + n) xs
  drop-take offset n xs = elim (dec_le n (length (drop offset xs))) [
    | yes fits ↦ ap (λ k. drop (offset + k) xs) (length-take n (drop offset xs) fits)
    | no short ↦
        let rest = drop offset xs in
        ap (λ ys. drop (offset + length ys) xs) (take_all n rest (omega arith))
        ∙ sym (drop-drop offset (length rest) xs)
        ∙ drop_all (length rest) rest (omega arith)
        ∙ sym (drop_all n rest (omega arith))
        ∙ drop-drop offset n xs
  ]

-- The window is what follows the offset, up to the count.
readdir_lem :
    (offset count : ℕ) (names : List (List ℕ)) (qids : List ℕ → Qid)
    → length names < 2 ^ 63
    → count < 2 ^ 32
    → readdir offset count names qids ≡ dirents_at offset (take count (drop offset names)) qids
unfolding readdir min_of dirents_at
readdir_lem offset count names qids small h = elim (dec_le (length names) offset) [
  | yes past ↦
      rw
        (
          le→leb (length names) offset past,
          drop_all offset names past,
          take_none {A = List ℕ} count,
        )
        refl
  | no inside ↦ elim (dec_le (length names) (offset + count)) [
    | yes short ↦
        rw
          (
            lt→leb (length names) offset (omega arith),
            le→ltb ((offset + count) % 2 ^ 64) (length names) (omega (arith, h, small)),
            take_all (length names - offset) (drop offset names)
                (omega (arith, length-drop offset names)),
            take_all count (drop offset names) (omega (arith, length-drop offset names)),
          )
          refl
    | no enough ↦
        rw
          (
            lt→leb (length names) offset (omega arith),
            lt→ltb ((offset + count) % 2 ^ 64) (length names) (omega (arith, h, small)),
          )
          (ap (λ k. dirents_at offset (take k (drop offset names)) qids)
            (window (omega (arith, h, small))))
  ]
]
  where
    window : offset + count < 2 ^ 64 → (offset + count) % 2 ^ 64 - offset ≡ count
    window fits = omega (arith, fits)

start_at : (start : ℕ) → start ≡ start + 0
start_at start = omega arith

start_after : (start n : ℕ) → start + 1 + n ≡ start + suc n
start_after start n = omega arith

abbrev entry_at : ℕ → List ℕ → (List ℕ → Qid) → Dirent
entry_at start name qids = record {
  qid = qids name;
  type = (qids name).type;
  offset = (start + 1) % 2 ^ 64;
  name = name;
}

dirents_at-append :
    (start : ℕ) (xs ys : List (List ℕ)) (qids : List ℕ → Qid)
    → dirents_at start (xs ++ ys) qids
      ≡ dirents_at start xs qids ++ dirents_at (start + length xs) ys qids
unfolding dirents_at
dirents_at-append start [] ys qids = ap (λ n. dirents_at n ys qids) (start_at start)
dirents_at-append start (x ∷ xs) ys qids =
    ap (λ ds. entry_at start x qids ∷ ds)
      (dirents_at-append (start + 1) xs ys qids
        ∙ ap (λ n. dirents_at (start + 1) xs qids ++ dirents_at n ys qids)
            (start_after start (length xs)))

first_offset : List Dirent → ℕ
first_offset [] = 0
first_offset (d ∷ ds) = d.offset

-- The offset of the last entry is that of what follows.
last-offset :
    (start : ℕ) (xs : List (List ℕ)) (qids : List ℕ → Qid) (ds : List Dirent) (d : Dirent)
    → dirents_at start xs qids ≡ ds ++ d ∷ []
    → start + length xs < 2 ^ 64
    → d.offset ≡ start + length xs
unfolding dirents_at first_offset
last-offset start [] qids [] d e h = absurd cc
last-offset start [] qids (c ∷ ds) d e h = absurd cc
last-offset start (x ∷ []) qids [] d e h =
    let same : (start + 1) % 2 ^ 64 ≡ d.offset = ap (λ ds. first_offset ds) e in
    omega (arith, same, h)
last-offset start (x ∷ y ∷ xs) qids [] d e h = absurd cc
last-offset start (x ∷ xs) qids (c ∷ ds) d e h =
    let rest : dirents_at (start + 1) xs qids ≡ ds ++ d ∷ [] = cc in
    omega (arith, last-offset (start + 1) xs qids ds d rest (omega (arith, h)))

no_entry : (ds : List Dirent) (d : Dirent) → [] ≢ ds ++ d ∷ []
no_entry [] d e = cc
no_entry (c ∷ ds) d e = cc

-- A window that is not empty lies within the directory.
in_range :
    (offset count : ℕ) (names : List (List ℕ)) (qids : List ℕ → Qid) (ds : List Dirent) (d : Dirent)
    → length names < 2 ^ 63
    → dirents_at offset (take count (drop offset names)) qids ≡ ds ++ d ∷ []
    → offset + length (take count (drop offset names)) < 2 ^ 64
unfolding dirents_at
in_range offset count names qids ds d small window = elim (dec_le (length names) offset) [
  | yes past ↦
      let nothing = drop_all offset names past in
      absurd (
        no_entry ds d (
          ap (λ ys. dirents_at offset ys qids)
            (sym (ap (take count) nothing ∙ take_none {A = List ℕ} count))
          ∙ window))
  | no inside ↦
      omega (arith, length-take_le count (drop offset names), length-drop offset names, small)
]

-- Reading on from the offset of the last entry gives what one larger window gives: for a directory
-- that a Go slice can hold and counts that are uint32s, where the first window has a last entry.
pub readdir_resume :
    (offset count more : ℕ) (names : List (List ℕ)) (qids : List ℕ → Qid) (ds : List Dirent)
    (d : Dirent)
    → length names < 2 ^ 63
    → count + more < 2 ^ 32
    → readdir offset count names qids ≡ ds ++ d ∷ []
    → readdir offset (count + more) names qids ≡ (ds ++ d ∷ []) ++ readdir d.offset more names qids
readdir_resume offset count more names qids ds d small h e =
    let xs = take count (drop offset names) in
    let window : dirents_at offset xs qids ≡ ds ++ d ∷ [] =
      sym (readdir_lem offset count names qids small (omega (arith, h))) ∙ e in
    let next : d.offset ≡ offset + length xs =
      last-offset offset xs qids ds d window (in_range offset count names qids ds d small window) in
    readdir_lem offset (count + more) names qids small h
    ∙ ap (λ ys. dirents_at offset ys qids) (take-plus count more (drop offset names))
    ∙ dirents_at-append offset xs (take more (drop count (drop offset names))) qids
    ∙ ap (λ ys. dirents_at offset xs qids ++ dirents_at (offset + length xs) (take more ys) qids)
        (drop-drop offset count names ∙ sym (drop-take offset count names))
    ∙ ap (λ k. dirents_at offset xs qids ++ dirents_at k (take more (drop k names)) qids) (sym next)
    ∙ ap (λ es. es ++ dirents_at d.offset (take more (drop d.offset names)) qids) window
    ∙ ap (λ es. (ds ++ d ∷ []) ++ es)
        (sym (readdir_lem d.offset more names qids small (omega (arith, h))))
