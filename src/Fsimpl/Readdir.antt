-- ===== src/Fsimpl/Readdir.antt =====
-- fsimpl/readdir/readdir.go: the window of a directory that Readdir returns. The map of QIDs is a
-- function, which gives the zero QID for a name that the map does not hold.
pub mod Resume
use p.Base.{ℕ, ◌+◌, ◌-◌, ◌%◌, ◌^◌, List, [], ◌∷◌, Bool, leb, ltb, if◌then◌else◌, length, take, drop}
use p.Types.Qid.{Qid}
use p.Types.Dirent.{Dirent}

unfoldable pub min_of : ℕ → ℕ → ℕ
min_of a b = if ltb a b then a else b

-- The loop over the window, where the entry of index 0 stands at `start`.
unfoldable pub dirents_at : ℕ → List (List ℕ) → (List ℕ → Qid) → List Dirent
dirents_at start [] qids = []
dirents_at start (name ∷ names) qids =
    record { qid = qids name; type = (qids name).type; offset = (start + 1) % 2 ^ 64; name = name }
    ∷ dirents_at (start + 1) names qids

unfoldable pub readdir : ℕ → ℕ → List (List ℕ) → (List ℕ → Qid) → List Dirent
unfolding min_of dirents_at
readdir offset count names qids =
    let end = min_of ((offset + count) % 2 ^ 64) (length names) in
    if leb (length names) offset
    then []
    else dirents_at offset (take (end - offset) (drop offset names)) qids
