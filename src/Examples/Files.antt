-- ===== src/Examples/Files.antt =====
-- The helpers of file systems at work.
use p.Base.{ℕ, ◌+◌, ◌≡◌, ◌↔◌, refl, List, [], ◌∷◌, ◌++◌, arith}
use p.Types.Qid.{Qid}
use p.Types.Dirent.{Dirent}
use p.Fsimpl.Readdir.{readdir, min_of, dirents_at}
use p.Fsimpl.Readdir.Resume.{readdir_resume}
use p.Fsimpl.Qids.Unique.{given, mapped, new_mappers, none_yet, qid_for_unique}

abbrev qid_of : List ℕ → Qid
qid_of [] = record { type = 0; version = 0; path = 0 }
qid_of (x ∷ xs) = record { type = 0; version = 1; path = x }

-- The files a, b and c.
abbrev names : List (List ℕ)
names = (97 ∷ []) ∷ (98 ∷ []) ∷ (99 ∷ []) ∷ []

abbrev file_a : Dirent
file_a = record { qid = qid_of (97 ∷ []); type = 0; offset = 1; name = 97 ∷ [] }

abbrev file_b : Dirent
file_b = record { qid = qid_of (98 ∷ []); type = 0; offset = 2; name = 98 ∷ [] }

readdir_resume_example :
    readdir 0 (2 + 5) names qid_of ≡ (file_a ∷ [] ++ file_b ∷ []) ++ readdir 2 5 names qid_of
unfolding readdir min_of dirents_at
readdir_resume_example =
    readdir_resume 0 2 5 names qid_of (file_a ∷ []) file_b (omega arith) (omega arith) refl

qid_for_unique_example :
    (given 0 (qid_of (7 ∷ [])) new_mappers
      ≡ given 1 (qid_of (7 ∷ [])) (mapped 0 (qid_of (7 ∷ [])) new_mappers))
    ↔ ((◌≡◌ {A = ℕ} 0 1) × (◌≡◌ {A = ℕ} 7 7))
qid_for_unique_example =
    qid_for_unique 0 0 0 1 (qid_of (7 ∷ [])) (qid_of (7 ∷ [])) new_mappers
      (mapped 0 (qid_of (7 ∷ [])) new_mappers) (none_yet new_mappers)
      (none_yet (mapped 0 (qid_of (7 ∷ [])) new_mappers)) (omega arith)
