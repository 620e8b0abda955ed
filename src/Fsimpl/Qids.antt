-- ===== src/Fsimpl/Qids.antt =====
-- fsimpl/qids/qids.go: QID paths that are unique across file systems. Mappers share a generator; a
-- mapper's map is an association list from the paths of its file system to the paths that it gave.
pub mod Unique
use p.Base.{ℕ, ◌+◌, ◌%◌, ◌^◌, List, [], ◌∷◌, Option, none, some, ◌==◌, if◌then◌else◌}
use p.Types.Qid.{Qid}

-- The last path of the generator, which AddUint64 counts up.
unfoldable pub new_path : ℕ → ℕ
new_path uids = (uids + 1) % 2 ^ 64

abbrev pub lookup : ℕ → List (ℕ × ℕ) → Option ℕ
lookup path [] = none
lookup path ((from, to) ∷ paths) = if path == from then some to else lookup path paths

-- The QID, the generator and the map.
unfoldable pub qid_with : Option ℕ → Qid → ℕ → List (ℕ × ℕ) → Qid × ℕ × List (ℕ × ℕ)
unfolding new_path
qid_with (some path) q uids paths = (record q { path = path }, uids, paths)
qid_with none q uids paths =
    let path = new_path uids in (record q { path = path }, path, (q.path, path) ∷ paths)

unfoldable pub qid_for : Qid → ℕ → List (ℕ × ℕ) → Qid × ℕ × List (ℕ × ℕ)
unfolding qid_with
qid_for q uids paths = qid_with (lookup q.path paths) q uids paths
