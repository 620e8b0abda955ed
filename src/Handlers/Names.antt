-- ===== src/Handlers/Names.antt =====
-- p9/handlers.go: checkSafeName, and the guards that handlers share.
use p.Base.{ℕ, List, [], ◌∷◌, Bool, false, ◌==◌, ◌||◌, ◌&&◌, not}
use p.Base.Bytes.{same_bytes}
use p.Linux.{errno, einval}
use p.FileMode.{is_dir}
use p.Handlers.State.{M, ConnState, fail_if, gets, ◌>>◌}

-- strings.Contains(name, "/")
abbrev pub has_slash : List ℕ → Bool
has_slash [] = false
has_slash (c ∷ name) = c == 47 || has_slash name

-- Not "", no '/', not "." and not "..".
unfoldable pub is_safe_name : List ℕ → Bool
is_safe_name name =
    not (same_bytes name [])
    && (not (has_slash name)
        && (not (same_bytes name (46 ∷ [])) && not (same_bytes name (46 ∷ 46 ∷ []))))

module _ {B : Type 0} where
  unfoldable pub check_safe_name : List ℕ → M B (Unit {0})
  unfolding is_safe_name
  check_safe_name name = fail_if (not (is_safe_name name)) (errno einval)

  abbrev pub is_deleted : ConnState B → ℕ → Bool
  is_deleted s r = (s.nodes (s.details r).path_node).deleted

  -- if ref.isDeleted() { return EINVAL }
  unfoldable pub guard_live : ℕ → M B (Unit {0})
  guard_live r s = fail_if (is_deleted s r) (errno einval) s

  -- if ref.isDeleted() || !ref.mode.IsDir() { return EINVAL }
  unfoldable pub guard_directory : ℕ → M B (Unit {0})
  unfolding is_dir
  guard_directory r s = fail_if (is_deleted s r || not (is_dir (s.details r).mode)) (errno einval) s

  -- if ref.opened { return EINVAL }
  unfoldable pub guard_closed : ℕ → M B (Unit {0})
  guard_closed r s = fail_if (s.details r).opened (errno einval) s

  -- if !ref.opened { return EINVAL }
  unfoldable pub guard_opened : ℕ → M B (Unit {0})
  guard_opened r s = fail_if (not (s.details r).opened) (errno einval) s

  -- What stands before a change below a directory.
  unfoldable pub guard_change : ℕ → M B (Unit {0})
  unfolding guard_directory guard_closed
  guard_change r = guard_directory r >> guard_closed r

  abbrev pub file_of : ℕ → M B ℕ
  file_of r s = gets (λ (s' : ConnState B). (s'.details r).file) s
