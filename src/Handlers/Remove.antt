-- ===== src/Handlers/Remove.antt =====
-- p9/server.go and p9/handlers.go: Tremove and Tunlinkat, and how a name and what is below it become
-- deleted.
use p.Base.{ℕ, zero, suc, List, [], ◌∷◌, true, Option, none, some}
use p.Linux.{errno, einval}
use p.PathTree.{name_for, remove_with_name}
use p.Messages.Names.{Tremove, Rremove, Tunlinkat, Runlinkat}
use p.Handlers.{FileSystem, Outcome, done, failed, panicked}
use p.Handlers.State.{M, ConnState, pure, fail, call, ◌>>=◌, ◌>>◌, update, set_node}
use p.Handlers.Refs.{with_fid, uninstall}
use p.Handlers.Names.{check_safe_name, guard_live, guard_change, file_of}
use p.Handlers.Make.{child_path_node}

abbrev pub targets : List (List ℕ × ℕ) → List ℕ
targets [] = []
targets ((name, pn) ∷ m) = pn ∷ targets m

abbrev pub or_invalid : Option ℕ → Outcome ℕ
or_invalid none = failed (errno einval)
or_invalid (some q) = done q

abbrev pub or_panic : Option (List ℕ) → Outcome (List ℕ)
or_panic none = panicked
or_panic (some name) = done name

module _ {B : Type 0} where
  -- pn.deleted = 1
  abbrev pub delete_node : ℕ → ConnState B → ConnState B
  delete_node pn s = set_node pn (record (s.nodes pn) { deleted = true }) s

  abbrev pub each : (ℕ → ConnState B → ConnState B) → List ℕ → ConnState B → ConnState B
  each f [] s = s
  each f (pn ∷ pns) s = each f pns (f pn s)

  -- `depth` bounds how far the nodes go down.
  unfoldable pub notify_delete : ℕ → ℕ → ConnState B → ConnState B
  notify_delete zero pn s = s
  notify_delete (suc depth) pn s =
      let s' = delete_node pn s in each (notify_delete depth) (targets (s'.nodes pn).child_nodes) s'

  abbrev pub notified : Option ℕ → ConnState B → ConnState B
  notified none s = s
  notified (some pn) s = notify_delete s.made_nodes pn s

  unfoldable pub mark_child_deleted : ℕ → List ℕ → ConnState B → ConnState B
  unfolding notify_delete
  mark_child_deleted r name s =
      let pn = (s.details r).path_node in
      let (orig, node) = remove_with_name name none (s.nodes pn) in
      notified orig (set_node pn node s)

  -- ref.parent; ref.hasParent() of the source is true of a root.
  unfoldable pub parent_of : ℕ → M B ℕ
  parent_of r s = (or_invalid (s.server.fid_refs r).parent, s)

  -- ref.parent.pathNode.nameFor(ref), which may panic.
  unfoldable pub name_of : ℕ → ℕ → M B (List ℕ)
  name_of r parent s = (or_panic (name_for r (s.nodes (s.details parent).path_node)), s)

  module _ (fs : FileSystem B) where
    unfoldable pub remove_file : ℕ → M B (Unit {0})
    unfolding parent_of guard_live name_of mark_child_deleted
    remove_file r = do
      parent ← parent_of r
      guard_live r
      name ← name_of r parent
      file ← file_of parent
      call (fs.unlink_at file name 0)
      update (mark_child_deleted parent name)

    -- What Tremove answers: the fid is deleted after an error too, and an error of DeleteFID goes first.
    abbrev pub removed_fid : ℕ → Outcome (Unit {0}) × ConnState B → Outcome Rremove × ConnState B
    removed_fid fid (done u, s) = (uninstall fs fid >> pure (record {})) s
    removed_fid fid (failed e, s) = (uninstall fs fid >> fail e) s
    removed_fid fid (panicked, s) = (panicked, s)

    unfoldable pub handle_tremove : Tremove → M B Rremove
    unfolding with_fid remove_file uninstall
    handle_tremove t = with_fid fs t.fid λ r s. removed_fid t.fid (remove_file r s)

    unfoldable pub handle_tunlinkat : Tunlinkat → M B Runlinkat
    unfolding check_safe_name with_fid guard_change child_path_node mark_child_deleted
    handle_tunlinkat t =
        check_safe_name t.name
        >> with_fid fs t.directory λ r. do
          guard_change r
          pn ← child_path_node r t.name
          file ← file_of r
          call (fs.unlink_at file t.name t.flags)
          update (mark_child_deleted r t.name)
          pure (record {})
