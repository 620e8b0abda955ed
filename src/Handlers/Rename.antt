-- ===== src/Handlers/Rename.antt =====
-- p9/server.go and p9/handlers.go: Trename and Trenameat, and how a child and what is below it get
-- another parent or name.
use p.Base.{
  ℕ, zero, suc, List, [], ◌∷◌, Bool, true, false, Option, none, some, ◌==◌, ◌||◌, ◌&&◌, not,
  if◌then◌else◌,
}
use p.Base.Bytes.{same_bytes}
use p.Base.Assoc.{lookup, without}
use p.Linux.{errno, einval}
use p.FileMode.{is_dir}
use p.PathTree.{PathNode, remove_ref, or_empty, add_path_node_for}
use p.Server.{set_ref, try_inc_ref}
use p.Messages.Names.{Trename, Rrename, Trenameat, Rrenameat}
use p.Handlers.{FileSystem, Outcome, done, failed, panicked}
use p.Handlers.State.{
  M, ConnState, pure, fail_if, gets, call, deferring, ◌>>=◌, ◌>>◌, update, set_node,
}
use p.Handlers.Refs.{set_server, with_fid, release, retain}
use p.Handlers.Names.{check_safe_name, is_deleted, guard_closed, file_of}
use p.Handlers.Make.{add_child_ref}
use p.Handlers.Remove.{mark_child_deleted, parent_of, name_of, targets}

abbrev pub or_nil : Option ℕ → Outcome ℕ
or_nil none = panicked
or_nil (some q) = done q

-- The references of a node, each with its name, in the order of the lists.
abbrev pub under : List ℕ → List ℕ → List (ℕ × List ℕ) → List (ℕ × List ℕ)
under name [] rest = rest
under name (ref ∷ refs) rest = (ref, name) ∷ under name refs rest

abbrev pub each_child_ref : List (List ℕ × List ℕ) → List (ℕ × List ℕ)
each_child_ref [] = []
each_child_ref ((name, refs) ∷ m) = under name refs (each_child_ref m)

module _ {B : Type 0} where
  abbrev pub node_of : ConnState B → ℕ → ℕ
  node_of s r = (s.details r).path_node

  abbrev pub set_parent : ℕ → ℕ → ConnState B → ConnState B
  set_parent r q s =
      set_server
        (record s.server {
          fid_refs = set_ref r (record (s.server.fid_refs r) { parent = some q }) s.server.fid_refs;
        })
        s

  -- delete(m, ref); delete(p.childRefNames, ref)
  unfoldable pub forget : ℕ → List ℕ → ℕ → M B (Unit {0})
  unfolding remove_ref
  forget pn name ref s = (done tt, set_node pn (remove_ref name ref (s.nodes pn)) s)

  -- delete(p.childNodes, name), and the node that was there.
  unfoldable pub take_node : ℕ → List ℕ → M B (Option ℕ)
  take_node pn name s = (
    done (lookup same_bytes name (s.nodes pn).child_nodes),
    set_node pn
        (record (s.nodes pn) { child_nodes = without same_bytes name (s.nodes pn).child_nodes }) s,
  )

  abbrev pub for_each : {A : Type 0} → (A → M B (Unit {0})) → List A → M B (Unit {0})
  for_each f [] = pure tt
  for_each f (a ∷ as') = f a >> for_each f as'

  -- A use of ref.parent, where the source has no test for a root.
  abbrev pub parent_or_panic : ℕ → M B ℕ
  parent_or_panic r s = (or_nil (s.server.fid_refs r).parent, s)

  abbrev pub added_node : ℕ → Option PathNode → M B (Unit {0})
  added_node pn none s = (panicked, s)
  added_node pn (some node) s = (done tt, set_node pn node s)

  -- target.pathNode.addPathNodeFor(newName, origPathNode), which may panic.
  unfoldable pub give_node : ℕ → List ℕ → ℕ → M B (Unit {0})
  give_node pn name orig s = added_node pn (add_path_node_for name orig (s.nodes pn)) s

  module _ (fs : FileSystem B) where
    -- ref.file.Renamed(ref.parent.file, name)
    unfoldable pub notify_renamed : ℕ × List ℕ → M B (Unit {0})
    notify_renamed (ref, name) = do
      parent ← parent_or_panic ref
      file ← file_of ref
      parent_file ← file_of parent
      call (fs.renamed file parent_file name)

    -- `depth` bounds how far the nodes go down.
    unfoldable pub notify_name_change : ℕ → ℕ → M B (Unit {0})
    unfolding notify_renamed
    notify_name_change zero pn = pure tt
    notify_name_change (suc depth) pn = do
      refs ← gets (λ (s : ConnState B). each_child_ref (s.nodes pn).child_refs)
      for_each notify_renamed refs
      nodes ← gets (λ (s : ConnState B). targets (s.nodes pn).child_nodes)
      for_each (notify_name_change depth) nodes

    -- The callback of renameChildTo, for a reference that is held.
    unfoldable pub move_ref : ℕ → ℕ → List ℕ → M B (Unit {0})
    unfolding release retain add_child_ref
    move_ref ref target new_name = do
      old ← parent_or_panic ref
      deferring (release fs old) (pure tt)
      update (set_parent ref target)
      retain target
      add_child_ref target ref new_name
      file ← file_of ref
      target_file ← file_of target
      call (fs.renamed file target_file new_name)

    abbrev pub if_held : Bool → M B (Unit {0}) → M B (Unit {0})
    if_held true m = m
    if_held false m = pure tt

    -- What removeWithName does for one reference: TryIncRef, the callback, and DecRef.
    unfoldable pub move_held : ℕ → ℕ → List ℕ → M B (Unit {0})
    unfolding move_ref release
    move_held ref target new_name s =
        let (held, server) = try_inc_ref ref s.server in
        if_held held (move_ref ref target new_name >> deferring (release fs ref) (pure tt))
          (set_server server s)

    unfoldable pub move_refs : ℕ → List ℕ → ℕ → List ℕ → List ℕ → M B (Unit {0})
    unfolding forget move_held
    move_refs pn old_name target new_name refs =
        for_each (λ ref. forget pn old_name ref >> move_held ref target new_name) refs

    abbrev pub move_node : ℕ → List ℕ → Option ℕ → M B (Unit {0})
    move_node target new_name none = pure tt
    move_node target new_name (some orig) = do
      to ← gets (λ (s : ConnState B). node_of s target)
      give_node to new_name orig
      depth ← gets (λ (s : ConnState B). s.made_nodes)
      notify_name_change depth orig

    unfoldable pub rename_child_to : ℕ → List ℕ → ℕ → List ℕ → M B (Unit {0})
    unfolding mark_child_deleted move_refs take_node give_node notify_name_change
    rename_child_to r old_name target new_name = do
      update (mark_child_deleted target new_name)
      pn ← gets (λ (s : ConnState B). node_of s r)
      refs ←
          gets (λ (s : ConnState B). or_empty (lookup same_bytes old_name (s.nodes pn).child_refs))
      move_refs pn old_name target new_name refs
      orig ← take_node pn old_name
      move_node target new_name orig

    -- if ref.isDeleted() || !ref.mode.IsDir() || refTarget.isDeleted() || !refTarget.mode.IsDir()
    unfoldable pub guard_directories : ℕ → ℕ → M B (Unit {0})
    unfolding is_dir
    guard_directories r target s =
        fail_if
          (is_deleted s r
            || (not (is_dir (s.details r).mode)
                || (is_deleted s target || not (is_dir (s.details target).mode))))
          (errno einval) s

    -- RenameAt, unless the name stays the same.
    abbrev pub unless_same : Bool → M B (Unit {0}) → M B (Unit {0})
    unless_same true m = pure tt
    unless_same false m = m

    unfoldable pub rename_below : ℕ → List ℕ → ℕ → List ℕ → M B (Unit {0})
    unfolding rename_child_to
    rename_below r old_name target new_name = do
      same ←
          gets
            (λ (s : ConnState B). (node_of s r == node_of s target) && same_bytes old_name new_name)
      unless_same same do
        file ← file_of r
        target_file ← file_of target
        call (fs.rename_at file old_name target_file new_name)
        rename_child_to r old_name target new_name

    unfoldable pub handle_trenameat : Trenameat → M B Rrenameat
    unfolding check_safe_name with_fid guard_directories guard_closed rename_below
    handle_trenameat t =
        check_safe_name t.old_name
        >> (check_safe_name t.new_name
            >> with_fid fs t.old_directory λ r. with_fid fs t.new_directory λ target. do
              guard_directories r target
              guard_closed r
              rename_below r t.old_name target t.new_name
              pure (record {}))

    -- if ref.isDeleted() || refTarget.isDeleted() || !refTarget.mode.IsDir() { return EINVAL }, and the
    -- panic on a parent that is deleted.
    unfoldable pub guard_rename : ℕ → ℕ → ℕ → M B (Unit {0})
    unfolding is_dir
    guard_rename r target parent s =
        if is_deleted s r || (is_deleted s target || not (is_dir (s.details target).mode))
        then (failed (errno einval), s)
        else (if is_deleted s parent then panicked else done tt, s)

    unfoldable pub handle_trename : Trename → M B Rrename
    unfolding check_safe_name with_fid parent_of guard_rename name_of rename_below
    handle_trename t =
        check_safe_name t.name
        >> with_fid fs t.fid λ r. with_fid fs t.directory λ target. do
          parent ← parent_of r
          guard_rename r target parent
          old_name ← name_of r parent
          rename_below parent old_name target t.name
          pure (record {})
