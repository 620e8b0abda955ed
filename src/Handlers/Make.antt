-- ===== src/Handlers/Make.antt =====
-- p9/handlers.go: the handlers that make a file below a directory. `uid` is NoUID but for the
-- messages that carry one.
use p.Base.{ℕ, suc, List, true, Option, none, some}
use p.PathTree.{PathNode, path_node_for, add_child, new_path_node}
use p.FileMode.{mode_regular}
use p.Types.Qid.{Qid}
use p.Messages.Open.{Tlcreate, Rlcreate, Tucreate, Rucreate}
use p.Messages.Names.{Tlink, Rlink}
use p.Messages.Make.{
  Tsymlink, Rsymlink, Tusymlink, Rusymlink, Tmknod, Rmknod, Tumknod, Rumknod, Tmkdir, Rmkdir,
  Tumkdir, Rumkdir,
}
use p.Handlers.{FileSystem, done, panicked}
use p.Handlers.State.{M, Details, no_pending_xattr, pure, call, deferring, ◌>>=◌, ◌>>◌, set_node}
use p.Handlers.Refs.{with_fid, install, release, retain, new_ref}
use p.Handlers.Names.{check_safe_name, guard_change, file_of}

-- math.MaxUint32
abbrev pub no_uid : ℕ
no_uid = 4294967295

module _ {B : Type 0} where
  -- ref.pathNode.pathNodeFor(name), which may make the node.
  unfoldable pub child_path_node : ℕ → List ℕ → M B ℕ
  child_path_node r name s =
      let pn = (s.details r).path_node in
      let (child, node) = path_node_for name s.made_nodes (s.nodes pn) in
      let made = set_node s.made_nodes new_path_node (record s { made_nodes = suc s.made_nodes }) in
      (done child, set_node pn node made)

  abbrev pub added_child : ℕ → Option PathNode → M B (Unit {0})
  added_child pn none s = (panicked, s)
  added_child pn (some node) s = (done tt, set_node pn node s)

  -- ref.pathNode.addChild(newRef, name), which may panic.
  unfoldable pub add_child_ref : ℕ → ℕ → List ℕ → M B (Unit {0})
  add_child_ref r child name s =
      let pn = (s.details r).path_node in added_child pn (add_child child name (s.nodes pn)) s

  -- A reference below `r`, which owns a count of `r` of its own.
  unfoldable pub new_child : ℕ → List ℕ → Details → M B ℕ
  unfolding add_child_ref retain new_ref
  new_child r name d s = (add_child_ref r s.made name >> (retain r >> new_ref (some r) d)) s

  module _ (fs : FileSystem B) where
    -- The reference below `r` to a file just made.
    unfoldable pub created : Tlcreate → ℕ → ℕ × Qid × ℕ → M B Rlcreate
    unfolding child_path_node new_child install release
    created t r (file, qid, io_unit) = do
      pn ← child_path_node r t.name
      child ← new_child r t.name (record {
        file = file;
        pending_xattr = no_pending_xattr;
        opened = true;
        mode = mode_regular;
        open_flags = t.open_flags;
        path_node = pn;
      })
      deferring (release fs child) (
          install fs t.fid child
          >> pure (record { rlopen = record { qid = qid; io_unit = io_unit } }))

    unfoldable pub do_tlcreate : Tlcreate → ℕ → M B Rlcreate
    unfolding check_safe_name with_fid guard_change created
    do_tlcreate t uid =
        check_safe_name t.name
        >> with_fid fs t.fid λ r. do
          guard_change r
          file ← file_of r
          made ← call (fs.create file t.name t.open_flags t.permissions uid t.gid)
          created t r made

    unfoldable pub do_tsymlink : Tsymlink → ℕ → M B Rsymlink
    unfolding check_safe_name with_fid guard_change
    do_tsymlink t uid =
        check_safe_name t.name
        >> with_fid fs t.directory λ r. do
          guard_change r
          file ← file_of r
          qid ← call (fs.symlink file t.target t.name uid t.gid)
          pure (record { qid = qid })

    unfoldable pub do_tmknod : Tmknod → ℕ → M B Rmknod
    unfolding check_safe_name with_fid guard_change
    do_tmknod t uid =
        check_safe_name t.name
        >> with_fid fs t.directory λ r. do
          guard_change r
          file ← file_of r
          qid ← call (fs.mknod file t.name t.mode t.major t.minor uid t.gid)
          pure (record { qid = qid })

    unfoldable pub do_tmkdir : Tmkdir → ℕ → M B Rmkdir
    unfolding check_safe_name with_fid guard_change
    do_tmkdir t uid =
        check_safe_name t.name
        >> with_fid fs t.directory λ r. do
          guard_change r
          file ← file_of r
          qid ← call (fs.mkdir file t.name t.permissions uid t.gid)
          pure (record { qid = qid })

    unfoldable pub handle_tlink : Tlink → M B Rlink
    unfolding check_safe_name with_fid guard_change
    handle_tlink t =
        check_safe_name t.name
        >> with_fid fs t.directory λ r. with_fid fs t.target λ target. do
          guard_change r
          file ← file_of r
          target_file ← file_of target
          call (fs.link file target_file t.name)
          pure (record {})

    unfoldable pub handle_tucreate : Tucreate → M B Rucreate
    unfolding do_tlcreate
    handle_tucreate t = do r ← do_tlcreate t.tlcreate t.uid; pure (record { rlcreate = r })

    unfoldable pub handle_tusymlink : Tusymlink → M B Rusymlink
    unfolding do_tsymlink
    handle_tusymlink t = do r ← do_tsymlink t.tsymlink t.uid; pure (record { rsymlink = r })

    unfoldable pub handle_tumknod : Tumknod → M B Rumknod
    unfolding do_tmknod
    handle_tumknod t = do r ← do_tmknod t.tmknod t.uid; pure (record { rmknod = r })

    unfoldable pub handle_tumkdir : Tumkdir → M B Rumkdir
    unfolding do_tmkdir
    handle_tumkdir t = do r ← do_tmkdir t.tmkdir t.uid; pure (record { rmkdir = r })
