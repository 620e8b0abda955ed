-- ===== src/Examples/Handlers.antt =====
-- Requests on a file system that keeps what is written to it.
use p.Base.{ℕ, List, [], ◌∷◌, Bool, none, length}
use p.Linux.{errno, enosys}
use p.PathTree.{new_path_node}
use p.Version.{undetermined}
use p.Messages.Message.Blank.Zero.{zero_attr, zero_attr_mask, zero_qid, zero_fs_stat}
use p.Handlers.{FileSystem, done, failed}
use p.Handlers.State.{ConnState, Details, no_pending_xattr}
use p.Examples.Fids.{attached}

-- The files keep the values of attributes that were set, the last one first.
abbrev pub keeping : FileSystem (List (List ℕ))
keeping = record {
  attach = λ b. (done 0, b);
  walk = λ f names b. (done ([], f), b);
  walk_get_attr = λ f names b. (failed (errno enosys), b);
  stat_fs = λ f b. (done zero_fs_stat, b);
  get_attr = λ f mask b. (done (zero_qid, zero_attr_mask, zero_attr), b);
  set_attr = λ f mask attr b. (done tt, b);
  close = λ f b. (done tt, b);
  open_file = λ f flags b. (done (zero_qid, 0), b);
  read_at = λ f n offset b. (done (1 ∷ 2 ∷ [], none), b);
  write_at = λ f content offset b. (done (length content), content ∷ b);
  set_xattr = λ f name value flags b. (done tt, value ∷ b);
  get_xattr = λ f name b. (done (7 ∷ []), b);
  list_xattrs = λ f b. (done [], b);
  remove_xattr = λ f name b. (done tt, b);
  f_sync = λ f b. (done tt, b);
  lock = λ f pid type flags from len client b. (done 0, b);
  create = λ f name flags permissions uid gid b. (done (1, zero_qid, 0), b);
  mkdir = λ f name permissions uid gid b. (done zero_qid, name ∷ b);
  symlink = λ f target name uid gid b. (done zero_qid, b);
  link = λ f target name b. (done tt, b);
  mknod = λ f name mode major minor uid gid b. (done zero_qid, b);
  rename_at = λ f old target new b. (done tt, b);
  unlink_at = λ f name flags b. (done tt, b);
  readdir = λ f offset n b. (done ([], none), b);
  readlink = λ f b. (done [], b);
  renamed = λ f target name b. (done tt, b);
}

abbrev pub details_of : Bool → ℕ → ℕ → ℕ → Details
details_of opened mode flags r = record {
  file = r;
  pending_xattr = no_pending_xattr;
  opened = opened;
  mode = mode;
  open_flags = flags;
  path_node = 0;
}

-- The fid 1 stands for the reference 0, as `attached` has it.
abbrev pub conn : Bool → ℕ → ℕ → ConnState (List (List ℕ))
conn opened mode flags = record {
  server = attached;
  made = 1;
  details = details_of opened mode flags;
  made_nodes = 1;
  nodes = λ pn. new_path_node;
  session = record { message_size = 8192; version = 0; base_version = undetermined };
  files = [];
}
