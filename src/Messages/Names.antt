-- ===== src/Messages/Names.antt =====
-- p9/messages.go: messages that change or read names: link, rename, unlink, remove, readlink.
pub mod Layout
use p.Base.{ℕ, List, [], ◌∷◌, ◌%◌, ◌^◌, ◌<◌, length}
use p.Buffer.{
  Reader, Writer, ◌>>=◌, ◌>>◌, pure, skip, read8, read16, read32, read64, write8, write16, write32,
  write64,
}
use p.Buffer.Fields.{
  read_qid_type, read_tag, read_fid, read_uid, read_gid, read_file_mode, read_permissions,
  read_open_flags, read_list, read_string, write_qid_type, write_tag, write_fid, write_uid,
  write_gid, write_file_mode, write_permissions, write_open_flags, write_list, write_string,
}
use p.Types.Qid.{Qid, FsStat, decode_qid, encode_qid, decode_fs_stat, encode_fs_stat}
use p.Types.AttrMask.{AttrMask, decode_attr_mask, encode_attr_mask}
use p.Types.SetAttrMask.{SetAttrMask, decode_set_attr_mask, encode_set_attr_mask}
use p.Types.Attr.{Attr, SetAttr, decode_attr, encode_attr, decode_set_attr, encode_set_attr}
use p.Types.MsgType.{
  msg_tremove, msg_rremove, msg_tlink, msg_rlink, msg_trenameat, msg_rrenameat, msg_tunlinkat,
  msg_runlinkat, msg_trename, msg_rrename, msg_treadlink, msg_rreadlink,
}

pub record Tremove : Type 0 where
  pub fid : ℕ

abbrev pub typ_tremove : ℕ
typ_tremove = msg_tremove

unfoldable pub decode_tremove : Reader Tremove
decode_tremove = do fid ← read_fid; pure (record { fid = fid })

unfoldable pub encode_tremove : Tremove → Writer
encode_tremove t = write_fid t.fid

abbrev pub Rremove : Type 0
Rremove = record {}

abbrev pub typ_rremove : ℕ
typ_rremove = msg_rremove

unfoldable pub decode_rremove : Reader Rremove
decode_rremove = pure (record {})

unfoldable pub encode_rremove : Rremove → Writer
encode_rremove r = skip

pub record Tlink : Type 0 where
  pub directory : ℕ
  pub target : ℕ
  pub name : List ℕ

abbrev pub typ_tlink : ℕ
typ_tlink = msg_tlink

unfoldable pub decode_tlink : Reader Tlink
decode_tlink = do
  directory ← read_fid
  target ← read_fid
  name ← read_string
  pure (record { directory = directory; target = target; name = name })

unfoldable pub encode_tlink : Tlink → Writer
encode_tlink t = do write_fid t.directory; write_fid t.target; write_string t.name

abbrev pub Rlink : Type 0
Rlink = record {}

abbrev pub typ_rlink : ℕ
typ_rlink = msg_rlink

unfoldable pub decode_rlink : Reader Rlink
decode_rlink = pure (record {})

unfoldable pub encode_rlink : Rlink → Writer
encode_rlink r = skip

pub record Trenameat : Type 0 where
  pub old_directory : ℕ
  pub old_name : List ℕ
  pub new_directory : ℕ
  pub new_name : List ℕ

abbrev pub typ_trenameat : ℕ
typ_trenameat = msg_trenameat

unfoldable pub decode_trenameat : Reader Trenameat
decode_trenameat = do
  old_directory ← read_fid
  old_name ← read_string
  new_directory ← read_fid
  new_name ← read_string
  pure (record {
    old_directory = old_directory;
    old_name = old_name;
    new_directory = new_directory;
    new_name = new_name;
  })

unfoldable pub encode_trenameat : Trenameat → Writer
encode_trenameat t = do
  write_fid t.old_directory
  write_string t.old_name
  write_fid t.new_directory
  write_string t.new_name

abbrev pub Rrenameat : Type 0
Rrenameat = record {}

abbrev pub typ_rrenameat : ℕ
typ_rrenameat = msg_rrenameat

unfoldable pub decode_rrenameat : Reader Rrenameat
decode_rrenameat = pure (record {})

unfoldable pub encode_rrenameat : Rrenameat → Writer
encode_rrenameat r = skip

pub record Tunlinkat : Type 0 where
  pub directory : ℕ
  pub name : List ℕ
  pub flags : ℕ

abbrev pub typ_tunlinkat : ℕ
typ_tunlinkat = msg_tunlinkat

unfoldable pub decode_tunlinkat : Reader Tunlinkat
decode_tunlinkat = do
  directory ← read_fid
  name ← read_string
  flags ← read32
  pure (record { directory = directory; name = name; flags = flags })

unfoldable pub encode_tunlinkat : Tunlinkat → Writer
encode_tunlinkat t = do write_fid t.directory; write_string t.name; write32 t.flags

abbrev pub Runlinkat : Type 0
Runlinkat = record {}

abbrev pub typ_runlinkat : ℕ
typ_runlinkat = msg_runlinkat

unfoldable pub decode_runlinkat : Reader Runlinkat
decode_runlinkat = pure (record {})

unfoldable pub encode_runlinkat : Runlinkat → Writer
encode_runlinkat r = skip

pub record Trename : Type 0 where
  pub fid : ℕ
  pub directory : ℕ
  pub name : List ℕ

abbrev pub typ_trename : ℕ
typ_trename = msg_trename

unfoldable pub decode_trename : Reader Trename
decode_trename = do
  fid ← read_fid
  directory ← read_fid
  name ← read_string
  pure (record { fid = fid; directory = directory; name = name })

unfoldable pub encode_trename : Trename → Writer
encode_trename t = do write_fid t.fid; write_fid t.directory; write_string t.name

abbrev pub Rrename : Type 0
Rrename = record {}

abbrev pub typ_rrename : ℕ
typ_rrename = msg_rrename

unfoldable pub decode_rrename : Reader Rrename
decode_rrename = pure (record {})

unfoldable pub encode_rrename : Rrename → Writer
encode_rrename r = skip

pub record Treadlink : Type 0 where
  pub fid : ℕ

abbrev pub typ_treadlink : ℕ
typ_treadlink = msg_treadlink

unfoldable pub decode_treadlink : Reader Treadlink
decode_treadlink = do fid ← read_fid; pure (record { fid = fid })

unfoldable pub encode_treadlink : Treadlink → Writer
encode_treadlink t = write_fid t.fid

pub record Rreadlink : Type 0 where
  pub target : List ℕ

abbrev pub typ_rreadlink : ℕ
typ_rreadlink = msg_rreadlink

unfoldable pub decode_rreadlink : Reader Rreadlink
decode_rreadlink = do target ← read_string; pure (record { target = target })

unfoldable pub encode_rreadlink : Rreadlink → Writer
encode_rreadlink r = write_string r.target
