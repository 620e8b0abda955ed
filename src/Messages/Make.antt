-- ===== src/Messages/Make.antt =====
-- p9/messages.go: messages that make nodes: symlink, mknod, mkdir.
pub mod Layout
use p.Base.{ℕ, List, [], ◌∷◌, ◌%◌, ◌^◌, ◌<◌, length}
use p.Buffer.{
  Reader, Writer, ◌>>=◌, ◌>>◌, pure, skip, read8, read16, read32, read64, write8, write16, write32,
  write64,
}
use p.Buffer.Fields.{
  read_qid_type, read_tag, read_fid, read_uid, read_gid, read_file_mode, read_permissions,
  read_open_flags, read_list, read_string, write_qid_type, write_tag, write_fid, write_uid,
  write_gid, write_file_mode, write_permissions, write_open_flags, write_list, write_string,
}
use p.Types.Qid.{Qid, FsStat, decode_qid, encode_qid, decode_fs_stat, encode_fs_stat}
use p.Types.AttrMask.{AttrMask, decode_attr_mask, encode_attr_mask}
use p.Types.SetAttrMask.{SetAttrMask, decode_set_attr_mask, encode_set_attr_mask}
use p.Types.Attr.{Attr, SetAttr, decode_attr, encode_attr, decode_set_attr, encode_set_attr}
use p.Types.MsgType.{
  msg_tsymlink, msg_rsymlink, msg_tusymlink, msg_rusymlink, msg_tmknod, msg_rmknod, msg_tumknod,
  msg_rumknod, msg_tmkdir, msg_rmkdir, msg_tumkdir, msg_rumkdir,
}

pub record Tsymlink : Type 0 where
  pub directory : ℕ
  pub name : List ℕ
  pub target : List ℕ
  pub gid : ℕ

abbrev pub typ_tsymlink : ℕ
typ_tsymlink = msg_tsymlink

unfoldable pub decode_tsymlink : Reader Tsymlink
decode_tsymlink = do
  directory ← read_fid
  name ← read_string
  target ← read_string
  gid ← read_gid
  pure (record { directory = directory; name = name; target = target; gid = gid })

unfoldable pub encode_tsymlink : Tsymlink → Writer
encode_tsymlink t = do
  write_fid t.directory
  write_string t.name
  write_string t.target
  write_gid t.gid

pub record Rsymlink : Type 0 where
  pub qid : Qid

abbrev pub typ_rsymlink : ℕ
typ_rsymlink = msg_rsymlink

unfoldable pub decode_rsymlink : Reader Rsymlink
decode_rsymlink = do qid ← decode_qid; pure (record { qid = qid })

unfoldable pub encode_rsymlink : Rsymlink → Writer
encode_rsymlink r = encode_qid r.qid

pub record Tusymlink : Type 0 where
  pub tsymlink : Tsymlink
  pub uid : ℕ

abbrev pub typ_tusymlink : ℕ
typ_tusymlink = msg_tusymlink

unfoldable pub decode_tusymlink : Reader Tusymlink
decode_tusymlink = do
  tsymlink ← decode_tsymlink
  uid ← read_uid
  pure (record { tsymlink = tsymlink; uid = uid })

unfoldable pub encode_tusymlink : Tusymlink → Writer
encode_tusymlink t = do encode_tsymlink t.tsymlink; write_uid t.uid

pub record Rusymlink : Type 0 where
  pub rsymlink : Rsymlink

abbrev pub typ_rusymlink : ℕ
typ_rusymlink = msg_rusymlink

unfoldable pub decode_rusymlink : Reader Rusymlink
decode_rusymlink = do rsymlink ← decode_rsymlink; pure (record { rsymlink = rsymlink })

unfoldable pub encode_rusymlink : Rusymlink → Writer
encode_rusymlink r = encode_rsymlink r.rsymlink

pub record Tmknod : Type 0 where
  pub directory : ℕ
  pub name : List ℕ
  pub mode : ℕ
  pub major : ℕ
  pub minor : ℕ
  pub gid : ℕ

abbrev pub typ_tmknod : ℕ
typ_tmknod = msg_tmknod

unfoldable pub decode_tmknod : Reader Tmknod
decode_tmknod = do
  directory ← read_fid
  name ← read_string
  mode ← read_file_mode
  major ← read32
  minor ← read32
  gid ← read_gid
  pure (record {
    directory = directory;
    name = name;
    mode = mode;
    major = major;
    minor = minor;
    gid = gid;
  })

unfoldable pub encode_tmknod : Tmknod → Writer
encode_tmknod t = do
  write_fid t.directory
  write_string t.name
  write_file_mode t.mode
  write32 t.major
  write32 t.minor
  write_gid t.gid

pub record Rmknod : Type 0 where
  pub qid : Qid

abbrev pub typ_rmknod : ℕ
typ_rmknod = msg_rmknod

unfoldable pub decode_rmknod : Reader Rmknod
decode_rmknod = do qid ← decode_qid; pure (record { qid = qid })

unfoldable pub encode_rmknod : Rmknod → Writer
encode_rmknod r = encode_qid r.qid

pub record Tumknod : Type 0 where
  pub tmknod : Tmknod
  pub uid : ℕ

abbrev pub typ_tumknod : ℕ
typ_tumknod = msg_tumknod

unfoldable pub decode_tumknod : Reader Tumknod
decode_tumknod = do
  tmknod ← decode_tmknod
  uid ← read_uid
  pure (record { tmknod = tmknod; uid = uid })

unfoldable pub encode_tumknod : Tumknod → Writer
encode_tumknod t = do encode_tmknod t.tmknod; write_uid t.uid

pub record Rumknod : Type 0 where
  pub rmknod : Rmknod

abbrev pub typ_rumknod : ℕ
typ_rumknod = msg_rumknod

unfoldable pub decode_rumknod : Reader Rumknod
decode_rumknod = do rmknod ← decode_rmknod; pure (record { rmknod = rmknod })

unfoldable pub encode_rumknod : Rumknod → Writer
encode_rumknod r = encode_rmknod r.rmknod

pub record Tmkdir : Type 0 where
  pub directory : ℕ
  pub name : List ℕ
  pub permissions : ℕ
  pub gid : ℕ

abbrev pub typ_tmkdir : ℕ
typ_tmkdir = msg_tmkdir

unfoldable pub decode_tmkdir : Reader Tmkdir
decode_tmkdir = do
  directory ← read_fid
  name ← read_string
  permissions ← read_permissions
  gid ← read_gid
  pure (record { directory = directory; name = name; permissions = permissions; gid = gid })

unfoldable pub encode_tmkdir : Tmkdir → Writer
encode_tmkdir t = do
  write_fid t.directory
  write_string t.name
  write_permissions t.permissions
  write_gid t.gid

pub record Rmkdir : Type 0 where
  pub qid : Qid

abbrev pub typ_rmkdir : ℕ
typ_rmkdir = msg_rmkdir

unfoldable pub decode_rmkdir : Reader Rmkdir
decode_rmkdir = do qid ← decode_qid; pure (record { qid = qid })

unfoldable pub encode_rmkdir : Rmkdir → Writer
encode_rmkdir r = encode_qid r.qid

pub record Tumkdir : Type 0 where
  pub tmkdir : Tmkdir
  pub uid : ℕ

abbrev pub typ_tumkdir : ℕ
typ_tumkdir = msg_tumkdir

unfoldable pub decode_tumkdir : Reader Tumkdir
decode_tumkdir = do
  tmkdir ← decode_tmkdir
  uid ← read_uid
  pure (record { tmkdir = tmkdir; uid = uid })

unfoldable pub encode_tumkdir : Tumkdir → Writer
encode_tumkdir t = do encode_tmkdir t.tmkdir; write_uid t.uid

pub record Rumkdir : Type 0 where
  pub rmkdir : Rmkdir

abbrev pub typ_rumkdir : ℕ
typ_rumkdir = msg_rumkdir

unfoldable pub decode_rumkdir : Reader Rumkdir
decode_rumkdir = do rmkdir ← decode_rmkdir; pure (record { rmkdir = rmkdir })

unfoldable pub encode_rumkdir : Rumkdir → Writer
encode_rumkdir r = encode_rmkdir r.rmkdir
