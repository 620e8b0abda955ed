-- ===== src/Messages/Attributes.antt =====
-- p9/messages.go: attribute, extended attribute and file system statistics messages.
pub mod Layout
use p.Base.{ℕ, List, [], ◌∷◌, ◌%◌, ◌^◌, ◌<◌, length}
use p.Buffer.{
  Reader, Writer, ◌>>=◌, ◌>>◌, pure, skip, read8, read16, read32, read64, write8, write16, write32,
  write64,
}
use p.Buffer.Fields.{
  read_qid_type, read_tag, read_fid, read_uid, read_gid, read_file_mode, read_permissions,
  read_open_flags, read_list, read_string, write_qid_type, write_tag, write_fid, write_uid,
  write_gid, write_file_mode, write_permissions, write_open_flags, write_list, write_string,
}
use p.Types.Qid.{Qid, FsStat, decode_qid, encode_qid, decode_fs_stat, encode_fs_stat}
use p.Types.AttrMask.{AttrMask, decode_attr_mask, encode_attr_mask}
use p.Types.SetAttrMask.{SetAttrMask, decode_set_attr_mask, encode_set_attr_mask}
use p.Types.Attr.{Attr, SetAttr, decode_attr, encode_attr, decode_set_attr, encode_set_attr}
use p.Types.MsgType.{
  msg_tgetattr, msg_rgetattr, msg_tsetattr, msg_rsetattr, msg_txattrwalk, msg_rxattrwalk,
  msg_txattrcreate, msg_rxattrcreate, msg_tstatfs, msg_rstatfs,
}

pub record Tgetattr : Type 0 where
  pub fid : ℕ
  pub attr_mask : AttrMask

abbrev pub typ_tgetattr : ℕ
typ_tgetattr = msg_tgetattr

unfoldable pub decode_tgetattr : Reader Tgetattr
decode_tgetattr = do
  fid ← read_fid
  attr_mask ← decode_attr_mask
  pure (record { fid = fid; attr_mask = attr_mask })

unfoldable pub encode_tgetattr : Tgetattr → Writer
encode_tgetattr t = do write_fid t.fid; encode_attr_mask t.attr_mask

pub record Rgetattr : Type 0 where
  pub valid : AttrMask
  pub qid : Qid
  pub attr : Attr

abbrev pub typ_rgetattr : ℕ
typ_rgetattr = msg_rgetattr

unfoldable pub decode_rgetattr : Reader Rgetattr
decode_rgetattr = do
  valid ← decode_attr_mask
  qid ← decode_qid
  attr ← decode_attr
  pure (record { valid = valid; qid = qid; attr = attr })

unfoldable pub encode_rgetattr : Rgetattr → Writer
encode_rgetattr r = do encode_attr_mask r.valid; encode_qid r.qid; encode_attr r.attr

pub record Tsetattr : Type 0 where
  pub fid : ℕ
  pub valid : SetAttrMask
  pub set_attr : SetAttr

abbrev pub typ_tsetattr : ℕ
typ_tsetattr = msg_tsetattr

unfoldable pub decode_tsetattr : Reader Tsetattr
decode_tsetattr = do
  fid ← read_fid
  valid ← decode_set_attr_mask
  set_attr ← decode_set_attr
  pure (record { fid = fid; valid = valid; set_attr = set_attr })

unfoldable pub encode_tsetattr : Tsetattr → Writer
encode_tsetattr t = do write_fid t.fid; encode_set_attr_mask t.valid; encode_set_attr t.set_attr

abbrev pub Rsetattr : Type 0
Rsetattr = record {}

abbrev pub typ_rsetattr : ℕ
typ_rsetattr = msg_rsetattr

unfoldable pub decode_rsetattr : Reader Rsetattr
decode_rsetattr = pure (record {})

unfoldable pub encode_rsetattr : Rsetattr → Writer
encode_rsetattr r = skip

pub record Txattrwalk : Type 0 where
  pub fid : ℕ
  pub new_fid : ℕ
  pub name : List ℕ

abbrev pub typ_txattrwalk : ℕ
typ_txattrwalk = msg_txattrwalk

unfoldable pub decode_txattrwalk : Reader Txattrwalk
decode_txattrwalk = do
  fid ← read_fid
  new_fid ← read_fid
  name ← read_string
  pure (record { fid = fid; new_fid = new_fid; name = name })

unfoldable pub encode_txattrwalk : Txattrwalk → Writer
encode_txattrwalk t = do write_fid t.fid; write_fid t.new_fid; write_string t.name

pub record Rxattrwalk : Type 0 where
  pub size : ℕ

abbrev pub typ_rxattrwalk : ℕ
typ_rxattrwalk = msg_rxattrwalk

unfoldable pub decode_rxattrwalk : Reader Rxattrwalk
decode_rxattrwalk = do size ← read64; pure (record { size = size })

unfoldable pub encode_rxattrwalk : Rxattrwalk → Writer
encode_rxattrwalk r = write64 r.size

pub record Txattrcreate : Type 0 where
  pub fid : ℕ
  pub name : List ℕ
  pub attr_size : ℕ
  pub flags : ℕ

abbrev pub typ_txattrcreate : ℕ
typ_txattrcreate = msg_txattrcreate

unfoldable pub decode_txattrcreate : Reader Txattrcreate
decode_txattrcreate = do
  fid ← read_fid
  name ← read_string
  attr_size ← read64
  flags ← read32
  pure (record { fid = fid; name = name; attr_size = attr_size; flags = flags })

unfoldable pub encode_txattrcreate : Txattrcreate → Writer
encode_txattrcreate t = do
  write_fid t.fid
  write_string t.name
  write64 t.attr_size
  write32 t.flags

abbrev pub Rxattrcreate : Type 0
Rxattrcreate = record {}

abbrev pub typ_rxattrcreate : ℕ
typ_rxattrcreate = msg_rxattrcreate

unfoldable pub decode_rxattrcreate : Reader Rxattrcreate
decode_rxattrcreate = pure (record {})

unfoldable pub encode_rxattrcreate : Rxattrcreate → Writer
encode_rxattrcreate r = skip

pub record Tstatfs : Type 0 where
  pub fid : ℕ

abbrev pub typ_tstatfs : ℕ
typ_tstatfs = msg_tstatfs

unfoldable pub decode_tstatfs : Reader Tstatfs
decode_tstatfs = do fid ← read_fid; pure (record { fid = fid })

unfoldable pub encode_tstatfs : Tstatfs → Writer
encode_tstatfs t = write_fid t.fid

pub record Rstatfs : Type 0 where
  pub fs_stat : FsStat

abbrev pub typ_rstatfs : ℕ
typ_rstatfs = msg_rstatfs

unfoldable pub decode_rstatfs : Reader Rstatfs
decode_rstatfs = do fs_stat ← decode_fs_stat; pure (record { fs_stat = fs_stat })

unfoldable pub encode_rstatfs : Rstatfs → Writer
encode_rstatfs r = encode_fs_stat r.fs_stat
