-- ===== src/Messages/Walk.antt =====
-- p9/messages.go: walk and clunk messages.
pub mod Layout
use p.Base.{ℕ, List, [], ◌∷◌, ◌%◌, ◌^◌, ◌<◌, length}
use p.Buffer.{
  Reader, Writer, ◌>>=◌, ◌>>◌, pure, skip, read8, read16, read32, read64, write8, write16, write32,
  write64,
}
use p.Buffer.Fields.{
  read_qid_type, read_tag, read_fid, read_uid, read_gid, read_file_mode, read_permissions,
  read_open_flags, read_list, read_onto, emptied, read_string, write_qid_type, write_tag, write_fid,
  write_uid, write_gid, write_file_mode, write_permissions, write_open_flags, write_list,
  write_string,
}
use p.Types.Qid.{Qid, FsStat, decode_qid, encode_qid, decode_fs_stat, encode_fs_stat}
use p.Types.AttrMask.{AttrMask, decode_attr_mask, encode_attr_mask}
use p.Types.SetAttrMask.{SetAttrMask, decode_set_attr_mask, encode_set_attr_mask}
use p.Types.Attr.{Attr, SetAttr, decode_attr, encode_attr, decode_set_attr, encode_set_attr}
use p.Types.MsgType.{
  msg_twalk, msg_rwalk, msg_tclunk, msg_rclunk, msg_twalkgetattr, msg_rwalkgetattr,
}

pub record Twalk : Type 0 where
  pub fid : ℕ
  pub new_fid : ℕ
  pub names : List (List ℕ)

abbrev pub typ_twalk : ℕ
typ_twalk = msg_twalk

unfoldable pub decode_twalk : Twalk → Reader Twalk
decode_twalk t = do
  fid ← read_fid
  new_fid ← read_fid
  n ← read16
  names ← read_onto read_string n (emptied t.names)
  pure (record { fid = fid; new_fid = new_fid; names = names })

unfoldable pub encode_twalk : Twalk → Writer
encode_twalk t = do
  write_fid t.fid
  write_fid t.new_fid
  write16 (length t.names % 2 ^ 16)
  write_list write_string t.names

pub record Rwalk : Type 0 where
  pub qids : List Qid

abbrev pub typ_rwalk : ℕ
typ_rwalk = msg_rwalk

unfoldable pub decode_rwalk : Rwalk → Reader Rwalk
decode_rwalk r = do
  n ← read16
  qids ← read_onto decode_qid n (emptied r.qids)
  pure (record { qids = qids })

unfoldable pub encode_rwalk : Rwalk → Writer
encode_rwalk r = do write16 (length r.qids % 2 ^ 16); write_list encode_qid r.qids

pub record Tclunk : Type 0 where
  pub fid : ℕ

abbrev pub typ_tclunk : ℕ
typ_tclunk = msg_tclunk

unfoldable pub decode_tclunk : Reader Tclunk
decode_tclunk = do fid ← read_fid; pure (record { fid = fid })

unfoldable pub encode_tclunk : Tclunk → Writer
encode_tclunk t = write_fid t.fid

abbrev pub Rclunk : Type 0
Rclunk = record {}

abbrev pub typ_rclunk : ℕ
typ_rclunk = msg_rclunk

unfoldable pub decode_rclunk : Reader Rclunk
decode_rclunk = pure (record {})

unfoldable pub encode_rclunk : Rclunk → Writer
encode_rclunk r = skip

pub record Twalkgetattr : Type 0 where
  pub fid : ℕ
  pub new_fid : ℕ
  pub names : List (List ℕ)

abbrev pub typ_twalkgetattr : ℕ
typ_twalkgetattr = msg_twalkgetattr

unfoldable pub decode_twalkgetattr : Twalkgetattr → Reader Twalkgetattr
decode_twalkgetattr t = do
  fid ← read_fid
  new_fid ← read_fid
  n ← read16
  names ← read_onto read_string n (emptied t.names)
  pure (record { fid = fid; new_fid = new_fid; names = names })

unfoldable pub encode_twalkgetattr : Twalkgetattr → Writer
encode_twalkgetattr t = do
  write_fid t.fid
  write_fid t.new_fid
  write16 (length t.names % 2 ^ 16)
  write_list write_string t.names

pub record Rwalkgetattr : Type 0 where
  pub valid : AttrMask
  pub attr : Attr
  pub qids : List Qid

abbrev pub typ_rwalkgetattr : ℕ
typ_rwalkgetattr = msg_rwalkgetattr

unfoldable pub decode_rwalkgetattr : Rwalkgetattr → Reader Rwalkgetattr
decode_rwalkgetattr r = do
  valid ← decode_attr_mask
  attr ← decode_attr
  n ← read16
  qids ← read_onto decode_qid n (emptied r.qids)
  pure (record { valid = valid; attr = attr; qids = qids })

unfoldable pub encode_rwalkgetattr : Rwalkgetattr → Writer
encode_rwalkgetattr r = do
  encode_attr_mask r.valid
  encode_attr r.attr
  write16 (length r.qids % 2 ^ 16)
  write_list encode_qid r.qids
