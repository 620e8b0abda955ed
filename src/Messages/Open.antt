-- ===== src/Messages/Open.antt =====
-- p9/messages.go: open and create messages.
pub mod Layout
use p.Base.{ℕ, List, [], ◌∷◌, ◌%◌, ◌^◌, ◌<◌, length}
use p.Buffer.{
  Reader, Writer, ◌>>=◌, ◌>>◌, pure, skip, read8, read16, read32, read64, write8, write16, write32,
  write64,
}
use p.Buffer.Fields.{
  read_qid_type, read_tag, read_fid, read_uid, read_gid, read_file_mode, read_permissions,
  read_open_flags, read_list, read_string, write_qid_type, write_tag, write_fid, write_uid,
  write_gid, write_file_mode, write_permissions, write_open_flags, write_list, write_string,
}
use p.Types.Qid.{Qid, FsStat, decode_qid, encode_qid, decode_fs_stat, encode_fs_stat}
use p.Types.AttrMask.{AttrMask, decode_attr_mask, encode_attr_mask}
use p.Types.SetAttrMask.{SetAttrMask, decode_set_attr_mask, encode_set_attr_mask}
use p.Types.Attr.{Attr, SetAttr, decode_attr, encode_attr, decode_set_attr, encode_set_attr}
use p.Types.MsgType.{msg_tlopen, msg_rlopen, msg_tlcreate, msg_rlcreate, msg_tucreate, msg_rucreate}

pub record Tlopen : Type 0 where
  pub fid : ℕ
  pub flags : ℕ

abbrev pub typ_tlopen : ℕ
typ_tlopen = msg_tlopen

unfoldable pub decode_tlopen : Reader Tlopen
decode_tlopen = do
  fid ← read_fid
  flags ← read_open_flags
  pure (record { fid = fid; flags = flags })

unfoldable pub encode_tlopen : Tlopen → Writer
encode_tlopen t = do write_fid t.fid; write_open_flags t.flags

pub record Rlopen : Type 0 where
  pub qid : Qid
  pub io_unit : ℕ

abbrev pub typ_rlopen : ℕ
typ_rlopen = msg_rlopen

unfoldable pub decode_rlopen : Reader Rlopen
decode_rlopen = do
  qid ← decode_qid
  io_unit ← read32
  pure (record { qid = qid; io_unit = io_unit })

unfoldable pub encode_rlopen : Rlopen → Writer
encode_rlopen r = do encode_qid r.qid; write32 r.io_unit

pub record Tlcreate : Type 0 where
  pub fid : ℕ
  pub name : List ℕ
  pub open_flags : ℕ
  pub permissions : ℕ
  pub gid : ℕ

abbrev pub typ_tlcreate : ℕ
typ_tlcreate = msg_tlcreate

unfoldable pub decode_tlcreate : Reader Tlcreate
decode_tlcreate = do
  fid ← read_fid
  name ← read_string
  open_flags ← read_open_flags
  permissions ← read_permissions
  gid ← read_gid
  pure (record {
    fid = fid;
    name = name;
    open_flags = open_flags;
    permissions = permissions;
    gid = gid;
  })

unfoldable pub encode_tlcreate : Tlcreate → Writer
encode_tlcreate t = do
  write_fid t.fid
  write_string t.name
  write_open_flags t.open_flags
  write_permissions t.permissions
  write_gid t.gid

pub record Rlcreate : Type 0 where
  pub rlopen : Rlopen

abbrev pub typ_rlcreate : ℕ
typ_rlcreate = msg_rlcreate

unfoldable pub decode_rlcreate : Reader Rlcreate
decode_rlcreate = do rlopen ← decode_rlopen; pure (record { rlopen = rlopen })

unfoldable pub encode_rlcreate : Rlcreate → Writer
encode_rlcreate r = encode_rlopen r.rlopen

pub record Tucreate : Type 0 where
  pub tlcreate : Tlcreate
  pub uid : ℕ

abbrev pub typ_tucreate : ℕ
typ_tucreate = msg_tucreate

unfoldable pub decode_tucreate : Reader Tucreate
decode_tucreate = do
  tlcreate ← decode_tlcreate
  uid ← read_uid
  pure (record { tlcreate = tlcreate; uid = uid })

unfoldable pub encode_tucreate : Tucreate → Writer
encode_tucreate t = do encode_tlcreate t.tlcreate; write_uid t.uid

pub record Rucreate : Type 0 where
  pub rlcreate : Rlcreate

abbrev pub typ_rucreate : ℕ
typ_rucreate = msg_rucreate

unfoldable pub decode_rucreate : Reader Rucreate
decode_rucreate = do rlcreate ← decode_rlcreate; pure (record { rlcreate = rlcreate })

unfoldable pub encode_rucreate : Rucreate → Writer
encode_rucreate r = encode_rlcreate r.rlcreate
