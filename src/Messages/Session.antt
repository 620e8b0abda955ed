-- ===== src/Messages/Session.antt =====
-- p9/messages.go: version, flush, auth, attach and error messages.
pub mod Layout
use p.Base.{ℕ, List, [], ◌∷◌, ◌%◌, ◌^◌, ◌<◌, length}
use p.Buffer.{
  Reader, Writer, ◌>>=◌, ◌>>◌, pure, skip, read8, read16, read32, read64, write8, write16, write32,
  write64,
}
use p.Buffer.Fields.{
  read_qid_type, read_tag, read_fid, read_uid, read_gid, read_file_mode, read_permissions,
  read_open_flags, read_list, read_string, write_qid_type, write_tag, write_fid, write_uid,
  write_gid, write_file_mode, write_permissions, write_open_flags, write_list, write_string,
}
use p.Types.Qid.{Qid, FsStat, decode_qid, encode_qid, decode_fs_stat, encode_fs_stat}
use p.Types.AttrMask.{AttrMask, decode_attr_mask, encode_attr_mask}
use p.Types.SetAttrMask.{SetAttrMask, decode_set_attr_mask, encode_set_attr_mask}
use p.Types.Attr.{Attr, SetAttr, decode_attr, encode_attr, decode_set_attr, encode_set_attr}
use p.Types.MsgType.{
  msg_tversion, msg_rversion, msg_tflush, msg_rflush, msg_rlerror, msg_tauth, msg_rauth,
  msg_tattach, msg_rattach,
}

pub record Tversion : Type 0 where
  pub m_size : ℕ
  pub version : List ℕ

abbrev pub typ_tversion : ℕ
typ_tversion = msg_tversion

unfoldable pub decode_tversion : Reader Tversion
decode_tversion = do
  m_size ← read32
  version ← read_string
  pure (record { m_size = m_size; version = version })

unfoldable pub encode_tversion : Tversion → Writer
encode_tversion t = do write32 t.m_size; write_string t.version

pub record Rversion : Type 0 where
  pub m_size : ℕ
  pub version : List ℕ

abbrev pub typ_rversion : ℕ
typ_rversion = msg_rversion

unfoldable pub decode_rversion : Reader Rversion
decode_rversion = do
  m_size ← read32
  version ← read_string
  pure (record { m_size = m_size; version = version })

unfoldable pub encode_rversion : Rversion → Writer
encode_rversion r = do write32 r.m_size; write_string r.version

pub record Tflush : Type 0 where
  pub old_tag : ℕ

abbrev pub typ_tflush : ℕ
typ_tflush = msg_tflush

unfoldable pub decode_tflush : Reader Tflush
decode_tflush = do old_tag ← read_tag; pure (record { old_tag = old_tag })

unfoldable pub encode_tflush : Tflush → Writer
encode_tflush t = write_tag t.old_tag

abbrev pub Rflush : Type 0
Rflush = record {}

abbrev pub typ_rflush : ℕ
typ_rflush = msg_rflush

unfoldable pub decode_rflush : Reader Rflush
decode_rflush = pure (record {})

unfoldable pub encode_rflush : Rflush → Writer
encode_rflush r = skip

pub record Rlerror : Type 0 where
  pub error : ℕ

abbrev pub typ_rlerror : ℕ
typ_rlerror = msg_rlerror

unfoldable pub decode_rlerror : Reader Rlerror
decode_rlerror = do error ← read32; pure (record { error = error })

unfoldable pub encode_rlerror : Rlerror → Writer
encode_rlerror r = write32 r.error

pub record Tauth : Type 0 where
  pub authenticationfid : ℕ
  pub user_name : List ℕ
  pub attach_name : List ℕ
  pub uid : ℕ

abbrev pub typ_tauth : ℕ
typ_tauth = msg_tauth

unfoldable pub decode_tauth : Reader Tauth
decode_tauth = do
  authenticationfid ← read_fid
  user_name ← read_string
  attach_name ← read_string
  uid ← read_uid
  pure (record {
    authenticationfid = authenticationfid;
    user_name = user_name;
    attach_name = attach_name;
    uid = uid;
  })

unfoldable pub encode_tauth : Tauth → Writer
encode_tauth t = do
  write_fid t.authenticationfid
  write_string t.user_name
  write_string t.attach_name
  write_uid t.uid

pub record Rauth : Type 0 where
  pub qid : Qid

abbrev pub typ_rauth : ℕ
typ_rauth = msg_rauth

unfoldable pub decode_rauth : Reader Rauth
decode_rauth = do qid ← decode_qid; pure (record { qid = qid })

unfoldable pub encode_rauth : Rauth → Writer
encode_rauth r = encode_qid r.qid

pub record Tattach : Type 0 where
  pub fid : ℕ
  pub auth : Tauth

abbrev pub typ_tattach : ℕ
typ_tattach = msg_tattach

unfoldable pub decode_tattach : Reader Tattach
decode_tattach = do fid ← read_fid; auth ← decode_tauth; pure (record { fid = fid; auth = auth })

unfoldable pub encode_tattach : Tattach → Writer
encode_tattach t = do write_fid t.fid; encode_tauth t.auth

pub record Rattach : Type 0 where
  pub qid : Qid

abbrev pub typ_rattach : ℕ
typ_rattach = msg_rattach

unfoldable pub decode_rattach : Reader Rattach
decode_rattach = do qid ← decode_qid; pure (record { qid = qid })

unfoldable pub encode_rattach : Rattach → Writer
encode_rattach r = encode_qid r.qid
