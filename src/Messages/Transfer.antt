-- ===== src/Messages/Transfer.antt =====
-- p9/messages.go: read, write, fsync, readdir and lock messages without a payload.
pub mod Layout
use p.Base.{ℕ, List, [], ◌∷◌, ◌%◌, ◌^◌, ◌<◌, length}
use p.Buffer.{
  Reader, Writer, ◌>>=◌, ◌>>◌, pure, skip, read8, read16, read32, read64, write8, write16, write32,
  write64,
}
use p.Buffer.Fields.{
  read_qid_type, read_tag, read_fid, read_uid, read_gid, read_file_mode, read_permissions,
  read_open_flags, read_list, read_string, write_qid_type, write_tag, write_fid, write_uid,
  write_gid, write_file_mode, write_permissions, write_open_flags, write_list, write_string,
}
use p.Types.Qid.{Qid, FsStat, decode_qid, encode_qid, decode_fs_stat, encode_fs_stat}
use p.Types.AttrMask.{AttrMask, decode_attr_mask, encode_attr_mask}
use p.Types.SetAttrMask.{SetAttrMask, decode_set_attr_mask, encode_set_attr_mask}
use p.Types.Attr.{Attr, SetAttr, decode_attr, encode_attr, decode_set_attr, encode_set_attr}
use p.Types.MsgType.{
  msg_tread, msg_rwrite, msg_tfsync, msg_rfsync, msg_treaddir, msg_tlock, msg_rlock,
}

pub record Tread : Type 0 where
  pub fid : ℕ
  pub offset : ℕ
  pub count : ℕ

abbrev pub typ_tread : ℕ
typ_tread = msg_tread

unfoldable pub decode_tread : Reader Tread
decode_tread = do
  fid ← read_fid
  offset ← read64
  count ← read32
  pure (record { fid = fid; offset = offset; count = count })

unfoldable pub encode_tread : Tread → Writer
encode_tread t = do write_fid t.fid; write64 t.offset; write32 t.count

pub record Rwrite : Type 0 where
  pub count : ℕ

abbrev pub typ_rwrite : ℕ
typ_rwrite = msg_rwrite

unfoldable pub decode_rwrite : Reader Rwrite
decode_rwrite = do count ← read32; pure (record { count = count })

unfoldable pub encode_rwrite : Rwrite → Writer
encode_rwrite r = write32 r.count

pub record Tfsync : Type 0 where
  pub fid : ℕ

abbrev pub typ_tfsync : ℕ
typ_tfsync = msg_tfsync

unfoldable pub decode_tfsync : Reader Tfsync
decode_tfsync = do fid ← read_fid; pure (record { fid = fid })

unfoldable pub encode_tfsync : Tfsync → Writer
encode_tfsync t = write_fid t.fid

abbrev pub Rfsync : Type 0
Rfsync = record {}

abbrev pub typ_rfsync : ℕ
typ_rfsync = msg_rfsync

unfoldable pub decode_rfsync : Reader Rfsync
decode_rfsync = pure (record {})

unfoldable pub encode_rfsync : Rfsync → Writer
encode_rfsync r = skip

pub record Treaddir : Type 0 where
  pub directory : ℕ
  pub offset : ℕ
  pub count : ℕ

abbrev pub typ_treaddir : ℕ
typ_treaddir = msg_treaddir

unfoldable pub decode_treaddir : Reader Treaddir
decode_treaddir = do
  directory ← read_fid
  offset ← read64
  count ← read32
  pure (record { directory = directory; offset = offset; count = count })

unfoldable pub encode_treaddir : Treaddir → Writer
encode_treaddir t = do write_fid t.directory; write64 t.offset; write32 t.count

pub record Tlock : Type 0 where
  pub fid : ℕ
  pub type : ℕ
  pub flags : ℕ
  pub start : ℕ
  pub length : ℕ
  pub pid : ℕ
  pub client : List ℕ

abbrev pub typ_tlock : ℕ
typ_tlock = msg_tlock

unfoldable pub decode_tlock : Reader Tlock
decode_tlock = do
  fid ← read_fid
  type ← read8
  flags ← read32
  start ← read64
  length ← read64
  pid ← read32
  client ← read_string
  pure (record {
    fid = fid;
    type = type;
    flags = flags;
    start = start;
    length = length;
    pid = pid;
    client = client;
  })

unfoldable pub encode_tlock : Tlock → Writer
encode_tlock t = do
  write_fid t.fid
  write8 t.type
  write32 t.flags
  write64 t.start
  write64 t.length
  write32 t.pid
  write_string t.client

pub record Rlock : Type 0 where
  pub status : ℕ

abbrev pub typ_rlock : ℕ
typ_rlock = msg_rlock

unfoldable pub decode_rlock : Reader Rlock
decode_rlock = do status ← read8; pure (record { status = status })

unfoldable pub encode_rlock : Rlock → Writer
encode_rlock r = write8 r.status
