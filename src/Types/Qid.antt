-- ===== src/Types/Qid.antt =====
-- QID and FSStat of p9/p9.go, and their layout in messages.
use p.Base.{ℕ}
use p.Buffer.{Reader, Writer, ◌>>=◌, ◌>>◌, pure, read32, read64, write32, write64}
use p.Buffer.Fields.{read_qid_type, write_qid_type}

pub record Qid : Type 0 where
  pub type : ℕ
  pub version : ℕ
  pub path : ℕ

unfoldable pub decode_qid : Reader Qid
decode_qid = do
  type ← read_qid_type
  version ← read32
  path ← read64
  pure (record { type = type; version = version; path = path })

unfoldable pub encode_qid : Qid → Writer
encode_qid q = do write_qid_type q.type; write32 q.version; write64 q.path

pub record FsStat : Type 0 where
  pub type : ℕ
  pub block_size : ℕ
  pub blocks : ℕ
  pub blocks_free : ℕ
  pub blocks_available : ℕ
  pub files : ℕ
  pub files_free : ℕ
  pub fsid : ℕ
  pub name_length : ℕ

unfoldable pub decode_fs_stat : Reader FsStat
decode_fs_stat = do
  type ← read32
  block_size ← read32
  blocks ← read64
  blocks_free ← read64
  blocks_available ← read64
  files ← read64
  files_free ← read64
  fsid ← read64
  name_length ← read32
  pure (record {
    type = type;
    block_size = block_size;
    blocks = blocks;
    blocks_free = blocks_free;
    blocks_available = blocks_available;
    files = files;
    files_free = files_free;
    fsid = fsid;
    name_length = name_length;
  })

unfoldable pub encode_fs_stat : FsStat → Writer
encode_fs_stat f = do
  write32 f.type
  write32 f.block_size
  write64 f.blocks
  write64 f.blocks_free
  write64 f.blocks_available
  write64 f.files
  write64 f.files_free
  write64 f.fsid
  write32 f.name_length
