-- ===== src/Types/Attr.antt =====
-- Attr and SetAttr of p9/p9.go.
use p.Base.{ℕ, bit_or, if◌then◌else◌}
use p.Buffer.{Reader, Writer, ◌>>=◌, ◌>>◌, pure, read64, write64}
use p.Buffer.Fields.{
  read_uid, read_gid, read_file_mode, read_permissions, write_uid, write_gid, write_file_mode,
  write_permissions,
}
use p.Base.{bit_and, ◌-◌}
use p.Buffer.Fields.{permissions_mask}
use p.Types.AttrMask.{AttrMask}
use p.Types.SetAttrMask.{SetAttrMask}

pub record Attr : Type 0 where
  pub mode : ℕ
  pub uid : ℕ
  pub gid : ℕ
  pub n_link : ℕ
  pub r_dev : ℕ
  pub size : ℕ
  pub block_size : ℕ
  pub blocks : ℕ
  pub a_time_seconds : ℕ
  pub a_time_nano_seconds : ℕ
  pub m_time_seconds : ℕ
  pub m_time_nano_seconds : ℕ
  pub c_time_seconds : ℕ
  pub c_time_nano_seconds : ℕ
  pub b_time_seconds : ℕ
  pub b_time_nano_seconds : ℕ
  pub gen : ℕ
  pub data_version : ℕ

unfoldable pub decode_attr : Reader Attr
decode_attr = do
  mode ← read_file_mode
  uid ← read_uid
  gid ← read_gid
  n_link ← read64
  r_dev ← read64
  size ← read64
  block_size ← read64
  blocks ← read64
  a_time_seconds ← read64
  a_time_nano_seconds ← read64
  m_time_seconds ← read64
  m_time_nano_seconds ← read64
  c_time_seconds ← read64
  c_time_nano_seconds ← read64
  b_time_seconds ← read64
  b_time_nano_seconds ← read64
  gen ← read64
  data_version ← read64
  pure (record {
    mode = mode;
    uid = uid;
    gid = gid;
    n_link = n_link;
    r_dev = r_dev;
    size = size;
    block_size = block_size;
    blocks = blocks;
    a_time_seconds = a_time_seconds;
    a_time_nano_seconds = a_time_nano_seconds;
    m_time_seconds = m_time_seconds;
    m_time_nano_seconds = m_time_nano_seconds;
    c_time_seconds = c_time_seconds;
    c_time_nano_seconds = c_time_nano_seconds;
    b_time_seconds = b_time_seconds;
    b_time_nano_seconds = b_time_nano_seconds;
    gen = gen;
    data_version = data_version;
  })

unfoldable pub encode_attr : Attr → Writer
encode_attr a = do
  write_file_mode a.mode
  write_uid a.uid
  write_gid a.gid
  write64 a.n_link
  write64 a.r_dev
  write64 a.size
  write64 a.block_size
  write64 a.blocks
  write64 a.a_time_seconds
  write64 a.a_time_nano_seconds
  write64 a.m_time_seconds
  write64 a.m_time_nano_seconds
  write64 a.c_time_seconds
  write64 a.c_time_nano_seconds
  write64 a.b_time_seconds
  write64 a.b_time_nano_seconds
  write64 a.gen
  write64 a.data_version

pub record SetAttr : Type 0 where
  pub permissions : ℕ
  pub uid : ℕ
  pub gid : ℕ
  pub size : ℕ
  pub a_time_seconds : ℕ
  pub a_time_nano_seconds : ℕ
  pub m_time_seconds : ℕ
  pub m_time_nano_seconds : ℕ

unfoldable pub decode_set_attr : Reader SetAttr
decode_set_attr = do
  permissions ← read_permissions
  uid ← read_uid
  gid ← read_gid
  size ← read64
  a_time_seconds ← read64
  a_time_nano_seconds ← read64
  m_time_seconds ← read64
  m_time_nano_seconds ← read64
  pure (record {
    permissions = permissions;
    uid = uid;
    gid = gid;
    size = size;
    a_time_seconds = a_time_seconds;
    a_time_nano_seconds = a_time_nano_seconds;
    m_time_seconds = m_time_seconds;
    m_time_nano_seconds = m_time_nano_seconds;
  })

unfoldable pub encode_set_attr : SetAttr → Writer
encode_set_attr a = do
  write_permissions a.permissions
  write_uid a.uid
  write_gid a.gid
  write64 a.size
  write64 a.a_time_seconds
  write64 a.a_time_nano_seconds
  write64 a.m_time_seconds
  write64 a.m_time_nano_seconds

-- `var b Attr`, then one copy for each flag.
unfoldable pub with_mask : Attr → AttrMask → Attr
with_mask a mask = record {
  mode = if mask.mode then a.mode else 0;
  uid = if mask.uid then a.uid else 0;
  gid = if mask.gid then a.gid else 0;
  n_link = if mask.n_link then a.n_link else 0;
  r_dev = if mask.r_dev then a.r_dev else 0;
  size = if mask.size then a.size else 0;
  block_size = if mask.blocks then a.block_size else 0;
  blocks = if mask.blocks then a.blocks else 0;
  a_time_seconds = if mask.a_time then a.a_time_seconds else 0;
  a_time_nano_seconds = if mask.a_time then a.a_time_nano_seconds else 0;
  m_time_seconds = if mask.m_time then a.m_time_seconds else 0;
  m_time_nano_seconds = if mask.m_time then a.m_time_nano_seconds else 0;
  c_time_seconds = if mask.c_time then a.c_time_seconds else 0;
  c_time_nano_seconds = if mask.c_time then a.c_time_nano_seconds else 0;
  b_time_seconds = if mask.b_time then a.b_time_seconds else 0;
  b_time_nano_seconds = if mask.b_time then a.b_time_nano_seconds else 0;
  gen = if mask.gen then a.gen else 0;
  data_version = if mask.data_version then a.data_version else 0;
}

-- m &^ permissionsMask | (perm & permissionsMask), where a &^ b is a - (a & b)
unfoldable pub replace_permissions : ℕ → ℕ → ℕ
replace_permissions m perm = bit_or (m - bit_and m permissions_mask) (bit_and perm permissions_mask)

unfoldable pub apply : Attr → SetAttrMask → SetAttr → Attr
unfolding replace_permissions
apply a mask attr = record a {
  mode = if mask.permissions then replace_permissions a.mode attr.permissions else a.mode;
  uid = if mask.uid then attr.uid else a.uid;
  gid = if mask.gid then attr.gid else a.gid;
  size = if mask.size then attr.size else a.size;
  a_time_seconds = if mask.a_time then attr.a_time_seconds else a.a_time_seconds;
  a_time_nano_seconds = if mask.a_time then attr.a_time_nano_seconds else a.a_time_nano_seconds;
  m_time_seconds = if mask.m_time then attr.m_time_seconds else a.m_time_seconds;
  m_time_nano_seconds = if mask.m_time then attr.m_time_nano_seconds else a.m_time_nano_seconds;
}
