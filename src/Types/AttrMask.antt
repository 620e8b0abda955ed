-- ===== src/Types/AttrMask.antt =====
-- AttrMask of p9/p9.go: which attributes of a file are asked for, or valid.
pub mod Layout
use p.Base.{
  ℕ, List, [], ◌∷◌, Bool, true, false, not, ◌&&◌, ◌||◌, ◌%◌, ◌^◌, ◌<◌, ◌≡◌, refl, length, All,
  bit_or, if◌then◌else◌,
}
use p.Buffer.{
  Reader, Writer, ◌>>=◌, ◌>>◌, pure, skip, read8, read16, read32, read64, write8, write16, write32,
  write64,
}
use p.Buffer.Fields.{
  read_qid_type, read_tag, read_fid, read_uid, read_gid, read_file_mode, read_permissions,
  read_open_flags, read_list, read_string, write_qid_type, write_tag, write_fid, write_uid,
  write_gid, write_file_mode, write_permissions, write_open_flags, write_list, write_string,
}
use p.Base.Bits.{flag, has}

pub record AttrMask : Type 0 where
  pub mode : Bool
  pub n_link : Bool
  pub uid : Bool
  pub gid : Bool
  pub r_dev : Bool
  pub a_time : Bool
  pub m_time : Bool
  pub c_time : Bool
  pub i_no : Bool
  pub size : Bool
  pub blocks : Bool
  pub b_time : Bool
  pub gen : Bool
  pub data_version : Bool

unfoldable pub attr_mask_bits : AttrMask → ℕ
attr_mask_bits m =
    let mask = flag m.mode 0x00000001 0 in
    let mask = flag m.n_link 0x00000002 mask in
    let mask = flag m.uid 0x00000004 mask in
    let mask = flag m.gid 0x00000008 mask in
    let mask = flag m.r_dev 0x00000010 mask in
    let mask = flag m.a_time 0x00000020 mask in
    let mask = flag m.m_time 0x00000040 mask in
    let mask = flag m.c_time 0x00000080 mask in
    let mask = flag m.i_no 0x00000100 mask in
    let mask = flag m.size 0x00000200 mask in
    let mask = flag m.blocks 0x00000400 mask in
    let mask = flag m.b_time 0x00000800 mask in
    let mask = flag m.gen 0x00001000 mask in let mask = flag m.data_version 0x00002000 mask in mask

unfoldable pub decode_attr_mask : Reader AttrMask
decode_attr_mask = do
  mask ← read64
  pure (record {
    mode = has mask 0x00000001;
    n_link = has mask 0x00000002;
    uid = has mask 0x00000004;
    gid = has mask 0x00000008;
    r_dev = has mask 0x00000010;
    a_time = has mask 0x00000020;
    m_time = has mask 0x00000040;
    c_time = has mask 0x00000080;
    i_no = has mask 0x00000100;
    size = has mask 0x00000200;
    blocks = has mask 0x00000400;
    b_time = has mask 0x00000800;
    gen = has mask 0x00001000;
    data_version = has mask 0x00002000;
  })

unfoldable pub encode_attr_mask : AttrMask → Writer
unfolding attr_mask_bits
encode_attr_mask m = write64 (attr_mask_bits m)

unfoldable pub attr_mask_is_empty : AttrMask → Bool
attr_mask_is_empty a =
    not a.mode
    && not a.n_link
    && not a.uid
    && not a.gid
    && not a.r_dev
    && not a.a_time
    && not a.m_time
    && not a.c_time
    && not a.i_no
    && not a.size
    && not a.blocks
    && not a.b_time
    && not a.gen
    && not a.data_version

-- The source returns early at the first field that is asked for and missing.
unfoldable pub contains : AttrMask → AttrMask → Bool
contains a b =
    if b.mode && not a.mode
    then false
    else if b.n_link && not a.n_link
    then false
    else if b.uid && not a.uid
    then false
    else if b.gid && not a.gid
    then false
    else if b.r_dev && not a.r_dev
    then false
    else if b.a_time && not a.a_time
    then false
    else if b.m_time && not a.m_time
    then false
    else if b.c_time && not a.c_time
    then false
    else if b.i_no && not a.i_no
    then false
    else if b.size && not a.size
    then false
    else if b.blocks && not a.blocks
    then false
    else if b.b_time && not a.b_time
    then false
    else if b.gen && not a.gen
    then false
    else if b.data_version && not a.data_version
    then false
    else true

abbrev pub attr_mask_all : AttrMask
attr_mask_all = record {
  mode = true;
  n_link = true;
  uid = true;
  gid = true;
  r_dev = true;
  a_time = true;
  m_time = true;
  c_time = true;
  i_no = true;
  size = true;
  blocks = true;
  b_time = true;
  gen = true;
  data_version = true;
}
