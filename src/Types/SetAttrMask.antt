-- ===== src/Types/SetAttrMask.antt =====
-- SetAttrMask of p9/p9.go: which attributes a Tsetattr changes.
pub mod Layout
use p.Base.{
  ℕ, List, [], ◌∷◌, Bool, true, false, not, ◌&&◌, ◌||◌, ◌%◌, ◌^◌, ◌<◌, ◌≡◌, refl, length, All,
  bit_or, if◌then◌else◌,
}
use p.Buffer.{
  Reader, Writer, ◌>>=◌, ◌>>◌, pure, skip, read8, read16, read32, read64, write8, write16, write32,
  write64,
}
use p.Buffer.Fields.{
  read_qid_type, read_tag, read_fid, read_uid, read_gid, read_file_mode, read_permissions,
  read_open_flags, read_list, read_string, write_qid_type, write_tag, write_fid, write_uid,
  write_gid, write_file_mode, write_permissions, write_open_flags, write_list, write_string,
}
use p.Base.Bits.{flag, has}
use p.Base.{◌==◌}

pub record SetAttrMask : Type 0 where
  pub permissions : Bool
  pub uid : Bool
  pub gid : Bool
  pub size : Bool
  pub a_time : Bool
  pub m_time : Bool
  pub c_time : Bool
  pub a_time_not_system_time : Bool
  pub m_time_not_system_time : Bool

unfoldable pub set_attr_mask_bits : SetAttrMask → ℕ
set_attr_mask_bits m =
    let mask = flag m.permissions 0x00000001 0 in
    let mask = flag m.uid 0x00000002 mask in
    let mask = flag m.gid 0x00000004 mask in
    let mask = flag m.size 0x00000008 mask in
    let mask = flag m.a_time 0x00000010 mask in
    let mask = flag m.m_time 0x00000020 mask in
    let mask = flag m.c_time 0x00000040 mask in
    let mask = flag m.a_time_not_system_time 0x00000080 mask in
    let mask = flag m.m_time_not_system_time 0x00000100 mask in mask

unfoldable pub decode_set_attr_mask : Reader SetAttrMask
decode_set_attr_mask = do
  mask ← read32
  pure (record {
    permissions = has mask 0x00000001;
    uid = has mask 0x00000002;
    gid = has mask 0x00000004;
    size = has mask 0x00000008;
    a_time = has mask 0x00000010;
    m_time = has mask 0x00000020;
    c_time = has mask 0x00000040;
    a_time_not_system_time = has mask 0x00000080;
    m_time_not_system_time = has mask 0x00000100;
  })

unfoldable pub encode_set_attr_mask : SetAttrMask → Writer
unfolding set_attr_mask_bits
encode_set_attr_mask m = write32 (set_attr_mask_bits m)

unfoldable pub set_attr_mask_is_empty : SetAttrMask → Bool
set_attr_mask_is_empty a =
    not a.permissions
    && not a.uid
    && not a.gid
    && not a.size
    && not a.a_time
    && not a.m_time
    && not a.c_time
    && not a.a_time_not_system_time
    && not a.m_time_not_system_time

unfoldable pub is_subset_of : SetAttrMask → SetAttrMask → Bool
unfolding set_attr_mask_bits
is_subset_of s m =
    let sb = set_attr_mask_bits s in let sm = set_attr_mask_bits m in bit_or sm sb == sm
