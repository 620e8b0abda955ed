-- ===== src/Examples/Sizes.antt =====
-- The registry that `init` makes, and the sizes of a client.
use p.Base.{ℕ, Option, none, ◌+◌, ◌≤◌, ◌<◌, ◌≡◌, refl, sym, ap, ◌∙◌, some, arith}
use p.Messages.Session.{
  encode_rattach, encode_rauth, encode_rflush, encode_rlerror, encode_rversion, encode_tattach,
  encode_tauth, encode_tflush, encode_tversion,
}
use p.Messages.Walk.{
  encode_rclunk, encode_rwalk, encode_rwalkgetattr, encode_tclunk, encode_twalk,
  encode_twalkgetattr,
}
use p.Messages.Transfer.{
  encode_rfsync, encode_rlock, encode_rwrite, encode_tfsync, encode_tlock, encode_tread,
  encode_treaddir,
}
use p.Messages.Attributes.{
  encode_rgetattr, encode_rsetattr, encode_rstatfs, encode_rxattrcreate, encode_rxattrwalk,
  encode_tgetattr, encode_tsetattr, encode_tstatfs, encode_txattrcreate, encode_txattrwalk,
}
use p.Messages.Open.{
  encode_rlcreate, encode_rlopen, encode_rucreate, encode_tlcreate, encode_tlopen, encode_tucreate,
}
use p.Messages.Names.{
  encode_rlink, encode_rreadlink, encode_rremove, encode_rrename, encode_rrenameat,
  encode_runlinkat, encode_tlink, encode_treadlink, encode_tremove, encode_trename,
  encode_trenameat, encode_tunlinkat,
}
use p.Messages.Make.{
  encode_rmkdir, encode_rmknod, encode_rsymlink, encode_rumkdir, encode_rumknod, encode_rusymlink,
  encode_tmkdir, encode_tmknod, encode_tsymlink, encode_tumkdir, encode_tumknod, encode_tusymlink,
}
use p.Messages.Payload.{encode_rread, encode_rreaddir, encode_twrite}
use p.Types.Qid.{encode_qid, encode_fs_stat}
use p.Types.Attr.{encode_attr, encode_set_attr}
use p.Types.AttrMask.{encode_attr_mask, attr_mask_bits}
use p.Types.SetAttrMask.{encode_set_attr_mask, set_attr_mask_bits}
use p.Buffer.Fields.{
  write_uid, write_gid, write_fid, write_tag, write_file_mode, write_permissions, write_open_flags,
  write_qid_type, write_string, write_list,
}
use p.Buffer.{write8, write16, write32, write64, append, put_uint, skip, ◌>>◌}
use p.Registry.{register_all, register, register_in, calculate_size, calculate_size_with, init}
use p.Messages.Message.{payloader}
use p.Messages.Message.Codec.{encode}
use p.Client.Sizes.{with_message_size}
use p.Messages.Payload.{fixed_size_twrite, fixed_size_rread}
use p.Transport.{header_length}
use p.Registry.{Registry}
use p.Registry.Init.{init_lem}
use p.Client.Sizes.{payload_size}
use p.Client.Sizes.Fit.{payload_size-fits}
use p.Examples.{registry}

or_none : Option Registry → ℕ
or_none none = 0
or_none (some r) = r.largest_fixed_size

init_size : or_none init ≡ 153
unfolding or_none encode_rattach encode_rauth encode_rclunk encode_rflush encode_rfsync
    encode_rgetattr encode_rlcreate encode_rlerror encode_rlink encode_rlock encode_rlopen
    encode_rmkdir encode_rmknod encode_rread encode_rreaddir encode_rreadlink encode_rremove
    encode_rrename encode_rrenameat encode_rsetattr encode_rstatfs encode_rsymlink encode_rucreate
    encode_rumkdir encode_rumknod encode_runlinkat encode_rusymlink encode_rversion encode_rwalk
    encode_rwalkgetattr encode_rwrite encode_rxattrcreate encode_rxattrwalk encode_tattach
    encode_tauth encode_tclunk encode_tflush encode_tfsync encode_tgetattr encode_tlcreate
    encode_tlink encode_tlock encode_tlopen encode_tmkdir encode_tmknod encode_tread encode_treaddir
    encode_treadlink encode_tremove encode_trename encode_trenameat encode_tsetattr encode_tstatfs
    encode_tsymlink encode_tucreate encode_tumkdir encode_tumknod encode_tunlinkat encode_tusymlink
    encode_tversion encode_twalk encode_twalkgetattr encode_twrite encode_txattrcreate
    encode_txattrwalk encode_qid encode_attr encode_attr_mask attr_mask_bits encode_set_attr
    encode_set_attr_mask set_attr_mask_bits encode_fs_stat write_uid write_gid write_fid write_tag
    write_file_mode write_permissions write_open_flags write_qid_type write_string write_list write8
    write16 write32 write64 append put_uint skip register_all register register_in calculate_size
    calculate_size_with payloader encode init ◌>>◌
init_size = refl

registry-init : init ≡ some registry
registry-init = init_lem.1

registry-size : registry.largest_fixed_size ≡ 153
unfolding or_none
registry-size = ap or_none (sym registry-init) ∙ init_size

takes_8192 : with_message_size registry 8192 ≡ some 8192
unfolding with_message_size
takes_8192 = rw registry-size refl

payload_size-fits_example :
    (0 < payload_size registry 8192)
    × (header_length + fixed_size_twrite + payload_size registry 8192 ≤ 8192)
    × (header_length + fixed_size_rread + payload_size registry 8192 ≤ 8192)
payload_size-fits_example =
    payload_size-fits registry 8192 8192 registry-init (omega arith) takes_8192
