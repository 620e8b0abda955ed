-- ===== src/Messages/Message/Blank/Zero.antt =====
-- Go's zero values of the structs of p9/p9.go and of the first groups of messages of p9/messages.go.
use p.Base.{[], false}
use p.Types.Qid.{Qid, FsStat}
use p.Types.Attr.{Attr, SetAttr}
use p.Types.AttrMask.{AttrMask}
use p.Types.SetAttrMask.{SetAttrMask}
use p.Messages.Session.{Tversion, Rversion, Tflush, Rflush, Rlerror, Tauth, Rauth, Tattach, Rattach}
use p.Messages.Walk.{Twalk, Rwalk, Tclunk, Rclunk, Twalkgetattr, Rwalkgetattr}
use p.Messages.Open.{Tlopen, Rlopen, Tlcreate, Rlcreate, Tucreate, Rucreate}
use p.Messages.Names.{
  Tremove, Rremove, Tlink, Rlink, Trenameat, Rrenameat, Tunlinkat, Runlinkat, Trename, Rrename,
  Treadlink, Rreadlink,
}
use p.Messages.Make.{Tsymlink, Rsymlink, Tusymlink, Rusymlink}

abbrev pub zero_qid : Qid
zero_qid = record { type = 0; version = 0; path = 0 }

abbrev pub zero_fs_stat : FsStat
zero_fs_stat = record {
  type = 0;
  block_size = 0;
  blocks = 0;
  blocks_free = 0;
  blocks_available = 0;
  files = 0;
  files_free = 0;
  fsid = 0;
  name_length = 0;
}

abbrev pub zero_attr : Attr
zero_attr = record {
  mode = 0;
  uid = 0;
  gid = 0;
  n_link = 0;
  r_dev = 0;
  size = 0;
  block_size = 0;
  blocks = 0;
  a_time_seconds = 0;
  a_time_nano_seconds = 0;
  m_time_seconds = 0;
  m_time_nano_seconds = 0;
  c_time_seconds = 0;
  c_time_nano_seconds = 0;
  b_time_seconds = 0;
  b_time_nano_seconds = 0;
  gen = 0;
  data_version = 0;
}

abbrev pub zero_set_attr : SetAttr
zero_set_attr = record {
  permissions = 0;
  uid = 0;
  gid = 0;
  size = 0;
  a_time_seconds = 0;
  a_time_nano_seconds = 0;
  m_time_seconds = 0;
  m_time_nano_seconds = 0;
}

abbrev pub zero_attr_mask : AttrMask
zero_attr_mask = record {
  mode = false;
  n_link = false;
  uid = false;
  gid = false;
  r_dev = false;
  a_time = false;
  m_time = false;
  c_time = false;
  i_no = false;
  size = false;
  blocks = false;
  b_time = false;
  gen = false;
  data_version = false;
}

abbrev pub zero_set_attr_mask : SetAttrMask
zero_set_attr_mask = record {
  permissions = false;
  uid = false;
  gid = false;
  size = false;
  a_time = false;
  m_time = false;
  c_time = false;
  a_time_not_system_time = false;
  m_time_not_system_time = false;
}

abbrev pub zero_tversion : Tversion
zero_tversion = record { m_size = 0; version = [] }

abbrev pub zero_rversion : Rversion
zero_rversion = record { m_size = 0; version = [] }

abbrev pub zero_tflush : Tflush
zero_tflush = record { old_tag = 0 }

abbrev pub zero_rflush : Rflush
zero_rflush = record {}

abbrev pub zero_rlerror : Rlerror
zero_rlerror = record { error = 0 }

abbrev pub zero_tauth : Tauth
zero_tauth = record { authenticationfid = 0; user_name = []; attach_name = []; uid = 0 }

abbrev pub zero_rauth : Rauth
zero_rauth = record { qid = zero_qid }

abbrev pub zero_tattach : Tattach
zero_tattach = record { fid = 0; auth = zero_tauth }

abbrev pub zero_rattach : Rattach
zero_rattach = record { qid = zero_qid }

abbrev pub zero_twalk : Twalk
zero_twalk = record { fid = 0; new_fid = 0; names = [] }

abbrev pub zero_rwalk : Rwalk
zero_rwalk = record { qids = [] }

abbrev pub zero_tclunk : Tclunk
zero_tclunk = record { fid = 0 }

abbrev pub zero_rclunk : Rclunk
zero_rclunk = record {}

abbrev pub zero_twalkgetattr : Twalkgetattr
zero_twalkgetattr = record { fid = 0; new_fid = 0; names = [] }

abbrev pub zero_rwalkgetattr : Rwalkgetattr
zero_rwalkgetattr = record { valid = zero_attr_mask; attr = zero_attr; qids = [] }

abbrev pub zero_tlopen : Tlopen
zero_tlopen = record { fid = 0; flags = 0 }

abbrev pub zero_rlopen : Rlopen
zero_rlopen = record { qid = zero_qid; io_unit = 0 }

abbrev pub zero_tlcreate : Tlcreate
zero_tlcreate = record { fid = 0; name = []; open_flags = 0; permissions = 0; gid = 0 }

abbrev pub zero_rlcreate : Rlcreate
zero_rlcreate = record { rlopen = zero_rlopen }

abbrev pub zero_tucreate : Tucreate
zero_tucreate = record { tlcreate = zero_tlcreate; uid = 0 }

abbrev pub zero_rucreate : Rucreate
zero_rucreate = record { rlcreate = zero_rlcreate }

abbrev pub zero_tremove : Tremove
zero_tremove = record { fid = 0 }

abbrev pub zero_rremove : Rremove
zero_rremove = record {}

abbrev pub zero_tlink : Tlink
zero_tlink = record { directory = 0; target = 0; name = [] }

abbrev pub zero_rlink : Rlink
zero_rlink = record {}

abbrev pub zero_trenameat : Trenameat
zero_trenameat = record { old_directory = 0; old_name = []; new_directory = 0; new_name = [] }

abbrev pub zero_rrenameat : Rrenameat
zero_rrenameat = record {}

abbrev pub zero_tunlinkat : Tunlinkat
zero_tunlinkat = record { directory = 0; name = []; flags = 0 }

abbrev pub zero_runlinkat : Runlinkat
zero_runlinkat = record {}

abbrev pub zero_trename : Trename
zero_trename = record { fid = 0; directory = 0; name = [] }

abbrev pub zero_rrename : Rrename
zero_rrename = record {}

abbrev pub zero_treadlink : Treadlink
zero_treadlink = record { fid = 0 }

abbrev pub zero_rreadlink : Rreadlink
zero_rreadlink = record { target = [] }

abbrev pub zero_tsymlink : Tsymlink
zero_tsymlink = record { directory = 0; name = []; target = []; gid = 0 }

abbrev pub zero_rsymlink : Rsymlink
zero_rsymlink = record { qid = zero_qid }

abbrev pub zero_tusymlink : Tusymlink
zero_tusymlink = record { tsymlink = zero_tsymlink; uid = 0 }

abbrev pub zero_rusymlink : Rusymlink
zero_rusymlink = record { rsymlink = zero_rsymlink }
