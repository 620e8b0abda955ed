-- ===== src/Messages/Message/Blank.antt =====
-- Go's zero value of each message, which the registry's factories create.
pub mod Zero
pub use Zero.*
use p.Base.{[], false}
use p.Types.Qid.{Qid, FsStat}
use p.Types.Attr.{Attr, SetAttr}
use p.Types.AttrMask.{AttrMask}
use p.Types.SetAttrMask.{SetAttrMask}
use p.Messages.Session.{Tversion, Rversion, Tflush, Rflush, Rlerror, Tauth, Rauth, Tattach, Rattach}
use p.Messages.Walk.{Twalk, Rwalk, Tclunk, Rclunk, Twalkgetattr, Rwalkgetattr}
use p.Messages.Open.{Tlopen, Rlopen, Tlcreate, Rlcreate, Tucreate, Rucreate}
use p.Messages.Names.{
  Tremove, Rremove, Tlink, Rlink, Trenameat, Rrenameat, Tunlinkat, Runlinkat, Trename, Rrename,
  Treadlink, Rreadlink,
}
use p.Messages.Make.{
  Tsymlink, Rsymlink, Tusymlink, Rusymlink, Tmknod, Rmknod, Tumknod, Rumknod, Tmkdir, Rmkdir,
  Tumkdir, Rumkdir,
}
use p.Messages.Attributes.{
  Tgetattr, Rgetattr, Tsetattr, Rsetattr, Txattrwalk, Rxattrwalk, Txattrcreate, Rxattrcreate,
  Tstatfs, Rstatfs,
}
use p.Messages.Transfer.{Tread, Rwrite, Tfsync, Rfsync, Treaddir, Tlock, Rlock}
use p.Messages.Payload.{Rread, Twrite, Rreaddir}
use p.Messages.Message.{
  Message, rlerror, tstatfs, rstatfs, tlopen, rlopen, tlcreate, rlcreate, tsymlink, rsymlink,
  tmknod, rmknod, trename, rrename, treadlink, rreadlink, tgetattr, rgetattr, tsetattr, rsetattr,
  txattrwalk, rxattrwalk, txattrcreate, rxattrcreate, treaddir, rreaddir, tfsync, rfsync, tlock,
  rlock, tlink, rlink, tmkdir, rmkdir, trenameat, rrenameat, tunlinkat, runlinkat, tversion,
  rversion, tauth, rauth, tattach, rattach, tflush, rflush, twalk, rwalk, tread, rread, twrite,
  rwrite, tclunk, rclunk, tremove, rremove, twalkgetattr, rwalkgetattr, tucreate, rucreate, tumkdir,
  rumkdir, tumknod, rumknod, tusymlink, rusymlink,
}

abbrev pub zero_tmknod : Tmknod
zero_tmknod = record { directory = 0; name = []; mode = 0; major = 0; minor = 0; gid = 0 }

abbrev pub zero_rmknod : Rmknod
zero_rmknod = record { qid = zero_qid }

abbrev pub zero_tumknod : Tumknod
zero_tumknod = record { tmknod = zero_tmknod; uid = 0 }

abbrev pub zero_rumknod : Rumknod
zero_rumknod = record { rmknod = zero_rmknod }

abbrev pub zero_tmkdir : Tmkdir
zero_tmkdir = record { directory = 0; name = []; permissions = 0; gid = 0 }

abbrev pub zero_rmkdir : Rmkdir
zero_rmkdir = record { qid = zero_qid }

abbrev pub zero_tumkdir : Tumkdir
zero_tumkdir = record { tmkdir = zero_tmkdir; uid = 0 }

abbrev pub zero_rumkdir : Rumkdir
zero_rumkdir = record { rmkdir = zero_rmkdir }

abbrev pub zero_tgetattr : Tgetattr
zero_tgetattr = record { fid = 0; attr_mask = zero_attr_mask }

abbrev pub zero_rgetattr : Rgetattr
zero_rgetattr = record { valid = zero_attr_mask; qid = zero_qid; attr = zero_attr }

abbrev pub zero_tsetattr : Tsetattr
zero_tsetattr = record { fid = 0; valid = zero_set_attr_mask; set_attr = zero_set_attr }

abbrev pub zero_rsetattr : Rsetattr
zero_rsetattr = record {}

abbrev pub zero_txattrwalk : Txattrwalk
zero_txattrwalk = record { fid = 0; new_fid = 0; name = [] }

abbrev pub zero_rxattrwalk : Rxattrwalk
zero_rxattrwalk = record { size = 0 }

abbrev pub zero_txattrcreate : Txattrcreate
zero_txattrcreate = record { fid = 0; name = []; attr_size = 0; flags = 0 }

abbrev pub zero_rxattrcreate : Rxattrcreate
zero_rxattrcreate = record {}

abbrev pub zero_tstatfs : Tstatfs
zero_tstatfs = record { fid = 0 }

abbrev pub zero_rstatfs : Rstatfs
zero_rstatfs = record { fs_stat = zero_fs_stat }

abbrev pub zero_tread : Tread
zero_tread = record { fid = 0; offset = 0; count = 0 }

abbrev pub zero_rwrite : Rwrite
zero_rwrite = record { count = 0 }

abbrev pub zero_tfsync : Tfsync
zero_tfsync = record { fid = 0 }

abbrev pub zero_rfsync : Rfsync
zero_rfsync = record {}

abbrev pub zero_treaddir : Treaddir
zero_treaddir = record { directory = 0; offset = 0; count = 0 }

abbrev pub zero_tlock : Tlock
zero_tlock = record { fid = 0; type = 0; flags = 0; start = 0; length = 0; pid = 0; client = [] }

abbrev pub zero_rlock : Rlock
zero_rlock = record { status = 0 }

abbrev pub zero_rread : Rread
zero_rread = record { content = [] }

abbrev pub zero_twrite : Twrite
zero_twrite = record { fid = 0; offset = 0; content = [] }

abbrev pub zero_rreaddir : Rreaddir
zero_rreaddir = record { count = 0; entries = []; payload = [] }

-- The fresh message of the same type.
unfoldable pub blank : Message → Message
blank (rlerror _) = rlerror zero_rlerror
blank (tstatfs _) = tstatfs zero_tstatfs
blank (rstatfs _) = rstatfs zero_rstatfs
blank (tlopen _) = tlopen zero_tlopen
blank (rlopen _) = rlopen zero_rlopen
blank (tlcreate _) = tlcreate zero_tlcreate
blank (rlcreate _) = rlcreate zero_rlcreate
blank (tsymlink _) = tsymlink zero_tsymlink
blank (rsymlink _) = rsymlink zero_rsymlink
blank (tmknod _) = tmknod zero_tmknod
blank (rmknod _) = rmknod zero_rmknod
blank (trename _) = trename zero_trename
blank (rrename _) = rrename zero_rrename
blank (treadlink _) = treadlink zero_treadlink
blank (rreadlink _) = rreadlink zero_rreadlink
blank (tgetattr _) = tgetattr zero_tgetattr
blank (rgetattr _) = rgetattr zero_rgetattr
blank (tsetattr _) = tsetattr zero_tsetattr
blank (rsetattr _) = rsetattr zero_rsetattr
blank (txattrwalk _) = txattrwalk zero_txattrwalk
blank (rxattrwalk _) = rxattrwalk zero_rxattrwalk
blank (txattrcreate _) = txattrcreate zero_txattrcreate
blank (rxattrcreate _) = rxattrcreate zero_rxattrcreate
blank (treaddir _) = treaddir zero_treaddir
blank (rreaddir _) = rreaddir zero_rreaddir
blank (tfsync _) = tfsync zero_tfsync
blank (rfsync _) = rfsync zero_rfsync
blank (tlock _) = tlock zero_tlock
blank (rlock _) = rlock zero_rlock
blank (tlink _) = tlink zero_tlink
blank (rlink _) = rlink zero_rlink
blank (tmkdir _) = tmkdir zero_tmkdir
blank (rmkdir _) = rmkdir zero_rmkdir
blank (trenameat _) = trenameat zero_trenameat
blank (rrenameat _) = rrenameat zero_rrenameat
blank (tunlinkat _) = tunlinkat zero_tunlinkat
blank (runlinkat _) = runlinkat zero_runlinkat
blank (tversion _) = tversion zero_tversion
blank (rversion _) = rversion zero_rversion
blank (tauth _) = tauth zero_tauth
blank (rauth _) = rauth zero_rauth
blank (tattach _) = tattach zero_tattach
blank (rattach _) = rattach zero_rattach
blank (tflush _) = tflush zero_tflush
blank (rflush _) = rflush zero_rflush
blank (twalk _) = twalk zero_twalk
blank (rwalk _) = rwalk zero_rwalk
blank (tread _) = tread zero_tread
blank (rread _) = rread zero_rread
blank (twrite _) = twrite zero_twrite
blank (rwrite _) = rwrite zero_rwrite
blank (tclunk _) = tclunk zero_tclunk
blank (rclunk _) = rclunk zero_rclunk
blank (tremove _) = tremove zero_tremove
blank (rremove _) = rremove zero_rremove
blank (twalkgetattr _) = twalkgetattr zero_twalkgetattr
blank (rwalkgetattr _) = rwalkgetattr zero_rwalkgetattr
blank (tucreate _) = tucreate zero_tucreate
blank (rucreate _) = rucreate zero_rucreate
blank (tumkdir _) = tumkdir zero_tumkdir
blank (rumkdir _) = rumkdir zero_rumkdir
blank (tumknod _) = tumknod zero_tumknod
blank (rumknod _) = rumknod zero_rumknod
blank (tusymlink _) = tusymlink zero_tusymlink
blank (rusymlink _) = rusymlink zero_rusymlink
