-- ===== src/Registry/Registrations.antt =====
-- init of p9/messages.go: the types and factories that are registered.
use p.Base.{ℕ, List, [], ◌∷◌}
use p.Types.MsgType.{
  msg_rlerror, msg_tstatfs, msg_rstatfs, msg_tlopen, msg_rlopen, msg_tlcreate, msg_rlcreate,
  msg_tsymlink, msg_rsymlink, msg_tmknod, msg_rmknod, msg_trename, msg_rrename, msg_treadlink,
  msg_rreadlink, msg_tgetattr, msg_rgetattr, msg_tsetattr, msg_rsetattr, msg_txattrwalk,
  msg_rxattrwalk, msg_txattrcreate, msg_rxattrcreate, msg_treaddir, msg_rreaddir, msg_tfsync,
  msg_rfsync, msg_tlock, msg_rlock, msg_tlink, msg_rlink, msg_tmkdir, msg_rmkdir, msg_trenameat,
  msg_rrenameat, msg_tunlinkat, msg_runlinkat, msg_tversion, msg_rversion, msg_tauth, msg_rauth,
  msg_tattach, msg_rattach, msg_tflush, msg_rflush, msg_twalk, msg_rwalk, msg_tread, msg_rread,
  msg_twrite, msg_rwrite, msg_tclunk, msg_rclunk, msg_tremove, msg_rremove, msg_twalkgetattr,
  msg_rwalkgetattr, msg_tucreate, msg_rucreate, msg_tumkdir, msg_rumkdir, msg_tumknod, msg_rumknod,
  msg_tusymlink, msg_rusymlink,
}
use p.Messages.Message.{
  Message, rlerror, tstatfs, rstatfs, tlopen, rlopen, tlcreate, rlcreate, tsymlink, rsymlink,
  tmknod, rmknod, trename, rrename, treadlink, rreadlink, tgetattr, rgetattr, tsetattr, rsetattr,
  txattrwalk, rxattrwalk, txattrcreate, rxattrcreate, treaddir, rreaddir, tfsync, rfsync, tlock,
  rlock, tlink, rlink, tmkdir, rmkdir, trenameat, rrenameat, tunlinkat, runlinkat, tversion,
  rversion, tauth, rauth, tattach, rattach, tflush, rflush, twalk, rwalk, tread, rread, twrite,
  rwrite, tclunk, rclunk, tremove, rremove, twalkgetattr, rwalkgetattr, tucreate, rucreate, tumkdir,
  rumkdir, tumknod, rumknod, tusymlink, rusymlink,
}
use p.Messages.Message.Blank.{
  zero_rlerror, zero_tstatfs, zero_rstatfs, zero_tlopen, zero_rlopen, zero_tlcreate, zero_rlcreate,
  zero_tsymlink, zero_rsymlink, zero_tmknod, zero_rmknod, zero_trename, zero_rrename,
  zero_treadlink, zero_rreadlink, zero_tgetattr, zero_rgetattr, zero_tsetattr, zero_rsetattr,
  zero_txattrwalk, zero_rxattrwalk, zero_txattrcreate, zero_rxattrcreate, zero_treaddir,
  zero_rreaddir, zero_tfsync, zero_rfsync, zero_tlock, zero_rlock, zero_tlink, zero_rlink,
  zero_tmkdir, zero_rmkdir, zero_trenameat, zero_rrenameat, zero_tunlinkat, zero_runlinkat,
  zero_tversion, zero_rversion, zero_tauth, zero_rauth, zero_tattach, zero_rattach, zero_tflush,
  zero_rflush, zero_twalk, zero_rwalk, zero_tread, zero_rread, zero_twrite, zero_rwrite,
  zero_tclunk, zero_rclunk, zero_tremove, zero_rremove, zero_twalkgetattr, zero_rwalkgetattr,
  zero_tucreate, zero_rucreate, zero_tumkdir, zero_rumkdir, zero_tumknod, zero_rumknod,
  zero_tusymlink, zero_rusymlink,
}

abbrev pub registrations : List (ℕ × Message)
registrations =
    (msg_rlerror, rlerror zero_rlerror)
    ∷ (msg_tstatfs, tstatfs zero_tstatfs)
    ∷ (msg_rstatfs, rstatfs zero_rstatfs)
    ∷ (msg_tlopen, tlopen zero_tlopen)
    ∷ (msg_rlopen, rlopen zero_rlopen)
    ∷ (msg_tlcreate, tlcreate zero_tlcreate)
    ∷ (msg_rlcreate, rlcreate zero_rlcreate)
    ∷ (msg_tsymlink, tsymlink zero_tsymlink)
    ∷ (msg_rsymlink, rsymlink zero_rsymlink)
    ∷ (msg_tmknod, tmknod zero_tmknod)
    ∷ (msg_rmknod, rmknod zero_rmknod)
    ∷ (msg_trename, trename zero_trename)
    ∷ (msg_rrename, rrename zero_rrename)
    ∷ (msg_treadlink, treadlink zero_treadlink)
    ∷ (msg_rreadlink, rreadlink zero_rreadlink)
    ∷ (msg_tgetattr, tgetattr zero_tgetattr)
    ∷ (msg_rgetattr, rgetattr zero_rgetattr)
    ∷ (msg_tsetattr, tsetattr zero_tsetattr)
    ∷ (msg_rsetattr, rsetattr zero_rsetattr)
    ∷ (msg_txattrwalk, txattrwalk zero_txattrwalk)
    ∷ (msg_rxattrwalk, rxattrwalk zero_rxattrwalk)
    ∷ (msg_txattrcreate, txattrcreate zero_txattrcreate)
    ∷ (msg_rxattrcreate, rxattrcreate zero_rxattrcreate)
    ∷ (msg_treaddir, treaddir zero_treaddir)
    ∷ (msg_rreaddir, rreaddir zero_rreaddir)
    ∷ (msg_tfsync, tfsync zero_tfsync)
    ∷ (msg_rfsync, rfsync zero_rfsync)
    ∷ (msg_tlock, tlock zero_tlock)
    ∷ (msg_rlock, rlock zero_rlock)
    ∷ (msg_tlink, tlink zero_tlink)
    ∷ (msg_rlink, rlink zero_rlink)
    ∷ (msg_tmkdir, tmkdir zero_tmkdir)
    ∷ (msg_rmkdir, rmkdir zero_rmkdir)
    ∷ (msg_trenameat, trenameat zero_trenameat)
    ∷ (msg_rrenameat, rrenameat zero_rrenameat)
    ∷ (msg_tunlinkat, tunlinkat zero_tunlinkat)
    ∷ (msg_runlinkat, runlinkat zero_runlinkat)
    ∷ (msg_tversion, tversion zero_tversion)
    ∷ (msg_rversion, rversion zero_rversion)
    ∷ (msg_tauth, tauth zero_tauth)
    ∷ (msg_rauth, rauth zero_rauth)
    ∷ (msg_tattach, tattach zero_tattach)
    ∷ (msg_rattach, rattach zero_rattach)
    ∷ (msg_tflush, tflush zero_tflush)
    ∷ (msg_rflush, rflush zero_rflush)
    ∷ (msg_twalk, twalk zero_twalk)
    ∷ (msg_rwalk, rwalk zero_rwalk)
    ∷ (msg_tread, tread zero_tread)
    ∷ (msg_rread, rread zero_rread)
    ∷ (msg_twrite, twrite zero_twrite)
    ∷ (msg_rwrite, rwrite zero_rwrite)
    ∷ (msg_tclunk, tclunk zero_tclunk)
    ∷ (msg_rclunk, rclunk zero_rclunk)
    ∷ (msg_tremove, tremove zero_tremove)
    ∷ (msg_rremove, rremove zero_rremove)
    ∷ (msg_twalkgetattr, twalkgetattr zero_twalkgetattr)
    ∷ (msg_rwalkgetattr, rwalkgetattr zero_rwalkgetattr)
    ∷ (msg_tucreate, tucreate zero_tucreate)
    ∷ (msg_rucreate, rucreate zero_rucreate)
    ∷ (msg_tumkdir, tumkdir zero_tumkdir)
    ∷ (msg_rumkdir, rumkdir zero_rumkdir)
    ∷ (msg_tumknod, tumknod zero_tumknod)
    ∷ (msg_rumknod, rumknod zero_rumknod)
    ∷ (msg_tusymlink, tusymlink zero_tusymlink)
    ∷ (msg_rusymlink, rusymlink zero_rusymlink)
    ∷ []
