-- ===== src/Messages/Message/Codec.antt =====
-- `decode` and `encode` of Go's interface `message`: the method of the struct.
use p.Buffer.{Buffer, Reader, ◌>>=◌, pure}
use p.Messages.Session.{
  decode_tversion, encode_tversion, decode_rversion, encode_rversion, decode_tflush, encode_tflush,
  decode_rflush, encode_rflush, decode_rlerror, encode_rlerror, decode_tauth, encode_tauth,
  decode_rauth, encode_rauth, decode_tattach, encode_tattach, decode_rattach, encode_rattach,
}
use p.Messages.Walk.{
  decode_twalk, encode_twalk, decode_rwalk, encode_rwalk, decode_tclunk, encode_tclunk,
  decode_rclunk, encode_rclunk, decode_twalkgetattr, encode_twalkgetattr, decode_rwalkgetattr,
  encode_rwalkgetattr,
}
use p.Messages.Open.{
  decode_tlopen, encode_tlopen, decode_rlopen, encode_rlopen, decode_tlcreate, encode_tlcreate,
  decode_rlcreate, encode_rlcreate, decode_tucreate, encode_tucreate, decode_rucreate,
  encode_rucreate,
}
use p.Messages.Names.{
  decode_tremove, encode_tremove, decode_rremove, encode_rremove, decode_tlink, encode_tlink,
  decode_rlink, encode_rlink, decode_trenameat, encode_trenameat, decode_rrenameat,
  encode_rrenameat, decode_tunlinkat, encode_tunlinkat, decode_runlinkat, encode_runlinkat,
  decode_trename, encode_trename, decode_rrename, encode_rrename, decode_treadlink,
  encode_treadlink, decode_rreadlink, encode_rreadlink,
}
use p.Messages.Make.{
  decode_tsymlink, encode_tsymlink, decode_rsymlink, encode_rsymlink, decode_tusymlink,
  encode_tusymlink, decode_rusymlink, encode_rusymlink, decode_tmknod, encode_tmknod, decode_rmknod,
  encode_rmknod, decode_tumknod, encode_tumknod, decode_rumknod, encode_rumknod, decode_tmkdir,
  encode_tmkdir, decode_rmkdir, encode_rmkdir, decode_tumkdir, encode_tumkdir, decode_rumkdir,
  encode_rumkdir,
}
use p.Messages.Attributes.{
  decode_tgetattr, encode_tgetattr, decode_rgetattr, encode_rgetattr, decode_tsetattr,
  encode_tsetattr, decode_rsetattr, encode_rsetattr, decode_txattrwalk, encode_txattrwalk,
  decode_rxattrwalk, encode_rxattrwalk, decode_txattrcreate, encode_txattrcreate,
  decode_rxattrcreate, encode_rxattrcreate, decode_tstatfs, encode_tstatfs, decode_rstatfs,
  encode_rstatfs,
}
use p.Messages.Transfer.{
  decode_tread, encode_tread, decode_rwrite, encode_rwrite, decode_tfsync, encode_tfsync,
  decode_rfsync, encode_rfsync, decode_treaddir, encode_treaddir, decode_tlock, encode_tlock,
  decode_rlock, encode_rlock,
}
use p.Messages.Payload.{
  decode_rread, encode_rread, decode_twrite, encode_twrite, decode_rreaddir, encode_rreaddir,
}
use p.Messages.Message.{
  Message, rlerror, tstatfs, rstatfs, tlopen, rlopen, tlcreate, rlcreate, tsymlink, rsymlink,
  tmknod, rmknod, trename, rrename, treadlink, rreadlink, tgetattr, rgetattr, tsetattr, rsetattr,
  txattrwalk, rxattrwalk, txattrcreate, rxattrcreate, treaddir, rreaddir, tfsync, rfsync, tlock,
  rlock, tlink, rlink, tmkdir, rmkdir, trenameat, rrenameat, tunlinkat, runlinkat, tversion,
  rversion, tauth, rauth, tattach, rattach, tflush, rflush, twalk, rwalk, tread, rread, twrite,
  rwrite, tclunk, rclunk, tremove, rremove, twalkgetattr, rwalkgetattr, tucreate, rucreate, tumkdir,
  rumkdir, tumknod, rumknod, tusymlink, rusymlink,
}

unfoldable pub decode : Message → Reader Message
decode (rlerror _) = do m ← decode_rlerror; pure (rlerror m)
decode (tstatfs _) = do m ← decode_tstatfs; pure (tstatfs m)
decode (rstatfs _) = do m ← decode_rstatfs; pure (rstatfs m)
decode (tlopen _) = do m ← decode_tlopen; pure (tlopen m)
decode (rlopen _) = do m ← decode_rlopen; pure (rlopen m)
decode (tlcreate _) = do m ← decode_tlcreate; pure (tlcreate m)
decode (rlcreate _) = do m ← decode_rlcreate; pure (rlcreate m)
decode (tsymlink _) = do m ← decode_tsymlink; pure (tsymlink m)
decode (rsymlink _) = do m ← decode_rsymlink; pure (rsymlink m)
decode (tmknod _) = do m ← decode_tmknod; pure (tmknod m)
decode (rmknod _) = do m ← decode_rmknod; pure (rmknod m)
decode (trename _) = do m ← decode_trename; pure (trename m)
decode (rrename _) = do m ← decode_rrename; pure (rrename m)
decode (treadlink _) = do m ← decode_treadlink; pure (treadlink m)
decode (rreadlink _) = do m ← decode_rreadlink; pure (rreadlink m)
decode (tgetattr _) = do m ← decode_tgetattr; pure (tgetattr m)
decode (rgetattr _) = do m ← decode_rgetattr; pure (rgetattr m)
decode (tsetattr _) = do m ← decode_tsetattr; pure (tsetattr m)
decode (rsetattr _) = do m ← decode_rsetattr; pure (rsetattr m)
decode (txattrwalk _) = do m ← decode_txattrwalk; pure (txattrwalk m)
decode (rxattrwalk _) = do m ← decode_rxattrwalk; pure (rxattrwalk m)
decode (txattrcreate _) = do m ← decode_txattrcreate; pure (txattrcreate m)
decode (rxattrcreate _) = do m ← decode_rxattrcreate; pure (rxattrcreate m)
decode (treaddir _) = do m ← decode_treaddir; pure (treaddir m)
decode (rreaddir x) = do m ← decode_rreaddir x; pure (rreaddir m)
decode (tfsync _) = do m ← decode_tfsync; pure (tfsync m)
decode (rfsync _) = do m ← decode_rfsync; pure (rfsync m)
decode (tlock _) = do m ← decode_tlock; pure (tlock m)
decode (rlock _) = do m ← decode_rlock; pure (rlock m)
decode (tlink _) = do m ← decode_tlink; pure (tlink m)
decode (rlink _) = do m ← decode_rlink; pure (rlink m)
decode (tmkdir _) = do m ← decode_tmkdir; pure (tmkdir m)
decode (rmkdir _) = do m ← decode_rmkdir; pure (rmkdir m)
decode (trenameat _) = do m ← decode_trenameat; pure (trenameat m)
decode (rrenameat _) = do m ← decode_rrenameat; pure (rrenameat m)
decode (tunlinkat _) = do m ← decode_tunlinkat; pure (tunlinkat m)
decode (runlinkat _) = do m ← decode_runlinkat; pure (runlinkat m)
decode (tversion _) = do m ← decode_tversion; pure (tversion m)
decode (rversion _) = do m ← decode_rversion; pure (rversion m)
decode (tauth _) = do m ← decode_tauth; pure (tauth m)
decode (rauth _) = do m ← decode_rauth; pure (rauth m)
decode (tattach _) = do m ← decode_tattach; pure (tattach m)
decode (rattach _) = do m ← decode_rattach; pure (rattach m)
decode (tflush _) = do m ← decode_tflush; pure (tflush m)
decode (rflush _) = do m ← decode_rflush; pure (rflush m)
decode (twalk x) = do m ← decode_twalk x; pure (twalk m)
decode (rwalk x) = do m ← decode_rwalk x; pure (rwalk m)
decode (tread _) = do m ← decode_tread; pure (tread m)
decode (rread x) = do m ← decode_rread x; pure (rread m)
decode (twrite x) = do m ← decode_twrite x; pure (twrite m)
decode (rwrite _) = do m ← decode_rwrite; pure (rwrite m)
decode (tclunk _) = do m ← decode_tclunk; pure (tclunk m)
decode (rclunk _) = do m ← decode_rclunk; pure (rclunk m)
decode (tremove _) = do m ← decode_tremove; pure (tremove m)
decode (rremove _) = do m ← decode_rremove; pure (rremove m)
decode (twalkgetattr x) = do m ← decode_twalkgetattr x; pure (twalkgetattr m)
decode (rwalkgetattr x) = do m ← decode_rwalkgetattr x; pure (rwalkgetattr m)
decode (tucreate _) = do m ← decode_tucreate; pure (tucreate m)
decode (rucreate _) = do m ← decode_rucreate; pure (rucreate m)
decode (tumkdir _) = do m ← decode_tumkdir; pure (tumkdir m)
decode (rumkdir _) = do m ← decode_rumkdir; pure (rumkdir m)
decode (tumknod _) = do m ← decode_tumknod; pure (tumknod m)
decode (rumknod _) = do m ← decode_rumknod; pure (rumknod m)
decode (tusymlink _) = do m ← decode_tusymlink; pure (tusymlink m)
decode (rusymlink _) = do m ← decode_rusymlink; pure (rusymlink m)

-- `encode` of an Rreaddir changes the message too.
unfoldable pub encode : Message → Buffer → Message × Buffer
encode (rlerror m) b = (rlerror m, encode_rlerror m b)
encode (tstatfs m) b = (tstatfs m, encode_tstatfs m b)
encode (rstatfs m) b = (rstatfs m, encode_rstatfs m b)
encode (tlopen m) b = (tlopen m, encode_tlopen m b)
encode (rlopen m) b = (rlopen m, encode_rlopen m b)
encode (tlcreate m) b = (tlcreate m, encode_tlcreate m b)
encode (rlcreate m) b = (rlcreate m, encode_rlcreate m b)
encode (tsymlink m) b = (tsymlink m, encode_tsymlink m b)
encode (rsymlink m) b = (rsymlink m, encode_rsymlink m b)
encode (tmknod m) b = (tmknod m, encode_tmknod m b)
encode (rmknod m) b = (rmknod m, encode_rmknod m b)
encode (trename m) b = (trename m, encode_trename m b)
encode (rrename m) b = (rrename m, encode_rrename m b)
encode (treadlink m) b = (treadlink m, encode_treadlink m b)
encode (rreadlink m) b = (rreadlink m, encode_rreadlink m b)
encode (tgetattr m) b = (tgetattr m, encode_tgetattr m b)
encode (rgetattr m) b = (rgetattr m, encode_rgetattr m b)
encode (tsetattr m) b = (tsetattr m, encode_tsetattr m b)
encode (rsetattr m) b = (rsetattr m, encode_rsetattr m b)
encode (txattrwalk m) b = (txattrwalk m, encode_txattrwalk m b)
encode (rxattrwalk m) b = (rxattrwalk m, encode_rxattrwalk m b)
encode (txattrcreate m) b = (txattrcreate m, encode_txattrcreate m b)
encode (rxattrcreate m) b = (rxattrcreate m, encode_rxattrcreate m b)
encode (treaddir m) b = (treaddir m, encode_treaddir m b)
encode (rreaddir m) b = let (m', b') = encode_rreaddir m b in (rreaddir m', b')
encode (tfsync m) b = (tfsync m, encode_tfsync m b)
encode (rfsync m) b = (rfsync m, encode_rfsync m b)
encode (tlock m) b = (tlock m, encode_tlock m b)
encode (rlock m) b = (rlock m, encode_rlock m b)
encode (tlink m) b = (tlink m, encode_tlink m b)
encode (rlink m) b = (rlink m, encode_rlink m b)
encode (tmkdir m) b = (tmkdir m, encode_tmkdir m b)
encode (rmkdir m) b = (rmkdir m, encode_rmkdir m b)
encode (trenameat m) b = (trenameat m, encode_trenameat m b)
encode (rrenameat m) b = (rrenameat m, encode_rrenameat m b)
encode (tunlinkat m) b = (tunlinkat m, encode_tunlinkat m b)
encode (runlinkat m) b = (runlinkat m, encode_runlinkat m b)
encode (tversion m) b = (tversion m, encode_tversion m b)
encode (rversion m) b = (rversion m, encode_rversion m b)
encode (tauth m) b = (tauth m, encode_tauth m b)
encode (rauth m) b = (rauth m, encode_rauth m b)
encode (tattach m) b = (tattach m, encode_tattach m b)
encode (rattach m) b = (rattach m, encode_rattach m b)
encode (tflush m) b = (tflush m, encode_tflush m b)
encode (rflush m) b = (rflush m, encode_rflush m b)
encode (twalk m) b = (twalk m, encode_twalk m b)
encode (rwalk m) b = (rwalk m, encode_rwalk m b)
encode (tread m) b = (tread m, encode_tread m b)
encode (rread m) b = (rread m, encode_rread m b)
encode (twrite m) b = (twrite m, encode_twrite m b)
encode (rwrite m) b = (rwrite m, encode_rwrite m b)
encode (tclunk m) b = (tclunk m, encode_tclunk m b)
encode (rclunk m) b = (rclunk m, encode_rclunk m b)
encode (tremove m) b = (tremove m, encode_tremove m b)
encode (rremove m) b = (rremove m, encode_rremove m b)
encode (twalkgetattr m) b = (twalkgetattr m, encode_twalkgetattr m b)
encode (rwalkgetattr m) b = (rwalkgetattr m, encode_rwalkgetattr m b)
encode (tucreate m) b = (tucreate m, encode_tucreate m b)
encode (rucreate m) b = (rucreate m, encode_rucreate m b)
encode (tumkdir m) b = (tumkdir m, encode_tumkdir m b)
encode (rumkdir m) b = (rumkdir m, encode_rumkdir m b)
encode (tumknod m) b = (tumknod m, encode_tumknod m b)
encode (rumknod m) b = (rumknod m, encode_rumknod m b)
encode (tusymlink m) b = (tusymlink m, encode_tusymlink m b)
encode (rusymlink m) b = (rusymlink m, encode_rusymlink m b)
