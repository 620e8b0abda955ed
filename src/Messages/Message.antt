-- ===== src/Messages/Message.antt =====
-- The messages of p9/messages.go as one type, for Go's interface `message`, and what its
-- implementations share. A constructor stands for a pointer to the struct of its name.
pub mod Codec
pub mod Blank
pub mod Fits
pub mod Layout
pub mod Shape
use p.Base.{ℕ, List, [], Option, none, some}
use p.Messages.Session.{
  Tversion, typ_tversion, Rversion, typ_rversion, Tflush, typ_tflush, Rflush, typ_rflush, Rlerror,
  typ_rlerror, Tauth, typ_tauth, Rauth, typ_rauth, Tattach, typ_tattach, Rattach, typ_rattach,
}
use p.Messages.Walk.{
  Twalk, typ_twalk, Rwalk, typ_rwalk, Tclunk, typ_tclunk, Rclunk, typ_rclunk, Twalkgetattr,
  typ_twalkgetattr, Rwalkgetattr, typ_rwalkgetattr,
}
use p.Messages.Open.{
  Tlopen, typ_tlopen, Rlopen, typ_rlopen, Tlcreate, typ_tlcreate, Rlcreate, typ_rlcreate, Tucreate,
  typ_tucreate, Rucreate, typ_rucreate,
}
use p.Messages.Names.{
  Tremove, typ_tremove, Rremove, typ_rremove, Tlink, typ_tlink, Rlink, typ_rlink, Trenameat,
  typ_trenameat, Rrenameat, typ_rrenameat, Tunlinkat, typ_tunlinkat, Runlinkat, typ_runlinkat,
  Trename, typ_trename, Rrename, typ_rrename, Treadlink, typ_treadlink, Rreadlink, typ_rreadlink,
}
use p.Messages.Make.{
  Tsymlink, typ_tsymlink, Rsymlink, typ_rsymlink, Tusymlink, typ_tusymlink, Rusymlink,
  typ_rusymlink, Tmknod, typ_tmknod, Rmknod, typ_rmknod, Tumknod, typ_tumknod, Rumknod, typ_rumknod,
  Tmkdir, typ_tmkdir, Rmkdir, typ_rmkdir, Tumkdir, typ_tumkdir, Rumkdir, typ_rumkdir,
}
use p.Messages.Attributes.{
  Tgetattr, typ_tgetattr, Rgetattr, typ_rgetattr, Tsetattr, typ_tsetattr, Rsetattr, typ_rsetattr,
  Txattrwalk, typ_txattrwalk, Rxattrwalk, typ_rxattrwalk, Txattrcreate, typ_txattrcreate,
  Rxattrcreate, typ_rxattrcreate, Tstatfs, typ_tstatfs, Rstatfs, typ_rstatfs,
}
use p.Messages.Transfer.{
  Tread, typ_tread, Rwrite, typ_rwrite, Tfsync, typ_tfsync, Rfsync, typ_rfsync, Treaddir,
  typ_treaddir, Tlock, typ_tlock, Rlock, typ_rlock,
}
use p.Messages.Payload.{
  fixed_size_rread, fixed_size_twrite, fixed_size_rreaddir, Rread, typ_rread, Twrite, typ_twrite,
  Rreaddir, typ_rreaddir,
}

pub data Message : Type 0 where
  rlerror : Rlerror → Message
  tstatfs : Tstatfs → Message
  rstatfs : Rstatfs → Message
  tlopen : Tlopen → Message
  rlopen : Rlopen → Message
  tlcreate : Tlcreate → Message
  rlcreate : Rlcreate → Message
  tsymlink : Tsymlink → Message
  rsymlink : Rsymlink → Message
  tmknod : Tmknod → Message
  rmknod : Rmknod → Message
  trename : Trename → Message
  rrename : Rrename → Message
  treadlink : Treadlink → Message
  rreadlink : Rreadlink → Message
  tgetattr : Tgetattr → Message
  rgetattr : Rgetattr → Message
  tsetattr : Tsetattr → Message
  rsetattr : Rsetattr → Message
  txattrwalk : Txattrwalk → Message
  rxattrwalk : Rxattrwalk → Message
  txattrcreate : Txattrcreate → Message
  rxattrcreate : Rxattrcreate → Message
  treaddir : Treaddir → Message
  rreaddir : Rreaddir → Message
  tfsync : Tfsync → Message
  rfsync : Rfsync → Message
  tlock : Tlock → Message
  rlock : Rlock → Message
  tlink : Tlink → Message
  rlink : Rlink → Message
  tmkdir : Tmkdir → Message
  rmkdir : Rmkdir → Message
  trenameat : Trenameat → Message
  rrenameat : Rrenameat → Message
  tunlinkat : Tunlinkat → Message
  runlinkat : Runlinkat → Message
  tversion : Tversion → Message
  rversion : Rversion → Message
  tauth : Tauth → Message
  rauth : Rauth → Message
  tattach : Tattach → Message
  rattach : Rattach → Message
  tflush : Tflush → Message
  rflush : Rflush → Message
  twalk : Twalk → Message
  rwalk : Rwalk → Message
  tread : Tread → Message
  rread : Rread → Message
  twrite : Twrite → Message
  rwrite : Rwrite → Message
  tclunk : Tclunk → Message
  rclunk : Rclunk → Message
  tremove : Tremove → Message
  rremove : Rremove → Message
  twalkgetattr : Twalkgetattr → Message
  rwalkgetattr : Rwalkgetattr → Message
  tucreate : Tucreate → Message
  rucreate : Rucreate → Message
  tumkdir : Tumkdir → Message
  rumkdir : Rumkdir → Message
  tumknod : Tumknod → Message
  rumknod : Rumknod → Message
  tusymlink : Tusymlink → Message
  rusymlink : Rusymlink → Message

unfoldable pub typ : Message → ℕ
typ (rlerror _) = typ_rlerror
typ (tstatfs _) = typ_tstatfs
typ (rstatfs _) = typ_rstatfs
typ (tlopen _) = typ_tlopen
typ (rlopen _) = typ_rlopen
typ (tlcreate _) = typ_tlcreate
typ (rlcreate _) = typ_rlcreate
typ (tsymlink _) = typ_tsymlink
typ (rsymlink _) = typ_rsymlink
typ (tmknod _) = typ_tmknod
typ (rmknod _) = typ_rmknod
typ (trename _) = typ_trename
typ (rrename _) = typ_rrename
typ (treadlink _) = typ_treadlink
typ (rreadlink _) = typ_rreadlink
typ (tgetattr _) = typ_tgetattr
typ (rgetattr _) = typ_rgetattr
typ (tsetattr _) = typ_tsetattr
typ (rsetattr _) = typ_rsetattr
typ (txattrwalk _) = typ_txattrwalk
typ (rxattrwalk _) = typ_rxattrwalk
typ (txattrcreate _) = typ_txattrcreate
typ (rxattrcreate _) = typ_rxattrcreate
typ (treaddir _) = typ_treaddir
typ (rreaddir _) = typ_rreaddir
typ (tfsync _) = typ_tfsync
typ (rfsync _) = typ_rfsync
typ (tlock _) = typ_tlock
typ (rlock _) = typ_rlock
typ (tlink _) = typ_tlink
typ (rlink _) = typ_rlink
typ (tmkdir _) = typ_tmkdir
typ (rmkdir _) = typ_rmkdir
typ (trenameat _) = typ_trenameat
typ (rrenameat _) = typ_rrenameat
typ (tunlinkat _) = typ_tunlinkat
typ (runlinkat _) = typ_runlinkat
typ (tversion _) = typ_tversion
typ (rversion _) = typ_rversion
typ (tauth _) = typ_tauth
typ (rauth _) = typ_rauth
typ (tattach _) = typ_tattach
typ (rattach _) = typ_rattach
typ (tflush _) = typ_tflush
typ (rflush _) = typ_rflush
typ (twalk _) = typ_twalk
typ (rwalk _) = typ_rwalk
typ (tread _) = typ_tread
typ (rread _) = typ_rread
typ (twrite _) = typ_twrite
typ (rwrite _) = typ_rwrite
typ (tclunk _) = typ_tclunk
typ (rclunk _) = typ_rclunk
typ (tremove _) = typ_tremove
typ (rremove _) = typ_rremove
typ (twalkgetattr _) = typ_twalkgetattr
typ (rwalkgetattr _) = typ_rwalkgetattr
typ (tucreate _) = typ_tucreate
typ (rucreate _) = typ_rucreate
typ (tumkdir _) = typ_tumkdir
typ (rumkdir _) = typ_rumkdir
typ (tumknod _) = typ_tumknod
typ (rumknod _) = typ_rumknod
typ (tusymlink _) = typ_tusymlink
typ (rusymlink _) = typ_rusymlink

-- What the interface `payloader` adds, where a message implements it.
pub record Payloader : Type 0 where
  pub fixed_size : ℕ
  pub payload : List ℕ

unfoldable pub payloader : Message → Option Payloader
payloader (rread r) = some (record { fixed_size = fixed_size_rread; payload = r.content })
payloader (twrite t) = some (record { fixed_size = fixed_size_twrite; payload = t.content })
payloader (rreaddir r) = some (record { fixed_size = fixed_size_rreaddir; payload = r.payload })
payloader _ = none

abbrev pub payload_bytes : Option Payloader → List ℕ
payload_bytes none = []
payload_bytes (some p) = p.payload

unfoldable pub set_payload : List ℕ → Message → Message
set_payload p (rread r) = rread (record r { content = p })
set_payload p (twrite t) = twrite (record t { content = p })
set_payload p (rreaddir r) = rreaddir (record r { payload = p })
set_payload p m = m
