-- ===== src/Registry/Table.antt =====
-- p9/messages.go: the registration of each type of message.
use p.Base.{ℕ, List, ◌<◌, ◌^◌, ◌≡◌, refl, some, arith}
use p.Registry.{find_factory}
use p.Registry.Registrations.{registrations}
use p.Messages.Message.{
  Message, typ, set_payload, rlerror, tstatfs, rstatfs, tlopen, rlopen, tlcreate, rlcreate,
  tsymlink, rsymlink, tmknod, rmknod, trename, rrename, treadlink, rreadlink, tgetattr, rgetattr,
  tsetattr, rsetattr, txattrwalk, rxattrwalk, txattrcreate, rxattrcreate, treaddir, rreaddir,
  tfsync, rfsync, tlock, rlock, tlink, rlink, tmkdir, rmkdir, trenameat, rrenameat, tunlinkat,
  runlinkat, tversion, rversion, tauth, rauth, tattach, rattach, tflush, rflush, twalk, rwalk,
  tread, rread, twrite, rwrite, tclunk, rclunk, tremove, rremove, twalkgetattr, rwalkgetattr,
  tucreate, rucreate, tumkdir, rumkdir, tumknod, rumknod, tusymlink, rusymlink,
}
use p.Messages.Message.Blank.{blank}
use p.Messages.Message.Codec.{decode}
use p.Messages.Walk.{decode_twalk, decode_rwalk, decode_twalkgetattr, decode_rwalkgetattr}
use p.Messages.Payload.{decode_rread, decode_twrite, decode_rreaddir}

pub find-registrations : (m : Message) → find_factory (typ m) registrations ≡ some (blank m)
unfolding find_factory typ blank
find-registrations (rlerror _) = refl
find-registrations (tstatfs _) = refl
find-registrations (rstatfs _) = refl
find-registrations (tlopen _) = refl
find-registrations (rlopen _) = refl
find-registrations (tlcreate _) = refl
find-registrations (rlcreate _) = refl
find-registrations (tsymlink _) = refl
find-registrations (rsymlink _) = refl
find-registrations (tmknod _) = refl
find-registrations (rmknod _) = refl
find-registrations (trename _) = refl
find-registrations (rrename _) = refl
find-registrations (treadlink _) = refl
find-registrations (rreadlink _) = refl
find-registrations (tgetattr _) = refl
find-registrations (rgetattr _) = refl
find-registrations (tsetattr _) = refl
find-registrations (rsetattr _) = refl
find-registrations (txattrwalk _) = refl
find-registrations (rxattrwalk _) = refl
find-registrations (txattrcreate _) = refl
find-registrations (rxattrcreate _) = refl
find-registrations (treaddir _) = refl
find-registrations (rreaddir _) = refl
find-registrations (tfsync _) = refl
find-registrations (rfsync _) = refl
find-registrations (tlock _) = refl
find-registrations (rlock _) = refl
find-registrations (tlink _) = refl
find-registrations (rlink _) = refl
find-registrations (tmkdir _) = refl
find-registrations (rmkdir _) = refl
find-registrations (trenameat _) = refl
find-registrations (rrenameat _) = refl
find-registrations (tunlinkat _) = refl
find-registrations (runlinkat _) = refl
find-registrations (tversion _) = refl
find-registrations (rversion _) = refl
find-registrations (tauth _) = refl
find-registrations (rauth _) = refl
find-registrations (tattach _) = refl
find-registrations (rattach _) = refl
find-registrations (tflush _) = refl
find-registrations (rflush _) = refl
find-registrations (twalk _) = refl
find-registrations (rwalk _) = refl
find-registrations (tread _) = refl
find-registrations (rread _) = refl
find-registrations (twrite _) = refl
find-registrations (rwrite _) = refl
find-registrations (tclunk _) = refl
find-registrations (rclunk _) = refl
find-registrations (tremove _) = refl
find-registrations (rremove _) = refl
find-registrations (twalkgetattr _) = refl
find-registrations (rwalkgetattr _) = refl
find-registrations (tucreate _) = refl
find-registrations (rucreate _) = refl
find-registrations (tumkdir _) = refl
find-registrations (rumkdir _) = refl
find-registrations (tumknod _) = refl
find-registrations (rumknod _) = refl
find-registrations (tusymlink _) = refl
find-registrations (rusymlink _) = refl

pub typ-lt : (m : Message) → typ m < 2 ^ 8
unfolding typ
typ-lt (rlerror _) = omega arith
typ-lt (tstatfs _) = omega arith
typ-lt (rstatfs _) = omega arith
typ-lt (tlopen _) = omega arith
typ-lt (rlopen _) = omega arith
typ-lt (tlcreate _) = omega arith
typ-lt (rlcreate _) = omega arith
typ-lt (tsymlink _) = omega arith
typ-lt (rsymlink _) = omega arith
typ-lt (tmknod _) = omega arith
typ-lt (rmknod _) = omega arith
typ-lt (trename _) = omega arith
typ-lt (rrename _) = omega arith
typ-lt (treadlink _) = omega arith
typ-lt (rreadlink _) = omega arith
typ-lt (tgetattr _) = omega arith
typ-lt (rgetattr _) = omega arith
typ-lt (tsetattr _) = omega arith
typ-lt (rsetattr _) = omega arith
typ-lt (txattrwalk _) = omega arith
typ-lt (rxattrwalk _) = omega arith
typ-lt (txattrcreate _) = omega arith
typ-lt (rxattrcreate _) = omega arith
typ-lt (treaddir _) = omega arith
typ-lt (rreaddir _) = omega arith
typ-lt (tfsync _) = omega arith
typ-lt (rfsync _) = omega arith
typ-lt (tlock _) = omega arith
typ-lt (rlock _) = omega arith
typ-lt (tlink _) = omega arith
typ-lt (rlink _) = omega arith
typ-lt (tmkdir _) = omega arith
typ-lt (rmkdir _) = omega arith
typ-lt (trenameat _) = omega arith
typ-lt (rrenameat _) = omega arith
typ-lt (tunlinkat _) = omega arith
typ-lt (runlinkat _) = omega arith
typ-lt (tversion _) = omega arith
typ-lt (rversion _) = omega arith
typ-lt (tauth _) = omega arith
typ-lt (rauth _) = omega arith
typ-lt (tattach _) = omega arith
typ-lt (rattach _) = omega arith
typ-lt (tflush _) = omega arith
typ-lt (rflush _) = omega arith
typ-lt (twalk _) = omega arith
typ-lt (rwalk _) = omega arith
typ-lt (tread _) = omega arith
typ-lt (rread _) = omega arith
typ-lt (twrite _) = omega arith
typ-lt (rwrite _) = omega arith
typ-lt (tclunk _) = omega arith
typ-lt (rclunk _) = omega arith
typ-lt (tremove _) = omega arith
typ-lt (rremove _) = omega arith
typ-lt (twalkgetattr _) = omega arith
typ-lt (rwalkgetattr _) = omega arith
typ-lt (tucreate _) = omega arith
typ-lt (rucreate _) = omega arith
typ-lt (tumkdir _) = omega arith
typ-lt (rumkdir _) = omega arith
typ-lt (tumknod _) = omega arith
typ-lt (rumknod _) = omega arith
typ-lt (tusymlink _) = omega arith
typ-lt (rusymlink _) = omega arith

-- Of the message that a decoder fills, only the payload shows in the result.
pub decode-blank :
    (m : Message) (payload : List ℕ)
    → decode (set_payload payload m) ≡ decode (set_payload payload (blank m))
unfolding decode set_payload blank decode_twrite decode_rreaddir decode_rread decode_twalk
    decode_rwalk decode_twalkgetattr decode_rwalkgetattr
decode-blank (rlerror _) payload = refl
decode-blank (tstatfs _) payload = refl
decode-blank (rstatfs _) payload = refl
decode-blank (tlopen _) payload = refl
decode-blank (rlopen _) payload = refl
decode-blank (tlcreate _) payload = refl
decode-blank (rlcreate _) payload = refl
decode-blank (tsymlink _) payload = refl
decode-blank (rsymlink _) payload = refl
decode-blank (tmknod _) payload = refl
decode-blank (rmknod _) payload = refl
decode-blank (trename _) payload = refl
decode-blank (rrename _) payload = refl
decode-blank (treadlink _) payload = refl
decode-blank (rreadlink _) payload = refl
decode-blank (tgetattr _) payload = refl
decode-blank (rgetattr _) payload = refl
decode-blank (tsetattr _) payload = refl
decode-blank (rsetattr _) payload = refl
decode-blank (txattrwalk _) payload = refl
decode-blank (rxattrwalk _) payload = refl
decode-blank (txattrcreate _) payload = refl
decode-blank (rxattrcreate _) payload = refl
decode-blank (treaddir _) payload = refl
decode-blank (rreaddir _) payload = refl
decode-blank (tfsync _) payload = refl
decode-blank (rfsync _) payload = refl
decode-blank (tlock _) payload = refl
decode-blank (rlock _) payload = refl
decode-blank (tlink _) payload = refl
decode-blank (rlink _) payload = refl
decode-blank (tmkdir _) payload = refl
decode-blank (rmkdir _) payload = refl
decode-blank (trenameat _) payload = refl
decode-blank (rrenameat _) payload = refl
decode-blank (tunlinkat _) payload = refl
decode-blank (runlinkat _) payload = refl
decode-blank (tversion _) payload = refl
decode-blank (rversion _) payload = refl
decode-blank (tauth _) payload = refl
decode-blank (rauth _) payload = refl
decode-blank (tattach _) payload = refl
decode-blank (rattach _) payload = refl
decode-blank (tflush _) payload = refl
decode-blank (rflush _) payload = refl
decode-blank (twalk _) payload = refl
decode-blank (rwalk _) payload = refl
decode-blank (tread _) payload = refl
decode-blank (rread _) payload = refl
decode-blank (twrite _) payload = refl
decode-blank (rwrite _) payload = refl
decode-blank (tclunk _) payload = refl
decode-blank (rclunk _) payload = refl
decode-blank (tremove _) payload = refl
decode-blank (rremove _) payload = refl
decode-blank (twalkgetattr _) payload = refl
decode-blank (rwalkgetattr _) payload = refl
decode-blank (tucreate _) payload = refl
decode-blank (rucreate _) payload = refl
decode-blank (tumkdir _) payload = refl
decode-blank (rumkdir _) payload = refl
decode-blank (tumknod _) payload = refl
decode-blank (rumknod _) payload = refl
decode-blank (tusymlink _) payload = refl
decode-blank (rusymlink _) payload = refl
