-- ===== src/Messages/Message/Layout.antt =====
-- The layout of every message of p9/messages.go: `encode` against `decode`.
use p.Base.{ℕ, List, [], false, refl}
use p.Buffer.{Reader, Writer, ◌>>=◌, pure}
use p.Buffer.RoundTrip.{
  buffer, Sticky, RoundTrips, RoundTrips-last, RoundTrips-pure, Sticky-pure, Sticky-bind,
}
use p.Messages.Session.Layout.{
  decode_tversion-Sticky, decode_tversion-RoundTrips, decode_rversion-Sticky,
  decode_rversion-RoundTrips, decode_tflush-Sticky, decode_tflush-RoundTrips, decode_rflush-Sticky,
  decode_rflush-RoundTrips, decode_rlerror-Sticky, decode_rlerror-RoundTrips, decode_tauth-Sticky,
  decode_tauth-RoundTrips, decode_rauth-Sticky, decode_rauth-RoundTrips, decode_tattach-Sticky,
  decode_tattach-RoundTrips, decode_rattach-Sticky, decode_rattach-RoundTrips,
}
use p.Messages.Walk.Layout.{
  decode_twalk-Sticky, decode_twalk-RoundTrips, decode_rwalk-Sticky, decode_rwalk-RoundTrips,
  decode_tclunk-Sticky, decode_tclunk-RoundTrips, decode_rclunk-Sticky, decode_rclunk-RoundTrips,
  decode_twalkgetattr-Sticky, decode_twalkgetattr-RoundTrips, decode_rwalkgetattr-Sticky,
  decode_rwalkgetattr-RoundTrips,
}
use p.Messages.Open.Layout.{
  decode_tlopen-Sticky, decode_tlopen-RoundTrips, decode_rlopen-Sticky, decode_rlopen-RoundTrips,
  decode_tlcreate-Sticky, decode_tlcreate-RoundTrips, decode_rlcreate-Sticky,
  decode_rlcreate-RoundTrips, decode_tucreate-Sticky, decode_tucreate-RoundTrips,
  decode_rucreate-Sticky, decode_rucreate-RoundTrips,
}
use p.Messages.Names.Layout.{
  decode_tremove-Sticky, decode_tremove-RoundTrips, decode_rremove-Sticky,
  decode_rremove-RoundTrips, decode_tlink-Sticky, decode_tlink-RoundTrips, decode_rlink-Sticky,
  decode_rlink-RoundTrips, decode_trenameat-Sticky, decode_trenameat-RoundTrips,
  decode_rrenameat-Sticky, decode_rrenameat-RoundTrips, decode_tunlinkat-Sticky,
  decode_tunlinkat-RoundTrips, decode_runlinkat-Sticky, decode_runlinkat-RoundTrips,
  decode_trename-Sticky, decode_trename-RoundTrips, decode_rrename-Sticky,
  decode_rrename-RoundTrips, decode_treadlink-Sticky, decode_treadlink-RoundTrips,
  decode_rreadlink-Sticky, decode_rreadlink-RoundTrips,
}
use p.Messages.Make.Layout.{
  decode_tsymlink-Sticky, decode_tsymlink-RoundTrips, decode_rsymlink-Sticky,
  decode_rsymlink-RoundTrips, decode_tusymlink-Sticky, decode_tusymlink-RoundTrips,
  decode_rusymlink-Sticky, decode_rusymlink-RoundTrips, decode_tmknod-Sticky,
  decode_tmknod-RoundTrips, decode_rmknod-Sticky, decode_rmknod-RoundTrips, decode_tumknod-Sticky,
  decode_tumknod-RoundTrips, decode_rumknod-Sticky, decode_rumknod-RoundTrips, decode_tmkdir-Sticky,
  decode_tmkdir-RoundTrips, decode_rmkdir-Sticky, decode_rmkdir-RoundTrips, decode_tumkdir-Sticky,
  decode_tumkdir-RoundTrips, decode_rumkdir-Sticky, decode_rumkdir-RoundTrips,
}
use p.Messages.Attributes.Layout.{
  decode_tgetattr-Sticky, decode_tgetattr-RoundTrips, decode_rgetattr-Sticky,
  decode_rgetattr-RoundTrips, decode_tsetattr-Sticky, decode_tsetattr-RoundTrips,
  decode_rsetattr-Sticky, decode_rsetattr-RoundTrips, decode_txattrwalk-Sticky,
  decode_txattrwalk-RoundTrips, decode_rxattrwalk-Sticky, decode_rxattrwalk-RoundTrips,
  decode_txattrcreate-Sticky, decode_txattrcreate-RoundTrips, decode_rxattrcreate-Sticky,
  decode_rxattrcreate-RoundTrips, decode_tstatfs-Sticky, decode_tstatfs-RoundTrips,
  decode_rstatfs-Sticky, decode_rstatfs-RoundTrips,
}
use p.Messages.Transfer.Layout.{
  decode_tread-Sticky, decode_tread-RoundTrips, decode_rwrite-Sticky, decode_rwrite-RoundTrips,
  decode_tfsync-Sticky, decode_tfsync-RoundTrips, decode_rfsync-Sticky, decode_rfsync-RoundTrips,
  decode_treaddir-Sticky, decode_treaddir-RoundTrips, decode_tlock-Sticky, decode_tlock-RoundTrips,
  decode_rlock-Sticky, decode_rlock-RoundTrips,
}
use p.Messages.Payload.Layout.{
  decode_rread-Sticky, decode_rread-RoundTrips, decode_twrite-Sticky, decode_twrite-RoundTrips,
}
use p.Messages.Payload.Listing.{
  payload-encode_rreaddir, decode_rreaddir-Sticky, decode_rreaddir-RoundTrips,
}
use p.Messages.Message.{
  Message, payloader, payload_bytes, set_payload, rlerror, tstatfs, rstatfs, tlopen, rlopen,
  tlcreate, rlcreate, tsymlink, rsymlink, tmknod, rmknod, trename, rrename, treadlink, rreadlink,
  tgetattr, rgetattr, tsetattr, rsetattr, txattrwalk, rxattrwalk, txattrcreate, rxattrcreate,
  treaddir, rreaddir, tfsync, rfsync, tlock, rlock, tlink, rlink, tmkdir, rmkdir, trenameat,
  rrenameat, tunlinkat, runlinkat, tversion, rversion, tauth, rauth, tattach, rattach, tflush,
  rflush, twalk, rwalk, tread, rread, twrite, rwrite, tclunk, rclunk, tremove, rremove,
  twalkgetattr, rwalkgetattr, tucreate, rucreate, tumkdir, rumkdir, tumknod, rumknod, tusymlink,
  rusymlink,
}
use p.Messages.Message.Codec.{decode, encode}
use p.Messages.Message.Blank.{blank}
use p.Messages.Message.Fits.{Fits, sent}

wrap_RoundTrips {ℓ κ} :
    {A : Type ℓ} {B : Type κ} {w : Writer} {r : Reader A} {a : A} (f : A → B)
    → RoundTrips w r a
    → RoundTrips w (r >>= λ x. pure (f x)) (f a)
wrap_RoundTrips f p = RoundTrips-last p (λ x. Sticky-pure _) (RoundTrips-pure _)

wrap_Sticky {ℓ κ} :
    {A : Type ℓ} {B : Type κ} {r : Reader A} (f : A → B) → Sticky r → Sticky (r >>= λ x. pure (f x))
wrap_Sticky f s = Sticky-bind s (λ x. Sticky-pure _)

-- The payload that `send` puts behind the fields of `m`, once `m` is encoded.
abbrev pub payload_of : Message → List ℕ
payload_of m = payload_bytes (payloader (encode m (buffer [] false)).0)

-- For every message, its decoder keeps the overflow flag of its buffer, once it is set.
decode-Sticky : (m : Message) → Sticky (decode m)
unfolding decode
decode-Sticky (rlerror x) = wrap_Sticky rlerror decode_rlerror-Sticky
decode-Sticky (tstatfs x) = wrap_Sticky tstatfs decode_tstatfs-Sticky
decode-Sticky (rstatfs x) = wrap_Sticky rstatfs decode_rstatfs-Sticky
decode-Sticky (tlopen x) = wrap_Sticky tlopen decode_tlopen-Sticky
decode-Sticky (rlopen x) = wrap_Sticky rlopen decode_rlopen-Sticky
decode-Sticky (tlcreate x) = wrap_Sticky tlcreate decode_tlcreate-Sticky
decode-Sticky (rlcreate x) = wrap_Sticky rlcreate decode_rlcreate-Sticky
decode-Sticky (tsymlink x) = wrap_Sticky tsymlink decode_tsymlink-Sticky
decode-Sticky (rsymlink x) = wrap_Sticky rsymlink decode_rsymlink-Sticky
decode-Sticky (tmknod x) = wrap_Sticky tmknod decode_tmknod-Sticky
decode-Sticky (rmknod x) = wrap_Sticky rmknod decode_rmknod-Sticky
decode-Sticky (trename x) = wrap_Sticky trename decode_trename-Sticky
decode-Sticky (rrename x) = wrap_Sticky rrename decode_rrename-Sticky
decode-Sticky (treadlink x) = wrap_Sticky treadlink decode_treadlink-Sticky
decode-Sticky (rreadlink x) = wrap_Sticky rreadlink decode_rreadlink-Sticky
decode-Sticky (tgetattr x) = wrap_Sticky tgetattr decode_tgetattr-Sticky
decode-Sticky (rgetattr x) = wrap_Sticky rgetattr decode_rgetattr-Sticky
decode-Sticky (tsetattr x) = wrap_Sticky tsetattr decode_tsetattr-Sticky
decode-Sticky (rsetattr x) = wrap_Sticky rsetattr decode_rsetattr-Sticky
decode-Sticky (txattrwalk x) = wrap_Sticky txattrwalk decode_txattrwalk-Sticky
decode-Sticky (rxattrwalk x) = wrap_Sticky rxattrwalk decode_rxattrwalk-Sticky
decode-Sticky (txattrcreate x) = wrap_Sticky txattrcreate decode_txattrcreate-Sticky
decode-Sticky (rxattrcreate x) = wrap_Sticky rxattrcreate decode_rxattrcreate-Sticky
decode-Sticky (treaddir x) = wrap_Sticky treaddir decode_treaddir-Sticky
decode-Sticky (rreaddir x) = wrap_Sticky rreaddir (decode_rreaddir-Sticky x)
decode-Sticky (tfsync x) = wrap_Sticky tfsync decode_tfsync-Sticky
decode-Sticky (rfsync x) = wrap_Sticky rfsync decode_rfsync-Sticky
decode-Sticky (tlock x) = wrap_Sticky tlock decode_tlock-Sticky
decode-Sticky (rlock x) = wrap_Sticky rlock decode_rlock-Sticky
decode-Sticky (tlink x) = wrap_Sticky tlink decode_tlink-Sticky
decode-Sticky (rlink x) = wrap_Sticky rlink decode_rlink-Sticky
decode-Sticky (tmkdir x) = wrap_Sticky tmkdir decode_tmkdir-Sticky
decode-Sticky (rmkdir x) = wrap_Sticky rmkdir decode_rmkdir-Sticky
decode-Sticky (trenameat x) = wrap_Sticky trenameat decode_trenameat-Sticky
decode-Sticky (rrenameat x) = wrap_Sticky rrenameat decode_rrenameat-Sticky
decode-Sticky (tunlinkat x) = wrap_Sticky tunlinkat decode_tunlinkat-Sticky
decode-Sticky (runlinkat x) = wrap_Sticky runlinkat decode_runlinkat-Sticky
decode-Sticky (tversion x) = wrap_Sticky tversion decode_tversion-Sticky
decode-Sticky (rversion x) = wrap_Sticky rversion decode_rversion-Sticky
decode-Sticky (tauth x) = wrap_Sticky tauth decode_tauth-Sticky
decode-Sticky (rauth x) = wrap_Sticky rauth decode_rauth-Sticky
decode-Sticky (tattach x) = wrap_Sticky tattach decode_tattach-Sticky
decode-Sticky (rattach x) = wrap_Sticky rattach decode_rattach-Sticky
decode-Sticky (tflush x) = wrap_Sticky tflush decode_tflush-Sticky
decode-Sticky (rflush x) = wrap_Sticky rflush decode_rflush-Sticky
decode-Sticky (twalk x) = wrap_Sticky twalk (decode_twalk-Sticky x)
decode-Sticky (rwalk x) = wrap_Sticky rwalk (decode_rwalk-Sticky x)
decode-Sticky (tread x) = wrap_Sticky tread decode_tread-Sticky
decode-Sticky (rread x) = wrap_Sticky rread (decode_rread-Sticky x)
decode-Sticky (twrite x) = wrap_Sticky twrite (decode_twrite-Sticky x)
decode-Sticky (rwrite x) = wrap_Sticky rwrite decode_rwrite-Sticky
decode-Sticky (tclunk x) = wrap_Sticky tclunk decode_tclunk-Sticky
decode-Sticky (rclunk x) = wrap_Sticky rclunk decode_rclunk-Sticky
decode-Sticky (tremove x) = wrap_Sticky tremove decode_tremove-Sticky
decode-Sticky (rremove x) = wrap_Sticky rremove decode_rremove-Sticky
decode-Sticky (twalkgetattr x) = wrap_Sticky twalkgetattr (decode_twalkgetattr-Sticky x)
decode-Sticky (rwalkgetattr x) = wrap_Sticky rwalkgetattr (decode_rwalkgetattr-Sticky x)
decode-Sticky (tucreate x) = wrap_Sticky tucreate decode_tucreate-Sticky
decode-Sticky (rucreate x) = wrap_Sticky rucreate decode_rucreate-Sticky
decode-Sticky (tumkdir x) = wrap_Sticky tumkdir decode_tumkdir-Sticky
decode-Sticky (rumkdir x) = wrap_Sticky rumkdir decode_rumkdir-Sticky
decode-Sticky (tumknod x) = wrap_Sticky tumknod decode_tumknod-Sticky
decode-Sticky (rumknod x) = wrap_Sticky rumknod decode_rumknod-Sticky
decode-Sticky (tusymlink x) = wrap_Sticky tusymlink decode_tusymlink-Sticky
decode-Sticky (rusymlink x) = wrap_Sticky rusymlink decode_rusymlink-Sticky

-- For each message whose fields fit their widths: a new message of its type, given its payload, decodes
-- from its encoded fields to what was sent, takes nothing more off the buffer, and overruns on a part of
-- the fields that is cut short. A listing arrives cut to the entries that fit.
pub decode-encode :
    (m : Message)
    → Fits m
    → RoundTrips (λ b. (encode m b).1) (decode (set_payload (payload_of m) (blank m))) (sent m)
unfolding decode encode payloader set_payload blank
decode-encode (rlerror x) h = wrap_RoundTrips rlerror (decode_rlerror-RoundTrips x h)
decode-encode (tstatfs x) h = wrap_RoundTrips tstatfs (decode_tstatfs-RoundTrips x h)
decode-encode (rstatfs x) h = wrap_RoundTrips rstatfs (decode_rstatfs-RoundTrips x h)
decode-encode (tlopen x) h = wrap_RoundTrips tlopen (decode_tlopen-RoundTrips x h)
decode-encode (rlopen x) h = wrap_RoundTrips rlopen (decode_rlopen-RoundTrips x h)
decode-encode (tlcreate x) h = wrap_RoundTrips tlcreate (decode_tlcreate-RoundTrips x h)
decode-encode (rlcreate x) h = wrap_RoundTrips rlcreate (decode_rlcreate-RoundTrips x h)
decode-encode (tsymlink x) h = wrap_RoundTrips tsymlink (decode_tsymlink-RoundTrips x h)
decode-encode (rsymlink x) h = wrap_RoundTrips rsymlink (decode_rsymlink-RoundTrips x h)
decode-encode (tmknod x) h = wrap_RoundTrips tmknod (decode_tmknod-RoundTrips x h)
decode-encode (rmknod x) h = wrap_RoundTrips rmknod (decode_rmknod-RoundTrips x h)
decode-encode (trename x) h = wrap_RoundTrips trename (decode_trename-RoundTrips x h)
decode-encode (rrename x) h = wrap_RoundTrips rrename (decode_rrename-RoundTrips x h)
decode-encode (treadlink x) h = wrap_RoundTrips treadlink (decode_treadlink-RoundTrips x h)
decode-encode (rreadlink x) h = wrap_RoundTrips rreadlink (decode_rreadlink-RoundTrips x h)
decode-encode (tgetattr x) h = wrap_RoundTrips tgetattr (decode_tgetattr-RoundTrips x h)
decode-encode (rgetattr x) h = wrap_RoundTrips rgetattr (decode_rgetattr-RoundTrips x h)
decode-encode (tsetattr x) h = wrap_RoundTrips tsetattr (decode_tsetattr-RoundTrips x h)
decode-encode (rsetattr x) h = wrap_RoundTrips rsetattr (decode_rsetattr-RoundTrips x h)
decode-encode (txattrwalk x) h = wrap_RoundTrips txattrwalk (decode_txattrwalk-RoundTrips x h)
decode-encode (rxattrwalk x) h = wrap_RoundTrips rxattrwalk (decode_rxattrwalk-RoundTrips x h)
decode-encode (txattrcreate x) h = wrap_RoundTrips txattrcreate (decode_txattrcreate-RoundTrips x h)
decode-encode (rxattrcreate x) h = wrap_RoundTrips rxattrcreate (decode_rxattrcreate-RoundTrips x h)
decode-encode (treaddir x) h = wrap_RoundTrips treaddir (decode_treaddir-RoundTrips x h)
decode-encode (rreaddir x) h =
    wrap_RoundTrips rreaddir (decode_rreaddir-RoundTrips x _ h (payload-encode_rreaddir x _ h))
decode-encode (tfsync x) h = wrap_RoundTrips tfsync (decode_tfsync-RoundTrips x h)
decode-encode (rfsync x) h = wrap_RoundTrips rfsync (decode_rfsync-RoundTrips x h)
decode-encode (tlock x) h = wrap_RoundTrips tlock (decode_tlock-RoundTrips x h)
decode-encode (rlock x) h = wrap_RoundTrips rlock (decode_rlock-RoundTrips x h)
decode-encode (tlink x) h = wrap_RoundTrips tlink (decode_tlink-RoundTrips x h)
decode-encode (rlink x) h = wrap_RoundTrips rlink (decode_rlink-RoundTrips x h)
decode-encode (tmkdir x) h = wrap_RoundTrips tmkdir (decode_tmkdir-RoundTrips x h)
decode-encode (rmkdir x) h = wrap_RoundTrips rmkdir (decode_rmkdir-RoundTrips x h)
decode-encode (trenameat x) h = wrap_RoundTrips trenameat (decode_trenameat-RoundTrips x h)
decode-encode (rrenameat x) h = wrap_RoundTrips rrenameat (decode_rrenameat-RoundTrips x h)
decode-encode (tunlinkat x) h = wrap_RoundTrips tunlinkat (decode_tunlinkat-RoundTrips x h)
decode-encode (runlinkat x) h = wrap_RoundTrips runlinkat (decode_runlinkat-RoundTrips x h)
decode-encode (tversion x) h = wrap_RoundTrips tversion (decode_tversion-RoundTrips x h)
decode-encode (rversion x) h = wrap_RoundTrips rversion (decode_rversion-RoundTrips x h)
decode-encode (tauth x) h = wrap_RoundTrips tauth (decode_tauth-RoundTrips x h)
decode-encode (rauth x) h = wrap_RoundTrips rauth (decode_rauth-RoundTrips x h)
decode-encode (tattach x) h = wrap_RoundTrips tattach (decode_tattach-RoundTrips x h)
decode-encode (rattach x) h = wrap_RoundTrips rattach (decode_rattach-RoundTrips x h)
decode-encode (tflush x) h = wrap_RoundTrips tflush (decode_tflush-RoundTrips x h)
decode-encode (rflush x) h = wrap_RoundTrips rflush (decode_rflush-RoundTrips x h)
decode-encode (twalk x) h = wrap_RoundTrips twalk (decode_twalk-RoundTrips x _ h)
decode-encode (rwalk x) h = wrap_RoundTrips rwalk (decode_rwalk-RoundTrips x _ h)
decode-encode (tread x) h = wrap_RoundTrips tread (decode_tread-RoundTrips x h)
decode-encode (rread x) h = wrap_RoundTrips rread (decode_rread-RoundTrips x h)
decode-encode (twrite x) h = wrap_RoundTrips twrite (decode_twrite-RoundTrips x _ h refl)
decode-encode (rwrite x) h = wrap_RoundTrips rwrite (decode_rwrite-RoundTrips x h)
decode-encode (tclunk x) h = wrap_RoundTrips tclunk (decode_tclunk-RoundTrips x h)
decode-encode (rclunk x) h = wrap_RoundTrips rclunk (decode_rclunk-RoundTrips x h)
decode-encode (tremove x) h = wrap_RoundTrips tremove (decode_tremove-RoundTrips x h)
decode-encode (rremove x) h = wrap_RoundTrips rremove (decode_rremove-RoundTrips x h)
decode-encode (twalkgetattr x) h =
    wrap_RoundTrips twalkgetattr (decode_twalkgetattr-RoundTrips x _ h)
decode-encode (rwalkgetattr x) h =
    wrap_RoundTrips rwalkgetattr (decode_rwalkgetattr-RoundTrips x _ h)
decode-encode (tucreate x) h = wrap_RoundTrips tucreate (decode_tucreate-RoundTrips x h)
decode-encode (rucreate x) h = wrap_RoundTrips rucreate (decode_rucreate-RoundTrips x h)
decode-encode (tumkdir x) h = wrap_RoundTrips tumkdir (decode_tumkdir-RoundTrips x h)
decode-encode (rumkdir x) h = wrap_RoundTrips rumkdir (decode_rumkdir-RoundTrips x h)
decode-encode (tumknod x) h = wrap_RoundTrips tumknod (decode_tumknod-RoundTrips x h)
decode-encode (rumknod x) h = wrap_RoundTrips rumknod (decode_rumknod-RoundTrips x h)
decode-encode (tusymlink x) h = wrap_RoundTrips tusymlink (decode_tusymlink-RoundTrips x h)
decode-encode (rusymlink x) h = wrap_RoundTrips rusymlink (decode_rusymlink-RoundTrips x h)
