-- ===== src/Messages/Transfer/Layout.antt =====
-- The layouts of the read, write, fsync, readdir and lock messages without a payload of p9/messages.go.
use p.Base.{◌^◌, ◌<◌}
use p.Buffer.RoundTrip.{Sticky, RoundTrips}
use p.Buffer.FieldLaws.{IsText}
use p.Types.Rules.{sticky_laws, round_trip_laws}
use p.Messages.Transfer.{
  Tread, decode_tread, encode_tread, Rwrite, decode_rwrite, encode_rwrite, Tfsync, decode_tfsync,
  encode_tfsync, Rfsync, decode_rfsync, encode_rfsync, Treaddir, decode_treaddir, encode_treaddir,
  Tlock, decode_tlock, encode_tlock, Rlock, decode_rlock, encode_rlock,
}

pub record TreadFits (t : Tread) : Type 0 where
  pub fid : t.fid < 2 ^ 32
  pub offset : t.offset < 2 ^ 64
  pub count : t.count < 2 ^ 32

pub decode_tread-Sticky : Sticky decode_tread
unfolding decode_tread
decode_tread-Sticky = search sticky_laws depth 12

pub decode_tread-RoundTrips : (t : Tread) → TreadFits t → RoundTrips (encode_tread t) decode_tread t
unfolding decode_tread encode_tread
decode_tread-RoundTrips t h = search round_trip_laws depth 12

pub record RwriteFits (r : Rwrite) : Type 0 where
  pub count : r.count < 2 ^ 32

pub decode_rwrite-Sticky : Sticky decode_rwrite
unfolding decode_rwrite
decode_rwrite-Sticky = search sticky_laws depth 8

pub decode_rwrite-RoundTrips :
    (r : Rwrite) → RwriteFits r → RoundTrips (encode_rwrite r) decode_rwrite r
unfolding decode_rwrite encode_rwrite
decode_rwrite-RoundTrips r h = search round_trip_laws depth 8

pub record TfsyncFits (t : Tfsync) : Type 0 where
  pub fid : t.fid < 2 ^ 32

pub decode_tfsync-Sticky : Sticky decode_tfsync
unfolding decode_tfsync
decode_tfsync-Sticky = search sticky_laws depth 8

pub decode_tfsync-RoundTrips :
    (t : Tfsync) → TfsyncFits t → RoundTrips (encode_tfsync t) decode_tfsync t
unfolding decode_tfsync encode_tfsync
decode_tfsync-RoundTrips t h = search round_trip_laws depth 8

abbrev pub RfsyncFits : Rfsync → Type 0
RfsyncFits r = Unit

pub decode_rfsync-Sticky : Sticky decode_rfsync
unfolding decode_rfsync
decode_rfsync-Sticky = search sticky_laws depth 6

pub decode_rfsync-RoundTrips :
    (r : Rfsync) → RfsyncFits r → RoundTrips (encode_rfsync r) decode_rfsync r
unfolding decode_rfsync encode_rfsync
decode_rfsync-RoundTrips r h = search round_trip_laws depth 6

pub record TreaddirFits (t : Treaddir) : Type 0 where
  pub directory : t.directory < 2 ^ 32
  pub offset : t.offset < 2 ^ 64
  pub count : t.count < 2 ^ 32

pub decode_treaddir-Sticky : Sticky decode_treaddir
unfolding decode_treaddir
decode_treaddir-Sticky = search sticky_laws depth 12

pub decode_treaddir-RoundTrips :
    (t : Treaddir) → TreaddirFits t → RoundTrips (encode_treaddir t) decode_treaddir t
unfolding decode_treaddir encode_treaddir
decode_treaddir-RoundTrips t h = search round_trip_laws depth 12

pub record TlockFits (t : Tlock) : Type 0 where
  pub fid : t.fid < 2 ^ 32
  pub type : t.type < 2 ^ 8
  pub flags : t.flags < 2 ^ 32
  pub start : t.start < 2 ^ 64
  pub length : t.length < 2 ^ 64
  pub pid : t.pid < 2 ^ 32
  pub client : IsText t.client

pub decode_tlock-Sticky : Sticky decode_tlock
unfolding decode_tlock
decode_tlock-Sticky = search sticky_laws depth 20

pub decode_tlock-RoundTrips : (t : Tlock) → TlockFits t → RoundTrips (encode_tlock t) decode_tlock t
unfolding decode_tlock encode_tlock
decode_tlock-RoundTrips t h = search round_trip_laws depth 20

pub record RlockFits (r : Rlock) : Type 0 where
  pub status : r.status < 2 ^ 8

pub decode_rlock-Sticky : Sticky decode_rlock
unfolding decode_rlock
decode_rlock-Sticky = search sticky_laws depth 8

pub decode_rlock-RoundTrips : (r : Rlock) → RlockFits r → RoundTrips (encode_rlock r) decode_rlock r
unfolding decode_rlock encode_rlock
decode_rlock-RoundTrips r h = search round_trip_laws depth 8
