-- ===== src/Messages/Make/Layout.antt =====
-- The layouts of the messages that make nodes: symlink, mknod, mkdir of p9/messages.go.
use p.Base.{◌^◌, ◌<◌}
use p.Buffer.RoundTrip.{Sticky, RoundTrips}
use p.Buffer.FieldLaws.{IsText}
use p.Types.Layout.{QidFits}
use p.Types.Rules.{sticky_laws, round_trip_laws}
use p.Messages.Make.{
  Tsymlink, decode_tsymlink, encode_tsymlink, Rsymlink, decode_rsymlink, encode_rsymlink, Tusymlink,
  decode_tusymlink, encode_tusymlink, Rusymlink, decode_rusymlink, encode_rusymlink, Tmknod,
  decode_tmknod, encode_tmknod, Rmknod, decode_rmknod, encode_rmknod, Tumknod, decode_tumknod,
  encode_tumknod, Rumknod, decode_rumknod, encode_rumknod, Tmkdir, decode_tmkdir, encode_tmkdir,
  Rmkdir, decode_rmkdir, encode_rmkdir, Tumkdir, decode_tumkdir, encode_tumkdir, Rumkdir,
  decode_rumkdir, encode_rumkdir,
}

pub record TsymlinkFits (t : Tsymlink) : Type 0 where
  pub directory : t.directory < 2 ^ 32
  pub name : IsText t.name
  pub target : IsText t.target
  pub gid : t.gid < 2 ^ 32

pub decode_tsymlink-Sticky : Sticky decode_tsymlink
unfolding decode_tsymlink
decode_tsymlink-Sticky = search sticky_laws depth 14

pub decode_tsymlink-RoundTrips :
    (t : Tsymlink) → TsymlinkFits t → RoundTrips (encode_tsymlink t) decode_tsymlink t
unfolding decode_tsymlink encode_tsymlink
decode_tsymlink-RoundTrips t h = search round_trip_laws depth 14

pub record RsymlinkFits (r : Rsymlink) : Type 0 where
  pub qid : QidFits r.qid

pub decode_rsymlink-Sticky : Sticky decode_rsymlink
unfolding decode_rsymlink
decode_rsymlink-Sticky = search sticky_laws depth 8

pub decode_rsymlink-RoundTrips :
    (r : Rsymlink) → RsymlinkFits r → RoundTrips (encode_rsymlink r) decode_rsymlink r
unfolding decode_rsymlink encode_rsymlink
decode_rsymlink-RoundTrips r h = search round_trip_laws depth 8

pub record TusymlinkFits (t : Tusymlink) : Type 0 where
  pub tsymlink : TsymlinkFits t.tsymlink
  pub uid : t.uid < 2 ^ 32

pub decode_tusymlink-Sticky : Sticky decode_tusymlink
unfolding decode_tusymlink
decode_tusymlink-Sticky = search (sticky_laws, decode_tsymlink-Sticky) depth 10

pub decode_tusymlink-RoundTrips :
    (t : Tusymlink) → TusymlinkFits t → RoundTrips (encode_tusymlink t) decode_tusymlink t
unfolding decode_tusymlink encode_tusymlink
decode_tusymlink-RoundTrips t h = search (round_trip_laws, decode_tsymlink-RoundTrips) depth 10

pub record RusymlinkFits (r : Rusymlink) : Type 0 where
  pub rsymlink : RsymlinkFits r.rsymlink

pub decode_rusymlink-Sticky : Sticky decode_rusymlink
unfolding decode_rusymlink
decode_rusymlink-Sticky = search (sticky_laws, decode_rsymlink-Sticky) depth 8

pub decode_rusymlink-RoundTrips :
    (r : Rusymlink) → RusymlinkFits r → RoundTrips (encode_rusymlink r) decode_rusymlink r
unfolding decode_rusymlink encode_rusymlink
decode_rusymlink-RoundTrips r h = search (round_trip_laws, decode_rsymlink-RoundTrips) depth 8

pub record TmknodFits (t : Tmknod) : Type 0 where
  pub directory : t.directory < 2 ^ 32
  pub name : IsText t.name
  pub mode : t.mode < 2 ^ 32
  pub major : t.major < 2 ^ 32
  pub minor : t.minor < 2 ^ 32
  pub gid : t.gid < 2 ^ 32

pub decode_tmknod-Sticky : Sticky decode_tmknod
unfolding decode_tmknod
decode_tmknod-Sticky = search sticky_laws depth 18

pub decode_tmknod-RoundTrips :
    (t : Tmknod) → TmknodFits t → RoundTrips (encode_tmknod t) decode_tmknod t
unfolding decode_tmknod encode_tmknod
decode_tmknod-RoundTrips t h = search round_trip_laws depth 18

pub record RmknodFits (r : Rmknod) : Type 0 where
  pub qid : QidFits r.qid

pub decode_rmknod-Sticky : Sticky decode_rmknod
unfolding decode_rmknod
decode_rmknod-Sticky = search sticky_laws depth 8

pub decode_rmknod-RoundTrips :
    (r : Rmknod) → RmknodFits r → RoundTrips (encode_rmknod r) decode_rmknod r
unfolding decode_rmknod encode_rmknod
decode_rmknod-RoundTrips r h = search round_trip_laws depth 8

pub record TumknodFits (t : Tumknod) : Type 0 where
  pub tmknod : TmknodFits t.tmknod
  pub uid : t.uid < 2 ^ 32

pub decode_tumknod-Sticky : Sticky decode_tumknod
unfolding decode_tumknod
decode_tumknod-Sticky = search (sticky_laws, decode_tmknod-Sticky) depth 10

pub decode_tumknod-RoundTrips :
    (t : Tumknod) → TumknodFits t → RoundTrips (encode_tumknod t) decode_tumknod t
unfolding decode_tumknod encode_tumknod
decode_tumknod-RoundTrips t h = search (round_trip_laws, decode_tmknod-RoundTrips) depth 10

pub record RumknodFits (r : Rumknod) : Type 0 where
  pub rmknod : RmknodFits r.rmknod

pub decode_rumknod-Sticky : Sticky decode_rumknod
unfolding decode_rumknod
decode_rumknod-Sticky = search (sticky_laws, decode_rmknod-Sticky) depth 8

pub decode_rumknod-RoundTrips :
    (r : Rumknod) → RumknodFits r → RoundTrips (encode_rumknod r) decode_rumknod r
unfolding decode_rumknod encode_rumknod
decode_rumknod-RoundTrips r h = search (round_trip_laws, decode_rmknod-RoundTrips) depth 8

pub record TmkdirFits (t : Tmkdir) : Type 0 where
  pub directory : t.directory < 2 ^ 32
  pub name : IsText t.name
  pub permissions : t.permissions < 2 ^ 12
  pub gid : t.gid < 2 ^ 32

pub decode_tmkdir-Sticky : Sticky decode_tmkdir
unfolding decode_tmkdir
decode_tmkdir-Sticky = search sticky_laws depth 14

pub decode_tmkdir-RoundTrips :
    (t : Tmkdir) → TmkdirFits t → RoundTrips (encode_tmkdir t) decode_tmkdir t
unfolding decode_tmkdir encode_tmkdir
decode_tmkdir-RoundTrips t h = search round_trip_laws depth 14

pub record RmkdirFits (r : Rmkdir) : Type 0 where
  pub qid : QidFits r.qid

pub decode_rmkdir-Sticky : Sticky decode_rmkdir
unfolding decode_rmkdir
decode_rmkdir-Sticky = search sticky_laws depth 8

pub decode_rmkdir-RoundTrips :
    (r : Rmkdir) → RmkdirFits r → RoundTrips (encode_rmkdir r) decode_rmkdir r
unfolding decode_rmkdir encode_rmkdir
decode_rmkdir-RoundTrips r h = search round_trip_laws depth 8

pub record TumkdirFits (t : Tumkdir) : Type 0 where
  pub tmkdir : TmkdirFits t.tmkdir
  pub uid : t.uid < 2 ^ 32

pub decode_tumkdir-Sticky : Sticky decode_tumkdir
unfolding decode_tumkdir
decode_tumkdir-Sticky = search (sticky_laws, decode_tmkdir-Sticky) depth 10

pub decode_tumkdir-RoundTrips :
    (t : Tumkdir) → TumkdirFits t → RoundTrips (encode_tumkdir t) decode_tumkdir t
unfolding decode_tumkdir encode_tumkdir
decode_tumkdir-RoundTrips t h = search (round_trip_laws, decode_tmkdir-RoundTrips) depth 10

pub record RumkdirFits (r : Rumkdir) : Type 0 where
  pub rmkdir : RmkdirFits r.rmkdir

pub decode_rumkdir-Sticky : Sticky decode_rumkdir
unfolding decode_rumkdir
decode_rumkdir-Sticky = search (sticky_laws, decode_rmkdir-Sticky) depth 8

pub decode_rumkdir-RoundTrips :
    (r : Rumkdir) → RumkdirFits r → RoundTrips (encode_rumkdir r) decode_rumkdir r
unfolding decode_rumkdir encode_rumkdir
decode_rumkdir-RoundTrips r h = search (round_trip_laws, decode_rmkdir-RoundTrips) depth 8
