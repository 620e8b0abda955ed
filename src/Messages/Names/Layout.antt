-- ===== src/Messages/Names/Layout.antt =====
-- The layouts of the messages that change or read names: link, rename, unlink, remove, readlink of p9/messages.go.
use p.Base.{◌^◌, ◌<◌}
use p.Buffer.RoundTrip.{Sticky, RoundTrips}
use p.Buffer.FieldLaws.{IsText}
use p.Types.Rules.{sticky_laws, round_trip_laws}
use p.Messages.Names.{
  Tremove, decode_tremove, encode_tremove, Rremove, decode_rremove, encode_rremove, Tlink,
  decode_tlink, encode_tlink, Rlink, decode_rlink, encode_rlink, Trenameat, decode_trenameat,
  encode_trenameat, Rrenameat, decode_rrenameat, encode_rrenameat, Tunlinkat, decode_tunlinkat,
  encode_tunlinkat, Runlinkat, decode_runlinkat, encode_runlinkat, Trename, decode_trename,
  encode_trename, Rrename, decode_rrename, encode_rrename, Treadlink, decode_treadlink,
  encode_treadlink, Rreadlink, decode_rreadlink, encode_rreadlink,
}

pub record TremoveFits (t : Tremove) : Type 0 where
  pub fid : t.fid < 2 ^ 32

pub decode_tremove-Sticky : Sticky decode_tremove
unfolding decode_tremove
decode_tremove-Sticky = search sticky_laws depth 8

pub decode_tremove-RoundTrips :
    (t : Tremove) → TremoveFits t → RoundTrips (encode_tremove t) decode_tremove t
unfolding decode_tremove encode_tremove
decode_tremove-RoundTrips t h = search round_trip_laws depth 8

abbrev pub RremoveFits : Rremove → Type 0
RremoveFits r = Unit

pub decode_rremove-Sticky : Sticky decode_rremove
unfolding decode_rremove
decode_rremove-Sticky = search sticky_laws depth 6

pub decode_rremove-RoundTrips :
    (r : Rremove) → RremoveFits r → RoundTrips (encode_rremove r) decode_rremove r
unfolding decode_rremove encode_rremove
decode_rremove-RoundTrips r h = search round_trip_laws depth 6

pub record TlinkFits (t : Tlink) : Type 0 where
  pub directory : t.directory < 2 ^ 32
  pub target : t.target < 2 ^ 32
  pub name : IsText t.name

pub decode_tlink-Sticky : Sticky decode_tlink
unfolding decode_tlink
decode_tlink-Sticky = search sticky_laws depth 12

pub decode_tlink-RoundTrips : (t : Tlink) → TlinkFits t → RoundTrips (encode_tlink t) decode_tlink t
unfolding decode_tlink encode_tlink
decode_tlink-RoundTrips t h = search round_trip_laws depth 12

abbrev pub RlinkFits : Rlink → Type 0
RlinkFits r = Unit

pub decode_rlink-Sticky : Sticky decode_rlink
unfolding decode_rlink
decode_rlink-Sticky = search sticky_laws depth 6

pub decode_rlink-RoundTrips : (r : Rlink) → RlinkFits r → RoundTrips (encode_rlink r) decode_rlink r
unfolding decode_rlink encode_rlink
decode_rlink-RoundTrips r h = search round_trip_laws depth 6

pub record TrenameatFits (t : Trenameat) : Type 0 where
  pub old_directory : t.old_directory < 2 ^ 32
  pub old_name : IsText t.old_name
  pub new_directory : t.new_directory < 2 ^ 32
  pub new_name : IsText t.new_name

pub decode_trenameat-Sticky : Sticky decode_trenameat
unfolding decode_trenameat
decode_trenameat-Sticky = search sticky_laws depth 14

pub decode_trenameat-RoundTrips :
    (t : Trenameat) → TrenameatFits t → RoundTrips (encode_trenameat t) decode_trenameat t
unfolding decode_trenameat encode_trenameat
decode_trenameat-RoundTrips t h = search round_trip_laws depth 14

abbrev pub RrenameatFits : Rrenameat → Type 0
RrenameatFits r = Unit

pub decode_rrenameat-Sticky : Sticky decode_rrenameat
unfolding decode_rrenameat
decode_rrenameat-Sticky = search sticky_laws depth 6

pub decode_rrenameat-RoundTrips :
    (r : Rrenameat) → RrenameatFits r → RoundTrips (encode_rrenameat r) decode_rrenameat r
unfolding decode_rrenameat encode_rrenameat
decode_rrenameat-RoundTrips r h = search round_trip_laws depth 6

pub record TunlinkatFits (t : Tunlinkat) : Type 0 where
  pub directory : t.directory < 2 ^ 32
  pub name : IsText t.name
  pub flags : t.flags < 2 ^ 32

pub decode_tunlinkat-Sticky : Sticky decode_tunlinkat
unfolding decode_tunlinkat
decode_tunlinkat-Sticky = search sticky_laws depth 12

pub decode_tunlinkat-RoundTrips :
    (t : Tunlinkat) → TunlinkatFits t → RoundTrips (encode_tunlinkat t) decode_tunlinkat t
unfolding decode_tunlinkat encode_tunlinkat
decode_tunlinkat-RoundTrips t h = search round_trip_laws depth 12

abbrev pub RunlinkatFits : Runlinkat → Type 0
RunlinkatFits r = Unit

pub decode_runlinkat-Sticky : Sticky decode_runlinkat
unfolding decode_runlinkat
decode_runlinkat-Sticky = search sticky_laws depth 6

pub decode_runlinkat-RoundTrips :
    (r : Runlinkat) → RunlinkatFits r → RoundTrips (encode_runlinkat r) decode_runlinkat r
unfolding decode_runlinkat encode_runlinkat
decode_runlinkat-RoundTrips r h = search round_trip_laws depth 6

pub record TrenameFits (t : Trename) : Type 0 where
  pub fid : t.fid < 2 ^ 32
  pub directory : t.directory < 2 ^ 32
  pub name : IsText t.name

pub decode_trename-Sticky : Sticky decode_trename
unfolding decode_trename
decode_trename-Sticky = search sticky_laws depth 12

pub decode_trename-RoundTrips :
    (t : Trename) → TrenameFits t → RoundTrips (encode_trename t) decode_trename t
unfolding decode_trename encode_trename
decode_trename-RoundTrips t h = search round_trip_laws depth 12

abbrev pub RrenameFits : Rrename → Type 0
RrenameFits r = Unit

pub decode_rrename-Sticky : Sticky decode_rrename
unfolding decode_rrename
decode_rrename-Sticky = search sticky_laws depth 6

pub decode_rrename-RoundTrips :
    (r : Rrename) → RrenameFits r → RoundTrips (encode_rrename r) decode_rrename r
unfolding decode_rrename encode_rrename
decode_rrename-RoundTrips r h = search round_trip_laws depth 6

pub record TreadlinkFits (t : Treadlink) : Type 0 where
  pub fid : t.fid < 2 ^ 32

pub decode_treadlink-Sticky : Sticky decode_treadlink
unfolding decode_treadlink
decode_treadlink-Sticky = search sticky_laws depth 8

pub decode_treadlink-RoundTrips :
    (t : Treadlink) → TreadlinkFits t → RoundTrips (encode_treadlink t) decode_treadlink t
unfolding decode_treadlink encode_treadlink
decode_treadlink-RoundTrips t h = search round_trip_laws depth 8

pub record RreadlinkFits (r : Rreadlink) : Type 0 where
  pub target : IsText r.target

pub decode_rreadlink-Sticky : Sticky decode_rreadlink
unfolding decode_rreadlink
decode_rreadlink-Sticky = search sticky_laws depth 8

pub decode_rreadlink-RoundTrips :
    (r : Rreadlink) → RreadlinkFits r → RoundTrips (encode_rreadlink r) decode_rreadlink r
unfolding decode_rreadlink encode_rreadlink
decode_rreadlink-RoundTrips r h = search round_trip_laws depth 8
