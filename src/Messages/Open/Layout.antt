-- ===== src/Messages/Open/Layout.antt =====
-- The layouts of the open and create messages of p9/messages.go.
use p.Base.{◌^◌, ◌<◌}
use p.Buffer.RoundTrip.{Sticky, RoundTrips}
use p.Buffer.FieldLaws.{IsText}
use p.Types.Layout.{QidFits}
use p.Types.Rules.{sticky_laws, round_trip_laws}
use p.Messages.Open.{
  Tlopen, decode_tlopen, encode_tlopen, Rlopen, decode_rlopen, encode_rlopen, Tlcreate,
  decode_tlcreate, encode_tlcreate, Rlcreate, decode_rlcreate, encode_rlcreate, Tucreate,
  decode_tucreate, encode_tucreate, Rucreate, decode_rucreate, encode_rucreate,
}

pub record TlopenFits (t : Tlopen) : Type 0 where
  pub fid : t.fid < 2 ^ 32
  pub flags : t.flags < 2 ^ 32

pub decode_tlopen-Sticky : Sticky decode_tlopen
unfolding decode_tlopen
decode_tlopen-Sticky = search sticky_laws depth 10

pub decode_tlopen-RoundTrips :
    (t : Tlopen) → TlopenFits t → RoundTrips (encode_tlopen t) decode_tlopen t
unfolding decode_tlopen encode_tlopen
decode_tlopen-RoundTrips t h = search round_trip_laws depth 10

pub record RlopenFits (r : Rlopen) : Type 0 where
  pub qid : QidFits r.qid
  pub io_unit : r.io_unit < 2 ^ 32

pub decode_rlopen-Sticky : Sticky decode_rlopen
unfolding decode_rlopen
decode_rlopen-Sticky = search sticky_laws depth 10

pub decode_rlopen-RoundTrips :
    (r : Rlopen) → RlopenFits r → RoundTrips (encode_rlopen r) decode_rlopen r
unfolding decode_rlopen encode_rlopen
decode_rlopen-RoundTrips r h = search round_trip_laws depth 10

pub record TlcreateFits (t : Tlcreate) : Type 0 where
  pub fid : t.fid < 2 ^ 32
  pub name : IsText t.name
  pub open_flags : t.open_flags < 2 ^ 32
  pub permissions : t.permissions < 2 ^ 12
  pub gid : t.gid < 2 ^ 32

pub decode_tlcreate-Sticky : Sticky decode_tlcreate
unfolding decode_tlcreate
decode_tlcreate-Sticky = search sticky_laws depth 16

pub decode_tlcreate-RoundTrips :
    (t : Tlcreate) → TlcreateFits t → RoundTrips (encode_tlcreate t) decode_tlcreate t
unfolding decode_tlcreate encode_tlcreate
decode_tlcreate-RoundTrips t h = search round_trip_laws depth 16

pub record RlcreateFits (r : Rlcreate) : Type 0 where
  pub rlopen : RlopenFits r.rlopen

pub decode_rlcreate-Sticky : Sticky decode_rlcreate
unfolding decode_rlcreate
decode_rlcreate-Sticky = search (sticky_laws, decode_rlopen-Sticky) depth 8

pub decode_rlcreate-RoundTrips :
    (r : Rlcreate) → RlcreateFits r → RoundTrips (encode_rlcreate r) decode_rlcreate r
unfolding decode_rlcreate encode_rlcreate
decode_rlcreate-RoundTrips r h = search (round_trip_laws, decode_rlopen-RoundTrips) depth 8

pub record TucreateFits (t : Tucreate) : Type 0 where
  pub tlcreate : TlcreateFits t.tlcreate
  pub uid : t.uid < 2 ^ 32

pub decode_tucreate-Sticky : Sticky decode_tucreate
unfolding decode_tucreate
decode_tucreate-Sticky = search (sticky_laws, decode_tlcreate-Sticky) depth 10

pub decode_tucreate-RoundTrips :
    (t : Tucreate) → TucreateFits t → RoundTrips (encode_tucreate t) decode_tucreate t
unfolding decode_tucreate encode_tucreate
decode_tucreate-RoundTrips t h = search (round_trip_laws, decode_tlcreate-RoundTrips) depth 10

pub record RucreateFits (r : Rucreate) : Type 0 where
  pub rlcreate : RlcreateFits r.rlcreate

pub decode_rucreate-Sticky : Sticky decode_rucreate
unfolding decode_rucreate
decode_rucreate-Sticky = search (sticky_laws, decode_rlcreate-Sticky) depth 8

pub decode_rucreate-RoundTrips :
    (r : Rucreate) → RucreateFits r → RoundTrips (encode_rucreate r) decode_rucreate r
unfolding decode_rucreate encode_rucreate
decode_rucreate-RoundTrips r h = search (round_trip_laws, decode_rlcreate-RoundTrips) depth 8
