-- ===== src/Messages/Walk/Layout.antt =====
-- The layouts of the walk and clunk messages of p9/messages.go.
use p.Base.{◌^◌, ◌<◌, length, All}
use p.Buffer.RoundTrip.{Sticky, RoundTrips}
use p.Buffer.FieldLaws.{IsText}
use p.Types.Layout.{QidFits, AttrFits}
use p.Types.Rules.{
  AttrMaskFits, sticky_laws, round_trip_laws, names-RoundTrips, qids-RoundTrips, count_fits,
}
use p.Buffer.RoundTrip.{RoundTrips-pure, RoundTrips-bind, RoundTrips-last}
use p.Buffer.FieldLaws.{read16-RoundTrips, read_fid-RoundTrips}
use p.Types.Layout.{decode_attr-RoundTrips}
use p.Types.AttrMask.Layout.{decode_attr_mask-RoundTrips}
use p.Messages.Walk.{
  Twalk, decode_twalk, encode_twalk, Rwalk, decode_rwalk, encode_rwalk, Tclunk, decode_tclunk,
  encode_tclunk, Rclunk, decode_rclunk, encode_rclunk, Twalkgetattr, decode_twalkgetattr,
  encode_twalkgetattr, Rwalkgetattr, decode_rwalkgetattr, encode_rwalkgetattr,
}

pub record TwalkFits (t : Twalk) : Type 0 where
  pub fid : t.fid < 2 ^ 32
  pub new_fid : t.new_fid < 2 ^ 32
  pub names_short : length t.names < 2 ^ 16
  pub names : All IsText t.names

pub decode_twalk-Sticky : (q : Twalk) → Sticky (decode_twalk q)
unfolding decode_twalk
decode_twalk-Sticky q = search sticky_laws depth 12

pub decode_twalk-RoundTrips :
    (t q : Twalk) → TwalkFits t → RoundTrips (encode_twalk t) (decode_twalk q) t
unfolding decode_twalk encode_twalk
decode_twalk-RoundTrips t q h =
    RoundTrips-bind (read_fid-RoundTrips _ h.fid) (λ x. search sticky_laws depth 12)
      (RoundTrips-bind (read_fid-RoundTrips _ h.new_fid) (λ x. search sticky_laws depth 12)
        (RoundTrips-bind (read16-RoundTrips _ (count_fits _)) (λ x. search sticky_laws depth 12)
          (RoundTrips-last (names-RoundTrips t.names h.names_short h.names)
            (λ x. search sticky_laws depth 12) (RoundTrips-pure _))))

pub record RwalkFits (r : Rwalk) : Type 0 where
  pub qids_short : length r.qids < 2 ^ 16
  pub qids : All QidFits r.qids

pub decode_rwalk-Sticky : (q : Rwalk) → Sticky (decode_rwalk q)
unfolding decode_rwalk
decode_rwalk-Sticky q = search sticky_laws depth 8

pub decode_rwalk-RoundTrips :
    (r q : Rwalk) → RwalkFits r → RoundTrips (encode_rwalk r) (decode_rwalk q) r
unfolding decode_rwalk encode_rwalk
decode_rwalk-RoundTrips r q h =
    RoundTrips-bind (read16-RoundTrips _ (count_fits _)) (λ x. search sticky_laws depth 8)
      (RoundTrips-last (qids-RoundTrips r.qids h.qids_short h.qids)
        (λ x. search sticky_laws depth 8) (RoundTrips-pure _))

pub record TclunkFits (t : Tclunk) : Type 0 where
  pub fid : t.fid < 2 ^ 32

pub decode_tclunk-Sticky : Sticky decode_tclunk
unfolding decode_tclunk
decode_tclunk-Sticky = search sticky_laws depth 8

pub decode_tclunk-RoundTrips :
    (t : Tclunk) → TclunkFits t → RoundTrips (encode_tclunk t) decode_tclunk t
unfolding decode_tclunk encode_tclunk
decode_tclunk-RoundTrips t h = search round_trip_laws depth 8

abbrev pub RclunkFits : Rclunk → Type 0
RclunkFits r = Unit

pub decode_rclunk-Sticky : Sticky decode_rclunk
unfolding decode_rclunk
decode_rclunk-Sticky = search sticky_laws depth 6

pub decode_rclunk-RoundTrips :
    (r : Rclunk) → RclunkFits r → RoundTrips (encode_rclunk r) decode_rclunk r
unfolding decode_rclunk encode_rclunk
decode_rclunk-RoundTrips r h = search round_trip_laws depth 6

pub record TwalkgetattrFits (t : Twalkgetattr) : Type 0 where
  pub fid : t.fid < 2 ^ 32
  pub new_fid : t.new_fid < 2 ^ 32
  pub names_short : length t.names < 2 ^ 16
  pub names : All IsText t.names

pub decode_twalkgetattr-Sticky : (q : Twalkgetattr) → Sticky (decode_twalkgetattr q)
unfolding decode_twalkgetattr
decode_twalkgetattr-Sticky q = search sticky_laws depth 12

pub decode_twalkgetattr-RoundTrips :
    (t q : Twalkgetattr)
    → TwalkgetattrFits t
    → RoundTrips (encode_twalkgetattr t) (decode_twalkgetattr q) t
unfolding decode_twalkgetattr encode_twalkgetattr
decode_twalkgetattr-RoundTrips t q h =
    RoundTrips-bind (read_fid-RoundTrips _ h.fid) (λ x. search sticky_laws depth 12)
      (RoundTrips-bind (read_fid-RoundTrips _ h.new_fid) (λ x. search sticky_laws depth 12)
        (RoundTrips-bind (read16-RoundTrips _ (count_fits _)) (λ x. search sticky_laws depth 12)
          (RoundTrips-last (names-RoundTrips t.names h.names_short h.names)
            (λ x. search sticky_laws depth 12) (RoundTrips-pure _))))

pub record RwalkgetattrFits (r : Rwalkgetattr) : Type 0 where
  pub valid : AttrMaskFits r.valid
  pub attr : AttrFits r.attr
  pub qids_short : length r.qids < 2 ^ 16
  pub qids : All QidFits r.qids

pub decode_rwalkgetattr-Sticky : (q : Rwalkgetattr) → Sticky (decode_rwalkgetattr q)
unfolding decode_rwalkgetattr
decode_rwalkgetattr-Sticky q = search sticky_laws depth 12

pub decode_rwalkgetattr-RoundTrips :
    (r q : Rwalkgetattr)
    → RwalkgetattrFits r
    → RoundTrips (encode_rwalkgetattr r) (decode_rwalkgetattr q) r
unfolding decode_rwalkgetattr encode_rwalkgetattr
decode_rwalkgetattr-RoundTrips r q h =
    RoundTrips-bind (decode_attr_mask-RoundTrips r.valid) (λ x. search sticky_laws depth 12)
      (RoundTrips-bind (decode_attr-RoundTrips _ h.attr) (λ x. search sticky_laws depth 12)
        (RoundTrips-bind (read16-RoundTrips _ (count_fits _)) (λ x. search sticky_laws depth 12)
          (RoundTrips-last (qids-RoundTrips r.qids h.qids_short h.qids)
            (λ x. search sticky_laws depth 12) (RoundTrips-pure _))))
