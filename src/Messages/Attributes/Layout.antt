-- ===== src/Messages/Attributes/Layout.antt =====
-- The layouts of the attribute, extended attribute and file system statistics messages of p9/messages.go.
use p.Base.{◌^◌, ◌<◌}
use p.Buffer.RoundTrip.{Sticky, RoundTrips}
use p.Buffer.FieldLaws.{IsText}
use p.Types.Layout.{QidFits, FsStatFits, AttrFits, SetAttrFits}
use p.Types.Rules.{AttrMaskFits, SetAttrMaskFits, sticky_laws, round_trip_laws}
use p.Buffer.RoundTrip.{RoundTrips-pure, RoundTrips-bind, RoundTrips-last}
use p.Buffer.FieldLaws.{read_fid-RoundTrips}
use p.Types.Layout.{decode_qid-RoundTrips, decode_attr-RoundTrips, decode_set_attr-RoundTrips}
use p.Types.AttrMask.Layout.{decode_attr_mask-RoundTrips}
use p.Types.SetAttrMask.Layout.{decode_set_attr_mask-RoundTrips}
use p.Messages.Attributes.{
  Tgetattr, decode_tgetattr, encode_tgetattr, Rgetattr, decode_rgetattr, encode_rgetattr, Tsetattr,
  decode_tsetattr, encode_tsetattr, Rsetattr, decode_rsetattr, encode_rsetattr, Txattrwalk,
  decode_txattrwalk, encode_txattrwalk, Rxattrwalk, decode_rxattrwalk, encode_rxattrwalk,
  Txattrcreate, decode_txattrcreate, encode_txattrcreate, Rxattrcreate, decode_rxattrcreate,
  encode_rxattrcreate, Tstatfs, decode_tstatfs, encode_tstatfs, Rstatfs, decode_rstatfs,
  encode_rstatfs,
}

pub record TgetattrFits (t : Tgetattr) : Type 0 where
  pub fid : t.fid < 2 ^ 32
  pub attr_mask : AttrMaskFits t.attr_mask

pub decode_tgetattr-Sticky : Sticky decode_tgetattr
unfolding decode_tgetattr
decode_tgetattr-Sticky = search sticky_laws depth 10

pub decode_tgetattr-RoundTrips :
    (t : Tgetattr) → TgetattrFits t → RoundTrips (encode_tgetattr t) decode_tgetattr t
unfolding decode_tgetattr encode_tgetattr
decode_tgetattr-RoundTrips t h =
    RoundTrips-bind (read_fid-RoundTrips _ h.fid) (λ x. search sticky_laws depth 10)
      (RoundTrips-last (decode_attr_mask-RoundTrips t.attr_mask) (λ x. search sticky_laws depth 10)
        (RoundTrips-pure _))

pub record RgetattrFits (r : Rgetattr) : Type 0 where
  pub valid : AttrMaskFits r.valid
  pub qid : QidFits r.qid
  pub attr : AttrFits r.attr

pub decode_rgetattr-Sticky : Sticky decode_rgetattr
unfolding decode_rgetattr
decode_rgetattr-Sticky = search sticky_laws depth 12

pub decode_rgetattr-RoundTrips :
    (r : Rgetattr) → RgetattrFits r → RoundTrips (encode_rgetattr r) decode_rgetattr r
unfolding decode_rgetattr encode_rgetattr
decode_rgetattr-RoundTrips r h =
    RoundTrips-bind (decode_attr_mask-RoundTrips r.valid) (λ x. search sticky_laws depth 12)
      (RoundTrips-bind (decode_qid-RoundTrips _ h.qid) (λ x. search sticky_laws depth 12)
        (RoundTrips-last (decode_attr-RoundTrips _ h.attr) (λ x. search sticky_laws depth 12)
          (RoundTrips-pure _)))

pub record TsetattrFits (t : Tsetattr) : Type 0 where
  pub fid : t.fid < 2 ^ 32
  pub valid : SetAttrMaskFits t.valid
  pub set_attr : SetAttrFits t.set_attr

pub decode_tsetattr-Sticky : Sticky decode_tsetattr
unfolding decode_tsetattr
decode_tsetattr-Sticky = search sticky_laws depth 12

pub decode_tsetattr-RoundTrips :
    (t : Tsetattr) → TsetattrFits t → RoundTrips (encode_tsetattr t) decode_tsetattr t
unfolding decode_tsetattr encode_tsetattr
decode_tsetattr-RoundTrips t h =
    RoundTrips-bind (read_fid-RoundTrips _ h.fid) (λ x. search sticky_laws depth 12)
      (RoundTrips-bind (decode_set_attr_mask-RoundTrips t.valid) (λ x. search sticky_laws depth 12)
        (RoundTrips-last (decode_set_attr-RoundTrips _ h.set_attr)
          (λ x. search sticky_laws depth 12) (RoundTrips-pure _)))

abbrev pub RsetattrFits : Rsetattr → Type 0
RsetattrFits r = Unit

pub decode_rsetattr-Sticky : Sticky decode_rsetattr
unfolding decode_rsetattr
decode_rsetattr-Sticky = search sticky_laws depth 6

pub decode_rsetattr-RoundTrips :
    (r : Rsetattr) → RsetattrFits r → RoundTrips (encode_rsetattr r) decode_rsetattr r
unfolding decode_rsetattr encode_rsetattr
decode_rsetattr-RoundTrips r h = search round_trip_laws depth 6

pub record TxattrwalkFits (t : Txattrwalk) : Type 0 where
  pub fid : t.fid < 2 ^ 32
  pub new_fid : t.new_fid < 2 ^ 32
  pub name : IsText t.name

pub decode_txattrwalk-Sticky : Sticky decode_txattrwalk
unfolding decode_txattrwalk
decode_txattrwalk-Sticky = search sticky_laws depth 12

pub decode_txattrwalk-RoundTrips :
    (t : Txattrwalk) → TxattrwalkFits t → RoundTrips (encode_txattrwalk t) decode_txattrwalk t
unfolding decode_txattrwalk encode_txattrwalk
decode_txattrwalk-RoundTrips t h = search round_trip_laws depth 12

pub record RxattrwalkFits (r : Rxattrwalk) : Type 0 where
  pub size : r.size < 2 ^ 64

pub decode_rxattrwalk-Sticky : Sticky decode_rxattrwalk
unfolding decode_rxattrwalk
decode_rxattrwalk-Sticky = search sticky_laws depth 8

pub decode_rxattrwalk-RoundTrips :
    (r : Rxattrwalk) → RxattrwalkFits r → RoundTrips (encode_rxattrwalk r) decode_rxattrwalk r
unfolding decode_rxattrwalk encode_rxattrwalk
decode_rxattrwalk-RoundTrips r h = search round_trip_laws depth 8

pub record TxattrcreateFits (t : Txattrcreate) : Type 0 where
  pub fid : t.fid < 2 ^ 32
  pub name : IsText t.name
  pub attr_size : t.attr_size < 2 ^ 64
  pub flags : t.flags < 2 ^ 32

pub decode_txattrcreate-Sticky : Sticky decode_txattrcreate
unfolding decode_txattrcreate
decode_txattrcreate-Sticky = search sticky_laws depth 14

pub decode_txattrcreate-RoundTrips :
    (t : Txattrcreate)
    → TxattrcreateFits t
    → RoundTrips (encode_txattrcreate t) decode_txattrcreate t
unfolding decode_txattrcreate encode_txattrcreate
decode_txattrcreate-RoundTrips t h = search round_trip_laws depth 14

abbrev pub RxattrcreateFits : Rxattrcreate → Type 0
RxattrcreateFits r = Unit

pub decode_rxattrcreate-Sticky : Sticky decode_rxattrcreate
unfolding decode_rxattrcreate
decode_rxattrcreate-Sticky = search sticky_laws depth 6

pub decode_rxattrcreate-RoundTrips :
    (r : Rxattrcreate)
    → RxattrcreateFits r
    → RoundTrips (encode_rxattrcreate r) decode_rxattrcreate r
unfolding decode_rxattrcreate encode_rxattrcreate
decode_rxattrcreate-RoundTrips r h = search round_trip_laws depth 6

pub record TstatfsFits (t : Tstatfs) : Type 0 where
  pub fid : t.fid < 2 ^ 32

pub decode_tstatfs-Sticky : Sticky decode_tstatfs
unfolding decode_tstatfs
decode_tstatfs-Sticky = search sticky_laws depth 8

pub decode_tstatfs-RoundTrips :
    (t : Tstatfs) → TstatfsFits t → RoundTrips (encode_tstatfs t) decode_tstatfs t
unfolding decode_tstatfs encode_tstatfs
decode_tstatfs-RoundTrips t h = search round_trip_laws depth 8

pub record RstatfsFits (r : Rstatfs) : Type 0 where
  pub fs_stat : FsStatFits r.fs_stat

pub decode_rstatfs-Sticky : Sticky decode_rstatfs
unfolding decode_rstatfs
decode_rstatfs-Sticky = search sticky_laws depth 8

pub decode_rstatfs-RoundTrips :
    (r : Rstatfs) → RstatfsFits r → RoundTrips (encode_rstatfs r) decode_rstatfs r
unfolding decode_rstatfs encode_rstatfs
decode_rstatfs-RoundTrips r h = search round_trip_laws depth 8
