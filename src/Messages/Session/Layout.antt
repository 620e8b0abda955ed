-- ===== src/Messages/Session/Layout.antt =====
-- The layouts of the version, flush, auth, attach and error messages of p9/messages.go.
use p.Base.{◌^◌, ◌<◌}
use p.Buffer.RoundTrip.{Sticky, RoundTrips}
use p.Buffer.FieldLaws.{IsText}
use p.Types.Layout.{QidFits}
use p.Types.Rules.{sticky_laws, round_trip_laws}
use p.Messages.Session.{
  Tversion, decode_tversion, encode_tversion, Rversion, decode_rversion, encode_rversion, Tflush,
  decode_tflush, encode_tflush, Rflush, decode_rflush, encode_rflush, Rlerror, decode_rlerror,
  encode_rlerror, Tauth, decode_tauth, encode_tauth, Rauth, decode_rauth, encode_rauth, Tattach,
  decode_tattach, encode_tattach, Rattach, decode_rattach, encode_rattach,
}

pub record TversionFits (t : Tversion) : Type 0 where
  pub m_size : t.m_size < 2 ^ 32
  pub version : IsText t.version

pub decode_tversion-Sticky : Sticky decode_tversion
unfolding decode_tversion
decode_tversion-Sticky = search sticky_laws depth 10

pub decode_tversion-RoundTrips :
    (t : Tversion) → TversionFits t → RoundTrips (encode_tversion t) decode_tversion t
unfolding decode_tversion encode_tversion
decode_tversion-RoundTrips t h = search round_trip_laws depth 10

pub record RversionFits (r : Rversion) : Type 0 where
  pub m_size : r.m_size < 2 ^ 32
  pub version : IsText r.version

pub decode_rversion-Sticky : Sticky decode_rversion
unfolding decode_rversion
decode_rversion-Sticky = search sticky_laws depth 10

pub decode_rversion-RoundTrips :
    (r : Rversion) → RversionFits r → RoundTrips (encode_rversion r) decode_rversion r
unfolding decode_rversion encode_rversion
decode_rversion-RoundTrips r h = search round_trip_laws depth 10

pub record TflushFits (t : Tflush) : Type 0 where
  pub old_tag : t.old_tag < 2 ^ 16

pub decode_tflush-Sticky : Sticky decode_tflush
unfolding decode_tflush
decode_tflush-Sticky = search sticky_laws depth 8

pub decode_tflush-RoundTrips :
    (t : Tflush) → TflushFits t → RoundTrips (encode_tflush t) decode_tflush t
unfolding decode_tflush encode_tflush
decode_tflush-RoundTrips t h = search round_trip_laws depth 8

abbrev pub RflushFits : Rflush → Type 0
RflushFits r = Unit

pub decode_rflush-Sticky : Sticky decode_rflush
unfolding decode_rflush
decode_rflush-Sticky = search sticky_laws depth 6

pub decode_rflush-RoundTrips :
    (r : Rflush) → RflushFits r → RoundTrips (encode_rflush r) decode_rflush r
unfolding decode_rflush encode_rflush
decode_rflush-RoundTrips r h = search round_trip_laws depth 6

pub record RlerrorFits (r : Rlerror) : Type 0 where
  pub error : r.error < 2 ^ 32

pub decode_rlerror-Sticky : Sticky decode_rlerror
unfolding decode_rlerror
decode_rlerror-Sticky = search sticky_laws depth 8

pub decode_rlerror-RoundTrips :
    (r : Rlerror) → RlerrorFits r → RoundTrips (encode_rlerror r) decode_rlerror r
unfolding decode_rlerror encode_rlerror
decode_rlerror-RoundTrips r h = search round_trip_laws depth 8

pub record TauthFits (t : Tauth) : Type 0 where
  pub authenticationfid : t.authenticationfid < 2 ^ 32
  pub user_name : IsText t.user_name
  pub attach_name : IsText t.attach_name
  pub uid : t.uid < 2 ^ 32

pub decode_tauth-Sticky : Sticky decode_tauth
unfolding decode_tauth
decode_tauth-Sticky = search sticky_laws depth 14

pub decode_tauth-RoundTrips : (t : Tauth) → TauthFits t → RoundTrips (encode_tauth t) decode_tauth t
unfolding decode_tauth encode_tauth
decode_tauth-RoundTrips t h = search round_trip_laws depth 14

pub record RauthFits (r : Rauth) : Type 0 where
  pub qid : QidFits r.qid

pub decode_rauth-Sticky : Sticky decode_rauth
unfolding decode_rauth
decode_rauth-Sticky = search sticky_laws depth 8

pub decode_rauth-RoundTrips : (r : Rauth) → RauthFits r → RoundTrips (encode_rauth r) decode_rauth r
unfolding decode_rauth encode_rauth
decode_rauth-RoundTrips r h = search round_trip_laws depth 8

pub record TattachFits (t : Tattach) : Type 0 where
  pub fid : t.fid < 2 ^ 32
  pub auth : TauthFits t.auth

pub decode_tattach-Sticky : Sticky decode_tattach
unfolding decode_tattach
decode_tattach-Sticky = search (sticky_laws, decode_tauth-Sticky) depth 10

pub decode_tattach-RoundTrips :
    (t : Tattach) → TattachFits t → RoundTrips (encode_tattach t) decode_tattach t
unfolding decode_tattach encode_tattach
decode_tattach-RoundTrips t h =
    search (round_trip_laws, decode_tauth-RoundTrips, decode_tauth-Sticky) depth 10

pub record RattachFits (r : Rattach) : Type 0 where
  pub qid : QidFits r.qid

pub decode_rattach-Sticky : Sticky decode_rattach
unfolding decode_rattach
decode_rattach-Sticky = search sticky_laws depth 8

pub decode_rattach-RoundTrips :
    (r : Rattach) → RattachFits r → RoundTrips (encode_rattach r) decode_rattach r
unfolding decode_rattach encode_rattach
decode_rattach-RoundTrips r h = search round_trip_laws depth 8
