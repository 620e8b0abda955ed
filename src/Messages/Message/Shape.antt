-- ===== src/Messages/Message/Shape.antt =====
-- What the type of a message settles: its fixed size, and where its payload starts.
use p.Base.{ℕ, List, [], false, ◌≡◌, refl, length, Option, none, some}
use p.Buffer.{Buffer, ◌>>◌, append, put_uint, write32, write64}
use p.Buffer.Fields.{write_fid}
use p.Buffer.RoundTrip.{buffer}
use p.Messages.Payload.{encode_rread, encode_twrite, encode_rreaddir}
use p.Messages.Message.{Message, typ, Payloader, payloader, rreaddir, rread, twrite}
use p.Messages.Message.Codec.{encode}
use p.Messages.Message.Blank.{blank}
use p.Messages.Message.Layout.{payload_of}

abbrev pub fixed_size_or_none : Option Payloader → Option ℕ
fixed_size_or_none none = none
fixed_size_or_none (some p) = some p.fixed_size

abbrev pub fixed_size : Message → Option ℕ
fixed_size m = fixed_size_or_none (payloader m)

abbrev pub fields_of : Message → List ℕ
fields_of m = (encode m (buffer [] false)).1.bytes

pub typ-encode : (m : Message) (b : Buffer) → typ (encode m b).0 ≡ typ m
unfolding typ encode
typ-encode (rread x) b = refl
typ-encode (twrite x) b = refl
typ-encode (rreaddir x) b = refl
typ-encode _ b = refl

pub typ-blank : (m : Message) → typ (blank m) ≡ typ m
unfolding typ blank
typ-blank (rread x) = refl
typ-blank (twrite x) = refl
typ-blank (rreaddir x) = refl
typ-blank _ = refl

pub fixed_size-blank : (m : Message) → fixed_size m ≡ fixed_size (blank m)
unfolding payloader blank
fixed_size-blank (rread x) = refl
fixed_size-blank (twrite x) = refl
fixed_size-blank (rreaddir x) = refl
fixed_size-blank _ = refl

-- The fields of a message with a payload are as long as its fixed size says; another has no payload.
abbrev pub Splits : Option ℕ → List ℕ → List ℕ → Type 0
Splits none fields payload = payload ≡ []
Splits (some n) fields payload = length fields ≡ n

pub fields-Splits : (m : Message) → Splits (fixed_size m) (fields_of m) (payload_of m)
unfolding payloader encode encode_rread encode_twrite encode_rreaddir write32 write64 write_fid
    append put_uint ◌>>◌
fields-Splits (rread x) = refl
fields-Splits (twrite x) = refl
fields-Splits (rreaddir x) = refl
fields-Splits _ = refl
