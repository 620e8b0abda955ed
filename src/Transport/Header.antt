-- ===== src/Transport/Header.antt =====
-- p9/transport.go: the layout of the header of a message.
use p.Base.{ℕ, ◌^◌, ◌<◌, ◌≡◌, refl, sym, ap, ◌∙◌, List, [], false, length, append-nil}
use p.Buffer.{◌>>◌, append, put_uint, write8, write16, write32}
use p.Buffer.Fields.{write_msg_type, write_tag, read_msg_type}
use p.Buffer.RoundTrip.{buffer, RoundTrips, image_lem}
use p.Buffer.FieldLaws.{sticky_rules, round_trip_rules, read8-RoundTrips, read8-Sticky}
use p.Buffer.RoundTrip.{Sticky}
use p.Transport.{Head, header_length, write_header, read_header}

abbrev pub header_bytes : ℕ → ℕ → ℕ → List ℕ
header_bytes size t tag = (write_header size t tag (buffer [] false)).bytes

pub length-header_bytes : (size t tag : ℕ) → length (header_bytes size t tag) ≡ header_length
unfolding write_header write_msg_type write_tag write8 write16 write32 append put_uint ◌>>◌
length-header_bytes size t tag = refl

read_msg_type-RoundTrips : (v : ℕ) → v < 2 ^ 8 → RoundTrips (write_msg_type v) read_msg_type v
unfolding read_msg_type write_msg_type
read_msg_type-RoundTrips = read8-RoundTrips

read_msg_type-Sticky : Sticky read_msg_type
unfolding read_msg_type
read_msg_type-Sticky = read8-Sticky

pub record HeadFits (h : Head) : Type 0 where
  pub size : h.size < 2 ^ 32
  pub typ : h.typ < 2 ^ 8
  pub tag : h.tag < 2 ^ 16

read_header-RoundTrips :
    (h : Head) → HeadFits h → RoundTrips (write_header h.size h.typ h.tag) read_header h
unfolding read_header write_header
read_header-RoundTrips h f =
    search (round_trip_rules, sticky_rules, read_msg_type-RoundTrips, read_msg_type-Sticky) depth 12

pub read-header_bytes :
    (h : Head) → HeadFits h → (read_header (buffer (header_bytes h.size h.typ h.tag) false)).0 ≡ h
read-header_bytes h f =
    let rt = read_header-RoundTrips h f in
    ap (λ xs. (read_header (buffer xs false)).0) (sym (image_lem rt) ∙ sym (append-nil rt.image))
    ∙ ap (λ x. x.0) (rt.reads [] false)
