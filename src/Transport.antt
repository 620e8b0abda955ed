-- ===== src/Transport.antt =====
-- p9/transport.go: messages on a connection. The connection is the list of the bytes that are still to
-- come; it ends where the peer closed it, and a read past the end fails. `send` is the bytes that it
-- hands to the writer; what the writer does with them, and the pools of buffers, are not modelled.
pub mod Header
pub mod RoundTrip
pub mod Rejects
use p.Base.{
  ℕ, ◌+◌, ◌-◌, ◌*◌, ◌%◌, ◌^◌, List, [], ◌∷◌, ◌++◌, Bool, true, false, ◌||◌, Option, none, some, ltb,
  leb, if◌then◌else◌, length, take, drop,
}
use p.Buffer.{Buffer, Reader, Writer, ◌>>=◌, ◌>>◌, pure, is_overrun, read32, write32}
use p.Buffer.Fields.{read_msg_type, read_tag, write_msg_type, write_tag}
use p.Buffer.RoundTrip.{buffer}
use p.Messages.Message.{Message, typ, Payloader, payloader, payload_bytes, set_payload}
use p.Messages.Message.Codec.{decode, encode}
use p.Registry.{Registry, get}

abbrev pub header_length : ℕ
header_length = 7

abbrev pub maximum_length : ℕ
maximum_length = 4 * 1024 * 1024

-- noTag of p9/p9.go
abbrev pub no_tag : ℕ
no_tag = 2 ^ 16 - 1

unfoldable pub write_header : ℕ → ℕ → ℕ → Writer
write_header size t tag = do write32 size; write_msg_type t; write_tag tag

-- The header, the fields and the payload; the length is a uint32.
unfoldable pub send : ℕ → Message → List ℕ
unfolding write_header
send tag m =
    let (m', fields) = encode m (buffer [] false) in
    let payload = payload_bytes (payloader m') in
    let total_length =
      ((header_length + length fields.bytes % 2 ^ 32) % 2 ^ 32 + length payload % 2 ^ 32)
      % 2 ^ 32 in
    (write_header total_length (typ m') tag (buffer [] false)).bytes ++ (fields.bytes ++ payload)

-- The errors of a connection, which end it, and those of one message.
pub data ConnCause : Type 0 where
  closed bad_size : ConnCause
  too_large : ℕ → ℕ → ConnCause

pub data MessageError : Type 0 where
  invalid_type : ℕ → MessageError
  no_valid_message : MessageError

-- What `recv` returns: the tag and a message, or the tag and an error. The tag of a connection error
-- is noTag.
pub data Received : Type 0 where
  conn_error : ConnCause → Received
  failed : ℕ → MessageError → Received
  received : ℕ → Message → Received

-- io.ReadAtLeast and vecnet.Buffers.ReadFrom: n bytes, or an error once the connection is read out.
unfoldable pub read_full : ℕ → List ℕ → Option (List ℕ × List ℕ)
read_full n conn = if leb n (length conn) then some (take n conn, drop n conn) else none

pub record Head : Type 0 where
  pub size : ℕ
  pub typ : ℕ
  pub tag : ℕ

unfoldable pub read_header : Reader Head
read_header = do
  size ← read32
  t ← read_msg_type
  tag ← read_tag
  pure (record { size = size; typ = t; tag = tag })

-- The fields are decoded once the payload is in the message.
unfoldable pub decode_received : ℕ → Message → List ℕ → Received
unfolding is_overrun
decode_received tag m fields =
    let (m', b) = decode m (buffer fields false) in
    if is_overrun b then failed no_tag no_valid_message else received tag m'

unfoldable pub finish :
    ℕ → Message → ℕ → Option (List ℕ × List ℕ) → Registry → Received × Registry × List ℕ
unfolding decode_received
finish tag m fixed none r = (conn_error closed, r, [])
finish tag m fixed (some (body, conn)) r =
    (decode_received tag (set_payload (drop fixed body) m) (take fixed body), r, conn)

unfoldable pub recv_body :
    ℕ → ℕ → Message → Option Payloader → Registry → List ℕ → Received × Registry × List ℕ
unfolding finish read_full
recv_body tag remaining m none r conn = finish tag m remaining (read_full remaining conn) r
recv_body tag remaining m (some p) r conn =
    if ltb remaining p.fixed_size
    then (failed no_tag no_valid_message, r, drop remaining conn)
    else finish tag m p.fixed_size (read_full remaining conn) r

unfoldable pub recv_typed : Head → Option Message → Registry → List ℕ → Received × Registry × List ℕ
unfolding recv_body
recv_typed h none r conn =
    (failed h.tag (invalid_type h.typ), r, drop (h.size - header_length) conn)
recv_typed h (some m) r conn = recv_body h.tag (h.size - header_length) m (payloader m) r conn

unfoldable pub recv_sized : ℕ → Head → Registry → List ℕ → Received × Registry × List ℕ
unfolding recv_typed
recv_sized msize h r conn =
    let (m, r') = get h.typ r in
    if ltb h.size header_length
    then (conn_error bad_size, r, conn)
    else if ltb maximum_length h.size || ltb msize h.size
    then (conn_error (too_large h.size msize), r, conn)
    else recv_typed h m r' conn

unfoldable pub recv_headed : ℕ → Option (List ℕ × List ℕ) → Registry → Received × Registry × List ℕ
unfolding recv_sized read_header
recv_headed msize none r = (conn_error closed, r, [])
recv_headed msize (some (hdr, conn)) r = recv_sized msize (read_header (buffer hdr false)).0 r conn

-- What `recv` returns, the registry that is left, and what is left to read of the connection.
unfoldable pub recv : ℕ → Registry → List ℕ → Received × Registry × List ℕ
unfolding recv_headed read_full
recv msize r conn = recv_headed msize (read_full header_length conn) r
