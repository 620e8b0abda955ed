-- ===== src/Transport/RoundTrip.antt =====
-- p9/transport.go: `send` against `recv`.
use p.Base.{
  ℕ, ◌+◌, ◌-◌, ◌%◌, ◌^◌, ◌≤◌, ◌<◌, ◌≡◌, refl, sym, ap, ◌∙◌, List, [], ◌∷◌, ◌++◌, false, Option,
  none, some, length, length-append, take-append_exact, drop-append_exact, append-nil, append_assoc,
  arith, le→leb, le→ltb,
}
use mathlib.Core.Path.{subst}
use p.Buffer.{is_overrun}
use p.Buffer.RoundTrip.{buffer, image_lem}
use p.Messages.Message.{Message, typ, Payloader, payloader, set_payload}
use p.Messages.Message.Codec.{decode}
use p.Messages.Message.Blank.{blank}
use p.Messages.Message.Fits.{Fits, sent}
use p.Messages.Message.Layout.{payload_of, decode-encode}
use p.Messages.Message.Shape.{
  fixed_size, fixed_size_or_none, fields_of, typ-encode, typ-blank, fixed_size-blank, Splits,
  fields-Splits,
}
use p.Registry.{Registry, get, got, hand_out, find_factory}
use p.Registry.Registrations.{registrations}
use p.Registry.Table.{find-registrations, typ-lt}
use p.Registry.Reuse.{IsRegistry, get-IsRegistry, decode_reuse, blank_of_typ}
use p.Transport.{
  header_length, maximum_length, send, read_full, Head, received, decode_received, finish,
  recv_body, recv_typed, recv_sized, recv_headed, recv,
}
use p.Transport.Header.{header_bytes, length-header_bytes, HeadFits, read-header_bytes}

-- A registry as `init` leaves it, up to what is in the caches.
pub record IsReady (r : Registry) : Type 0 where
  pub in_order : IsRegistry r
  pub complete : (t : ℕ) → (r.factories t).create ≡ find_factory t registrations

abbrev pub wire_size : Message → ℕ
wire_size m = header_length + length (fields_of m) + length (payload_of m)

pub read_full-append :
    (n : ℕ) (xs conn : List ℕ) → length xs ≡ n → read_full n (xs ++ conn) ≡ some (xs, conn)
unfolding read_full
read_full-append n xs conn h =
    rw
      (
        le→leb n (length (xs ++ conn)) (omega (arith, length-append xs conn)),
        take-append_exact n xs conn h,
        drop-append_exact n xs conn h,
      )
      refl

hand_out-some :
    (create : Option Message) (cache : List Message) (fresh : Message) (t : ℕ) (r : Registry)
    → create ≡ some fresh
    → (m : Message) × ((got t r (hand_out create cache)).0 ≡ some m)
unfolding got hand_out
hand_out-some none cache fresh t r e = cc
hand_out-some (some f) [] fresh t r e = (f, refl)
hand_out-some (some f) (used ∷ cache) fresh t r e = (used, refl)

-- A registered type is handed out.
pub get-some :
    (r : Registry) (m : Message) → IsReady r → (m' : Message) × ((get (typ m) r).0 ≡ some m')
unfolding get
get-some r m h =
    hand_out-some (r.factories (typ m)).create (r.factories (typ m)).cache (blank m) (typ m) r
      (h.complete (typ m) ∙ find-registrations m)

-- The fields decode to what was sent, in a new or a used message.
decode_fields :
    (m used : Message)
    → Fits m
    → typ used ≡ typ m
    → decode (set_payload (payload_of m) used) (buffer (fields_of m) false)
      ≡ (sent m, buffer [] false)
decode_fields m used h e =
    let rt = decode-encode m h in
    let reuse = decode_reuse used (blank m) (payload_of m) (e ∙ sym (typ-blank m)) in
    ap (λ f. f (buffer (fields_of m) false)) reuse
    ∙ ap (λ xs. decode (set_payload (payload_of m) (blank m)) (buffer xs false))
        (sym (image_lem rt) ∙ sym (append-nil rt.image))
    ∙ rt.reads [] false

-- What is decoded, with the fields and the payload apart.
decode_received_lem :
    (tag : ℕ) (m used : Message)
    → Fits m
    → typ used ≡ typ m
    → decode_received tag (set_payload (payload_of m) used) (fields_of m) ≡ received tag (sent m)
unfolding decode_received is_overrun
decode_received_lem tag m used h e = rw (decode_fields m used h e) refl

finish_lem :
    (tag : ℕ) (m used : Message) (r : Registry) (rest : List ℕ)
    → Fits m
    → typ used ≡ typ m
    → finish tag used (length (fields_of m)) (some (fields_of m ++ payload_of m, rest)) r
      ≡ (received tag (sent m), r, rest)
unfolding finish
finish_lem tag m used r rest h e =
    rw
      (
        take-append_exact (length (fields_of m)) (fields_of m) (payload_of m) refl,
        drop-append_exact (length (fields_of m)) (fields_of m) (payload_of m) refl,
        decode_received_lem tag m used h e,
      )
      refl

pub fixed_size-eq : (used m : Message) → typ used ≡ typ m → fixed_size used ≡ fixed_size m
fixed_size-eq used m e =
    fixed_size-blank used ∙ ap fixed_size (blank_of_typ used m e) ∙ sym (fixed_size-blank m)

recv_body_lem :
    (tag : ℕ) (m used : Message) (o : Option Payloader) (r : Registry) (rest : List ℕ)
    → Fits m
    → typ used ≡ typ m
    → Splits (fixed_size_or_none o) (fields_of m) (payload_of m)
    → recv_body tag
        (length (fields_of m) + length (payload_of m))
        used
        o
        r
        ((fields_of m ++ payload_of m) ++ rest)
      ≡ (received tag (sent m), r, rest)
unfolding recv_body
recv_body_lem tag m used none r rest h e s =
    rw
      (
        read_full-append (length (fields_of m) + length (payload_of m))
            (fields_of m ++ payload_of m) rest (length-append (fields_of m) (payload_of m)),
        whole,
      )
      (finish_lem tag m used r rest h e)
  where
    whole : length (fields_of m) + length (payload_of m) ≡ length (fields_of m)
    whole = omega (arith, ap (length {A = ℕ}) s)
recv_body_lem tag m used (some p) r rest h e s =
    rw
      (
        read_full-append (length (fields_of m) + length (payload_of m))
            (fields_of m ++ payload_of m) rest (length-append (fields_of m) (payload_of m)),
        ← s,
        le→ltb (length (fields_of m) + length (payload_of m)) (length (fields_of m)) (omega arith),
      )
      (finish_lem tag m used r rest h e)

abbrev head_of : ℕ → Message → Head
head_of tag m = record { size = wire_size m; typ = typ m; tag = tag }

head_of-HeadFits :
    (tag : ℕ) (m : Message) → tag < 2 ^ 16 → wire_size m ≤ maximum_length → HeadFits (head_of tag m)
head_of-HeadFits tag m ht hs = record { size = omega (arith, hs); typ = typ-lt m; tag = ht }

pub send_lem :
    (tag : ℕ) (m : Message)
    → wire_size m ≤ maximum_length
    → send tag m ≡ header_bytes (wire_size m) (typ m) tag ++ (fields_of m ++ payload_of m)
unfolding send
send_lem tag m h = rw (typ-encode m (buffer [] false), total) refl
  where
    total :
        ((header_length + length (fields_of m) % 2 ^ 32) % 2 ^ 32 + length (payload_of m) % 2 ^ 32)
          % 2 ^ 32
        ≡ wire_size m
    total = omega (arith, h)

recv_sized_lem :
    (tag msize : ℕ) (m : Message) (r : Registry) (rest : List ℕ)
    → Fits m
    → IsReady r
    → wire_size m ≤ maximum_length
    → wire_size m ≤ msize
    → recv_sized msize (head_of tag m) r ((fields_of m ++ payload_of m) ++ rest)
      ≡ (received tag (sent m), (get (typ m) r).1, rest)
unfolding recv_sized recv_typed
recv_sized_lem tag msize m r rest h ready fits small =
    let (used, found) = get-some r m ready in
    let (same, _) = get-IsRegistry (typ m) r used ready.in_order found in
    let left : wire_size m - header_length ≡ length (fields_of m) + length (payload_of m) =
      omega arith in
    let shape =
      subst (λ n. Splits n (fields_of m) (payload_of m)) (sym (fixed_size-eq used m same))
        (fields-Splits m) in
    rw
      (
        found,
        le→ltb (wire_size m) header_length (omega arith),
        le→ltb maximum_length (wire_size m) fits,
        le→ltb msize (wire_size m) small,
        left,
      )
      (recv_body_lem tag m used (payloader used) (get (typ m) r).1 rest h same shape)

-- With a registry that `init` leaves, up to what is in its caches, and whatever follows on the
-- connection: `recv` returns the message that `send` wrote, with its tag, and leaves what
-- follows. This holds for every tag of 16 bits and every message whose fields fit their widths
-- and that is no larger than the negotiated size and the maximum. A listing arrives cut to the
-- entries that fit.
pub recv-send :
    (tag msize : ℕ) (m : Message) (r : Registry) (rest : List ℕ)
    → tag < 2 ^ 16
    → Fits m
    → IsReady r
    → wire_size m ≤ maximum_length
    → wire_size m ≤ msize
    → recv msize r (send tag m ++ rest) ≡ (received tag (sent m), (get (typ m) r).1, rest)
unfolding recv recv_headed
recv-send tag msize m r rest ht h ready fits small =
    rw
      (
        send_lem tag m fits,
        append_assoc (header_bytes (wire_size m) (typ m) tag) (fields_of m ++ payload_of m) rest,
        read_full-append header_length (header_bytes (wire_size m) (typ m) tag)
            ((fields_of m ++ payload_of m) ++ rest) (length-header_bytes (wire_size m) (typ m) tag),
      )
      (ap (λ head. recv_sized msize head r ((fields_of m ++ payload_of m) ++ rest))
          (read-header_bytes (head_of tag m) (head_of-HeadFits tag m ht fits))
        ∙ recv_sized_lem tag msize m r rest h ready fits small)
