-- ===== src/Transport/Rejects.antt =====
-- p9/transport.go: `recv` on a connection that does not hold a whole, known message.
use p.Base.{
  ℕ, ◌+◌, ◌-◌, ◌^◌, ◌≤◌, ◌<◌, ◌≡◌, refl, sym, ap, ◌∙◌, List, [], ◌++◌, false, Option, none, some,
  length, length-take, take, drop, take_all, drop_all, drop-append_exact, ◌⊎◌, arith, lt→leb,
  lt→ltb,
}
use p.Buffer.{is_overrun}
use p.Buffer.RoundTrip.{buffer, image_lem}
use p.Messages.Message.{Message, typ, Payloader, payloader, set_payload}
use p.Messages.Message.Codec.{decode}
use p.Messages.Message.Blank.{blank}
use p.Messages.Message.Fits.{Fits}
use p.Messages.Message.Layout.{payload_of, decode-encode}
use p.Messages.Message.Shape.{fixed_size_or_none, fields_of, typ-blank, Splits, fields-Splits}
use p.Registry.{Registry, get, got, hand_out, find_factory}
use p.Registry.Registrations.{registrations}
use p.Registry.Table.{typ-lt}
use p.Registry.Reuse.{get-IsRegistry, decode_reuse}
use p.Transport.{
  header_length, maximum_length, no_tag, read_full, Head, failed, conn_error, too_large, bad_size,
  invalid_type, no_valid_message, decode_received, finish, recv_body, recv_typed, recv_sized,
  recv_headed, recv,
}
use p.Transport.Header.{header_bytes, length-header_bytes, HeadFits, read-header_bytes}
use p.Transport.RoundTrip.{IsReady, read_full-append, fixed_size-eq, get-some}
use mathlib.Core.Path.{subst}

read_full-short : (n : ℕ) (conn : List ℕ) → length conn < n → read_full n conn ≡ none
unfolding read_full
read_full-short n conn h = rw (lt→leb n (length conn) h) refl

-- Behind a whole header `recv` goes by what the header says.
pub recv-header :
    (msize : ℕ) (h : Head) (r : Registry) (conn : List ℕ)
    → HeadFits h
    → recv msize r (header_bytes h.size h.typ h.tag ++ conn) ≡ recv_sized msize h r conn
unfolding recv recv_headed
recv-header msize h r conn f =
    rw
      (read_full-append header_length (header_bytes h.size h.typ h.tag) conn
        (length-header_bytes h.size h.typ h.tag))
      (ap (λ head. recv_sized msize head r conn) (read-header_bytes h f))

-- A header whose fields fit their widths and that announces less than a header ends the
-- connection: nothing behind it is read, and no message is taken from the registry.
recv_bad_size :
    (msize : ℕ) (h : Head) (r : Registry) (conn : List ℕ)
    → HeadFits h
    → h.size < header_length
    → recv msize r (header_bytes h.size h.typ h.tag ++ conn) ≡ (conn_error bad_size, r, conn)
unfolding recv_sized
recv_bad_size msize h r conn f small = recv-header msize h r conn f ∙ ground arith

-- A header whose fields fit their widths and that announces a header at least, but more than the
-- maximum or more than the negotiated size, ends the connection: nothing behind it is read, and
-- no message is taken from the registry.
pub recv_too_large :
    (msize : ℕ) (h : Head) (r : Registry) (conn : List ℕ)
    → HeadFits h
    → header_length ≤ h.size
    → (maximum_length < h.size) ⊎ (msize < h.size)
    → recv msize r (header_bytes h.size h.typ h.tag ++ conn)
      ≡ (conn_error (too_large h.size msize), r, conn)
unfolding recv_sized
recv_too_large msize h r conn f whole big = recv-header msize h r conn f ∙ ground arith

-- A size within the bounds leads on to the message.
recv_sized_fits :
    (msize : ℕ) (h : Head) (r : Registry) (conn : List ℕ)
    → header_length ≤ h.size
    → h.size ≤ maximum_length
    → h.size ≤ msize
    → recv_sized msize h r conn ≡ recv_typed h (get h.typ r).0 (get h.typ r).1 conn
unfolding recv_sized
recv_sized_fits msize h r conn whole fits small = ground arith

get-none : (t : ℕ) (r : Registry) → (r.factories t).create ≡ none → get t r ≡ (none, r)
unfolding get got hand_out
get-none t r e = ground (arith, e)

-- With a registry that `init` leaves, up to what is in its caches: a message within the maximum
-- and the negotiated size whose type is not registered is skipped. Its tag and type are
-- reported, no message is taken from the registry, and `recv` is ready for what follows its
-- body.
pub recv_unknown_type :
    (msize : ℕ) (h : Head) (r : Registry) (body rest : List ℕ)
    → HeadFits h
    → IsReady r
    → find_factory h.typ registrations ≡ none
    → h.size ≡ header_length + length body
    → h.size ≤ maximum_length
    → h.size ≤ msize
    → recv msize r (header_bytes h.size h.typ h.tag ++ (body ++ rest))
      ≡ (failed h.tag (invalid_type h.typ), r, rest)
unfolding recv_typed
recv_unknown_type msize h r body rest f ready unknown size fits small =
    let lost = get-none h.typ r (ready.complete h.typ ∙ unknown) in
    recv-header msize h r (body ++ rest) f
    ∙ recv_sized_fits msize h r (body ++ rest) (omega (arith, size)) fits small
    ∙ rw lost (
        ap (λ conn. (failed h.tag (invalid_type h.typ), r, conn))
          (drop-append_exact (h.size - header_length) body rest (omega (arith, size))))

-- The decoder overruns on fields that are cut short.
decode_received_cut :
    (tag n : ℕ) (m used : Message)
    → Fits m
    → typ used ≡ typ m
    → n < length (fields_of m)
    → decode_received tag (set_payload (payload_of m) used) (take n (fields_of m))
      ≡ failed no_tag no_valid_message
unfolding decode_received is_overrun
decode_received_cut tag n m used h e short =
    let rt = decode-encode m h in
    let reuse = decode_reuse used (blank m) (payload_of m) (e ∙ sym (typ-blank m)) in
    let over =
      ap (λ d. (d (buffer (take n (fields_of m)) false)).1.overflow) reuse
      ∙ ap
          (λ xs.
            (decode (set_payload (payload_of m) (blank m)) (buffer (take n xs) false)).1.overflow)
          (sym (image_lem rt))
      ∙ rt.cut n false (omega (arith, short, ap (length {A = ℕ}) (image_lem rt))) in
    rw over refl

recv_body_cut :
    (tag n : ℕ) (m used : Message) (o : Option Payloader) (r : Registry) (rest : List ℕ)
    → Fits m
    → typ used ≡ typ m
    → Splits (fixed_size_or_none o) (fields_of m) (payload_of m)
    → n < length (fields_of m)
    → recv_body tag n used o r (take n (fields_of m) ++ rest)
      ≡ (failed no_tag no_valid_message, r, rest)
unfolding recv_body finish
recv_body_cut tag n m used none r rest h e s short =
    rw
      (
        read_full-append n part rest size,
        nothing_left,
        all_of_it,
        ← s,
        decode_received_cut tag n m used h e short,
      )
      refl
  where
    part : List ℕ
    part = take n (fields_of m)

    size : length part ≡ n
    size = length-take n (fields_of m) (omega (arith, short))

    nothing_left : drop n part ≡ []
    nothing_left = drop_all n part (omega (arith, size))

    all_of_it : take n part ≡ part
    all_of_it = take_all n part (omega (arith, size))
recv_body_cut tag n m used (some p) r rest h e s short =
    rw
      (
        lt→ltb n p.fixed_size (omega (arith, short, s)),
        drop-append_exact n (take n (fields_of m)) rest
            (length-take n (fields_of m) (omega (arith, short))),
      )
      refl

-- With a registry that `init` leaves, up to what is in its caches: a frame, within the maximum
-- and the negotiated size, that holds only a first part of the fields of a message whose fields
-- fit their widths gives an error of that message alone, and `recv` is ready for what follows
-- the frame.
pub recv_cut_fields :
    (tag msize n : ℕ) (m : Message) (r : Registry) (rest : List ℕ)
    → tag < 2 ^ 16
    → Fits m
    → IsReady r
    → n < length (fields_of m)
    → header_length + n ≤ maximum_length
    → header_length + n ≤ msize
    → recv msize r (header_bytes (header_length + n) (typ m) tag ++ (take n (fields_of m) ++ rest))
      ≡ (failed no_tag no_valid_message, (get (typ m) r).1, rest)
unfolding recv_typed
recv_cut_fields tag msize n m r rest ht h ready short fits small =
    let (used, found) = get-some r m ready in
    let (same, _) = get-IsRegistry (typ m) r used ready.in_order found in
    let head : Head = record { size = header_length + n; typ = typ m; tag = tag } in
    let left : header_length + n - header_length ≡ n = omega arith in
    let shape =
      subst (λ k. Splits k (fields_of m) (payload_of m)) (sym (fixed_size-eq used m same))
        (fields-Splits m) in
    recv-header msize head r (take n (fields_of m) ++ rest)
      (record { size = omega (arith, fits); typ = typ-lt m; tag = ht })
    ∙ recv_sized_fits msize head r (take n (fields_of m) ++ rest) (omega arith) fits small
    ∙ rw (found, left)
        (recv_body_cut tag n m used (payloader used) (get (typ m) r).1 rest h same shape short)
