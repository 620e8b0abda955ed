-- ===== src/Examples/Wire.antt =====
-- Messages that are encoded, sent and received.
use p.Base.{false, ◌+◌, ◌≡◌, refl, List, [], ◌∷◌, ◌++◌, take, inr, arith}
use p.Base.{length, ◌≤◌}
use p.Buffer.{write8, write16, write32, append, put_uint, ◌>>◌, skip}
use p.Buffer.Fields.{write_string, write_list}
use p.Types.Dirent.{Dirent}
use p.Messages.Session.{encode_tversion}
use p.Messages.Message.{payloader}
use p.Registry.{find_factory}
use p.Buffer.RoundTrip.{buffer, RoundTrips}
use p.Messages.Payload.{encode_rreaddir, decode_rreaddir}
use p.Messages.Payload.Listing.{sent_rreaddir, listing, fitting, LeavesOut, encode_rreaddir-longest}
use p.Messages.Message.{typ, set_payload}
use p.Messages.Message.Codec.{decode, encode}
use p.Messages.Message.Blank.{blank}
use p.Messages.Message.Fits.{sent}
use p.Messages.Message.Layout.{payload_of, decode-encode}
use p.Messages.Message.Shape.{fields_of}
use p.Registry.{get}
use p.Transport.{
  header_length, no_tag, send, received, failed, conn_error, too_large, invalid_type,
  no_valid_message, recv,
}
use p.Transport.Header.{header_bytes}
use p.Transport.RoundTrip.{recv-send, wire_size}
use p.Transport.Rejects.{recv_too_large, recv_unknown_type, recv_cut_fields}
use p.Examples.{
  hello, hello-Fits, entry_a, entry_b, directory, directory-RreaddirFits, registry,
  registry-IsReady,
}

hello-size : wire_size hello ≡ 21
unfolding encode payloader encode_tversion write32 write16 write8 write_string write_list append
    put_uint ◌>>◌ skip
hello-size = refl

hello-fields : length (fields_of hello) ≡ 14
unfolding encode encode_tversion write32 write16 write8 write_string write_list append put_uint ◌>>◌
    skip
hello-fields = refl

recv-send_example :
    recv 8192 registry (send 1 hello ++ 7 ∷ [])
    ≡ (received 1 (sent hello), (get (typ hello) registry).1, 7 ∷ [])
recv-send_example =
    recv-send 1 8192 hello registry (7 ∷ []) (omega arith) hello-Fits registry-IsReady
      (omega (arith, hello-size)) (omega (arith, hello-size))

recv_cut_fields_example :
    recv 8192 registry
      (header_bytes (header_length + 3) (typ hello) 1 ++ (take 3 (fields_of hello) ++ 7 ∷ []))
    ≡ (failed no_tag no_valid_message, (get (typ hello) registry).1, 7 ∷ [])
recv_cut_fields_example =
    recv_cut_fields 1 8192 3 hello registry (7 ∷ []) (omega arith) hello-Fits registry-IsReady
      (omega (arith, hello-size, hello-fields)) (omega arith) (omega arith)

recv_too_large_example :
    recv 8192 registry (header_bytes 9000 100 1 ++ 7 ∷ [])
    ≡ (conn_error (too_large 9000 8192), registry, 7 ∷ [])
recv_too_large_example =
    recv_too_large 8192 (record { size = 9000; typ = 100; tag = 1 }) registry (7 ∷ [])
      (record { size = omega arith; typ = omega arith; tag = omega arith }) (omega arith)
      (inr (omega arith))

-- 200 is no message type.
recv_unknown_type_example :
    recv 8192 registry (header_bytes 9 200 1 ++ ((1 ∷ 2 ∷ []) ++ 7 ∷ []))
    ≡ (failed 1 (invalid_type 200), registry, 7 ∷ [])
unfolding find_factory
recv_unknown_type_example =
    recv_unknown_type 8192 (record { size = 9; typ = 200; tag = 1 }) registry (1 ∷ 2 ∷ []) (7 ∷ [])
      (record { size = omega arith; typ = omega arith; tag = omega arith }) registry-IsReady refl
      (omega arith) (omega arith) (omega arith)

decode-encode_example :
    RoundTrips
      (λ b. (encode hello b).1)
      (decode (set_payload (payload_of hello) (blank hello)))
      (sent hello)
decode-encode_example = decode-encode hello hello-Fits

-- The second entry of the directory does not fit.
encode_rreaddir-longest_example :
    (kept rest : List Dirent) × (directory.entries ≡ kept ++ rest)
    × ((encode_rreaddir directory (buffer [] false)).0.payload ≡ listing kept)
    × ((encode_rreaddir directory (buffer [] false)).0.count ≡ length (listing kept))
    × ((encode_rreaddir directory (buffer [] false)).1
        ≡ write32 (length (listing kept)) (buffer [] false))
    × (length (listing kept) ≤ 40)
    × LeavesOut 0 40 kept rest
encode_rreaddir-longest_example =
    encode_rreaddir-longest directory (buffer [] false) directory-RreaddirFits
