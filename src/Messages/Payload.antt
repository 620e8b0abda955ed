-- ===== src/Messages/Payload.antt =====
-- p9/messages.go: the messages with a payload, which travels behind the encoded fields: Rread, Twrite
-- and Rreaddir. Before a message is decoded, the receiver has set its payload.
pub mod Entries
pub mod Layout
pub mod Listing
use p.Base.{
  ℕ, suc, ◌++◌, ◌+◌, ◌%◌, ◌^◌, ◌<◌, ◌≡◌, List, [], ◌∷◌, Bool, true, false, if◌then◌else◌, ltb, ◌==◌,
  length, take, Bool-cases, inl, inr, arith,
}
use p.Buffer.{
  Buffer, Reader, Writer, ◌>>=◌, ◌>>◌, pure, mark_overrun, is_overrun, read32, read64, write32,
  write64,
}
use p.Buffer.Fields.{emptied, read_fid, write_fid}
use p.Buffer.RoundTrip.{buffer}
use p.Types.Dirent.{Dirent, decode_dirent, encode_dirent}
use p.Types.MsgType.{msg_rread, msg_twrite, msg_rreaddir}
use p.Messages.Payload.Entries.{Shorter, Shorter_wf, dec_fine, decode_dirent_shorter}
use mathlib.Core.WellFounded.{Acc}
use mathlib.Core.Logic.{dite}

-- if count != uint32(len(data)) { b.markOverrun() }
unfoldable pub mark_unless : Bool → Reader (Unit {0})
unfolding mark_overrun
mark_unless same b = (tt, if same then b else mark_overrun b)

-- The field `Data` of the source is `content`.
pub record Rread : Type 0 where
  pub content : List ℕ

abbrev pub typ_rread : ℕ
typ_rread = msg_rread

unfoldable pub decode_rread : Rread → Reader Rread
decode_rread r = do count ← read32; _ ← mark_unless (count == length r.content % 2 ^ 32); pure r

unfoldable pub encode_rread : Rread → Writer
encode_rread r = write32 (length r.content % 2 ^ 32)

abbrev pub fixed_size_rread : ℕ
fixed_size_rread = 4

pub record Twrite : Type 0 where
  pub fid : ℕ
  pub offset : ℕ
  pub content : List ℕ

abbrev pub typ_twrite : ℕ
typ_twrite = msg_twrite

unfoldable pub decode_twrite : Twrite → Reader Twrite
decode_twrite t = do
  fid ← read_fid
  offset ← read64
  count ← read32
  _ ← mark_unless (count == length t.content % 2 ^ 32)
  pure (record { fid = fid; offset = offset; content = t.content })

unfoldable pub encode_twrite : Twrite → Writer
encode_twrite t = do write_fid t.fid; write64 t.offset; write32 (length t.content % 2 ^ 32)

abbrev pub fixed_size_twrite : ℕ
fixed_size_twrite = 16

pub record Rreaddir : Type 0 where
  pub count : ℕ
  pub entries : List Dirent
  pub payload : List ℕ

abbrev pub typ_rreaddir : ℕ
typ_rreaddir = msg_rreaddir

-- The loop that decodes entries until one overruns. It ends since each entry takes a byte at least.
unfoldable pub read_entries : (b : Buffer) → Acc Shorter b → List Dirent
unfolding is_overrun dec_fine
read_entries b (Acc.intro _ smaller) =
    let (d, b') = decode_dirent b in
    dite (dec_fine (is_overrun b'))
      (λ fine. d ∷ read_entries b' (smaller b' (decode_dirent_shorter b fine))) (λ over. [])

unfoldable pub decode_rreaddir : Rreaddir → Reader Rreaddir
unfolding read_entries
decode_rreaddir r = do
  count ← read32
  let b = buffer r.payload false
  pure (record {
    count = count;
    entries = emptied r.entries ++ read_entries b (Shorter_wf b);
    payload = r.payload;
  })

-- The loop that encodes entries until one passes `count`: the buffer, and the size that fits.
unfoldable pub write_entries : ℕ → List Dirent → Buffer → ℕ → Buffer × ℕ
write_entries count [] b size = (b, size)
write_entries count (d ∷ ds) b size =
    let b' = encode_dirent d b in
    if ltb count (length b'.bytes) then (b', size) else write_entries count ds b' (length b'.bytes)

-- `encode` also sets `Count` and `payload` of the message.
unfoldable pub encode_rreaddir : Rreaddir → Buffer → Rreaddir × Buffer
unfolding write_entries
encode_rreaddir r b =
    let (entries_buf, payload_size) = write_entries r.count r.entries (buffer [] false) 0 in
    let count = payload_size % 2 ^ 32 in
    (record r { count = count; payload = take payload_size entries_buf.bytes }, write32 count b)

abbrev pub fixed_size_rreaddir : ℕ
fixed_size_rreaddir = 4
