-- ===== src/Types/Dirent.antt =====
-- Dirent of p9/p9.go: an entry of a directory listing.
use p.Base.{ℕ, List, [], ◌∷◌, if◌then◌else◌}
use p.Buffer.{Reader, Writer, ◌>>=◌, ◌>>◌, pure, read64, write64}
use p.Buffer.Fields.{read_qid_type, read_string, write_qid_type, write_string}
use p.Types.Qid.{Qid, decode_qid, encode_qid}
use p.Base.Bytes.{same_bytes}
use p.Base.{Option, none, some}

pub record Dirent : Type 0 where
  pub qid : Qid
  pub offset : ℕ
  pub type : ℕ
  pub name : List ℕ

unfoldable pub decode_dirent : Reader Dirent
decode_dirent = do
  qid ← decode_qid
  offset ← read64
  type ← read_qid_type
  name ← read_string
  pure (record { qid = qid; offset = offset; type = type; name = name })

unfoldable pub encode_dirent : Dirent → Writer
encode_dirent d = do encode_qid d.qid; write64 d.offset; write_qid_type d.type; write_string d.name

unfoldable pub find : List ℕ → List Dirent → Option Dirent
find name [] = none
find name (dir ∷ rest) = if same_bytes dir.name name then some dir else find name rest
