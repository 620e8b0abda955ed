-- ===== src/Buffer/Fields.antt =====
-- p9/buffer.go: the methods for the typed fields of messages, strings, and the loops over counted
-- lists that p9/messages.go writes out in each message.
use p.Base.{ℕ, zero, suc, ◌%◌, ◌^◌, bit_and, List, [], ◌∷◌, ◌++◌, if◌then◌else◌, length}
use p.Buffer.{
  Reader, Writer, ◌>>=◌, ◌>>◌, pure, skip, has, mark_overrun, read8, read16, read32, write8,
  write16, write32,
}

-- permissionsMask of p9/p9.go
abbrev pub permissions_mask : ℕ
permissions_mask = 0o7777

unfoldable pub read_qid_type : Reader ℕ
read_qid_type = read8

unfoldable pub read_tag : Reader ℕ
read_tag = read16

-- `fid` is a uint64 in memory and 32 bits wide in a message.
unfoldable pub read_fid : Reader ℕ
read_fid = read32

unfoldable pub read_uid : Reader ℕ
read_uid = read32

unfoldable pub read_gid : Reader ℕ
read_gid = read32

unfoldable pub read_file_mode : Reader ℕ
read_file_mode = read32

unfoldable pub read_permissions : Reader ℕ
unfolding read_file_mode
read_permissions = do m ← read_file_mode; pure (bit_and m permissions_mask)

unfoldable pub read_open_flags : Reader ℕ
read_open_flags = read32

unfoldable pub read_msg_type : Reader ℕ
read_msg_type = read8

-- for i := 0; i < n; i++ { xs = append(xs, …) }
unfoldable pub read_list {ℓ} : {A : Type ℓ} → Reader A → ℕ → Reader (List A)
read_list r zero = pure []
read_list r (suc n) = do x ← r; xs ← read_list r n; pure (x ∷ xs)

-- xs = xs[:0], in a message that was used before
abbrev pub emptied {ℓ} : {A : Type ℓ} → List A → List A
emptied xs = []

-- The same loop, where it appends to what is in the message.
unfoldable pub read_onto {ℓ} : {A : Type ℓ} → Reader A → ℕ → List A → Reader (List A)
unfolding read_list
read_onto r n xs b = let (ys, b') = read_list r n b in (xs ++ ys, b')

unfoldable pub read_string : Reader (List ℕ)
unfolding read_list
read_string b =
    let (l, b') = read16 b in if has l b' then read_list read8 l b' else ([], mark_overrun b')

unfoldable pub write_qid_type : ℕ → Writer
write_qid_type t = write8 t

unfoldable pub write_tag : ℕ → Writer
write_tag t = write16 t

unfoldable pub write_fid : ℕ → Writer
write_fid f = write32 (f % 2 ^ 32)

unfoldable pub write_uid : ℕ → Writer
write_uid u = write32 u

unfoldable pub write_gid : ℕ → Writer
write_gid g = write32 g

unfoldable pub write_file_mode : ℕ → Writer
write_file_mode m = write32 m

unfoldable pub write_permissions : ℕ → Writer
unfolding write_file_mode
write_permissions perm = write_file_mode (bit_and perm permissions_mask)

unfoldable pub write_open_flags : ℕ → Writer
write_open_flags f = write32 f

unfoldable pub write_msg_type : ℕ → Writer
write_msg_type t = write8 t

-- for _, x := range xs { … }
unfoldable pub write_list {ℓ} : {A : Type ℓ} → (A → Writer) → List A → Writer
write_list w [] = skip
write_list w (x ∷ xs) = do w x; write_list w xs

unfoldable pub write_string : List ℕ → Writer
unfolding write_list
write_string s = do write16 (length s % 2 ^ 16); write_list write8 s
