-- ===== src/FileMode/Convert.antt =====
-- p9/p9.go: FileMode.OSMode and ModeFromOS, one after the other.
use p.Base.{ℕ, zero, suc, ◌+◌, ◌<◌, ◌≡◌, refl, Bool, true, false, ◌==◌, arith, ==_iff}
use p.FileMode.{
  mode_socket, mode_symlink, mode_regular, mode_block_device, mode_directory, mode_character_device,
  mode_named_pipe, os_mode, mode_from_os,
}

-- Every number below a bound passes a test.
all_below : ℕ → (ℕ → Bool) → Bool
all_below zero test = true
all_below (suc n) test = elim (test n) [ true ↦ all_below n test | false ↦ false ]

all_below-holds :
    (n : ℕ) (test : ℕ → Bool) (k : ℕ) → all_below n test ≡ true → k < n → test k ≡ true
unfolding all_below
all_below-holds zero test k h lt = absurd (omega arith)
all_below-holds (suc n) test k h lt = ground (arith, all_below-holds n test k)

abbrev back : ℕ → ℕ → Bool
back type k = mode_from_os (os_mode (type + k)) == type + k

-- The types of files that a mode may tell.
pub data FileKind : Type 0 where
  socket symlink regular block_device directory character_device named_pipe : FileKind

abbrev pub type_bits : FileKind → ℕ
type_bits socket = mode_socket
type_bits symlink = mode_symlink
type_bits regular = mode_regular
type_bits block_device = mode_block_device
type_bits directory = mode_directory
type_bits character_device = mode_character_device
type_bits named_pipe = mode_named_pipe

-- All permissions of a type, by evaluation.
table : (kind : FileKind) → all_below 4096 (back (type_bits kind)) ≡ true
unfolding all_below mode_from_os os_mode
table socket = refl
table symlink = refl
table regular = refl
table block_device = refl
table directory = refl
table character_device = refl
table named_pipe = refl

-- A mode of any of the seven types of files, with any of the twelve bits of permissions, is what
-- ModeFromOS makes of its OSMode: the types and setuid, setgid and sticky, which stand elsewhere in an
-- os.FileMode, are not lost or mixed up on the way.
pub mode_from_os-os_mode :
    (kind : FileKind) (permissions : ℕ)
    → permissions < 4096
    → mode_from_os (os_mode (type_bits kind + permissions)) ≡ type_bits kind + permissions
mode_from_os-os_mode kind permissions small =
    (==_iff _ _).0 (all_below-holds 4096 (back (type_bits kind)) permissions (table kind) small)
