-- ===== src/FileMode.antt =====
-- p9/p9.go: file modes, their types and bits, the conversions from and to os.FileMode, and open flags.
pub mod Convert
use p.Base.{ℕ, Bool, true, false, ◌==◌, ◌||◌, not, bit_and, bit_or, if◌then◌else◌}
use p.Buffer.Fields.{permissions_mask}

-- Octal 170000, 140000, 120000, 100000, 60000, 40000, 20000, 10000.
abbrev pub file_mode_mask : ℕ
file_mode_mask = 61440

abbrev pub mode_socket : ℕ
mode_socket = 49152

abbrev pub mode_symlink : ℕ
mode_symlink = 40960

abbrev pub mode_regular : ℕ
mode_regular = 32768

abbrev pub mode_block_device : ℕ
mode_block_device = 24576

abbrev pub mode_directory : ℕ
mode_directory = 16384

abbrev pub mode_character_device : ℕ
mode_character_device = 8192

abbrev pub mode_named_pipe : ℕ
mode_named_pipe = 4096

-- Octal 777, 4000, 2000 and 1000.
abbrev pub all_permissions : ℕ
all_permissions = 511

abbrev pub setuid : ℕ
setuid = 2048

abbrev pub setgid : ℕ
setgid = 1024

abbrev pub sticky : ℕ
sticky = 512

unfoldable pub file_type : ℕ → ℕ
file_type m = bit_and m file_mode_mask

unfoldable pub permissions : ℕ → ℕ
permissions m = bit_and m permissions_mask

-- 0222, 0444 and 0111.
unfoldable pub writable : ℕ → ℕ
writable m = bit_or m 146

unfoldable pub is_readable : ℕ → Bool
is_readable m = not (bit_and m 292 == 0)

unfoldable pub is_writable : ℕ → Bool
is_writable m = not (bit_and m 146 == 0)

unfoldable pub is_executable : ℕ → Bool
is_executable m = not (bit_and m 73 == 0)

unfoldable pub is_regular : ℕ → Bool
is_regular m = bit_and m file_mode_mask == mode_regular

unfoldable pub is_dir : ℕ → Bool
is_dir m = bit_and m file_mode_mask == mode_directory

unfoldable pub is_named_pipe : ℕ → Bool
is_named_pipe m = bit_and m file_mode_mask == mode_named_pipe

unfoldable pub is_character_device : ℕ → Bool
is_character_device m = bit_and m file_mode_mask == mode_character_device

unfoldable pub is_block_device : ℕ → Bool
is_block_device m = bit_and m file_mode_mask == mode_block_device

unfoldable pub is_socket : ℕ → Bool
is_socket m = bit_and m file_mode_mask == mode_socket

unfoldable pub is_symlink : ℕ → Bool
is_symlink m = bit_and m file_mode_mask == mode_symlink

abbrev pub type_dir : ℕ
type_dir = 128

abbrev pub type_append_only : ℕ
type_append_only = 64

abbrev pub type_symlink : ℕ
type_symlink = 2

abbrev pub type_regular : ℕ
type_regular = 0

unfoldable pub qid_type : ℕ → ℕ
unfolding is_dir is_socket is_named_pipe is_character_device is_symlink
qid_type m =
    if is_dir m
    then type_dir
    else if is_socket m || is_named_pipe m || is_character_device m
    then type_append_only
    else if is_symlink m
    then type_symlink
    else type_regular

-- Bits of os.FileMode: ModeDir, ModeSymlink, ModeDevice, ModeNamedPipe, ModeSocket, ModeSetuid,
-- ModeSetgid, ModeCharDevice and ModeSticky.
abbrev pub os_dir : ℕ
os_dir = 2147483648

abbrev pub os_symlink : ℕ
os_symlink = 134217728

abbrev pub os_device : ℕ
os_device = 67108864

abbrev pub os_named_pipe : ℕ
os_named_pipe = 33554432

abbrev pub os_socket : ℕ
os_socket = 16777216

abbrev pub os_setuid : ℕ
os_setuid = 8388608

abbrev pub os_setgid : ℕ
os_setgid = 4194304

abbrev pub os_char_device : ℕ
os_char_device = 2097152

abbrev pub os_sticky : ℕ
os_sticky = 1048576

abbrev pub has : ℕ → ℕ → Bool
has mode bit = not (bit_and mode bit == 0)

-- m |= bit, if the test holds.
abbrev pub or_if : Bool → ℕ → ℕ → ℕ
or_if c bit m = if c then bit_or m bit else m

abbrev pub type_from_os : ℕ → ℕ
type_from_os mode =
    if has mode os_dir
    then mode_directory
    else if has mode os_symlink
    then mode_symlink
    else if has mode os_socket
    then mode_socket
    else if has mode os_named_pipe
    then mode_named_pipe
    else if has mode os_char_device
    then mode_character_device
    else if has mode os_device
    then mode_block_device
    else mode_regular

unfoldable pub mode_from_os : ℕ → ℕ
mode_from_os mode =
    let m = bit_or (bit_and mode all_permissions) (type_from_os mode) in
    let m = or_if (has mode os_setuid) setuid m in
    let m = or_if (has mode os_setgid) setgid m in or_if (has mode os_sticky) sticky m

-- The bits of a type; a regular file has none, nor has a type that is unknown.
abbrev pub type_to_os : ℕ → ℕ
type_to_os m =
    if is_dir m
    then os_dir
    else if is_symlink m
    then os_symlink
    else if is_socket m
    then os_socket
    else if is_named_pipe m
    then os_named_pipe
    else if is_character_device m
    then bit_or os_char_device os_device
    else if is_block_device m
    then os_device
    else 0

unfoldable pub os_mode : ℕ → ℕ
unfolding is_dir is_symlink is_socket is_named_pipe is_character_device is_block_device
os_mode m =
    let mode = bit_or (bit_and m all_permissions) (type_to_os m) in
    let mode = or_if (has m setuid) os_setuid mode in
    let mode = or_if (has m setgid) os_setgid mode in or_if (has m sticky) os_sticky mode

abbrev pub read_only : ℕ
read_only = 0

abbrev pub write_only : ℕ
write_only = 1

abbrev pub read_write : ℕ
read_write = 2

abbrev pub open_flags_mode_mask : ℕ
open_flags_mode_mask = 3

unfoldable pub open_mode : ℕ → ℕ
open_mode flags = bit_and flags open_flags_mode_mask
