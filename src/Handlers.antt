-- ===== src/Handlers.antt =====
-- p9/server.go and p9/handlers.go: the state that the handlers of a connection share, the interface
-- File of p9/file.go as a parameter, and how a handler stops, by an answer, an error or a panic.
pub mod State
pub mod Refs
pub mod Names
pub mod Make
pub mod Access
pub mod Transfer
pub mod Xattr
pub mod Remove
pub mod Walk
pub mod Rename
pub mod Dispatch
pub mod Owned
pub mod Requests
pub mod Refusals
pub mod Lookup
pub mod Directories
pub mod Xattrs
pub mod Permissions
use p.Base.{ℕ, List, Option, ℤ}
use p.Linux.{GoError}
use p.Types.Qid.{Qid, FsStat}
use p.Types.Attr.{Attr, SetAttr}
use p.Types.AttrMask.{AttrMask}
use p.Types.SetAttrMask.{SetAttrMask}
use p.Types.Dirent.{Dirent}

-- How a call ends.
pub data Outcome (A : Type 0) : Type 0 where
  done : A → Outcome A
  failed : GoError → Outcome A
  panicked : Outcome A

-- What File.Walk and File.WalkGetAttr give: the QIDs and the file, and for the second what it found.
pub record Walked : Type 0 where
  pub qids : List Qid
  pub file : ℕ
  pub valid : AttrMask
  pub attr : Attr

-- Attacher and File, over what the file system keeps: files are known by number. Texts and contents
-- are lists of bytes, offsets of ReadAt and WriteAt are int64, and ReadAt and Readdir, whose error may
-- come with a result, give both. Renamed gives no error in the source, so `failed` of `renamed` stands for
-- nothing that happens there.
pub record FileSystem (B : Type 0) : Type 0 where
  pub attach : B → Outcome ℕ × B
  pub walk : ℕ → List (List ℕ) → B → Outcome (List Qid × ℕ) × B
  pub walk_get_attr : ℕ → List (List ℕ) → B → Outcome Walked × B
  pub stat_fs : ℕ → B → Outcome FsStat × B
  pub get_attr : ℕ → AttrMask → B → Outcome (Qid × AttrMask × Attr) × B
  pub set_attr : ℕ → SetAttrMask → SetAttr → B → Outcome (Unit {0}) × B
  pub close : ℕ → B → Outcome (Unit {0}) × B
  pub open_file : ℕ → ℕ → B → Outcome (Qid × ℕ) × B
  pub read_at : ℕ → ℕ → ℤ → B → Outcome (List ℕ × Option GoError) × B
  pub write_at : ℕ → List ℕ → ℤ → B → Outcome ℕ × B
  pub set_xattr : ℕ → List ℕ → List ℕ → ℕ → B → Outcome (Unit {0}) × B
  pub get_xattr : ℕ → List ℕ → B → Outcome (List ℕ) × B
  pub list_xattrs : ℕ → B → Outcome (List (List ℕ)) × B
  pub remove_xattr : ℕ → List ℕ → B → Outcome (Unit {0}) × B
  pub f_sync : ℕ → B → Outcome (Unit {0}) × B
  pub lock : ℕ → ℕ → ℕ → ℕ → ℕ → ℕ → List ℕ → B → Outcome ℕ × B
  pub create : ℕ → List ℕ → ℕ → ℕ → ℕ → ℕ → B → Outcome (ℕ × Qid × ℕ) × B
  pub mkdir : ℕ → List ℕ → ℕ → ℕ → ℕ → B → Outcome Qid × B
  pub symlink : ℕ → List ℕ → List ℕ → ℕ → ℕ → B → Outcome Qid × B
  pub link : ℕ → ℕ → List ℕ → B → Outcome (Unit {0}) × B
  pub mknod : ℕ → List ℕ → ℕ → ℕ → ℕ → ℕ → ℕ → B → Outcome Qid × B
  pub rename_at : ℕ → List ℕ → ℕ → List ℕ → B → Outcome (Unit {0}) × B
  pub unlink_at : ℕ → List ℕ → ℕ → B → Outcome (Unit {0}) × B
  pub readdir : ℕ → ℕ → ℕ → B → Outcome (List Dirent × Option GoError) × B
  pub readlink : ℕ → B → Outcome (List ℕ) × B
  pub renamed : ℕ → ℕ → List ℕ → B → Outcome (Unit {0}) × B
