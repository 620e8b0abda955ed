-- ===== src/Server.antt =====
-- p9/server.go: references to files with their counts, and the table of fids of a connection. References
-- are known by number, in the order in which they are made; `parent`, `refs` and the file are what
-- counts depend on, and a reference stands for its file. Each operation is one step, since its
-- change of a count is atomic and the table has a lock.
pub mod Owners
pub mod Counts
pub mod Open
pub mod Tags
use p.Base.{
  ℕ, zero, suc, ◌+◌, ◌-◌, List, [], ◌∷◌, Bool, true, false, Option, none, some, ◌==◌, if◌then◌else◌,
}

pub record FidRef : Type 0 where
  pub refs : ℕ
  pub parent : Option ℕ

-- The references, the table, and the references whose DecRef closed their file, the last one first.
pub record Server : Type 0 where
  pub fid_refs : ℕ → FidRef
  pub fids : List (ℕ × ℕ)
  pub closed : List ℕ

abbrev pub set_ref : ℕ → FidRef → (ℕ → FidRef) → ℕ → FidRef
set_ref r x f q = if q == r then x else f q

unfoldable pub inc_ref : ℕ → Server → Server
inc_ref r s = record s {
  fid_refs = set_ref r (record (s.fid_refs r) { refs = (s.fid_refs r).refs + 1 }) s.fid_refs;
}

unfoldable pub try_inc_ref : ℕ → Server → Bool × Server
unfolding inc_ref
try_inc_ref r s = if (s.fid_refs r).refs == 0 then (false, s) else (true, inc_ref r s)

-- DecRef at one reference. The file is closed with the last count, and then DecRef goes on at the
-- parent, which is what is returned. A count of 0 stays as it is here, where the source's would become
-- negative.
unfoldable pub dec_ref : ℕ → Server → Option ℕ × Server
dec_ref r s =
    let x = s.fid_refs r in
    let lower = set_ref r (record x { refs = x.refs - 1 }) s.fid_refs in
    if x.refs == 1
    then (x.parent, record s { fid_refs = lower; closed = r ∷ s.closed })
    else (none, record s { fid_refs = lower })

abbrev pub find_fid : ℕ → List (ℕ × ℕ) → Option ℕ
find_fid fid [] = none
find_fid fid ((f, r) ∷ fids) = if fid == f then some r else find_fid fid fids

-- A fid is in the table once, since `insert_fid` takes it out first.
abbrev pub drop_fid : ℕ → List (ℕ × ℕ) → List (ℕ × ℕ)
drop_fid fid [] = []
drop_fid fid ((f, r) ∷ fids) = if fid == f then fids else (f, r) ∷ drop_fid fid fids

unfoldable pub looked_up : Option ℕ → Server → Option ℕ × Server
unfolding inc_ref
looked_up none s = (none, s)
looked_up (some r) s = (some r, inc_ref r s)

unfoldable pub lookup_fid : ℕ → Server → Option ℕ × Server
unfolding looked_up
lookup_fid fid s = looked_up (find_fid fid s.fids) s

-- The reference that was in the slot is returned; the caller's DecRef of it follows.
unfoldable pub insert_fid : ℕ → ℕ → Server → Option ℕ × Server
unfolding inc_ref
insert_fid fid r s =
    let s' = inc_ref r s in
    (find_fid fid s.fids, record s' { fids = (fid, r) ∷ drop_fid fid s.fids })

-- The reference that is to be given back with DecRef; `none` is EBADF.
unfoldable pub delete_fid : ℕ → Server → Option ℕ × Server
delete_fid fid s = (find_fid fid s.fids, record s { fids = drop_fid fid s.fids })

-- A reference that a handler makes below another, or at a root.
unfoldable pub make_ref : ℕ → Option ℕ → Server → Server
make_ref r parent s = record s {
  fid_refs = set_ref r (record { refs = 1; parent = parent }) s.fid_refs;
}
