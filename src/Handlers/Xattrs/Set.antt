-- ===== src/Handlers/Xattrs/Set.antt =====
-- p9/handlers.go: what Tclunk makes of an extended attribute that was created and written.
use p.Base.{
  ℕ, ◌^◌, ◌<◌, ◌≤◌, ◌≡◌, refl, sym, ap, ◌∙◌, List, ◌∷◌, ◌++◌, length, false, some, ◌==◌,
  if◌then◌else◌, arith, Bool-cases, inl, inr, ==_iff,
}
use p.Linux.{errno, einval}
use p.Server.{find_fid}
use p.Messages.Message
use p.Messages.Attributes.{Txattrcreate}
use p.Handlers.{FileSystem, failed}
use p.Handlers.State.{ConnState, PendingXattr, called}
use p.Handlers.Names.{is_deleted}
use p.Handlers.Xattr.{clunk_handle_xattr}
use p.Handlers.Owned.Handled.{serve}
use p.Handlers.Xattrs.{
  concat, twrites, started, pending, with_pending, filled, filled-pending, file-set, pending-set,
  serve-twrites, handle-creates,
}
use p.Handlers.Xattrs.Clunk.{clunk-sets}

eq_test : (n k : ℕ) → (n == k) ≡ false → n ≡ k → ⊥
eq_test n k no_eq e = ground (arith, no_eq, e)

module _ {B : Type 0} (fs : FileSystem B) where
  -- The requests that create an attribute and write it.
  abbrev pub written : Txattrcreate → List (List ℕ) → ConnState B → ConnState B
  written t cs s = serve fs (Message.txattrcreate t ∷ twrites t.fid 0 cs) s

  -- Let a fid of the table, whose reference has a count and is not deleted, get a Txattrcreate of a size
  -- above 0 and below 2 ^ 64, and then any number of Twrites that follow each other from offset 0 and go
  -- no further than that size. Then Tclunk's part for the attribute asks the file once, by SetXattr, for the
  -- name, the flags and all that was written, in its order, if that is as long as the size; and
  -- otherwise it is EINVAL, and the file is not asked.
  pub clunk_handle_xattr-written :
      (t : Txattrcreate) (r : ℕ) (cs : List (List ℕ)) (s : ConnState B)
      → find_fid t.fid s.server.fids ≡ some r
      → 0 < (s.server.fid_refs r).refs
      → is_deleted s r ≡ false
      → 0 < t.attr_size
      → t.attr_size < 2 ^ 64
      → length (concat cs) ≤ t.attr_size
      → clunk_handle_xattr fs t.fid (written t cs s) ≡ (
          if length (concat cs) == t.attr_size
          then called
              (fs.set_xattr (s.details r).file t.name (concat cs) t.flags s.files)
              (written t cs s)
          else (failed (errno einval), written t cs s))
  clunk_handle_xattr-written t r cs s found pos alive some_size bound fits =
      let first = with_pending r (started t) s in
      let last = filled r (concat cs) first in
      let start = pending-set r (started t) s in
      let now : pending last r ≡ record (started t) { buf = concat cs } =
        filled-pending r (concat cs) first
        ∙ ap (λ (x : PendingXattr). record x { buf = x.buf ++ concat cs }) start in
      let start_size = ap (λ (x : PendingXattr). x.size) start in
      let now_size = ap (λ (x : PendingXattr). x.size) now in
      let served : written t cs s ≡ last =
        ap (serve fs (twrites t.fid 0 cs)) (handle-creates fs t.fid r t s refl found pos alive)
        ∙ serve-twrites fs t.fid r 0 cs first found pos (ap (λ (x : PendingXattr). x.op) start)
            (ap (λ (x : PendingXattr). length x.buf) start) (omega (arith, start_size, fits))
            (omega (arith, start_size, bound)) in
      let sets =
        clunk-sets fs t.fid r last found pos (ap (λ (x : PendingXattr). x.op) now)
          (omega (arith, now_size, some_size)) in
      let long = ap (λ (x : PendingXattr). length x.buf) now in
      ap (clunk_handle_xattr fs t.fid) served
      ∙ elim (Bool-cases (length (concat cs) == t.attr_size)) [
        | inl whole ↦
            let all = (==_iff (length (concat cs)) t.attr_size).0 whole in
            rw whole (
              sets.0 (long ∙ (all ∙ sym (now_size)))
              ∙ (ap
                    (λ (x : PendingXattr).
                      called (fs.set_xattr (last.details r).file x.name x.buf x.flags last.files)
                        last)
                    now
                  ∙ (ap
                        (λ (file : ℕ).
                          called (fs.set_xattr file t.name (concat cs) t.flags s.files) last)
                        (file-same t r cs s)
                      ∙ ap
                          (λ (s' : ConnState B).
                            called
                              (fs.set_xattr (s.details r).file t.name (concat cs) t.flags s.files)
                              s')
                          (sym served))))
        | inr part ↦ rw part (
            sets.1 (λ e. eq_test (length (concat cs)) t.attr_size part (sym long ∙ (e ∙ now_size)))
            ∙ ap (λ (s' : ConnState B). (failed (errno einval), s')) (sym served))
      ]
    where
      file-same :
          (t : Txattrcreate) (r : ℕ) (cs : List (List ℕ)) (s : ConnState B)
          → ((filled r (concat cs) (with_pending r (started t) s)).details r).file
            ≡ (s.details r).file
      file-same t r cs s =
          let first = with_pending r (started t) s in
          file-set r (record (pending first r) { buf = (pending first r).buf ++ concat cs }) first
          ∙ file-set r (started t) s
