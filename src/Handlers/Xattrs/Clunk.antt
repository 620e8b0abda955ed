-- ===== src/Handlers/Xattrs/Clunk.antt =====
-- p9/handlers.go: Tclunk of an extended attribute that is created.
use p.Base.{
  ℕ, ◌<◌, ◌≡◌, ◌≢◌, refl, length, Bool, true, false, some, ◌==◌, ◌&&◌, arith, ==_iff, ≢→==,
}
use p.Linux.{errno, einval}
use p.Server.{find_fid, inc_ref}
use p.Handlers.{FileSystem, failed}
use p.Handlers.State.{ConnState, xattr_create, called}
use p.Handlers.Refs.{set_server}
use p.Handlers.Xattr.{set_pending, clunk_over, clunk_handle_xattr, xattr_replace}
use p.Handlers.Lookup.{with_fid-still}
use p.Handlers.Xattrs.{pending}

and_false : (b : Bool) {c : Bool} → c ≡ false → (b && c) ≡ false
and_false true e = e
and_false false e = refl

module _ {B : Type 0} (fs : FileSystem B) (fid r : ℕ) where
  -- Tclunk's part for the attribute, where one is created.
  clunk_over-sets :
      (s : ConnState B)
      → (pending s r).op ≡ xattr_create
      → 0 < (pending s r).size
      → (length (pending s r).buf ≡ (pending s r).size
          → clunk_over fs r s
            ≡ called
                (fs.set_xattr
                  (s.details r).file
                  (pending s r).name
                  (pending s r).buf
                  (pending s r).flags
                  s.files)
                s)
        × (length (pending s r).buf ≢ (pending s r).size
            → clunk_over fs r s ≡ (failed (errno einval), s))
  unfolding clunk_over set_pending
  clunk_over-sets s op some_size =
      let not_empty : ((pending s r).size == 0) ≡ false =
        ≢→== (pending s r).size 0 (λ e. absurd (omega (arith, e, some_size))) in
      (
        λ whole.
            let test : (length (pending s r).buf == (pending s r).size) ≡ true =
              (==_iff _ _).1 whole in
            let keeps = and_false ((pending s r).flags == xattr_replace) not_empty in
            rw (op, set_pending, test, keeps) refl,
        λ part.
            let test : (length (pending s r).buf == (pending s r).size) ≡ false =
              ≢→== (length (pending s r).buf) (pending s r).size part in
            rw (op, set_pending, test) refl,
      )

  pub clunk-sets :
      (s : ConnState B)
      → find_fid fid s.server.fids ≡ some r
      → 0 < (s.server.fid_refs r).refs
      → (pending s r).op ≡ xattr_create
      → 0 < (pending s r).size
      → (length (pending s r).buf ≡ (pending s r).size
          → clunk_handle_xattr fs fid s
            ≡ called
                (fs.set_xattr
                  (s.details r).file
                  (pending s r).name
                  (pending s r).buf
                  (pending s r).flags
                  s.files)
                s)
        × (length (pending s r).buf ≢ (pending s r).size
            → clunk_handle_xattr fs fid s ≡ (failed (errno einval), s))
  unfolding clunk_handle_xattr
  clunk-sets s found pos op some_size =
      let held = set_server (inc_ref r s.server) s in
      let (all, none_of_it) = clunk_over-sets held op some_size in
      (
        λ whole.
            let asked =
              called
                (fs.set_xattr (s.details r).file (pending s r).name (pending s r).buf
                  (pending s r).flags s.files)
                held in
            with_fid-still fs fid r (clunk_over fs) s asked.1 asked.0 found pos (all whole) refl,
        λ part.
            with_fid-still fs fid r (clunk_over fs) s held (failed (errno einval)) found pos
              (none_of_it part) refl,
      )
