-- ===== src/Handlers/Xattrs.antt =====
-- p9/handlers.go: an extended attribute that is created, written in chunks, and set by Tclunk.
pub mod Clunk
pub mod Set
use mathlib.Core.Path.{fun_ext}
use p.Base.{
  Bool-cases, inl, inr, ℕ, ◌+◌, ◌%◌, ◌^◌, ◌<◌, ◌≤◌, ◌≡◌, ◌≢◌, refl, sym, ap, ◌∙◌, List, [], ◌∷◌,
  ◌++◌, append_assoc, append-nil, length, length-append, Bool, true, false, Option, none, some,
  ◌==◌, ltb, not, ◌&&◌, if◌then◌else◌, arith, ==_iff, ==_refl, le→ltb, ≢→==,
}
use p.Linux.{errno, einval}
use p.Server.{find_fid, inc_ref}
use p.Messages.Message
use p.Messages.Message.{Message}
use p.Messages.Payload.{Twrite}
use p.Messages.Transfer.{Rwrite}
use p.Messages.Attributes.{Txattrcreate, Rxattrcreate}
use p.Handlers.{FileSystem, Outcome, done, failed}
use p.Handlers.State.{
  M, ConnState, Details, PendingXattr, XattrOp, xattr_create, called, set_details, set_at, next,
  pure,
}
use p.Handlers.Refs.{set_server}
use p.Handlers.Names.{is_deleted, guard_live}
use p.Handlers.Transfer.{append_buf, append_xattr, write_by, twrite_over, handle_twrite}
use p.Handlers.Xattr.{
  start_xattr, set_pending, clunk_over, txattrcreate_over, clunk_handle_xattr, handle_txattrcreate,
  xattr_replace,
}
use p.Handlers.Dispatch.{handler, handle, answered}
use p.Handlers.Lookup.{with_fid-still}
use p.Handlers.Owned.Handled.{serve}

abbrev pub concat : List (List ℕ) → List ℕ
concat [] = []
concat (c ∷ cs) = c ++ concat cs

-- The requests that write chunks one after the other.
abbrev pub twrites : ℕ → ℕ → List (List ℕ) → List Message
twrites fid offset [] = []
twrites fid offset (c ∷ cs) =
    Message.twrite (record { fid = fid; offset = offset; content = c })
    ∷ twrites fid (offset + length c) cs

nested :
    {A : Type 0} (b : Bool) (x y z : A)
    → (if b then x else (if b then y else z)) ≡ (if b then x else z)
nested true x y z = refl
nested false x y z = refl

set_at-set_at :
    {A : Type 0} (r : ℕ) (x y : A) (f : ℕ → A) → set_at r x (set_at r y f) ≡ set_at r x f
set_at-set_at r x y f = fun_ext λ q. nested (q == r) x y (f q)

set_at-same : {A : Type 0} (r : ℕ) (f : ℕ → A) → set_at r (f r) f ≡ f
set_at-same r f = fun_ext λ q. elim (Bool-cases (q == r)) [
  | inl here ↦ rw here (ap f (sym ((==_iff q r).0 here)))
  | inr other ↦ rw other refl
]

pub set_at-here : {A : Type 0} (r : ℕ) (x : A) (f : ℕ → A) → set_at r x f r ≡ x
set_at-here r x f = rw (==_refl r) refl

-- What Txattrcreate makes pending.
abbrev pub started : Txattrcreate → PendingXattr
started t = record {
  op = xattr_create;
  name = t.name;
  size = t.attr_size;
  flags = t.flags;
  buf = [];
}

module _ {B : Type 0} where
  abbrev pub pending : ConnState B → ℕ → PendingXattr
  pending s r = (s.details r).pending_xattr

  abbrev pub with_pending : ℕ → PendingXattr → ConnState B → ConnState B
  with_pending r x s = set_details r (record (s.details r) { pending_xattr = x }) s

  pub pending-set :
      (r : ℕ) (x : PendingXattr) (s : ConnState B) → pending (with_pending r x s) r ≡ x
  pending-set r x s = rw (pending, ==_refl r) refl

  pub file-set :
      (r : ℕ) (x : PendingXattr) (s : ConnState B)
      → ((with_pending r x s).details r).file ≡ (s.details r).file
  file-set r x s = rw (==_refl r) refl

  module _ (fs : FileSystem B) where
    appends :
        (t : Twrite) (r : ℕ) (s : ConnState B)
        → (pending s r).op ≡ xattr_create
        → length (pending s r).buf ≡ t.offset
        → t.offset + length t.content ≤ (pending s r).size
        → (pending s r).size < 2 ^ 64
        → twrite_over fs t r s ≡ (
          done (record { count = length t.content % 2 ^ 32 }),
          with_pending r (record (pending s r) { buf = (pending s r).buf ++ t.content }) s,
        )
    unfolding twrite_over write_by append_xattr append_buf
    appends t r s op at_end fits bound =
        let start : (length (pending s r).buf == t.offset) ≡ true = (==_iff _ _).1 at_end in
        let wraps : (t.offset + length t.content) % 2 ^ 64 ≡ t.offset + length t.content =
          omega arith in
        let room : ltb (pending s r).size ((t.offset + length t.content) % 2 ^ 64) ≡ false =
          rw wraps (le→ltb _ _ fits) in
        rw (op, write_by, start, room) refl

  -- The state after a text was appended to what is written.
  abbrev pub filled : ℕ → List ℕ → ConnState B → ConnState B
  filled r c s = with_pending r (record (pending s r) { buf = (pending s r).buf ++ c }) s

  filled-nil : (r : ℕ) (s : ConnState B) → filled r [] s ≡ s
  filled-nil r s =
      rw (append-nil (pending s r).buf)
        (ap (λ (f : ℕ → Details). record s { details = f }) (set_at-same r s.details))

  filled-filled :
      (r : ℕ) (c d : List ℕ) (s : ConnState B) → filled r d (filled r c s) ≡ filled r (c ++ d) s
  filled-filled r c d s =
      let old = s.details r in
      let first : Details = record old {
        pending_xattr = record old.pending_xattr { buf = old.pending_xattr.buf ++ c };
      } in
      let more : Details → Details = λ x. record x {
        pending_xattr = record x.pending_xattr { buf = x.pending_xattr.buf ++ d };
      } in
      let details = set_at r first s.details in
      ap (λ (x : Details). record s { details = set_at r (more x) details })
        (set_at-here r first s.details)
      ∙ (ap (λ (f : ℕ → Details). record s { details = f })
            (set_at-set_at r (more first) first s.details)
          ∙ ap (λ (b : List ℕ). with_pending r (record (pending s r) { buf = b }) s)
              (append_assoc (pending s r).buf c d))

  pub filled-pending :
      (r : ℕ) (c : List ℕ) (s : ConnState B)
      → pending (filled r c s) r ≡ record (pending s r) { buf = (pending s r).buf ++ c }
  filled-pending r c s = pending-set r (record (pending s r) { buf = (pending s r).buf ++ c }) s

  module _ (fs : FileSystem B) (fid r : ℕ) where
    handle-appends :
        (offset : ℕ) (c : List ℕ) (s : ConnState B)
        → find_fid fid s.server.fids ≡ some r
        → 0 < (s.server.fid_refs r).refs
        → (pending s r).op ≡ xattr_create
        → length (pending s r).buf ≡ offset
        → offset + length c ≤ (pending s r).size
        → (pending s r).size < 2 ^ 64
        → (handle fs (Message.twrite (record { fid = fid; offset = offset; content = c })) s).1
          ≡ filled r c s
    unfolding handle handler handle_twrite
    handle-appends offset c s found pos op at_end fits bound =
        let t : Twrite = record { fid = fid; offset = offset; content = c } in
        ap (λ o. (answered (next (λ (w : Rwrite). pure (Message.rwrite w)) o)).1)
          (with_fid-still fs fid r (twrite_over fs t) s
            (filled r c (set_server (inc_ref r s.server) s))
            (done (record { count = length c % 2 ^ 32 })) found pos
            (appends fs t r (set_server (inc_ref r s.server) s) op at_end fits bound) refl)

    pub serve-twrites :
        (offset : ℕ) (cs : List (List ℕ)) (s : ConnState B)
        → find_fid fid s.server.fids ≡ some r
        → 0 < (s.server.fid_refs r).refs
        → (pending s r).op ≡ xattr_create
        → length (pending s r).buf ≡ offset
        → offset + length (concat cs) ≤ (pending s r).size
        → (pending s r).size < 2 ^ 64
        → serve fs (twrites fid offset cs) s ≡ filled r (concat cs) s
    serve-twrites offset [] s found pos op at_end fits bound = sym (filled-nil r s)
    serve-twrites offset (c ∷ cs) s found pos op at_end fits bound =
        let now = filled-pending r c s in
        let total = length-append c (concat cs) in
        let same_size = ap (λ (x : PendingXattr). x.size) now in
        ap (serve fs (twrites fid (offset + length c) cs))
          (handle-appends offset c s found pos op at_end (omega (arith, total)) bound)
        ∙ (serve-twrites (offset + length c) cs (filled r c s) found pos
              (ap (λ (x : PendingXattr). x.op) now ∙ op)
              (ap (λ (x : PendingXattr). length x.buf) now
                ∙ (length-append (pending s r).buf c ∙ ap (λ n. n + length c) at_end))
              (omega (arith, total, same_size)) (omega (arith, same_size))
            ∙ filled-filled r c (concat cs) s)

    pub handle-creates :
        (t : Txattrcreate) (s : ConnState B)
        → t.fid ≡ fid
        → find_fid fid s.server.fids ≡ some r
        → 0 < (s.server.fid_refs r).refs
        → is_deleted s r ≡ false
        → (handle fs (Message.txattrcreate t) s).1 ≡ with_pending r (started t) s
    unfolding handle handler handle_txattrcreate txattrcreate_over guard_live start_xattr
    handle-creates t s is_fid found pos alive =
        ap (λ o. (answered (next (λ (w : Rxattrcreate). pure (Message.rxattrcreate w)) o)).1)
          (with_fid-still fs t.fid r (txattrcreate_over fs t) s
            (with_pending r (started t) (set_server (inc_ref r s.server) s)) (done (record {}))
            (ap (λ f. find_fid f s.server.fids) is_fid ∙ found) pos (rw alive refl) refl)
