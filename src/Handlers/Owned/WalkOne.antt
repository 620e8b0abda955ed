-- ===== src/Handlers/Owned/WalkOne.antt =====
-- p9/handlers.go: what is owned around walkOne, and around the calls after which a file is closed on an
-- error.
use p.Base.{ℕ, List, ◌++◌, Bool, true, false, ◌==◌, ◌&&◌, not, ltb, length, if◌then◌else◌}
use p.Linux.{GoError, errno, einval, is_error, is_enosys}
use p.Types.Qid.{Qid}
use p.Types.AttrMask.{AttrMask, attr_mask_all}
use p.Handlers.{FileSystem, Outcome, done, failed, panicked, Walked}
use p.Handlers.State.{M, ConnState, call, fail_if}
use p.Handlers.Walk.{
  close_on_error, attr_or_close, mode_or_close, walk_plain, fall_through, walk_file, walk_one,
}
use p.Handlers.Owned.{
  Owned, Ends, Keeps, Keeps-bind, Keeps-then, Keeps-pure, Keeps-call, Keeps-fail_if,
}
use p.Handlers.Owned.Table.{settle-failed}

module _ {B : Type 0} (fs : FileSystem B) where
  closed_on-Ends :
      {A : Type 0} (file : ℕ) (X : List ℕ) (o : Outcome A × ConnState B)
      → Ends (λ (a : A). X) X o
      → Ends (λ (a : A). X) X (close_on_error fs file o)
  closed_on-Ends file X (done a, s) h = h
  closed_on-Ends {A} file X (failed e, s) h =
      settle-failed (λ (a : A). X) e X (call (fs.close file) s)
        ((Keeps-call (fs.close file)).keeps X s h)
  closed_on-Ends file X (panicked, s) h = h

  pub Keeps-attr_or_close : (sf : ℕ) → Keeps (attr_or_close fs sf)
  unfolding attr_or_close
  Keeps-attr_or_close sf = record {
    keeps = λ held s h.
        closed_on-Ends sf held (call (fs.get_attr sf attr_mask_all) s)
          ((Keeps-call (fs.get_attr sf attr_mask_all)).keeps held s h);
  }

  pub Keeps-mode_or_close : (sf : ℕ) (valid : AttrMask) → Keeps (mode_or_close fs sf valid)
  unfolding mode_or_close
  Keeps-mode_or_close sf valid = record {
    keeps = λ held s h.
        closed_on-Ends sf held (fail_if (not valid.mode) (errno einval) s)
          ((Keeps-fail_if (not valid.mode) (errno einval)).keeps held s h);
  }

  Keeps-walk_plain :
      (from : ℕ) (names : List (List ℕ)) (getattr : Bool) → Keeps (walk_plain fs from names getattr)
  unfolding walk_plain
  Keeps-walk_plain from names false = search (Keeps-bind, Keeps-call, Keeps-pure) depth 14
  Keeps-walk_plain from names true =
      search (Keeps-bind, Keeps-call, Keeps-attr_or_close, Keeps-pure) depth 14

  fall-Ends :
      (b : Bool) (e : GoError) (plain : M B Walked) (X : List ℕ) (s : ConnState B)
      → Keeps plain
      → Owned s X
      → Ends (λ (w : Walked). X) X (if b then plain s else (failed e, s))
  fall-Ends true e plain X s k h = k.keeps X s h
  fall-Ends false e plain X s k h = h

  fall_through-Ends :
      (plain : M B Walked) (X : List ℕ) (o : Outcome Walked × ConnState B)
      → Keeps plain
      → Ends (λ (w : Walked). X) X o
      → Ends (λ (w : Walked). X) X (fall_through fs plain o)
  fall_through-Ends plain X (done w, s) k h = h
  fall_through-Ends plain X (failed e, s) k h = fall-Ends (is_error is_enosys e) e plain X s k h
  fall_through-Ends plain X (panicked, s) k h = h

  Keeps-walk_file :
      (from : ℕ) (names : List (List ℕ)) (getattr : Bool) → Keeps (walk_file fs from names getattr)
  unfolding walk_file
  Keeps-walk_file from names false = Keeps-walk_plain from names false
  Keeps-walk_file from names true = record {
    keeps = λ held s h.
        fall_through-Ends (walk_plain fs from names true) held
          (call (fs.walk_get_attr from names) s) (Keeps-walk_plain from names true)
          ((Keeps-call (fs.walk_get_attr from names)).keeps held s h);
  }

  counted-Ends :
      (b : Bool) (w w' : Walked) (X : List ℕ) (s : ConnState B)
      → Owned s X
      → Ends
          (λ (v : Walked). X)
          X
          (if b then close_on_error fs w.file (failed (errno einval), s) else (done w', s))
  counted-Ends true w w' X s h = closed_on-Ends {A = Walked} w.file X (failed (errno einval), s) h
  counted-Ends false w w' X s h = h

  pub Keeps-walk_one :
      (qids : List Qid) (from : ℕ) (names : List (List ℕ)) (getattr : Bool)
      → Keeps (walk_one fs qids from names getattr)
  unfolding walk_one
  Keeps-walk_one qids from names getattr =
      Keeps-then (Keeps-fail_if (ltb 1 (length names)) (errno einval)) (
        Keeps-bind (Keeps-walk_file from names getattr) λ w. record {
          keeps = λ held s h.
              counted-Ends ((length names == 1) && not (length w.qids == 1)) w
                (record w { qids = qids ++ w.qids }) held s h;
        })
