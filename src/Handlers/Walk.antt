-- ===== src/Handlers/Walk.antt =====
-- p9/handlers.go: walks, by Twalk and Twalkgetattr, and Tattach.
use p.Base.{
  ℕ, List, [], ◌∷◌, ◌++◌, Bool, true, false, Option, none, some, ◌==◌, ◌&&◌, not, ltb, length,
  if◌then◌else◌,
}
use p.Linux.{errno, einval, enoent, ebusy, is_error, is_enosys}
use p.FileMode.{is_dir, file_type}
use p.Types.Qid.{Qid}
use p.Types.Attr.{Attr}
use p.Types.AttrMask.{AttrMask, attr_mask_all}
use p.Messages.Message.Blank.Zero.{zero_attr, zero_attr_mask}
use p.Messages.Session.{Tattach, Rattach}
use p.Messages.Walk.{Twalk, Rwalk, Twalkgetattr, Rwalkgetattr}
use p.Handlers.{FileSystem, Outcome, done, failed, panicked, Walked}
use p.Handlers.State.{
  M, ConnState, Details, no_pending_xattr, pure, fail_if, gets, call, settle, deferring, ◌>>=◌,
  ◌>>◌,
}
use p.Handlers.Refs.{with_fid, install, release, retain, new_ref}
use p.Handlers.Names.{check_safe_name, is_deleted, file_of}
use p.Handlers.Make.{child_path_node, add_child_ref}
use p.Handlers.Remove.{name_of}

-- math.MaxUint32
abbrev pub no_fid : ℕ
no_fid = 4294967295

-- strings.Split(text, "/")
abbrev pub before_first : ℕ → List (List ℕ) → List (List ℕ)
before_first c [] = (c ∷ []) ∷ []
before_first c (part ∷ parts) = (c ∷ part) ∷ parts

abbrev pub split_path : List ℕ → List (List ℕ)
split_path [] = [] ∷ []
split_path (c ∷ text) = if c == 47 then [] ∷ split_path text else before_first c (split_path text)

-- path.IsAbs, and the text without its first byte.
abbrev pub trim_slash : List ℕ → List ℕ
trim_slash [] = []
trim_slash (c ∷ text) = if c == 47 then text else c ∷ text

module _ {B : Type 0} where
  unfoldable pub check_names : List (List ℕ) → M B (Unit {0})
  unfolding check_safe_name
  check_names [] = pure tt
  check_names (name ∷ names) = check_safe_name name >> check_names names

  -- if ref.opened && t.fid == t.newFID { return EBUSY }
  unfoldable pub guard_busy : ℕ → ℕ → ℕ → M B (Unit {0})
  guard_busy r fid new_fid s = fail_if ((s.details r).opened && (fid == new_fid)) (errno ebusy) s

  -- The new reference of a walk without names is a child of the same parent, by the same name, unless
  -- it is deleted.
  abbrev pub join_parent : ℕ → ℕ → Option ℕ → Bool → M B (Unit {0})
  join_parent r child none deleted s = (done tt, s)
  join_parent r child (some q) true s = retain q s
  join_parent r child (some q) false s =
      ((name_of r q >>= λ name. add_child_ref q child name) >> retain q) s

  unfoldable pub clone_child : ℕ → Details → M B ℕ
  unfolding name_of add_child_ref retain new_ref
  clone_child r d s =
      let parent = (s.server.fid_refs r).parent in
      (join_parent r s.made parent (is_deleted s r) >> new_ref parent d) s

  -- The handler's count of `r` becomes that of the new reference below it.
  unfoldable pub walk_child : ℕ → List ℕ → Details → M B ℕ
  unfolding add_child_ref new_ref
  walk_child r name d s = (add_child_ref r s.made name >> new_ref (some r) d) s

  module _ (fs : FileSystem B) where
    -- sf.Close() before an error is returned; its own error is not looked at.
    abbrev pub close_on_error : {A : Type 0} → ℕ → Outcome A × ConnState B → Outcome A × ConnState B
    close_on_error file (done a, s) = (done a, s)
    close_on_error file (failed e, s) = settle (failed e) (call (fs.close file) s)
    close_on_error file (panicked, s) = (panicked, s)

    -- sf.GetAttr(AttrMaskAll), and sf.Close() after an error.
    unfoldable pub attr_or_close : ℕ → M B (Qid × AttrMask × Attr)
    attr_or_close sf s = close_on_error sf (call (fs.get_attr sf attr_mask_all) s)

    -- if !valid.Mode { sf.Close(); return EINVAL }
    unfoldable pub mode_or_close : ℕ → AttrMask → M B (Unit {0})
    mode_or_close sf valid s = close_on_error sf (fail_if (not valid.mode) (errno einval) s)

    -- File.Walk, and GetAttr if attributes are asked for.
    unfoldable pub walk_plain : ℕ → List (List ℕ) → Bool → M B Walked
    unfolding attr_or_close
    walk_plain from names false = do
      (qids, sf) ← call (fs.walk from names)
      pure (record { qids = qids; file = sf; valid = zero_attr_mask; attr = zero_attr })
    walk_plain from names true = do
      (qids, sf) ← call (fs.walk from names)
      (qid, valid, attr) ← attr_or_close sf
      pure (record { qids = qids; file = sf; valid = valid; attr = attr })

    -- After WalkGetAttr, an error that is or wraps ENOSYS falls through.
    abbrev pub fall_through :
        M B Walked → Outcome Walked × ConnState B → Outcome Walked × ConnState B
    fall_through plain (done w, s) = (done w, s)
    fall_through plain (failed e, s) = if is_error is_enosys e then plain s else (failed e, s)
    fall_through plain (panicked, s) = (panicked, s)

    unfoldable pub walk_file : ℕ → List (List ℕ) → Bool → M B Walked
    unfolding walk_plain
    walk_file from names false s = walk_plain from names false s
    walk_file from names true s =
        fall_through (walk_plain from names true) (call (fs.walk_get_attr from names) s)

    -- The QIDs that are passed come before those of the walk.
    unfoldable pub walk_one : List Qid → ℕ → List (List ℕ) → Bool → M B Walked
    unfolding walk_file
    walk_one qids from names getattr =
        fail_if (ltb 1 (length names)) (errno einval)
        >> (walk_file from names getattr >>= λ w s.
            if (length names == 1) && not (length w.qids == 1)
            then close_on_error w.file (failed (errno einval), s)
            else (done (record w { qids = qids ++ w.qids }), s))

    unfoldable pub clone_ref : ℕ → Bool → M B (ℕ × Walked)
    unfolding walk_one clone_child
    clone_ref r getattr = do
      file ← file_of r
      w ← walk_one [] file [] getattr
      d ← gets (λ (s : ConnState B). s.details r)
      child ← clone_child r (record {
        file = w.file;
        pending_xattr = no_pending_xattr;
        opened = false;
        mode = d.mode;
        open_flags = 0;
        path_node = d.path_node;
      })
      pure (child, record w { qids = [] })

    -- One name.
    unfoldable pub walk_step : ℕ → List ℕ → List Qid → M B (ℕ × Walked)
    unfolding is_dir walk_one child_path_node walk_child file_type
    walk_step r name qids = do
      d ← gets (λ (s : ConnState B). s.details r)
      fail_if (not (is_dir d.mode)) (errno einval)
      deleted ← gets (λ (s : ConnState B). is_deleted s r)
      fail_if deleted (errno enoent)
      w ← walk_one qids d.file (name ∷ []) true
      pn ← child_path_node r name
      child ← walk_child r name (record {
        file = w.file;
        pending_xattr = no_pending_xattr;
        opened = false;
        mode = file_type w.attr.mode;
        open_flags = 0;
        path_node = pn;
      })
      pure (child, w)

    -- walkRef.DecRef() before an error is returned.
    abbrev pub drop_on_error : {A : Type 0} → ℕ → Outcome A × ConnState B → Outcome A × ConnState B
    drop_on_error r (done a, s) = (done a, s)
    drop_on_error r (failed e, s) = settle (failed e) (release fs r s)
    drop_on_error r (panicked, s) = (panicked, s)

    unfoldable pub walk_from : ℕ → List (List ℕ) → Walked → M B (ℕ × Walked)
    unfolding walk_step release
    walk_from r [] w = pure (r, w)
    walk_from r (name ∷ names) w =
        (λ s. drop_on_error r (walk_step r name w.qids s)) >>= λ (child, w').
        walk_from child names w'

    unfoldable pub do_walk : ℕ → List (List ℕ) → Bool → M B (ℕ × Walked)
    unfolding check_names clone_ref walk_from retain
    do_walk r [] getattr = clone_ref r getattr
    do_walk r (name ∷ names) getattr =
        check_names (name ∷ names)
        >> (retain r
            >> walk_from r (name ∷ names)
                (record { qids = []; file = 0; valid = zero_attr_mask; attr = zero_attr }))

    -- The walk of Twalk and Twalkgetattr, from a fid to a new one.
    unfoldable pub walk_to : ℕ → ℕ → List (List ℕ) → Bool → M B Walked
    unfolding with_fid guard_busy do_walk install release
    walk_to fid new_fid names getattr = with_fid fs fid λ r. do
      guard_busy r fid new_fid
      (new, w) ← do_walk r names getattr
      deferring (release fs new) (install fs new_fid new >> pure w)

    unfoldable pub handle_twalk : Twalk → M B Rwalk
    unfolding walk_to
    handle_twalk t = do w ← walk_to t.fid t.new_fid t.names false; pure (record { qids = w.qids })

    unfoldable pub handle_twalkgetattr : Twalkgetattr → M B Rwalkgetattr
    unfolding walk_to
    handle_twalkgetattr t = do
      w ← walk_to t.fid t.new_fid t.names true
      pure (record { valid = w.valid; attr = w.attr; qids = w.qids })

    -- The fid of Tattach goes to the root, or to what a walk from it finds.
    unfoldable pub attach_fid : ℕ → ℕ → List ℕ → M B (Unit {0})
    unfolding do_walk install release
    attach_fid fid root [] = install fs fid root
    attach_fid fid root (c ∷ name) = do
      (new, w) ← do_walk root (split_path (c ∷ name)) false
      deferring (release fs new) (install fs fid new)

    -- The root's path node is the first one.
    unfoldable pub handle_tattach : Tattach → M B Rattach
    unfolding attr_or_close mode_or_close attach_fid new_ref release file_type
    handle_tattach t = do
      fail_if (not (t.auth.authenticationfid == no_fid)) (errno einval)
      sf ← call fs.attach
      (qid, valid, attr) ← attr_or_close sf
      mode_or_close sf valid
      root ← new_ref none (record {
        file = sf;
        pending_xattr = no_pending_xattr;
        opened = false;
        mode = file_type attr.mode;
        open_flags = 0;
        path_node = 0;
      })
      deferring (release fs root)
          (attach_fid t.fid root (trim_slash t.auth.attach_name) >> pure (record { qid = qid }))
