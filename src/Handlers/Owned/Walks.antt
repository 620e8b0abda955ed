-- ===== src/Handlers/Owned/Walks.antt =====
-- p9/handlers.go: what is owned around walks, Twalk, Twalkgetattr and Tattach.
use mathlib.Core.Path.{subst}
use p.Base.{ℕ, sym, List, [], ◌∷◌, ◌++◌, append_assoc, Bool, ◌==◌, ◌&&◌}
use p.Linux.{errno, ebusy}
use p.Types.Qid.{Qid}
use p.Messages.Message.Blank.Zero.{zero_attr, zero_attr_mask}
use p.Messages.Walk.{Twalk, Twalkgetattr}
use p.Handlers.{FileSystem, Outcome, done, failed, panicked, Walked}
use p.Handlers.State.{M, ConnState, Details, pure, deferring, ◌>>=◌, ◌>>◌}
use p.Handlers.Refs.{install, release, retain}
use p.Handlers.Walk.{
  check_names, guard_busy, clone_child, clone_ref, walk_child, walk_step, drop_on_error, walk_from,
  do_walk, walk_to, handle_twalk, handle_twalkgetattr,
}
use p.Handlers.Owned.{
  Owned, Ends, Ends-next, Keeps, Keeps-bind, Keeps-then, Keeps-pure, Keeps-gets, Keeps-fail_if,
  Keeps-guard,
}
use p.Handlers.Owned.Released.{release-Ends}
use p.Handlers.Owned.Table.{retain-Owned, Owned-has_count, settle-failed}
use p.Handlers.Owned.Guards.{Keeps-check_safe_name}
use p.Handlers.Owned.Paths.{Keeps-child_path_node}
use p.Handlers.Owned.Over.{KeepsOver, KeepsOver-then, Keeps-with_fid_over, installed-Ends}
use p.Handlers.Owned.WalkOne.{Keeps-walk_one}
use p.Handlers.Owned.Clone.{clone_child-Ends, walk_child-Ends}

module _ {B : Type 0} where
  -- A part that ends with one reference more than it began with, or with another in place of one.
  record Makes {A : Type 0} (r : ℕ) (made : A → ℕ) (m : M B A) : Type 0 where
    pub makes :
        (X : List ℕ) (s : ConnState B)
        → Owned s (r ∷ X)
        → Ends (λ (a : A). made a ∷ r ∷ X) (r ∷ X) (m s)

  Makes-bind :
      {A C : Type 0} {r : ℕ} {made : C → ℕ} {m : M B A} {f : A → M B C}
      → Keeps m
      → ((a : A) → Makes r made (f a))
      → Makes r made (m >>= f)
  Makes-bind {A} {C} {r} {made} {m} {f} km mf = record {
    makes = λ X s h.
        Ends-next (λ (a : A). r ∷ X) (λ (c : C). made c ∷ r ∷ X) (r ∷ X) f (m s)
          (km.keeps (r ∷ X) s h) (λ a s' h'. (mf a).makes X s' h');
  }

  record Turns {A : Type 0} (r : ℕ) (made : A → ℕ) (m : M B A) : Type 0 where
    pub turns :
        (X : List ℕ) (s : ConnState B)
        → Owned s (r ∷ X)
        → Ends (λ (a : A). made a ∷ X) (r ∷ X) (m s)

  Turns-bind :
      {A C : Type 0} {r : ℕ} {made : C → ℕ} {m : M B A} {f : A → M B C}
      → Keeps m
      → ((a : A) → Turns r made (f a))
      → Turns r made (m >>= f)
  Turns-bind {A} {C} {r} {made} {m} {f} km mf = record {
    turns = λ X s h.
        Ends-next (λ (a : A). r ∷ X) (λ (c : C). made c ∷ X) (r ∷ X) f (m s) (km.keeps (r ∷ X) s h)
          (λ a s' h'. (mf a).turns X s' h');
  }

  Turns-then :
      {C : Type 0} {r : ℕ} {made : C → ℕ} {m : M B (Unit {0})} {k : M B C}
      → Keeps m
      → Turns r made k
      → Turns r made (m >> k)
  Turns-then km tk = Turns-bind km (λ u. tk)

  Keeps-check_names : (names : List (List ℕ)) → Keeps (check_names {B = B} names)
  unfolding check_names
  Keeps-check_names [] = Keeps-pure
  Keeps-check_names (name ∷ names) =
      Keeps-then (Keeps-check_safe_name name) (Keeps-check_names names)

  Keeps-guard_busy : (r fid new_fid : ℕ) → Keeps (guard_busy {B = B} r fid new_fid)
  unfolding guard_busy
  Keeps-guard_busy r fid new_fid =
      Keeps-guard (λ (s : ConnState B). (s.details r).opened && (fid == new_fid)) (errno ebusy)

  Makes-clone :
      (r : ℕ) (d : Details) (w : Walked)
      → Makes r (λ (p : ℕ × Walked). p.0) (clone_child {B = B} r d >>= λ c. pure (c, w))
  Makes-clone r d w = record {
    makes = λ X s h.
        Ends-next (λ (c : ℕ). c ∷ r ∷ X) (λ (p : ℕ × Walked). p.0 ∷ r ∷ X) (r ∷ X)
          (λ (c : ℕ). pure (c, w)) (clone_child r d s) (clone_child-Ends r d X s h) (λ c s' h'. h');
  }

  Turns-walk_child :
      (r : ℕ) (name : List ℕ) (d : Details) (w : Walked)
      → Turns r (λ (p : ℕ × Walked). p.0) (walk_child {B = B} r name d >>= λ c. pure (c, w))
  Turns-walk_child r name d w = record {
    turns = λ X s h.
        Ends-next (λ (c : ℕ). c ∷ X) (λ (p : ℕ × Walked). p.0 ∷ X) (r ∷ X) (λ (c : ℕ). pure (c, w))
          (walk_child r name d s) (walk_child-Ends r name d X s h) (λ c s' h'. h');
  }

  module _ (fs : FileSystem B) where
    Makes-clone_ref :
        (r : ℕ) (getattr : Bool) → Makes r (λ (p : ℕ × Walked). p.0) (clone_ref fs r getattr)
    unfolding clone_ref
    Makes-clone_ref r getattr =
        search (Makes-bind, Keeps-gets, Keeps-walk_one, Makes-clone) depth 14

    Turns-walk_step :
        (r : ℕ) (name : List ℕ) (qids : List Qid)
        → Turns r (λ (p : ℕ × Walked). p.0) (walk_step fs r name qids)
    unfolding walk_step
    Turns-walk_step r name qids =
        search
          (
            Turns-then, Turns-bind, Keeps-gets, Keeps-fail_if, Keeps-walk_one,
            Keeps-child_path_node, Turns-walk_child,
          )
          depth 14

    drop_on_error-Ends :
        {A : Type 0} (made : A → ℕ) (r : ℕ) (X : List ℕ) (o : Outcome A × ConnState B)
        → Ends (λ (a : A). made a ∷ X) (r ∷ X) o
        → Ends (λ (a : A). made a ∷ X) X (drop_on_error fs r o)
    drop_on_error-Ends made r X (done a, s) h = h
    drop_on_error-Ends {A} made r X (failed e, s) h =
        settle-failed (λ (a : A). made a ∷ X) e X (release fs r s) (release-Ends fs r [] X s h)
    drop_on_error-Ends made r X (panicked, s) (more, h) =
        (more ++ r ∷ [], subst (λ l. Owned s l) (sym (append_assoc more (r ∷ []) X)) h)

    -- The handler's count of the first reference becomes one of the last.
    walk_from-Ends :
        (names : List (List ℕ)) (r : ℕ) (w : Walked) (X : List ℕ) (s : ConnState B)
        → Owned s (r ∷ X)
        → Ends (λ (p : ℕ × Walked). p.0 ∷ X) X (walk_from fs r names w s)
    unfolding walk_from
    walk_from-Ends [] r w X s h = h
    walk_from-Ends (name ∷ names) r w X s h =
        Ends-next (λ (p : ℕ × Walked). p.0 ∷ X) (λ (p : ℕ × Walked). p.0 ∷ X) X
          (λ (p : ℕ × Walked). walk_from fs p.0 names p.1)
          (drop_on_error fs r (walk_step fs r name w.qids s))
          (drop_on_error-Ends (λ (p : ℕ × Walked). p.0) r X (walk_step fs r name w.qids s)
            ((Turns-walk_step r name w.qids).turns X s h))
          (λ p s' h'. walk_from-Ends names p.0 p.1 X s' h')

    retained-Ends :
        (r : ℕ) (names : List (List ℕ)) (w : Walked) (X : List ℕ) (s : ConnState B)
        → Owned s (r ∷ X)
        → Ends (λ (p : ℕ × Walked). p.0 ∷ r ∷ X) (r ∷ X) ((retain r >> walk_from fs r names w) s)
    unfolding retain
    retained-Ends r names w X s h =
        walk_from-Ends names r w (r ∷ X) (retain r s).1
          (retain-Owned r (r ∷ X) s (Owned-has_count [] X r s h) h)

    pub do_walk-Ends :
        (r : ℕ) (names : List (List ℕ)) (getattr : Bool) (X : List ℕ) (s : ConnState B)
        → Owned s (r ∷ X)
        → Ends (λ (p : ℕ × Walked). p.0 ∷ r ∷ X) (r ∷ X) (do_walk fs r names getattr s)
    unfolding do_walk
    do_walk-Ends r [] getattr X s h = (Makes-clone_ref r getattr).makes X s h
    do_walk-Ends r (name ∷ names) getattr X s h =
        Ends-next (λ (u : Unit {0}). r ∷ X) (λ (p : ℕ × Walked). p.0 ∷ r ∷ X) (r ∷ X)
          (λ u. retain r >> walk_from fs r (name ∷ names) first) (check_names (name ∷ names) s)
          ((Keeps-check_names (name ∷ names)).keeps (r ∷ X) s h)
          (λ u s' h'. retained-Ends r (name ∷ names) first X s' h')
      where
        first : Walked
        first = record { qids = []; file = 0; valid = zero_attr_mask; attr = zero_attr }

    -- A walk whose end goes into the table.
    KeepsOver-walked :
        {A : Type 0} (r fid : ℕ) (names : List (List ℕ)) (getattr : Bool) (f : Walked → A)
        → KeepsOver r (
            do_walk fs r names getattr >>= λ p.
            deferring (release fs p.0) (install fs fid p.0 >> pure (f p.1)))
    KeepsOver-walked {A} r fid names getattr f = record {
      keeps = λ X s h.
          Ends-next (λ (p : ℕ × Walked). p.0 ∷ r ∷ X) (λ (a : A). r ∷ X) (r ∷ X)
            (λ (p : ℕ × Walked). deferring (release fs p.0) (install fs fid p.0 >> pure (f p.1)))
            (do_walk fs r names getattr s) (do_walk-Ends r names getattr X s h)
            (λ p s' h'. installed-Ends fs fid p.0 (f p.1) (r ∷ X) s' h');
    }

    Keeps-walk_to :
        (fid new_fid : ℕ) (names : List (List ℕ)) (getattr : Bool)
        → Keeps (walk_to fs fid new_fid names getattr)
    unfolding walk_to
    Keeps-walk_to fid new_fid names getattr = Keeps-with_fid_over fs fid λ r.
        KeepsOver-then (Keeps-guard_busy r fid new_fid)
          (KeepsOver-walked r new_fid names getattr (λ (w : Walked). w))

    pub Keeps-handle_twalk : (t : Twalk) → Keeps (handle_twalk fs t)
    unfolding handle_twalk
    Keeps-handle_twalk t = search (Keeps-bind, Keeps-walk_to, Keeps-pure) depth 14

    pub Keeps-handle_twalkgetattr : (t : Twalkgetattr) → Keeps (handle_twalkgetattr fs t)
    unfolding handle_twalkgetattr
    Keeps-handle_twalkgetattr t = search (Keeps-bind, Keeps-walk_to, Keeps-pure) depth 14
