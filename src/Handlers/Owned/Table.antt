-- ===== src/Handlers/Owned/Table.antt =====
-- p9/server.go: what is owned around the calls of the table of fids, and of IncRef and DecRef.
use mathlib.Core.Path.{subst}
use p.Base.{
  ℕ, suc, ◌<◌, ◌≡◌, refl, sym, ap, List, [], ◌∷◌, ◌++◌, append_assoc, Bool, true, Option, none,
  some, arith, ==_refl, ≢→==, if◌then◌else◌,
}
use p.Linux.{GoError}
use p.Server.{Server, inc_ref, try_inc_ref, lookup_fid, insert_fid, delete_fid, make_ref}
use p.Server.Owners.{state, one_if, give_back, count-middle}
use p.Server.Counts.{owned-live}
use p.Server.Open.{
  Step, step, makes_root, makes_below, tries, looks_up, inserts, deletes, Reached-Counted,
}
use p.Handlers.{FileSystem, Outcome, done, failed, panicked}
use p.Handlers.State.{M, ConnState, Details, settle, then_always}
use p.Handlers.Refs.{
  set_server, release, new_ref, looked, with_fid, release_old, install, release_found, uninstall,
}
use p.Handlers.Owned.{Owned, Ends, Keeps}
use p.Handlers.Owned.Released.{release-Ends}

pub try_inc_ref-live :
    (r : ℕ) (s : Server) → 0 < (s.fid_refs r).refs → try_inc_ref r s ≡ (true, inc_ref r s)
unfolding try_inc_ref
try_inc_ref-live r s pos =
    rw (≢→== (s.fid_refs r).refs 0 (λ e. absurd (omega (arith, e, pos)))) refl

module _ {B : Type 0} where
  settle-done :
      {A : Type 0} (a : A) (X : List ℕ) (o : Outcome (Unit {0}) × ConnState B)
      → Ends (λ (u : Unit {0}). X) X o
      → Ends (λ (x : A). X) X (settle (done a) o)
  settle-done a X (done u, s) h = h
  settle-done a X (failed e, s) h = h
  settle-done a X (panicked, s) h = h

  pub settle-failed :
      {A : Type 0} (post : A → List ℕ) (e : GoError) (X : List ℕ)
      (o : Outcome (Unit {0}) × ConnState B)
      → Ends (λ (u : Unit {0}). X) X o
      → Ends post X (settle (failed e) o)
  settle-failed post e X (done u, s) h = h
  settle-failed post e X (failed e', s) h = h
  settle-failed post e X (panicked, s) h = h

  settle-panicked :
      {A : Type 0} (post : A → List ℕ) (more X : List ℕ) (o : Outcome (Unit {0}) × ConnState B)
      → Ends (λ (u : Unit {0}). more ++ X) (more ++ X) o
      → Ends post X (settle panicked o)
  settle-panicked post more X (done u, s) h = (more, h)
  settle-panicked post more X (failed e, s) h = (more, h)
  settle-panicked post more X (panicked, s) (more', h) =
      (more' ++ more, subst (λ l. Owned s l) (sym (append_assoc more' more X)) h)

  -- IncRef of a reference with a count.
  pub retain-Owned :
      (r : ℕ) (X : List ℕ) (s : ConnState B)
      → 0 < (s.server.fid_refs r).refs
      → Owned s X
      → Owned (set_server (inc_ref r s.server) s) (r ∷ X)
  retain-Owned r X s pos h =
      step (state s.server X s.made) (state (inc_ref r s.server) (r ∷ X) s.made) h (
        subst
          (λ (t : Bool × Server).
            Step (state s.server X s.made) (state t.1 (if t.0 then r ∷ X else X) s.made))
          (try_inc_ref-live r s.server pos) (tries s.server X s.made r))

  pub Owned-has_count :
      (before after : List ℕ) (r : ℕ) (s : ConnState B)
      → Owned s (before ++ r ∷ after)
      → 0 < (s.server.fid_refs r).refs
  Owned-has_count before after r s h =
      owned-live (state s.server (before ++ r ∷ after) s.made) r
        (Reached-Counted (state s.server (before ++ r ∷ after) s.made) h)
        (omega (arith, count-middle r r before after, ap one_if (==_refl r)))

  pub new_ref-root :
      (d : Details) (X : List ℕ) (s : ConnState B)
      → Owned s X
      → Owned (new_ref none d s).1 (s.made ∷ X)
  unfolding new_ref
  new_ref-root d X s h =
      step (state s.server X s.made)
        (state (make_ref s.made none s.server) (s.made ∷ X) (suc s.made)) h
        (makes_root s.server X s.made)

  pub new_ref-below :
      (q : ℕ) (d : Details) (before after : List ℕ) (s : ConnState B)
      → Owned s (before ++ q ∷ after)
      → Owned (new_ref (some q) d s).1 (s.made ∷ (before ++ after))
  unfolding new_ref
  new_ref-below q d before after s h =
      step (state s.server (before ++ q ∷ after) s.made)
        (state (make_ref s.made (some q) s.server) (s.made ∷ (before ++ after)) (suc s.made)) h
        (makes_below s.server before after s.made q)

  module _ (fs : FileSystem B) where
    -- A deferred DecRef gives back what the call before it owned.
    pub always-Ends :
        {A : Type 0} (r : ℕ) (X : List ℕ) (o : Outcome A × ConnState B)
        → Ends (λ (a : A). r ∷ X) (r ∷ X) o
        → Ends (λ (a : A). X) X (then_always (release fs r) o)
    always-Ends {A} r X (done a, s) h =
        settle-done a X (release fs r s) (release-Ends fs r [] X s h)
    always-Ends {A} r X (failed e, s) h =
        settle-failed (λ (a : A). X) e X (release fs r s) (release-Ends fs r [] X s h)
    always-Ends {A} r X (panicked, s) (more, h) =
        settle-panicked (λ (a : A). X) more X (release fs r s) (release-Ends fs r more X s h)

    looked-Ends :
        {A : Type 0} (body : ℕ → M B A) (X : List ℕ) (found : Option ℕ) (s : ConnState B)
        → ((r : ℕ) (s' : ConnState B)
            → Owned s' (r ∷ X)
            → Ends (λ (a : A). r ∷ X) (r ∷ X) (body r s'))
        → Owned s (give_back found X)
        → Ends (λ (a : A). X) X (looked fs body found s)
    looked-Ends body X none s k h = h
    looked-Ends body X (some r) s k h = always-Ends r X (body r s) (k r s h)

    pub with_fid-Ends :
        {A : Type 0} (fid : ℕ) (body : ℕ → M B A) (X : List ℕ) (s : ConnState B)
        → ((r : ℕ) (s' : ConnState B)
            → Owned s' (r ∷ X)
            → Ends (λ (a : A). r ∷ X) (r ∷ X) (body r s'))
        → Owned s X
        → Ends (λ (a : A). X) X (with_fid fs fid body s)
    unfolding with_fid
    with_fid-Ends fid body X s k h =
        looked-Ends body X (lookup_fid fid s.server).0 (set_server (lookup_fid fid s.server).1 s) k
          (step (state s.server X s.made)
            (state (lookup_fid fid s.server).1 (give_back (lookup_fid fid s.server).0 X) s.made) h
            (looks_up s.server X s.made fid))

    pub Keeps-with_fid :
        {A : Type 0} (fid : ℕ) {body : ℕ → M B A}
        → ((r : ℕ) → Keeps (body r))
        → Keeps (with_fid fs fid body)
    Keeps-with_fid {A} fid {body} k = record {
      keeps = λ held s h. with_fid-Ends fid body held s (λ r s' h'. (k r).keeps (r ∷ held) s' h') h;
    }

    release_old-Ends :
        (old : Option ℕ) (X : List ℕ) (s : ConnState B)
        → Owned s (give_back old X)
        → Ends (λ (u : Unit {0}). X) X (release_old fs old s)
    release_old-Ends none X s h = h
    release_old-Ends (some r) X s h = always-Ends r X (done tt, s) h

    pub install-Ends :
        (fid r : ℕ) (before after : List ℕ) (s : ConnState B)
        → Owned s (before ++ r ∷ after)
        → Ends (λ (u : Unit {0}). before ++ r ∷ after) (before ++ r ∷ after) (install fs fid r s)
    unfolding install
    install-Ends fid r before after s h =
        let X = before ++ r ∷ after in
        release_old-Ends (insert_fid fid r s.server).0 X
          (set_server (insert_fid fid r s.server).1 s)
          (step (state s.server X s.made)
            (state (insert_fid fid r s.server).1 (give_back (insert_fid fid r s.server).0 X) s.made)
            h (inserts s.server before after s.made fid r))

    release_found-Ends :
        (found : Option ℕ) (X : List ℕ) (s : ConnState B)
        → Owned s (give_back found X)
        → Ends (λ (u : Unit {0}). X) X (release_found fs found s)
    release_found-Ends none X s h = h
    release_found-Ends (some r) X s h = release-Ends fs r [] X s h

    pub Keeps-uninstall : (fid : ℕ) → Keeps (uninstall fs fid)
    unfolding uninstall
    Keeps-uninstall fid = record {
      keeps = λ held s h.
          release_found-Ends (delete_fid fid s.server).0 held
            (set_server (delete_fid fid s.server).1 s)
            (step (state s.server held s.made)
              (state (delete_fid fid s.server).1 (give_back (delete_fid fid s.server).0 held)
                s.made)
              h (deletes s.server held s.made fid));
    }
