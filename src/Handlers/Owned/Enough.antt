-- ===== src/Handlers/Owned/Enough.antt =====
-- p9/server.go: how far DecRef goes on, from a reference to its parent.
use p.Base.{
  ℕ, zero, suc, ◌+◌, ◌<◌, ◌≡◌, refl, ap, List, [], ◌∷◌, ◌++◌, Option, none, some, ◌==◌, arith,
  Bool-cases, inl, inr, ==_iff,
}
use p.PathTree.{PathNode, remove_child}
use p.Server.{dec_ref}
use p.Server.Owners.{state, give_back}
use p.Server.Counts.{Counted-made}
use p.Server.Open.{step, gives_back, Reached-Counted}
use p.Handlers.{FileSystem, Outcome, done, failed, panicked}
use p.Handlers.State.{M, ConnState, called, next, set_node}
use p.Handlers.Refs.{set_server, left, leave, joined, closed, drop_ref, dec_ref_within, release}
use p.Handlers.Owned.{Owned}
use p.Handlers.Owned.Released.{live, live_refs-le, lowered}

module _ {B : Type 0} where
  -- Two ways to go on at the parent that come to the same where fewer references are live.
  abbrev Alike : ℕ → List ℕ → (ℕ → M B (Unit {0})) → (ℕ → M B (Unit {0})) → Type 0
  Alike n X go go' = (q : ℕ) (s : ConnState B) → live s < n → Owned s (q ∷ X) → go q s ≡ go' q s

  left-Alike :
      (n : ℕ) (X : List ℕ) (go go' : ℕ → M B (Unit {0})) (q pn : ℕ) (o : Option PathNode)
      (s : ConnState B)
      → Alike n X go go'
      → live s < n
      → Owned s (q ∷ X)
      → next (λ (v : Unit {0}). go q) (left o pn s) ≡ next (λ (v : Unit {0}). go' q) (left o pn s)
  left-Alike n X go go' q pn none s alike small h = refl
  left-Alike n X go go' q pn (some node) s alike small h = alike q (set_node pn node s) small h

  closed-Alike :
      (n : ℕ) (X : List ℕ) (go go' : ℕ → M B (Unit {0})) (r : ℕ) (parent : Option ℕ)
      (o : Outcome (Unit {0})) (s : ConnState B)
      → Alike n X go go'
      → live s < n
      → Owned s (give_back parent X)
      → closed go r parent (o, s) ≡ closed go' r parent (o, s)
  unfolding leave
  closed-Alike n X go go' r none panicked s alike small h = refl
  closed-Alike n X go go' r (some q) panicked s alike small h = refl
  closed-Alike n X go go' r none (done u) s alike small h = refl
  closed-Alike n X go go' r none (failed e) s alike small h = refl
  closed-Alike n X go go' r (some q) (done u) s alike small h =
      let pn = (s.details q).path_node in
      ap (joined (done u))
        (left-Alike n X go go' q pn (remove_child r (s.nodes pn)) s alike small h)
  closed-Alike n X go go' r (some q) (failed e) s alike small h =
      let pn = (s.details q).path_node in
      ap (joined (failed e))
        (left-Alike n X go go' q pn (remove_child r (s.nodes pn)) s alike small h)

  called-Alike :
      (n : ℕ) (X : List ℕ) (go go' : ℕ → M B (Unit {0})) (r : ℕ) (parent : Option ℕ)
      (result : Outcome (Unit {0}) × B) (s : ConnState B)
      → Alike n X go go'
      → live s < n
      → Owned s (give_back parent X)
      → closed go r parent (called result s) ≡ closed go' r parent (called result s)
  called-Alike n X go go' r parent (o, b) s alike small h =
      closed-Alike n X go go' r parent o (record s { files = b }) alike small h

  module _ (fs : FileSystem B) where
    drop_ref-Alike :
        (r : ℕ) (before after : List ℕ) (s : ConnState B) (go go' : ℕ → M B (Unit {0}))
        → Owned s (before ++ r ∷ after)
        → Alike (live s) (before ++ after) go go'
        → drop_ref fs go r ((s.server.fid_refs r).refs == 1) s
          ≡ drop_ref fs go' r ((s.server.fid_refs r).refs == 1) s
    unfolding drop_ref
    drop_ref-Alike r before after s go go' h alike =
        let given =
          step (state s.server (before ++ r ∷ after) s.made)
            (state (dec_ref r s.server).1 (give_back (dec_ref r s.server).0 (before ++ after))
              s.made)
            h (gives_back s.server before after s.made r) in
        elim (Bool-cases ((s.server.fid_refs r).refs == 1)) [
          | inl last ↦
              let counted = Reached-Counted (state s.server (before ++ r ∷ after) s.made) h in
              let one = (==_iff (s.server.fid_refs r).refs 1).0 last in
              let in_range =
                Counted-made (state s.server (before ++ r ∷ after) s.made) r counted
                  (omega (arith, one)) in
              rw last (
                called-Alike (live s) (before ++ after) go go' r (dec_ref r s.server).0
                  (fs.close (s.details r).file s.files) (set_server (dec_ref r s.server).1 s) alike
                  (omega (arith, lowered s.server s.made r one in_range)) given)
          | inr more ↦ rw more refl
        ]

    dec_ref_within-alike :
        (fuel fuel' r : ℕ) (before after : List ℕ) (s : ConnState B)
        → live s < fuel
        → live s < fuel'
        → Owned s (before ++ r ∷ after)
        → dec_ref_within fs fuel r s ≡ dec_ref_within fs fuel' r s
    unfolding dec_ref_within
    dec_ref_within-alike zero fuel' r before after s small small' h = absurd (omega arith)
    dec_ref_within-alike (suc fuel) zero r before after s small small' h = absurd (omega arith)
    dec_ref_within-alike (suc fuel) (suc fuel') r before after s small small' h =
        drop_ref-Alike r before after s (dec_ref_within fs fuel) (dec_ref_within fs fuel') h
          (λ q s' fewer h'.
            dec_ref_within-alike fuel fuel' q [] (before ++ after) s' (omega (arith, fewer))
              (omega (arith, fewer)) h')

    -- DecRef of a reference that a handler owns, in a state that the calls of `Step` lead to, comes to an
    -- end by itself, whatever the file system does: however much fuel beyond the number of the references
    -- made it is given, the outcome and the state that it leaves are the same.
    pub release_ends :
        (r extra : ℕ) (before after : List ℕ) (s : ConnState B)
        → Owned s (before ++ r ∷ after)
        → dec_ref_within fs (suc s.made + extra) r s ≡ release fs r s
    unfolding release
    release_ends r extra before after s h =
        let bound = live_refs-le s.made s.server.fid_refs in
        dec_ref_within-alike (suc s.made + extra) (suc s.made) r before after s
          (omega (arith, bound)) (omega (arith, bound)) h
