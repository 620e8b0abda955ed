-- ===== src/Handlers/Owned/Released.antt =====
-- p9/server.go: DecRef in full, and how many references it may close.
use mathlib.Core.Path.{subst}
use p.Base.{
  ℕ, zero, suc, ◌+◌, ◌≤◌, ◌<◌, ◌≡◌, refl, ap, List, [], ◌∷◌, ◌++◌, false, Option, none, some, ◌==◌,
  if◌then◌else◌, arith, Bool-cases, inl, inr, ==_iff, ≢→==,
}
use p.PathTree.{PathNode, remove_child}
use p.Server.{FidRef, Server, set_ref, dec_ref}
use p.Server.Owners.{state, give_back}
use p.Server.Counts.{Counted-made}
use p.Server.Open.{step, gives_back, Reached-Counted}
use p.Handlers.{FileSystem, Outcome, done, failed, panicked}
use p.Handlers.State.{M, ConnState, called, next, set_node}
use p.Handlers.Refs.{set_server, left, leave, joined, closed, drop_ref, dec_ref_within, release}
use p.Handlers.Owned.{Owned, Ends}

abbrev pub live_one : FidRef → ℕ
live_one x = if x.refs == 0 then 0 else 1

-- The live references among the first `n`.
abbrev pub live_refs : ℕ → (ℕ → FidRef) → ℕ
live_refs zero f = 0
live_refs (suc n) f = live_one (f n) + live_refs n f

pub live_refs-le : (n : ℕ) (f : ℕ → FidRef) → live_refs n f ≤ n
live_refs-le zero f = omega arith
live_refs-le (suc n) f = ground (arith, live_refs-le n f)

live_refs-outside :
    (n k : ℕ) (x : FidRef) (f : ℕ → FidRef) → n ≤ k → live_refs n (set_ref k x f) ≡ live_refs n f
live_refs-outside zero k x f h = refl
live_refs-outside (suc n) k x f h =
    rw (≢→== n k (λ e. absurd (omega (arith, e, h))))
      (ap (λ t. live_one (f n) + t) (live_refs-outside n k x f (omega (arith, h))))

live_refs-set :
    (n k : ℕ) (x : FidRef) (f : ℕ → FidRef)
    → k < n
    → live_refs n (set_ref k x f) + live_one (f k) ≡ live_refs n f + live_one x
live_refs-set zero k x f h = absurd (omega arith)
live_refs-set (suc n) k x f h = elim (Bool-cases (n == k)) [
  | inl last ↦
      let is_k = (==_iff n k).0 last in
      let same = ap (λ y. live_one (f y)) is_k in
      rw last (omega (arith, live_refs-outside n k x f (omega (arith, is_k)), same))
  | inr before ↦ rw before (omega (arith, live_refs-set n k x f (ground (arith, before, h))))
]

-- Lowering a count that is 1 leaves one live reference less.
pub lowered :
    (s : Server) (made r : ℕ)
    → (s.fid_refs r).refs ≡ 1
    → r < made
    → live_refs made (dec_ref r s).1.fid_refs + 1 ≡ live_refs made s.fid_refs
unfolding dec_ref
lowered s made r one in_range = rw one (
    omega (
      arith,
      live_refs-set made r (record (s.fid_refs r) { refs = 0 }) s.fid_refs in_range,
      one_live (s.fid_refs r) one,
    ))
  where
    one_live : (x : FidRef) → x.refs ≡ 1 → live_one x ≡ 1
    one_live x e = rw e refl

not-closed : (s : Server) (r : ℕ) → ((s.fid_refs r).refs == 1) ≡ false → (dec_ref r s).0 ≡ none
unfolding dec_ref
not-closed s r more = rw more refl

module _ {B : Type 0} where
  abbrev pub live : ConnState B → ℕ
  live s = live_refs s.made s.server.fid_refs

  joined-Ends :
      (X : List ℕ) (c : Outcome (Unit {0})) (o : Outcome (Unit {0}) × ConnState B)
      → ((c ≡ panicked) → ⊥)
      → Ends (λ (u : Unit {0}). X) X o
      → Ends (λ (u : Unit {0}). X) X (joined c o)
  joined-Ends X (done u) (done v, s) n h = h
  joined-Ends X (done u) (failed e, s) n h = h
  joined-Ends X (done u) (panicked, s) n h = h
  joined-Ends X (failed e) (done v, s) n h = h
  joined-Ends X (failed e) (failed e', s) n h = h
  joined-Ends X (failed e) (panicked, s) n h = h
  joined-Ends X panicked (r, s) n h = absurd (n refl)

  -- What DecRef at the parent has to come to.
  abbrev GoesOn : ℕ → List ℕ → (ℕ → M B (Unit {0})) → Type 0
  GoesOn fuel X go_on =
      (q : ℕ) (s : ConnState B)
      → live s < fuel
      → Owned s (q ∷ X)
      → Ends (λ (u : Unit {0}). X) X (go_on q s)

  left-Ends :
      (fuel : ℕ) (X : List ℕ) (go_on : ℕ → M B (Unit {0})) (q pn : ℕ) (o : Option PathNode)
      (s : ConnState B)
      → GoesOn fuel X go_on
      → live s < fuel
      → Owned s (q ∷ X)
      → Ends (λ (u : Unit {0}). X) X (next (λ v. go_on q) (left o pn s))
  left-Ends fuel X go_on q pn none s go small h = (q ∷ [], h)
  left-Ends fuel X go_on q pn (some node) s go small h = go q (set_node pn node s) small h

  closed-Ends :
      (fuel : ℕ) (X : List ℕ) (go_on : ℕ → M B (Unit {0})) (r : ℕ) (parent : Option ℕ)
      (o : Outcome (Unit {0})) (s : ConnState B)
      → GoesOn fuel X go_on
      → live s < fuel
      → Owned s (give_back parent X)
      → Ends (λ (u : Unit {0}). X) X (closed go_on r parent (o, s))
  unfolding leave
  closed-Ends fuel X go_on r none panicked s go small h = ([], h)
  closed-Ends fuel X go_on r (some q) panicked s go small h = (q ∷ [], h)
  closed-Ends fuel X go_on r none (done u) s go small h = h
  closed-Ends fuel X go_on r none (failed e) s go small h = h
  closed-Ends fuel X go_on r (some q) (done u) s go small h =
      let pn = (s.details q).path_node in
      joined-Ends X (done u) (next (λ v. go_on q) (left (remove_child r (s.nodes pn)) pn s))
        (λ e. cc) (left-Ends fuel X go_on q pn (remove_child r (s.nodes pn)) s go small h)
  closed-Ends fuel X go_on r (some q) (failed e) s go small h =
      let pn = (s.details q).path_node in
      joined-Ends X (failed e) (next (λ v. go_on q) (left (remove_child r (s.nodes pn)) pn s))
        (λ e'. cc) (left-Ends fuel X go_on q pn (remove_child r (s.nodes pn)) s go small h)

  called-Ends :
      (fuel : ℕ) (X : List ℕ) (go_on : ℕ → M B (Unit {0})) (r : ℕ) (parent : Option ℕ)
      (result : Outcome (Unit {0}) × B) (s : ConnState B)
      → GoesOn fuel X go_on
      → live s < fuel
      → Owned s (give_back parent X)
      → Ends (λ (u : Unit {0}). X) X (closed go_on r parent (called result s))
  called-Ends fuel X go_on r parent (o, b) s go small h =
      closed-Ends fuel X go_on r parent o (record s { files = b }) go small h

  module _ (fs : FileSystem B) where
    drop_ref-Ends :
        (fuel r : ℕ) (before after : List ℕ) (s : ConnState B) (go_on : ℕ → M B (Unit {0}))
        → live s < suc fuel
        → Owned s (before ++ r ∷ after)
        → GoesOn fuel (before ++ after) go_on
        → Ends
            (λ (u : Unit {0}). before ++ after)
            (before ++ after)
            (drop_ref fs go_on r ((s.server.fid_refs r).refs == 1) s)
    unfolding drop_ref
    drop_ref-Ends fuel r before after s go_on small h go =
        let given =
          step (state s.server (before ++ r ∷ after) s.made)
            (state (dec_ref r s.server).1 (give_back (dec_ref r s.server).0 (before ++ after))
              s.made)
            h (gives_back s.server before after s.made r) in
        elim (Bool-cases ((s.server.fid_refs r).refs == 1)) [
          | inl last ↦
              let counted = Reached-Counted (state s.server (before ++ r ∷ after) s.made) h in
              let one = (==_iff (s.server.fid_refs r).refs 1).0 last in
              let in_range =
                Counted-made (state s.server (before ++ r ∷ after) s.made) r counted
                  (omega (arith, one)) in
              rw last (
                called-Ends fuel (before ++ after) go_on r (dec_ref r s.server).0
                  (fs.close (s.details r).file s.files) (set_server (dec_ref r s.server).1 s) go
                  (omega (arith, lowered s.server s.made r one in_range, small)) given)
          | inr more ↦ rw more (
              subst
                (λ o. Owned (set_server (dec_ref r s.server).1 s) (give_back o (before ++ after)))
                (not-closed s.server r more) given)
        ]

    dec_ref_within-Ends :
        (fuel r : ℕ) (before after : List ℕ) (s : ConnState B)
        → live s < fuel
        → Owned s (before ++ r ∷ after)
        → Ends (λ (u : Unit {0}). before ++ after) (before ++ after) (dec_ref_within fs fuel r s)
    unfolding dec_ref_within
    dec_ref_within-Ends zero r before after s small h = absurd (omega arith)
    dec_ref_within-Ends (suc fuel) r before after s small h =
        drop_ref-Ends fuel r before after s (dec_ref_within fs fuel) small h
          (λ q s' small' h'. dec_ref_within-Ends fuel q [] (before ++ after) s' small' h')

    -- DecRef gives back the reference, whatever is closed on the way.
    pub release-Ends :
        (r : ℕ) (before after : List ℕ) (s : ConnState B)
        → Owned s (before ++ r ∷ after)
        → Ends (λ (u : Unit {0}). before ++ after) (before ++ after) (release fs r s)
    unfolding release
    release-Ends r before after s h =
        dec_ref_within-Ends (suc s.made) r before after s
          (omega (arith, live_refs-le s.made s.server.fid_refs)) h
