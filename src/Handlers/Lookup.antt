-- ===== src/Handlers/Lookup.antt =====
-- p9/handlers.go: a handler that looks a fid up, and leaves the references as they are.
use mathlib.Core.Path.{fun_ext}
use p.Base.{
  if◌then◌else◌, true, Bool, ℕ, ◌+◌, ◌-◌, ◌<◌, ◌≡◌, refl, sym, ap, ◌∙◌, false, some, ◌==◌, arith,
  Bool-cases, inl, inr, ==_iff, ==_refl, ≢→==,
}
use p.Server.{FidRef, Server, set_ref, inc_ref, dec_ref, find_fid, lookup_fid, looked_up}
use p.Handlers.{FileSystem, Outcome, done}
use p.Handlers.State.{M, ConnState, settle, then_always}
use p.Handlers.Refs.{set_server, release, dec_ref_within, drop_ref, with_fid}

set-set :
    (r : ℕ) (f : ℕ → FidRef) (x : FidRef) (n : ℕ)
    → n ≡ (f r).refs
    → set_ref r (record { refs = n; parent = (f r).parent }) (set_ref r x f) ≡ f
set-set r f x n e = fun_ext λ q. elim (Bool-cases (q == r)) [
  | inl here ↦ rw (here, e) (ap f (sym ((==_iff q r).0 here)))
  | inr other ↦ rw other refl
]

dec_ref-inc_ref : (r : ℕ) (s : Server) → 0 < (s.fid_refs r).refs → (dec_ref r (inc_ref r s)).1 ≡ s
unfolding dec_ref inc_ref
dec_ref-inc_ref r s pos =
    let more : ((s.fid_refs r).refs + 1 == 1) ≡ false =
      ≢→== ((s.fid_refs r).refs + 1) 1 (λ e. absurd (omega (arith, e, pos))) in
    rw (==_refl r, more)
      (ap (λ (f : ℕ → FidRef). record s { fid_refs = f })
        (set-set r s.fid_refs
          (record { refs = (s.fid_refs r).refs + 1; parent = (s.fid_refs r).parent })
          ((s.fid_refs r).refs + 1 - 1) (omega arith)))

raised : (r : ℕ) (s : Server) → ((inc_ref r s).fid_refs r).refs ≡ (s.fid_refs r).refs + 1
unfolding inc_ref
raised r s = rw (==_refl r) refl

module _ {B : Type 0} (fs : FileSystem B) where
  -- DecRef of a reference that has more than one count changes the count only.
  release-one :
      (r : ℕ) (server : Server) (s : ConnState B)
      → s.server ≡ inc_ref r server
      → 0 < (server.fid_refs r).refs
      → release fs r s ≡ (done tt, set_server server s)
  unfolding release dec_ref_within drop_ref
  release-one r server s e pos =
      let more : ((s.server.fid_refs r).refs == 1) ≡ false =
        ≢→== (s.server.fid_refs r).refs 1 (λ one.
          absurd
            (omega (arith, sym one ∙ ap (λ x. (x.fid_refs r).refs) e ∙ raised r server, pos))) in
      rw more (
        ap (λ (x : Server). (done tt, set_server x s))
          (ap (λ (x : Server). (dec_ref r x).1) e ∙ dec_ref-inc_ref r server pos))

  settle-one :
      {A : Type 0} (o : Outcome A) (s s' : ConnState B) (r : ℕ)
      → release fs r s ≡ (done tt, s')
      → then_always (release fs r) (o, s) ≡ (o, s')
  settle-one o s s' r e = ap (settle o) e

  -- A part that leaves the references as they are, below a fid: so does the whole.
  pub with_fid-still :
      {A : Type 0} (fid r : ℕ) (body : ℕ → M B A) (s s' : ConnState B) (o : Outcome A)
      → find_fid fid s.server.fids ≡ some r
      → 0 < (s.server.fid_refs r).refs
      → body r (set_server (inc_ref r s.server) s) ≡ (o, s')
      → s'.server ≡ inc_ref r s.server
      → with_fid fs fid body s ≡ (o, set_server s.server s')
  unfolding with_fid lookup_fid looked_up
  with_fid-still fid r body s s' o found pos ends same = rw found (
      ap (then_always (release fs r)) ends
      ∙ settle-one o s' (set_server s.server s') r (release-one r s.server s' same pos))

module _ {B : Type 0} {A : Type 0} where
  -- How a part ends below a reference that is held, as `p`, and how the whole ends, as `q`.
  pub record Under (held server : Server) (p q : Outcome A × ConnState B) : Type 0 where
    pub ends : p ≡ (q.0, set_server held q.1)
    pub same : q.1.server ≡ server

  pub unchanged :
      {held server : Server} {o : Outcome A} (s : ConnState B)
      → Under held server (o, set_server held s) (o, set_server server s)
  unchanged s = record { ends = refl; same = refl }

  pub Under-if :
      {held server : Server} {p p' q q' : Outcome A × ConnState B} (b : Bool)
      → Under held server p q
      → Under held server p' q'
      → Under held server (if b then p else p') (if b then q else q')
  Under-if true u u' = u
  Under-if false u u' = u'

  pub Under-after :
      {held server : Server} {p p' q : Outcome A × ConnState B}
      → p ≡ p'
      → Under held server p' q
      → Under held server p q
  Under-after e u = record { ends = e ∙ u.ends; same = u.same }

  pub with_fid-Under :
      (fs : FileSystem B) (fid r : ℕ) (body : ℕ → M B A) (s : ConnState B)
      (q : Outcome A × ConnState B)
      → find_fid fid s.server.fids ≡ some r
      → 0 < (s.server.fid_refs r).refs
      → Under (inc_ref r s.server) s.server (body r (set_server (inc_ref r s.server) s)) q
      → with_fid fs fid body s ≡ q
  with_fid-Under fs fid r body s q found pos u =
      with_fid-still fs fid r body s (set_server (inc_ref r s.server) q.1) q.0 found pos u.ends refl
      ∙ ap (λ (x : Server). (q.0, set_server x q.1)) (sym u.same)
