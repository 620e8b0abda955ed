-- ===== src/Handlers/Owned/Attach.antt =====
-- p9/handlers.go: what is owned around Tattach.
use p.Base.{ℕ, false, List, [], ◌∷◌, none}
use p.Messages.Session.{Tattach}
use p.Handlers.{FileSystem, Walked}
use p.Handlers.State.{Details, pure, deferring, ◌>>=◌, ◌>>◌}
use p.Handlers.Refs.{install, release, new_ref}
use p.Handlers.Walk.{do_walk, attach_fid, handle_tattach, split_path}
use p.Handlers.Owned.{Ends-next, Keeps, Keeps-bind, Keeps-then, Keeps-call, Keeps-fail_if}
use p.Handlers.Owned.Table.{install-Ends, always-Ends}
use p.Handlers.Owned.Over.{KeepsOver, new_ref-made}
use p.Handlers.Owned.WalkOne.{Keeps-attr_or_close, Keeps-mode_or_close}
use p.Handlers.Owned.Walks.{do_walk-Ends}

module _ {B : Type 0} (fs : FileSystem B) where
  KeepsOver-attach_fid :
      (fid root : ℕ) (name : List ℕ) → KeepsOver root (attach_fid fs fid root name)
  unfolding attach_fid
  KeepsOver-attach_fid fid root [] = record { keeps = λ X s h. install-Ends fs fid root [] X s h }
  KeepsOver-attach_fid fid root (c ∷ name) = record {
    keeps = λ X s h.
        Ends-next (λ (p : ℕ × Walked). p.0 ∷ root ∷ X) (λ (u : Unit {0}). root ∷ X) (root ∷ X)
          (λ (p : ℕ × Walked). deferring (release fs p.0) (install fs fid p.0))
          (do_walk fs root (split_path (c ∷ name)) false s)
          (do_walk-Ends fs root (split_path (c ∷ name)) false X s h)
          (λ p s' h'.
            always-Ends fs p.0 (root ∷ X) (install fs fid p.0 s')
              (install-Ends fs fid p.0 [] (root ∷ X) s' h'));
  }

  Keeps-rooted :
      {A : Type 0} (d : Details) (fid : ℕ) (name : List ℕ) (a : A)
      → Keeps (
          new_ref {B = B} none d >>= λ root.
          deferring (release fs root) (attach_fid fs fid root name >> pure a))
  Keeps-rooted {A} d fid name a = record {
    keeps = λ held s h.
        Ends-next (λ (c : ℕ). c ∷ held) (λ (x : A). held) held
          (λ (c : ℕ). deferring (release fs c) (attach_fid fs fid c name >> pure a))
          (new_ref none d s) (new_ref-made d held s h)
          (λ c s' h'. always-Ends fs c held ((attach_fid fs fid c name >> pure a) s') (
            Ends-next (λ (u : Unit {0}). c ∷ held) (λ (x : A). c ∷ held) (c ∷ held)
              (λ (u : Unit {0}). pure a) (attach_fid fs fid c name s')
              ((KeepsOver-attach_fid fid c name).keeps held s' h') (λ u s'' h''. h'')));
  }

  pub Keeps-handle_tattach : (t : Tattach) → Keeps (handle_tattach fs t)
  unfolding handle_tattach
  Keeps-handle_tattach t =
      search
        (
          Keeps-then, Keeps-bind, Keeps-fail_if, Keeps-call, Keeps-attr_or_close,
          Keeps-mode_or_close, Keeps-rooted,
        )
        depth 14
