-- ===== src/Handlers/Owned/Over.antt =====
-- p9/handlers.go: what is owned around the handlers that make a reference below one that they hold, or
-- one to an attribute.
use p.Base.{ℕ, List, [], ◌∷◌, Option, none, some}
use p.PathTree.{PathNode, add_child}
use p.Types.Qid.{Qid}
use p.Messages.Open.{Tlcreate, Tucreate}
use p.Messages.Attributes.{Txattrwalk}
use p.Handlers.{FileSystem}
use p.Handlers.State.{M, ConnState, Details, next, set_node, deferring, pure, ◌>>=◌, ◌>>◌}
use p.Handlers.Refs.{with_fid, install, release, retain, new_ref}
use p.Handlers.Make.{added_child, new_child, created, do_tlcreate, handle_tucreate}
use p.Handlers.Xattr.{get_value, handle_txattrwalk}
use p.Handlers.Owned.{
  Owned, Ends, Ends-next, Keeps, Keeps-bind, Keeps-then, Keeps-pure, Keeps-gets, Keeps-call,
}
use p.Handlers.Owned.Table.{
  with_fid-Ends, install-Ends, retain-Owned, new_ref-root, new_ref-below, Owned-has_count,
  always-Ends,
}
use p.Handlers.Owned.Guards.{Keeps-check_safe_name, Keeps-guard_change}
use p.Handlers.Owned.Paths.{Keeps-child_path_node}
use p.Handlers.Owned.Simple.{keeping}

module _ {B : Type 0} where
  -- A part that ends with what it began with, where the reference is held.
  pub record KeepsOver {A : Type 0} (r : ℕ) (m : M B A) : Type 0 where
    pub keeps :
        (X : List ℕ) (s : ConnState B) → Owned s (r ∷ X) → Ends (λ (a : A). r ∷ X) (r ∷ X) (m s)

  pub KeepsOver-of : {A : Type 0} (r : ℕ) {m : M B A} → Keeps m → KeepsOver r m
  KeepsOver-of r k = record { keeps = λ X s h. k.keeps (r ∷ X) s h }

  pub KeepsOver-bind :
      {A C : Type 0} {r : ℕ} {m : M B A} {f : A → M B C}
      → Keeps m
      → ((a : A) → KeepsOver r (f a))
      → KeepsOver r (m >>= f)
  KeepsOver-bind {A} {C} {r} {m} {f} km kf = record {
    keeps = λ X s h.
        Ends-next (λ (a : A). r ∷ X) (λ (c : C). r ∷ X) (r ∷ X) f (m s) (km.keeps (r ∷ X) s h)
          (λ a s' h'. (kf a).keeps X s' h');
  }

  pub KeepsOver-then :
      {C : Type 0} {r : ℕ} {m : M B (Unit {0})} {k : M B C}
      → Keeps m
      → KeepsOver r k
      → KeepsOver r (m >> k)
  KeepsOver-then km kk = KeepsOver-bind km (λ u. kk)

  added-new :
      (r pn : ℕ) (d : Details) (o : Option PathNode) (X : List ℕ) (s : ConnState B)
      → Owned s (r ∷ X)
      → Ends
          (λ (c : ℕ). c ∷ r ∷ X)
          (r ∷ X)
          (next (λ u. retain r >> new_ref (some r) d) (added_child pn o s))
  unfolding retain new_ref
  added-new r pn d none X s h = ([], h)
  added-new r pn d (some node) X s h =
      new_ref-below {B = B} r d [] (r ∷ X) (retain r (set_node pn node s)).1
        (retain-Owned r (r ∷ X) (set_node pn node s) (Owned-has_count [] X r s h) h)

  new_child-Ends :
      (r : ℕ) (name : List ℕ) (d : Details) (X : List ℕ) (s : ConnState B)
      → Owned s (r ∷ X)
      → Ends (λ (c : ℕ). c ∷ r ∷ X) (r ∷ X) (new_child r name d s)
  unfolding new_child
  new_child-Ends r name d X s h =
      let pn = (s.details r).path_node in
      added-new r pn d (add_child s.made name (s.nodes pn)) X s h

  pub new_ref-made :
      (d : Details) (X : List ℕ) (s : ConnState B)
      → Owned s X
      → Ends (λ (c : ℕ). c ∷ X) X (new_ref none d s)
  unfolding new_ref
  new_ref-made d X s h = new_ref-root d X s h

  module _ (fs : FileSystem B) where
    pub Keeps-with_fid_over :
        {A : Type 0} (fid : ℕ) {body : ℕ → M B A}
        → ((r : ℕ) → KeepsOver r (body r))
        → Keeps (with_fid fs fid body)
    Keeps-with_fid_over {A} fid {body} k = record {
      keeps = λ held s h. with_fid-Ends fs fid body held s (λ r s' h'. (k r).keeps held s' h') h;
    }

    -- A reference that a handler holds goes into the table, and the handler's count of it back.
    pub installed-Ends :
        {A : Type 0} (fid c : ℕ) (a : A) (X : List ℕ) (s : ConnState B)
        → Owned s (c ∷ X)
        → Ends (λ (x : A). X) X (deferring (release fs c) (install fs fid c >> pure a) s)
    installed-Ends {A} fid c a X s h = always-Ends fs c X ((install fs fid c >> pure a) s) (
        Ends-next (λ (u : Unit {0}). c ∷ X) (λ (x : A). c ∷ X) (c ∷ X) (λ (u : Unit {0}). pure a)
          (install fs fid c s) (install-Ends fs fid c [] X s h) (λ u s' h'. h'))

    KeepsOver-made :
        {A : Type 0} (r fid : ℕ) (name : List ℕ) (d : Details) (a : A)
        → KeepsOver r (
            new_child {B = B} r name d >>= λ c.
            deferring (release fs c) (install fs fid c >> pure a))
    KeepsOver-made {A} r fid name d a = record {
      keeps = λ X s h.
          Ends-next (λ (c : ℕ). c ∷ r ∷ X) (λ (x : A). r ∷ X) (r ∷ X)
            (λ (c : ℕ). deferring (release fs c) (install fs fid c >> pure a))
            (new_child r name d s) (new_child-Ends r name d X s h)
            (λ c s' h'. installed-Ends fid c a (r ∷ X) s' h');
    }

    KeepsOver-created :
        (t : Tlcreate) (r : ℕ) (made : ℕ × Qid × ℕ) → KeepsOver r (created fs t r made)
    unfolding created
    KeepsOver-created t r (file, qid, io_unit) =
        search (KeepsOver-bind, Keeps-child_path_node, KeepsOver-made)

    pub Keeps-do_tlcreate : (t : Tlcreate) (uid : ℕ) → Keeps (do_tlcreate fs t uid)
    unfolding do_tlcreate
    Keeps-do_tlcreate t uid =
        search
          (
            Keeps-then, Keeps-check_safe_name, Keeps-with_fid_over, KeepsOver-then, KeepsOver-bind,
            Keeps-guard_change, Keeps-gets, Keeps-call, KeepsOver-created,
          )
          depth 14

    pub Keeps-handle_tucreate : (t : Tucreate) → Keeps (handle_tucreate fs t)
    unfolding handle_tucreate
    Keeps-handle_tucreate t = search (Keeps-bind, Keeps-do_tlcreate, Keeps-pure) depth 14

    Keeps-attribute :
        {A : Type 0} (fid : ℕ) (d : Details) (a : A)
        → Keeps
            (new_ref {B = B} none d >>= λ c. deferring (release fs c) (install fs fid c >> pure a))
    Keeps-attribute {A} fid d a = record {
      keeps = λ held s h.
          Ends-next (λ (c : ℕ). c ∷ held) (λ (x : A). held) held
            (λ (c : ℕ). deferring (release fs c) (install fs fid c >> pure a)) (new_ref none d s)
            (new_ref-made d held s h) (λ c s' h'. installed-Ends fid c a held s' h');
    }

    Keeps-get_value : (file : ℕ) (name : List ℕ) → Keeps (get_value fs file name)
    unfolding get_value
    Keeps-get_value file [] = search (Keeps-bind, Keeps-call, Keeps-pure) depth 14
    Keeps-get_value file (c ∷ name) = Keeps-call (fs.get_xattr file (c ∷ name))

    pub Keeps-handle_txattrwalk : (t : Txattrwalk) → Keeps (handle_txattrwalk fs t)
    unfolding handle_txattrwalk
    Keeps-handle_txattrwalk t = search (keeping, Keeps-get_value, Keeps-attribute) depth 14
