-- ===== src/Handlers/Owned/Clone.antt =====
-- p9/handlers.go, doWalk: what is owned around the new reference of a walk without names, and around
-- that of one step.
use p.Base.{
  ℕ, zero, suc, ◌≤◌, ◌<◌, ◌≡◌, refl, ap, List, [], ◌∷◌, Bool, true, false, Option, none, some, ◌==◌,
  arith, Option-cases, Bool-cases, inl, inr, ==_iff, ==_refl, ≢→==,
}
use p.PathTree.{PathNode, add_child, name_for}
use p.Server.{FidRef}
use p.Server.Owners.{state, owns, children}
use p.Server.Counts.{Counted-made}
use p.Server.Open.{Reached-Counted}
use p.Handlers.State.{ConnState, Details, next, set_node}
use p.Handlers.Refs.{retain, new_ref}
use p.Handlers.Names.{is_deleted}
use p.Handlers.Make.{added_child, add_child_ref}
use p.Handlers.Remove.{or_panic, name_of}
use p.Handlers.Walk.{join_parent, clone_child, walk_child}
use p.Handlers.Owned.{Owned, Ends}
use p.Handlers.Owned.Table.{retain-Owned, new_ref-root, new_ref-below, Owned-has_count}

-- A live reference is among those that own its parent.
owns-le-children : (n r q : ℕ) (f : ℕ → FidRef) → r < n → owns (f r) q ≤ children n f q
owns-le-children zero r q f h = absurd (omega arith)
owns-le-children (suc n) r q f h = elim (Bool-cases (n == r)) [
  | inl last ↦ let same = ap (λ k. owns (f k) q) ((==_iff n r).0 last) in omega (arith, same)
  | inr before ↦ omega (arith, owns-le-children n r q f (ground (arith, before, h)))
]

owns-parent : (x : FidRef) (q : ℕ) → 0 < x.refs → x.parent ≡ some q → owns x q ≡ 1
owns-parent x q pos e = rw (≢→== x.refs 0 (λ z. absurd (omega (arith, z, pos))), e, ==_refl q) refl

module _ {B : Type 0} where
  parent-has_count :
      (r q : ℕ) (X : List ℕ) (s : ConnState B)
      → Owned s (r ∷ X)
      → (s.server.fid_refs r).parent ≡ some q
      → 0 < (s.server.fid_refs q).refs
  parent-has_count r q X s h e =
      let pos = Owned-has_count [] X r s h in
      let counted = Reached-Counted (state s.server (r ∷ X) s.made) h in
      let in_range = Counted-made (state s.server (r ∷ X) s.made) r counted pos in
      omega (
        arith,
        counted.counts q,
        owns-le-children s.made r q s.server.fid_refs in_range,
        owns-parent (s.server.fid_refs r) q pos e,
      )

  -- The parent gets a count more, which the new reference owns.
  Owned-below :
      (r q : ℕ) (d : Details) (X : List ℕ) (s : ConnState B)
      → 0 < (s.server.fid_refs q).refs
      → Owned s (r ∷ X)
      → Ends (λ (c : ℕ). c ∷ r ∷ X) (r ∷ X) (next (λ u. new_ref (some q) d) (retain q s))
  unfolding retain new_ref
  Owned-below r q d X s pos h =
      new_ref-below {B = B} q d [] (r ∷ X) (retain q s).1 (retain-Owned q (r ∷ X) s pos h)

  added-below :
      (r q pn : ℕ) (d : Details) (o : Option PathNode) (X : List ℕ) (s : ConnState B)
      → 0 < (s.server.fid_refs q).refs
      → Owned s (r ∷ X)
      → Ends
          (λ (c : ℕ). c ∷ r ∷ X)
          (r ∷ X)
          (next (λ u. new_ref (some q) d) (next (λ u. retain q) (added_child pn o s)))
  added-below r q pn d none X s pos h = ([], h)
  added-below r q pn d (some node) X s pos h = Owned-below r q d X (set_node pn node s) pos h

  named-below :
      (r q : ℕ) (d : Details) (o : Option (List ℕ)) (X : List ℕ) (s : ConnState B)
      → 0 < (s.server.fid_refs q).refs
      → Owned s (r ∷ X)
      → Ends
          (λ (c : ℕ). c ∷ r ∷ X)
          (r ∷ X)
          (next
            (λ u. new_ref (some q) d)
            (next (λ u. retain q) (next (λ name. add_child_ref q s.made name) (or_panic o, s))))
  unfolding add_child_ref
  named-below r q d none X s pos h = ([], h)
  named-below r q d (some name) X s pos h =
      let pn = (s.details q).path_node in
      added-below r q pn d (add_child s.made name (s.nodes pn)) X s pos h

  joined-below :
      (r q : ℕ) (d : Details) (deleted : Bool) (X : List ℕ) (s : ConnState B)
      → 0 < (s.server.fid_refs q).refs
      → Owned s (r ∷ X)
      → Ends
          (λ (c : ℕ). c ∷ r ∷ X)
          (r ∷ X)
          (next (λ u. new_ref (some q) d) (join_parent r s.made (some q) deleted s))
  unfolding name_of
  joined-below r q d true X s pos h = Owned-below r q d X s pos h
  joined-below r q d false X s pos h =
      named-below r q d (name_for r (s.nodes (s.details q).path_node)) X s pos h

  pub clone_child-Ends :
      (r : ℕ) (d : Details) (X : List ℕ) (s : ConnState B)
      → Owned s (r ∷ X)
      → Ends (λ (c : ℕ). c ∷ r ∷ X) (r ∷ X) (clone_child r d s)
  unfolding clone_child new_ref
  clone_child-Ends r d X s h = elim (Option-cases (s.server.fid_refs r).parent) [
    | inl e ↦ rw e (new_ref-root d (r ∷ X) s h)
    | inr (q, e) ↦ rw e (joined-below r q d (is_deleted s r) X s (parent-has_count r q X s h e) h)
  ]

  added-walk :
      (r pn : ℕ) (d : Details) (o : Option PathNode) (X : List ℕ) (s : ConnState B)
      → Owned s (r ∷ X)
      → Ends (λ (c : ℕ). c ∷ X) (r ∷ X) (next (λ u. new_ref (some r) d) (added_child pn o s))
  unfolding new_ref
  added-walk r pn d none X s h = ([], h)
  added-walk r pn d (some node) X s h = new_ref-below {B = B} r d [] X (set_node pn node s) h

  pub walk_child-Ends :
      (r : ℕ) (name : List ℕ) (d : Details) (X : List ℕ) (s : ConnState B)
      → Owned s (r ∷ X)
      → Ends (λ (c : ℕ). c ∷ X) (r ∷ X) (walk_child r name d s)
  unfolding walk_child
  walk_child-Ends r name d X s h =
      let pn = (s.details r).path_node in
      added-walk r pn d (add_child s.made name (s.nodes pn)) X s h
