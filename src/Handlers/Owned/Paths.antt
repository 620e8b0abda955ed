-- ===== src/Handlers/Owned/Paths.antt =====
-- p9/server.go and p9/path_tree.go: what is owned around changes of path nodes.
use p.Base.{ℕ, zero, suc, List, [], ◌∷◌, Option, none, some}
use p.PathTree.{PathNode, remove_with_name, add_child, name_for}
use p.Handlers.State.{ConnState, update, set_node}
use p.Handlers.Make.{child_path_node, added_child, add_child_ref}
use p.Handlers.Remove.{
  delete_node, each, notify_delete, targets, notified, mark_child_deleted, or_invalid, or_panic,
  parent_of, name_of,
}
use p.Handlers.Owned.{Owned, Ends, Keeps}
use p.Handlers.Owned.Guards.{Keeps-update}

module _ {B : Type 0} where
  pub Keeps-child_path_node : (r : ℕ) (name : List ℕ) → Keeps (child_path_node {B = B} r name)
  unfolding child_path_node
  Keeps-child_path_node r name = record { keeps = λ held s h. h }

  added_child-Ends :
      (pn : ℕ) (o : Option PathNode) (X : List ℕ) (s : ConnState B)
      → Owned s X
      → Ends (λ (u : Unit {0}). X) X (added_child pn o s)
  added_child-Ends pn none X s h = ([], h)
  added_child-Ends pn (some node) X s h = h

  pub Keeps-add_child_ref :
      (r child : ℕ) (name : List ℕ) → Keeps (add_child_ref {B = B} r child name)
  unfolding add_child_ref
  Keeps-add_child_ref r child name = record {
    keeps = λ held s h.
        let pn = (s.details r).path_node in
        added_child-Ends pn (add_child child name (s.nodes pn)) held s h;
  }

  each-Owned :
      (f : ℕ → ConnState B → ConnState B)
      → ((pn : ℕ) (s : ConnState B) (X : List ℕ) → Owned s X → Owned (f pn s) X)
      → (pns : List ℕ) (s : ConnState B) (X : List ℕ) → Owned s X
      → Owned (each f pns s) X
  each-Owned f k [] s X h = h
  each-Owned f k (pn ∷ pns) s X h = each-Owned f k pns (f pn s) X (k pn s X h)

  notify_delete-Owned :
      (depth pn : ℕ) (s : ConnState B) (X : List ℕ) → Owned s X → Owned (notify_delete depth pn s) X
  unfolding notify_delete
  notify_delete-Owned zero pn s X h = h
  notify_delete-Owned (suc depth) pn s X h =
      each-Owned (notify_delete depth) (notify_delete-Owned depth)
        (targets ((delete_node pn s).nodes pn).child_nodes) (delete_node pn s) X h

  notified-Owned :
      (o : Option ℕ) (s : ConnState B) (X : List ℕ) → Owned s X → Owned (notified o s) X
  notified-Owned none s X h = h
  notified-Owned (some pn) s X h = notify_delete-Owned s.made_nodes pn s X h

  pub Keeps-mark_child_deleted :
      (r : ℕ) (name : List ℕ) → Keeps (update (mark_child_deleted {B = B} r name))
  unfolding mark_child_deleted
  Keeps-mark_child_deleted r name = Keeps-update (mark_child_deleted r name) λ s held h.
      let pn = (s.details r).path_node in
      let (orig, node) = remove_with_name name none (s.nodes pn) in
      notified-Owned orig (set_node pn node s) held h

  or_invalid-Ends :
      (o : Option ℕ) (X : List ℕ) (s : ConnState B)
      → Owned s X
      → Ends (λ (q : ℕ). X) X (or_invalid o, s)
  or_invalid-Ends none X s h = h
  or_invalid-Ends (some q) X s h = h

  pub Keeps-parent_of : (r : ℕ) → Keeps (parent_of {B = B} r)
  unfolding parent_of
  Keeps-parent_of r = record {
    keeps = λ held s h. or_invalid-Ends (s.server.fid_refs r).parent held s h;
  }

  or_panic-Ends :
      (o : Option (List ℕ)) (X : List ℕ) (s : ConnState B)
      → Owned s X
      → Ends (λ (name : List ℕ). X) X (or_panic o, s)
  or_panic-Ends none X s h = ([], h)
  or_panic-Ends (some name) X s h = h

  pub Keeps-name_of : (r parent : ℕ) → Keeps (name_of {B = B} r parent)
  unfolding name_of
  Keeps-name_of r parent = record {
    keeps = λ held s h. or_panic-Ends (name_for r (s.nodes (s.details parent).path_node)) held s h;
  }
