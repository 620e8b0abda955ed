-- ===== src/PathTree.antt =====
-- p9/path_tree.go: a node of the tree of paths, with the references and the nodes below it. References
-- and nodes are known by number, as by address in the source; the locks make each operation one step.
pub mod Consistent
pub mod Remove
use p.Base.{ℕ, List, [], ◌∷◌, Bool, true, false, Option, none, some, ◌==◌, if◌then◌else◌}
use p.Base.Bytes.{same_bytes}
use p.Base.Assoc.{lookup, without, put, discard, include}

-- The lock of the source is not a field; `deleted` is a Boolean.
pub record PathNode : Type 0 where
  pub deleted : Bool
  pub child_nodes : List (List ℕ × ℕ)
  pub child_refs : List (List ℕ × List ℕ)
  pub child_ref_names : List (ℕ × List ℕ)

abbrev pub new_path_node : PathNode
new_path_node = record { deleted = false; child_nodes = []; child_refs = []; child_ref_names = [] }

-- The node that is found, or the new one at `fresh`.
unfoldable pub found_or_new : Option ℕ → List ℕ → ℕ → PathNode → ℕ × PathNode
found_or_new (some pn) name fresh p = (pn, p)
found_or_new none name fresh p =
    (fresh, record p { child_nodes = put same_bytes name fresh p.child_nodes })

unfoldable pub path_node_for : List ℕ → ℕ → PathNode → ℕ × PathNode
unfolding found_or_new
path_node_for name fresh p = found_or_new (lookup same_bytes name p.child_nodes) name fresh p

-- `none` is a panic, here and below.
unfoldable pub name_for : ℕ → PathNode → Option (List ℕ)
name_for ref p = lookup ◌==◌ ref p.child_ref_names

-- m, ok := childRefs[name], where a missing set is made.
abbrev pub or_empty : Option (List ℕ) → List ℕ
or_empty none = []
or_empty (some refs) = refs

unfoldable pub added : Option (List ℕ) → ℕ → List ℕ → PathNode → Option PathNode
added (some n) ref name p = none
added none ref name p = some (record p {
  child_ref_names = put ◌==◌ ref name p.child_ref_names;
  child_refs =
      put same_bytes name (include ◌==◌ ref (or_empty (lookup same_bytes name p.child_refs)))
        p.child_refs;
})

unfoldable pub add_child : ℕ → List ℕ → PathNode → Option PathNode
unfolding added
add_child ref name p = added (lookup ◌==◌ ref p.child_ref_names) ref name p

-- The set without the reference, which goes with its last member.
abbrev pub shrunk : List ℕ → List ℕ → List (List ℕ × List ℕ) → List (List ℕ × List ℕ)
shrunk name [] refs = without same_bytes name refs
shrunk name (r ∷ rest) refs = put same_bytes name (r ∷ rest) refs

unfoldable pub removed_from : Option (List ℕ) → List ℕ → ℕ → PathNode → Option PathNode
removed_from none name ref p = none
removed_from (some refs) name ref p = some (record p {
  child_refs = shrunk name (discard ◌==◌ ref refs) p.child_refs;
  child_ref_names = without ◌==◌ ref p.child_ref_names;
})

unfoldable pub removed : Option (List ℕ) → ℕ → PathNode → Option PathNode
unfolding removed_from
removed none ref p = some (record p { child_ref_names = without ◌==◌ ref p.child_ref_names })
removed (some name) ref p = removed_from (lookup same_bytes name p.child_refs) name ref p

unfoldable pub remove_child : ℕ → PathNode → Option PathNode
unfolding removed
remove_child ref p = removed (lookup ◌==◌ ref p.child_ref_names) ref p

unfoldable pub node_added : Option ℕ → List ℕ → ℕ → PathNode → Option PathNode
node_added (some opn) name pn p = none
node_added none name pn p = some (record p { child_nodes = put same_bytes name pn p.child_nodes })

unfoldable pub add_path_node_for : List ℕ → ℕ → PathNode → Option PathNode
unfolding node_added
add_path_node_for name pn p = node_added (lookup same_bytes name p.child_nodes) name pn p

-- delete(m, ref); delete(p.childRefNames, ref)
unfoldable pub remove_ref : List ℕ → ℕ → PathNode → PathNode
remove_ref name ref p = record p {
  child_refs =
      put same_bytes name (discard ◌==◌ ref (or_empty (lookup same_bytes name p.child_refs)))
        p.child_refs;
  child_ref_names = without ◌==◌ ref p.child_ref_names;
}

-- What the callback, under TryIncRef and DecRef, does to this node; a nil callback does nothing.
abbrev pub call : Option (ℕ → PathNode → PathNode) → ℕ → PathNode → PathNode
call none ref p = p
call (some fn) ref p = fn ref p

unfoldable pub remove_each :
    List ℕ → Option (ℕ → PathNode → PathNode) → List ℕ → PathNode → PathNode
unfolding remove_ref
remove_each name fn [] p = p
remove_each name fn (ref ∷ refs) p = remove_each name fn refs (call fn ref (remove_ref name ref p))

-- The loop runs over the set as it was found. The node that was there is returned.
unfoldable pub remove_with_name :
    List ℕ → Option (ℕ → PathNode → PathNode) → PathNode → Option ℕ × PathNode
unfolding remove_each
remove_with_name name fn p =
    let p' = remove_each name fn (or_empty (lookup same_bytes name p.child_refs)) p in
    (
      lookup same_bytes name p'.child_nodes,
      record p' { child_nodes = without same_bytes name p'.child_nodes },
    )
