-- ===== src/Examples/Server.antt =====
-- Path nodes, chunks and the version exchange at work.
use p.Base.{
  ℕ, ◌≡◌, refl, sym, ◌∙◌, List, [], ◌∷◌, ◌++◌, append_assoc, false, Option, none, some, ◌⊎◌, ◌==◌,
  if◌then◌else◌, arith,
}
use mathlib.Core.Path.{subst}
use p.Base.{◌≢◌, inl, inr, append-nil}
use p.Base.Bytes.{same_bytes}
use p.Base.Assoc.{lookup}
use p.PathTree.{PathNode, new_path_node, add_child, added, remove_child, remove_with_name, name_for}
use p.PathTree.Consistent.{
  Consistent, named, new_path_node-Consistent, add_child_lem, remove_child_lem,
}
use p.PathTree.Remove.{remove_with_name_lem}
use p.Client.Chunk.{Outcome, chunk, single_call}
use p.Client.Chunk.Ends.{chunk-some}
use p.Client.Chunk.Bounds.{Within, chunk-Within}
use p.Client.Chunk.Whole.{whole, IsWrite, chunk-whole}
use p.Version.{version_9p2000_l, version_string, highest_supported_version}
use p.Client.Handshake.{Session, handle_tversion, answered, agreed, negotiate}
use p.Client.Handshake.Agree.{lower, negotiate-handle_tversion}
use p.Transport.{maximum_length}

-- A node with the references 5 and 6 by the names "a" and "b", as `add_child` makes it.
abbrev one_child : PathNode
one_child = record new_path_node {
  child_ref_names = (5, 97 ∷ []) ∷ [];
  child_refs = (97 ∷ [], 5 ∷ []) ∷ [];
}

abbrev two_children : PathNode
two_children = record new_path_node {
  child_ref_names = (6, 98 ∷ []) ∷ (5, 97 ∷ []) ∷ [];
  child_refs = (98 ∷ [], 6 ∷ []) ∷ (97 ∷ [], 5 ∷ []) ∷ [];
}

added_twice :
    (add_child 5 (97 ∷ []) new_path_node ≡ some one_child)
    × (add_child 6 (98 ∷ []) one_child ≡ some two_children)
unfolding add_child added
added_twice = (refl, refl)

Consistent-after :
    (ref : ℕ) (name : List ℕ) (p p' : PathNode)
    → Consistent p
    → add_child ref name p ≡ some p'
    → Consistent p'
Consistent-after ref name p p' h e = elim (add_child_lem ref name p h) [
  | inl (n, _, panics) ↦ absurd (none_is_no_some (sym panics ∙ e))
  | inr (q, _, done, h', _) ↦ subst (λ x. Consistent x) (some_eq (sym done ∙ e)) h'
]
  where
    none_is_no_some : ◌≢◌ {A = Option PathNode} none (some p')
    none_is_no_some e = cc

    some_eq : {x y : PathNode} → some x ≡ some y → x ≡ y
    some_eq e = cc

one_child-Consistent : Consistent one_child
one_child-Consistent =
    Consistent-after 5 (97 ∷ []) new_path_node one_child new_path_node-Consistent added_twice.0

two_children-Consistent : Consistent two_children
two_children-Consistent =
    Consistent-after 6 (98 ∷ []) one_child two_children one_child-Consistent added_twice.1

add_child_lem_example :
    ((n : List ℕ) × (name_for 7 two_children ≡ some n)
      × (add_child 7 (97 ∷ []) two_children ≡ none))
    ⊎ ((p' : PathNode) × (name_for 7 two_children ≡ none)
        × (add_child 7 (97 ∷ []) two_children ≡ some p')
        × Consistent p'
        × ((r : ℕ) (n : List ℕ)
            → named r n p' ≡ (if r == 7 then same_bytes n (97 ∷ []) else named r n two_children)))
add_child_lem_example = add_child_lem 7 (97 ∷ []) two_children two_children-Consistent

remove_child_lem_example :
    (p' : PathNode) × (remove_child 5 two_children ≡ some p')
    × Consistent p'
    × ((r : ℕ) (n : List ℕ) → named r n p' ≡ (if r == 5 then false else named r n two_children))
remove_child_lem_example = remove_child_lem 5 two_children two_children-Consistent

remove_with_name_lem_example :
    (let (pn, p') = remove_with_name (97 ∷ []) none two_children in
      Consistent p'
      × ((r : ℕ) (n : List ℕ)
          → named r n p' ≡ (if same_bytes n (97 ∷ []) then false else named r n two_children))
      × (pn ≡ lookup same_bytes (97 ∷ []) two_children.child_nodes)
      × ((n : List ℕ)
          → lookup same_bytes n p'.child_nodes ≡ (
              if same_bytes n (97 ∷ [])
              then none
              else lookup same_bytes n two_children.child_nodes)))
remove_with_name_lem_example = remove_with_name_lem (97 ∷ []) two_children two_children-Consistent

-- A file that is appended to.
abbrev append_to : List ℕ → ℕ → List ℕ → List ℕ
append_to part offset s = s ++ part

append_to-IsWrite : IsWrite append_to
append_to-IsWrite = record {
  nothing = λ offset s. append-nil s;
  parts = λ a b offset s. append_assoc s a b;
}

abbrev five : List ℕ
five = 1 ∷ 2 ∷ 3 ∷ 4 ∷ 5 ∷ []

chunk-whole_example :
    chunk 2 (whole ℕ append_to) five 0 [] ≡ some (single_call (whole ℕ append_to five 0 []))
chunk-whole_example = chunk-whole 2 append_to append_to-IsWrite five 0 [] (omega arith)

chunk-some_example : (o : Outcome (List ℕ) ℕ) × (chunk 2 (whole ℕ append_to) five 0 [] ≡ some o)
chunk-some_example = chunk-some 2 (whole ℕ append_to) five 0 [] (omega arith)

chunk-Within_example :
    (o : Outcome (List ℕ) ℕ) × (chunk 2 (whole ℕ append_to) five 0 [] ≡ some o) × Within 5 o
chunk-Within_example =
    chunk-Within 2 (whole ℕ append_to) (λ part offset s. omega arith) five 0 [] (omega arith)

abbrev new_session : Session
new_session = record { message_size = 0; version = 0; base_version = version_9p2000_l }

negotiate-handle_tversion_example :
    (negotiate {E = ℕ} 8192 (λ t. answered (handle_tversion t new_session).0) 9
      ≡ agreed (lower highest_supported_version 9))
    × ((handle_tversion
          (record { m_size = 8192; version = version_string version_9p2000_l 9 })
          new_session).1
        ≡ record {
          message_size = lower maximum_length 8192;
          version = lower highest_supported_version 9;
          base_version = version_9p2000_l;
        })
negotiate-handle_tversion_example =
    negotiate-handle_tversion ℕ 8192 9 new_session (omega arith) (omega arith)
