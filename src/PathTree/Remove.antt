-- ===== src/PathTree/Remove.antt =====
-- p9/path_tree.go: removing all references by a name.
use p.Base.{true_is_no_false}
use p.Base.{
  ℕ, ◌≡◌, refl, sym, ap, ◌∙◌, List, [], ◌∷◌, Bool, true, false, not, ◌&&◌, ◌||◌, Option, none, some,
  ◌==◌, if◌then◌else◌, Bool-cases, inl, inr, ==_refl,
}
use p.Base.Bytes.{same_bytes, same_bytes_refl, same_bytes→eq}
use p.Base.Assoc.{lookup, discard, member, lookup-without, bytes-IsEquality}
use p.PathTree.{PathNode, remove_ref, remove_each, remove_with_name}
use p.PathTree.Consistent.{
  Consistent, named, refs_of, is_name, taken-Consistent, named-without, member-put,
}

-- A reference that has no other name.
Only : List ℕ → ℕ → PathNode → Type 0
Only name ref p = (n : List ℕ) → named ref n p ≡ true → n ≡ name

remove_ref-named :
    (name : List ℕ) (ref : ℕ) (p : PathNode) (r : ℕ) (n : List ℕ)
    → named r n (remove_ref name ref p) ≡ (if r == ref then false else named r n p)
unfolding remove_ref
remove_ref-named name ref p r n = named-without r ref n p.child_ref_names

remove_ref-Consistent :
    (name : List ℕ) (ref : ℕ) (p : PathNode)
    → Consistent p
    → Only name ref p
    → Consistent (remove_ref name ref p)
unfolding remove_ref Only
remove_ref-Consistent name ref p h only r n =
    named-without r ref n p.child_ref_names
    ∙ taken-Consistent ref name p h only r n
    ∙ sym (member-put r n name (discard ◌==◌ ref (refs_of name p)) p.child_refs)

remove_ref-Only :
    (name : List ℕ) (ref r : ℕ) (p : PathNode) → Only name r p → Only name r (remove_ref name ref p)
unfolding Only
remove_ref-Only name ref r p only n h = only n (elim (Bool-cases (r == ref)) [
  | inl e ↦ absurd (
      true_is_no_false
        (sym h ∙ remove_ref-named name ref p r n ∙ ap (λ b. if b then false else named r n p) e))
  | inr e ↦
      sym (ap (λ b. if b then false else named r n p) e) ∙ sym (remove_ref-named name ref p r n) ∙ h
])

drop_one : (b c m : Bool) → (if c then false else b) && not m ≡ b && not (c || m)
drop_one true true m = refl
drop_one true false m = refl
drop_one false true m = refl
drop_one false false m = refl

-- The loop without a callback takes all names of the references that it runs over.
remove_each_lem :
    (name : List ℕ) (refs : List ℕ) (p : PathNode)
    → Consistent p
    → ((r : ℕ) → member ◌==◌ r refs ≡ true → Only name r p)
    → Consistent (remove_each name none refs p)
      × ((r : ℕ) (n : List ℕ)
          → named r n (remove_each name none refs p) ≡ named r n p && not (member ◌==◌ r refs))
unfolding remove_each
remove_each_lem name [] p h only = (h, λ r n. and_true (named r n p))
  where
    and_true : (b : Bool) → b ≡ b && true
    and_true true = refl
    and_true false = refl
remove_each_lem name (ref ∷ refs) p h only =
    let first : member ◌==◌ ref (ref ∷ refs) ≡ true =
      ap (λ b. b || member ◌==◌ ref refs) (==_refl ref) in
    let (h', names) =
      remove_each_lem name refs (remove_ref name ref p)
        (remove_ref-Consistent name ref p h (only ref first))
        (λ r is_in. remove_ref-Only name ref r p (only r (later r is_in))) in
    (
      h',
      λ r n.
          names r n
          ∙ ap (λ b. b && not (member ◌==◌ r refs)) (remove_ref-named name ref p r n)
          ∙ drop_one (named r n p) (r == ref) (member ◌==◌ r refs),
    )
  where
    later : (r : ℕ) → member ◌==◌ r refs ≡ true → member ◌==◌ r (ref ∷ refs) ≡ true
    later r e = ap (λ b. (r == ref) || b) e ∙ or_true (r == ref)
      where
        or_true : (b : Bool) → b || true ≡ true
        or_true true = refl
        or_true false = refl

remove_each-nodes :
    (name : List ℕ) (refs : List ℕ) (p : PathNode)
    → (remove_each name none refs p).child_nodes ≡ p.child_nodes
unfolding remove_each remove_ref
remove_each-nodes name [] p = refl
remove_each-nodes name (ref ∷ refs) p = remove_each-nodes name refs (remove_ref name ref p)

-- Two names of a reference are one.
same_name : (o : Option (List ℕ)) (m n : List ℕ) → is_name o m ≡ true → is_name o n ≡ true → n ≡ m
same_name none m n e e' = absurd cc
same_name (some k) m n e e' = same_bytes→eq n k e' ∙ sym (same_bytes→eq m k e)

-- On a node whose maps agree, `remove_with_name` without a callback leaves them in agreement: no
-- reference has the name any more, and every other name stays with its references. It returns
-- the node of the name, which is gone from the nodes, while the nodes of other names stay.
pub remove_with_name_lem :
    (name : List ℕ) (p : PathNode)
    → Consistent p
    → (let (pn, p') = remove_with_name name none p in
        Consistent p'
        × ((r : ℕ) (n : List ℕ) → named r n p' ≡ (if same_bytes n name then false else named r n p))
        × (pn ≡ lookup same_bytes name p.child_nodes)
        × ((n : List ℕ)
            → lookup same_bytes n p'.child_nodes
              ≡ (if same_bytes n name then none else lookup same_bytes n p.child_nodes)))
unfolding remove_with_name Only
remove_with_name_lem name p h =
    let (h', names) =
      remove_each_lem name (refs_of name p) p h (λ r is_in. only_name r (h r name ∙ is_in)) in
    let nodes = remove_each-nodes name (refs_of name p) p in
    (
      h',
      (λ r n. names r n ∙ ap (λ b. named r n p && not b) (sym (h r name)) ∙ other_names r n),
      ap (lookup same_bytes name) nodes,
      λ n.
          lookup-without same_bytes bytes-IsEquality n name _
          ∙ ap (λ m. if same_bytes n name then none else lookup same_bytes n m) nodes,
    )
  where
    only_name : (r : ℕ) → named r name p ≡ true → Only name r p
    only_name r e n e' = same_name (lookup ◌==◌ r p.child_ref_names) name n e e'

    other_names :
        (r : ℕ) (n : List ℕ)
        → named r n p && not (named r name p) ≡ (if same_bytes n name then false else named r n p)
    other_names r n = elim (Bool-cases (same_bytes n name)) [
      | inl alike ↦ rw alike (
          ap (λ x. named r x p && not (named r name p)) (same_bytes→eq n name alike)
          ∙ never (named r name p))
      | inr unlike ↦ rw unlike (elim (Bool-cases (named r name p)) [
        | inl e ↦ elim (Bool-cases (named r n p)) [
          | inl e' ↦ absurd (
              true_is_no_false (
                sym (same_bytes_refl name)
                ∙ ap (λ x. same_bytes x name) (sym (only_name r e n e'))
                ∙ unlike))
          | inr e' ↦ rw e' refl
        ]
        | inr e ↦ rw e (always (named r n p))
      ])
    ]
      where
        never : (b : Bool) → b && not b ≡ false
        never true = refl
        never false = refl

        always : (b : Bool) → b && true ≡ b
        always true = refl
        always false = refl
