-- ===== src/PathTree/Consistent.antt =====
-- p9/path_tree.go: the two maps of a node, from names to references and back.
use p.Base.{true_is_no_false}
use p.Base.{
  ℕ, ◌≡◌, refl, sym, ap, ◌∙◌, List, [], ◌∷◌, Bool, true, false, Option, none, some, ◌==◌,
  if◌then◌else◌, Bool-cases, Option-cases, ◌⊎◌, inl, inr, ==_iff,
}
use p.Base.Bytes.{same_bytes, same_bytes_refl, same_bytes→eq}
use p.Base.Assoc.{
  lookup, without, put, discard, include, member, lookup-without, lookup-put, member-discard,
  member-include, number-IsEquality, bytes-IsEquality,
}
use p.PathTree.{
  PathNode, new_path_node, or_empty, added, add_child, shrunk, removed_from, removed, remove_child,
  name_for,
}

-- The references by name.
abbrev pub refs_of : List ℕ → PathNode → List ℕ
refs_of name p = or_empty (lookup same_bytes name p.child_refs)

abbrev pub is_name : Option (List ℕ) → List ℕ → Bool
is_name none name = false
is_name (some n) name = same_bytes name n

-- Whether a reference has a name.
abbrev pub named : ℕ → List ℕ → PathNode → Bool
named ref name p = is_name (lookup ◌==◌ ref p.child_ref_names) name

-- A reference has a name exactly if it is among the references by that name.
abbrev pub Consistent : PathNode → Type 0
Consistent p = (r : ℕ) (n : List ℕ) → named r n p ≡ member ◌==◌ r (refs_of n p)

if-or_empty :
    (b : Bool) (o o' : Option (List ℕ))
    → or_empty (if b then o else o') ≡ (if b then or_empty o else or_empty o')
if-or_empty true o o' = refl
if-or_empty false o o' = refl

if-is_name :
    (b : Bool) (o o' : Option (List ℕ)) (n : List ℕ)
    → is_name (if b then o else o') n ≡ (if b then is_name o n else is_name o' n)
if-is_name true o o' n = refl
if-is_name false o o' n = refl

if-member :
    (b : Bool) (r : ℕ) (s t : List ℕ)
    → member ◌==◌ r (if b then s else t) ≡ (if b then member ◌==◌ r s else member ◌==◌ r t)
if-member true r s t = refl
if-member false r s t = refl

-- The names after one was given, and after one was taken.
named-put :
    (r ref : ℕ) (n name : List ℕ) (m : List (ℕ × List ℕ))
    → is_name (lookup ◌==◌ r (put ◌==◌ ref name m)) n
      ≡ (if r == ref then same_bytes n name else is_name (lookup ◌==◌ r m) n)
named-put r ref n name m =
    ap (λ o. is_name o n) (lookup-put ◌==◌ number-IsEquality r ref name m)
    ∙ if-is_name (r == ref) (some name) (lookup ◌==◌ r m) n

pub named-without :
    (r ref : ℕ) (n : List ℕ) (m : List (ℕ × List ℕ))
    → is_name (lookup ◌==◌ r (without ◌==◌ ref m)) n
      ≡ (if r == ref then false else is_name (lookup ◌==◌ r m) n)
named-without r ref n m =
    ap (λ o. is_name o n) (lookup-without ◌==◌ number-IsEquality r ref m)
    ∙ if-is_name (r == ref) none (lookup ◌==◌ r m) n

-- The references by a name after those by one name were replaced.
pub member-put :
    (r : ℕ) (n name : List ℕ) (s : List ℕ) (m : List (List ℕ × List ℕ))
    → member ◌==◌ r (or_empty (lookup same_bytes n (put same_bytes name s m))) ≡ (
        if same_bytes n name
        then member ◌==◌ r s
        else member ◌==◌ r (or_empty (lookup same_bytes n m)))
member-put r n name s m =
    ap (λ o. member ◌==◌ r (or_empty o)) (lookup-put same_bytes bytes-IsEquality n name s m)
    ∙ ap (member ◌==◌ r) (if-or_empty (same_bytes n name) (some s) (lookup same_bytes n m))
    ∙ if-member (same_bytes n name) r s (or_empty (lookup same_bytes n m))

member-shrunk :
    (r : ℕ) (n name : List ℕ) (s : List ℕ) (m : List (List ℕ × List ℕ))
    → member ◌==◌ r (or_empty (lookup same_bytes n (shrunk name s m))) ≡ (
        if same_bytes n name
        then member ◌==◌ r s
        else member ◌==◌ r (or_empty (lookup same_bytes n m)))
member-shrunk r n name [] m =
    ap (λ o. member ◌==◌ r (or_empty o)) (lookup-without same_bytes bytes-IsEquality n name m)
    ∙ ap (member ◌==◌ r) (if-or_empty (same_bytes n name) none (lookup same_bytes n m))
    ∙ if-member (same_bytes n name) r [] (or_empty (lookup same_bytes n m))
member-shrunk r n name (x ∷ s) m = member-put r n name (x ∷ s) m

pub new_path_node-Consistent : Consistent new_path_node
new_path_node-Consistent r n = refl

unnamed : (r : ℕ) (n : List ℕ) (p : PathNode) → name_for r p ≡ none → named r n p ≡ false
unfolding name_for
unnamed r n p e = ap (λ o. is_name o n) e

added-Consistent :
    (ref : ℕ) (name : List ℕ) (p : PathNode)
    → Consistent p
    → name_for ref p ≡ none
    → (r : ℕ) (n : List ℕ)
    → (if r == ref then same_bytes n name else named r n p) ≡ (
        if same_bytes n name
        then member ◌==◌ r (include ◌==◌ ref (refs_of name p))
        else member ◌==◌ r (refs_of n p))
added-Consistent ref name p h free r n = elim (Bool-cases (same_bytes n name)) [
  | inl alike ↦
      rw (alike, member-include ◌==◌ number-IsEquality r ref (refs_of name p))
        (elim (Bool-cases (r == ref)) [
          | inl is_ref ↦ rw is_ref refl
          | inr other ↦
              rw other (h r n ∙ ap (λ x. member ◌==◌ r (refs_of x p)) (same_bytes→eq n name alike))
        ])
  | inr unlike ↦ rw unlike (elim (Bool-cases (r == ref)) [
    | inl is_ref ↦
        rw is_ref
          (sym (unnamed r n p (ap (λ x. name_for x p) ((==_iff r ref).0 is_ref) ∙ free)) ∙ h r n)
    | inr other ↦ rw other (h r n)
  ])
]

-- On a node whose maps agree, `add_child` panics exactly if the reference has a name; else the
-- reference has the new name, the other references keep theirs, and the maps agree.
pub add_child_lem :
    (ref : ℕ) (name : List ℕ) (p : PathNode)
    → Consistent p
    → ((n : List ℕ) × (name_for ref p ≡ some n) × (add_child ref name p ≡ none))
      ⊎ ((p' : PathNode) × (name_for ref p ≡ none)
          × (add_child ref name p ≡ some p')
          × Consistent p'
          × ((r : ℕ) (n : List ℕ)
              → named r n p' ≡ (if r == ref then same_bytes n name else named r n p)))
unfolding add_child added name_for
add_child_lem ref name p h = elim (Option-cases (lookup ◌==◌ ref p.child_ref_names)) [
  | inl free ↦
      let p' : PathNode = record p {
        child_ref_names = put ◌==◌ ref name p.child_ref_names;
        child_refs = put same_bytes name (include ◌==◌ ref (refs_of name p)) p.child_refs;
      } in
      inr (
        p',
        free,
        ap (λ o. added o ref name p) free,
        (λ r n.
            named-put r ref n name p.child_ref_names
            ∙ added-Consistent ref name p h free r n
            ∙ sym (member-put r n name (include ◌==◌ ref (refs_of name p)) p.child_refs)),
        (λ r n. named-put r ref n name p.child_ref_names),
      )
  | inr (n, found) ↦ inl (n, found, ap (λ o. added o ref name p) found)
]

-- Taking the reference off its name takes it off everywhere.
pub taken-Consistent :
    (ref : ℕ) (name : List ℕ) (p : PathNode)
    → Consistent p
    → ((n : List ℕ) → named ref n p ≡ true → n ≡ name)
    → (r : ℕ) (n : List ℕ)
    → (if r == ref then false else named r n p) ≡ (
        if same_bytes n name
        then member ◌==◌ r (discard ◌==◌ ref (refs_of name p))
        else member ◌==◌ r (refs_of n p))
taken-Consistent ref name p h only r n = elim (Bool-cases (same_bytes n name)) [
  | inl alike ↦
      rw (alike, member-discard ◌==◌ number-IsEquality r ref (refs_of name p))
        (elim (Bool-cases (r == ref)) [
          | inl is_ref ↦ rw is_ref refl
          | inr other ↦
              rw other (h r n ∙ ap (λ x. member ◌==◌ r (refs_of x p)) (same_bytes→eq n name alike))
        ])
  | inr unlike ↦ rw unlike (elim (Bool-cases (r == ref)) [
    | inl is_ref ↦ rw is_ref (elim (Bool-cases (named ref n p)) [
      | inl has_name ↦ absurd (
          true_is_no_false (
            sym (same_bytes_refl name)
            ∙ ap (λ x. same_bytes x name) (sym (only n has_name))
            ∙ unlike))
      | inr no_name ↦
          sym no_name
          ∙ h ref n
          ∙ ap (λ x. member ◌==◌ x (refs_of n p)) (sym ((==_iff r ref).0 is_ref))
    ])
    | inr other ↦ rw other (h r n)
  ])
]

named-name : (r : ℕ) (n : List ℕ) (p : PathNode) → name_for r p ≡ some n → named r n p ≡ true
unfolding name_for
named-name r n p e = ap (λ o. is_name o n) e ∙ same_bytes_refl n

pub one_name :
    (r : ℕ) (m n : List ℕ) (p : PathNode) → name_for r p ≡ some m → named r n p ≡ true → n ≡ m
unfolding name_for
one_name r m n p e h = same_bytes→eq n m (sym (ap (λ o. is_name o n) e) ∙ h)

-- A name that a reference has is a key of the references.
key :
    (r : ℕ) (n : List ℕ) (p : PathNode)
    → member ◌==◌ r (refs_of n p) ≡ true
    → (s : List ℕ) × (lookup same_bytes n p.child_refs ≡ some s)
key r n p h = elim (Option-cases (lookup same_bytes n p.child_refs)) [
  | inl e ↦ absurd (true_is_no_false (sym h ∙ ap (λ o. member ◌==◌ r (or_empty o)) e))
  | inr found ↦ found
]

-- On a node whose maps agree, `remove_child` never panics, whether the reference has a name or not; the
-- reference has no name afterwards, the others keep theirs, and the maps agree.
pub remove_child_lem :
    (ref : ℕ) (p : PathNode)
    → Consistent p
    → (p' : PathNode) × (remove_child ref p ≡ some p')
      × Consistent p'
      × ((r : ℕ) (n : List ℕ) → named r n p' ≡ (if r == ref then false else named r n p))
unfolding remove_child removed removed_from name_for
remove_child_lem ref p h = elim (Option-cases (lookup ◌==◌ ref p.child_ref_names)) [
  | inl free ↦
      let p' : PathNode = record p { child_ref_names = without ◌==◌ ref p.child_ref_names } in
      let gone = λ (r : ℕ) (n : List ℕ). named-without r ref n p.child_ref_names in
      (p', ap (λ o. removed o ref p) free, (λ r n. gone r n ∙ was_free ref p h free r n), gone)
  | inr (name, found) ↦
      let (s, is_key) = key ref name p (sym (h ref name) ∙ named-name ref name p found) in
      let p' : PathNode = record p {
        child_refs = shrunk name (discard ◌==◌ ref s) p.child_refs;
        child_ref_names = without ◌==◌ ref p.child_ref_names;
      } in
      let gone = λ (r : ℕ) (n : List ℕ). named-without r ref n p.child_ref_names in
      (
        p',
        ap (λ o. removed o ref p) found ∙ ap (λ o. removed_from o name ref p) is_key,
        (λ r n.
            gone r n
            ∙ taken-Consistent ref name p h (λ m has_name. one_name ref name m p found has_name) r n
            ∙ ap
                (λ t.
                  if same_bytes n name
                  then member ◌==◌ r (discard ◌==◌ ref (or_empty t))
                  else member ◌==◌ r (refs_of n p))
                is_key
            ∙ sym (member-shrunk r n name (discard ◌==◌ ref s) p.child_refs)),
        gone,
      )
]
  where
    was_free :
        (ref : ℕ) (p : PathNode)
        → Consistent p
        → name_for ref p ≡ none
        → (r : ℕ) (n : List ℕ)
        → (if r == ref then false else named r n p) ≡ member ◌==◌ r (refs_of n p)
    was_free ref p h free r n = elim (Bool-cases (r == ref)) [
      | inl is_ref ↦
          rw is_ref
            (sym (unnamed r n p (ap (λ x. name_for x p) ((==_iff r ref).0 is_ref) ∙ free)) ∙ h r n)
      | inr other ↦ rw other (h r n)
    ]
