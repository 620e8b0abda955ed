-- ===== src/Fsimpl/Qids/Unique.antt =====
-- fsimpl/qids/qids.go: the paths that mappers with one generator give, in every order of calls.
use p.Base.{none_is_no_some}
use p.Base.{
  ℕ, suc, ◌+◌, ◌%◌, ◌^◌, ◌≤◌, ◌<◌, ◌≡◌, ◌⊎◌, ◌↔◌, refl, sym, ap, ◌∙◌, List, [], ◌∷◌, none, some,
  ◌==◌, if◌then◌else◌, arith, Bool-cases, Option-cases, inl, inr, ==_iff, ==_refl,
}
use p.Types.Qid.{Qid}
use p.Fsimpl.Qids.{new_path, lookup, qid_with, qid_for}

-- The generator, and the map of each mapper.
pub record Mappers : Type 0 where
  pub uids : ℕ
  pub paths : ℕ → List (ℕ × ℕ)

abbrev pub replace : (ℕ → List (ℕ × ℕ)) → ℕ → List (ℕ × ℕ) → ℕ → List (ℕ × ℕ)
replace f m ps k = if k == m then ps else f k

-- Mapper `m` maps a QID, or somebody else takes a path from the generator.
abbrev pub mapped : ℕ → Qid → Mappers → Mappers
mapped m q s =
    let (_, uids, paths) = qid_for q s.uids (s.paths m) in
    record { uids = uids; paths = replace s.paths m paths }

pub data Step : Mappers → Mappers → Type 0 where
  maps : (s : Mappers) (m : ℕ) (q : Qid) → Step s (mapped m q s)
  takes : (s : Mappers) → Step s (record s { uids = new_path s.uids })

-- `n` steps, one after another.
pub data Steps : ℕ → Mappers → Mappers → Type 0 where
  none_yet : (s : Mappers) → Steps 0 s s
  next : (n : ℕ) (s s' s'' : Mappers) → Steps n s s' → Step s' s'' → Steps (suc n) s s''

-- A new generator and new mappers.
abbrev pub new_mappers : Mappers
new_mappers = record { uids = 0; paths = λ m. [] }

-- No two entries give one path, and the generator has passed them all.
pub record Unique (s : Mappers) : Type 0 where
  pub passed : (m p v : ℕ) → lookup p (s.paths m) ≡ some v → v ≤ s.uids
  pub once :
      (m m' p p' v : ℕ)
      → lookup p (s.paths m) ≡ some v
      → lookup p' (s.paths m') ≡ some v
      → (m ≡ m') × (p ≡ p')

-- The entry of a path after it was mapped anew.
lookup-new :
    (f : ℕ → List (ℕ × ℕ)) (m q v : ℕ) (k p w : ℕ)
    → lookup p (replace f m ((q, v) ∷ f m) k) ≡ some w
    → ((k ≡ m) × (p ≡ q) × (w ≡ v)) ⊎ (lookup p (f k) ≡ some w)
lookup-new f m q v k p w e = elim (Bool-cases (k == m)) [
  | inl same ↦
      let is_m = (==_iff k m).0 same in
      let found = ap (λ b. lookup p (if b then (q, v) ∷ f m else f k)) (sym same) ∙ e in
      elim (Bool-cases (p == q)) [
        | inl first ↦
            let value : some v ≡ some w =
              ap (λ b. if b then some v else lookup p (f m)) (sym first) ∙ found in
            inl (is_m, (==_iff p q).0 first, cc)
        | inr later ↦ inr (
            ap (λ x. lookup p (f x)) is_m
            ∙ ap (λ b. if b then some v else lookup p (f m)) (sym later)
            ∙ found)
      ]
  | inr other ↦ inr (ap (λ b. lookup p (if b then (q, v) ∷ f m else f k)) (sym other) ∙ e)
]

-- The other way around.
lookup-kept :
    (f : ℕ → List (ℕ × ℕ)) (m q v : ℕ) (k p w : ℕ)
    → lookup q (f m) ≡ none
    → lookup p (f k) ≡ some w
    → lookup p (replace f m ((q, v) ∷ f m) k) ≡ some w
lookup-kept f m q v k p w free e = elim (Bool-cases (k == m)) [
  | inl same ↦ elim (Bool-cases (p == q)) [
    | inl first ↦ absurd (
        none_is_no_some w (
          sym free
          ∙ ap (λ x. lookup x (f m)) (sym ((==_iff p q).0 first))
          ∙ ap (λ x. lookup p (f x)) (sym ((==_iff k m).0 same))
          ∙ e))
    | inr later ↦ rw (same, later) (ap (λ x. lookup p (f x)) (sym ((==_iff k m).0 same)) ∙ e)
  ]
  | inr other ↦ rw other e
]

replace-same : (f : ℕ → List (ℕ × ℕ)) (m k : ℕ) → replace f m (f m) k ≡ f k
replace-same f m k = elim (Bool-cases (k == m)) [
  | inl same ↦ rw same (ap f (sym ((==_iff k m).0 same)))
  | inr other ↦ rw other refl
]

new-Unique :
    (s : Mappers) (m q : ℕ)
    → Unique s
    → s.uids + 1 < 2 ^ 64
    → Unique (record {
      uids = new_path s.uids;
      paths = replace s.paths m ((q, new_path s.uids) ∷ s.paths m);
    })
unfolding new_path
new-Unique s m q h room = record {
  passed = λ k p w e. elim (lookup-new s.paths m q ((s.uids + 1) % 2 ^ 64) k p w e) [
    | inl (_, _, same) ↦ omega arith
    | inr old ↦ omega (arith, h.passed k p w old)
  ];
  once = λ k k' p p' w e e'. elim (lookup-new s.paths m q ((s.uids + 1) % 2 ^ 64) k p w e) [
    | inl (is_m, is_q, same) ↦ elim (lookup-new s.paths m q ((s.uids + 1) % 2 ^ 64) k' p' w e') [
      | inl (is_m', is_q', _) ↦ (omega arith, omega arith)
      | inr old ↦ absurd (omega (arith, h.passed k' p' w old))
    ]
    | inr old ↦ elim (lookup-new s.paths m q ((s.uids + 1) % 2 ^ 64) k' p' w e') [
      | inl (_, _, same) ↦ absurd (omega (arith, h.passed k p w old))
      | inr old' ↦ h.once k k' p p' w old old'
    ]
  ];
}

-- The path that a mapper gives to a QID.
abbrev pub given : ℕ → Qid → Mappers → ℕ
given m q s = (qid_for q s.uids (s.paths m)).0.path

mapped-Unique :
    (s : Mappers) (m : ℕ) (q : Qid) → Unique s → s.uids + 1 < 2 ^ 64 → Unique (mapped m q s)
unfolding qid_for qid_with
mapped-Unique s m q h room = elim (Option-cases (lookup q.path (s.paths m))) [
  | inl free ↦ rw free (new-Unique s m q.path h room)
  | inr (v, found) ↦ rw found (record {
    passed = λ k p w e. h.passed k p w (ap (lookup p) (sym (replace-same s.paths m k)) ∙ e);
    once = λ k k' p p' w e e'.
        h.once k k' p p' w (ap (lookup p) (sym (replace-same s.paths m k)) ∙ e)
          (ap (lookup p') (sym (replace-same s.paths m k')) ∙ e');
  })
]

-- What a mapper has given stays.
mapped-keeps :
    (s : Mappers) (m : ℕ) (q : Qid) (k p w : ℕ)
    → lookup p (s.paths k) ≡ some w
    → lookup p ((mapped m q s).paths k) ≡ some w
unfolding qid_for qid_with
mapped-keeps s m q k p w e = elim (Option-cases (lookup q.path (s.paths m))) [
  | inl free ↦ rw free (lookup-kept s.paths m q.path (new_path s.uids) k p w free e)
  | inr (v, found) ↦ rw found (ap (lookup p) (replace-same s.paths m k) ∙ e)
]

mapped-given :
    (s : Mappers) (m : ℕ) (q : Qid) → lookup q.path ((mapped m q s).paths m) ≡ some (given m q s)
unfolding qid_for qid_with
mapped-given s m q = elim (Option-cases (lookup q.path (s.paths m))) [
  | inl free ↦
      rw (free, ==_refl m, ==_refl q.path)
        (ap (λ o. some ((qid_with o q s.uids (s.paths m)).0.path)) (sym free))
  | inr (v, found) ↦
      rw (found, ==_refl m)
        (found ∙ ap (λ o. some ((qid_with o q s.uids (s.paths m)).0.path)) (sym found))
]

mapped-uids : (s : Mappers) (m : ℕ) (q : Qid) → (mapped m q s).uids ≤ s.uids + 1
unfolding qid_for qid_with new_path
mapped-uids s m q = elim (Option-cases (lookup q.path (s.paths m))) [
  | inl free ↦ rw free (omega arith)
  | inr (v, found) ↦ rw found (omega arith)
]

Step-Unique : (s s' : Mappers) → Step s s' → Unique s → s.uids + 1 < 2 ^ 64 → Unique s'
unfolding new_path
Step-Unique s s' (maps _ m q) h room = mapped-Unique s m q h room
Step-Unique s s' (takes _) h room = record {
  passed = λ m p v e. omega (arith, h.passed m p v e);
  once = h.once;
}

Step-keeps :
    (s s' : Mappers) (k p w : ℕ)
    → Step s s'
    → lookup p (s.paths k) ≡ some w
    → lookup p (s'.paths k) ≡ some w
Step-keeps s s' k p w (maps _ m q) e = mapped-keeps s m q k p w e
Step-keeps s s' k p w (takes _) e = e

Step-uids : (s s' : Mappers) → Step s s' → s'.uids ≤ s.uids + 1
unfolding new_path
Step-uids s s' (maps _ m q) = mapped-uids s m q
Step-uids s s' (takes _) = omega arith

Steps-uids : (n : ℕ) (s s' : Mappers) → Steps n s s' → s'.uids ≤ s.uids + n
Steps-uids n s s' (none_yet _) = omega arith
Steps-uids n s s' (next k _ t _ steps e) = omega (arith, Steps-uids k s t steps, Step-uids t s' e)

Steps-Unique : (n : ℕ) (s s' : Mappers) → Steps n s s' → Unique s → s.uids + n < 2 ^ 64 → Unique s'
Steps-Unique n s s' (none_yet _) h room = h
Steps-Unique n s s' (next k _ t _ steps e) h room =
    Step-Unique t s' e (Steps-Unique k s t steps h (omega (arith, room)))
      (omega (arith, room, Steps-uids k s t steps))

Steps-keeps :
    (n : ℕ) (s s' : Mappers) (k p w : ℕ)
    → Steps n s s'
    → lookup p (s.paths k) ≡ some w
    → lookup p (s'.paths k) ≡ some w
Steps-keeps n s s' k p w (none_yet _) e = e
Steps-keeps n s s' k p w (next j _ t _ steps last) e =
    Step-keeps t s' k p w last (Steps-keeps j s t k p w steps e)

new_mappers-Unique : Unique new_mappers
new_mappers-Unique = record {
  passed = λ m p v e. absurd (none_is_no_some v e);
  once = λ m m' p p' v e e'. absurd (none_is_no_some v e);
}

-- Among mappers that share a generator, in every order of calls of which there are fewer than 2 ^ 64 - 2,
-- two QIDs that are mapped at different times get one path exactly if they have one path already and
-- are mapped by one mapper.
pub qid_for_unique :
    (n k m m' : ℕ) (q q' : Qid) (s s' : Mappers)
    → Steps n new_mappers s
    → Steps k (mapped m q s) s'
    → n + k + 2 < 2 ^ 64
    → (given m q s ≡ given m' q' s') ↔ ((m ≡ m') × (q.path ≡ q'.path))
qid_for_unique n k m m' q q' s s' before between room =
    let first = next n new_mappers s (mapped m q s) before (maps s m q) in
    let one : Unique (mapped m q s) =
      Steps-Unique (suc n) new_mappers (mapped m q s) first new_mappers-Unique
        (omega (arith, room)) in
    let used = Steps-uids (suc n) new_mappers (mapped m q s) first in
    let last = next k (mapped m q s) s' (mapped m' q' s') between (maps s' m' q') in
    let all : Unique (mapped m' q' s') =
      Steps-Unique (suc k) (mapped m q s) (mapped m' q' s') last one (omega (arith, room, used)) in
    let old : lookup q.path ((mapped m' q' s').paths m) ≡ some (given m q s) =
      Steps-keeps (suc k) (mapped m q s) (mapped m' q' s') m q.path (given m q s) last
        (mapped-given s m q) in
    let new : lookup q'.path ((mapped m' q' s').paths m') ≡ some (given m' q' s') =
      mapped-given s' m' q' in
    (
      λ same. all.once m m' q.path q'.path (given m' q' s') (old ∙ ap some same) new,
      λ (is_m, is_path). one_value _ _ (
          sym old
          ∙ ap (λ x. lookup q.path ((mapped m' q' s').paths x)) is_m
          ∙ ap (λ x. lookup x ((mapped m' q' s').paths m')) is_path
          ∙ new),
    )
  where
    one_value : (v w : ℕ) → some v ≡ some w → v ≡ w
    one_value v w e = cc
