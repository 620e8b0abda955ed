-- ===== src/Server/Open.antt =====
-- p9/server.go: which references have closed their files, in every order of calls.
use p.Base.{
  if◌then◌else◌, ℕ, suc, ◌+◌, ◌≤◌, ◌<◌, ◌≡◌, ◌≢◌, refl, sym, ap, ◌∙◌, List, [], ◌∷◌, ◌++◌, false,
  Option, none, some, ◌==◌, ltb, arith, Bool-cases, Option-cases, ◌↔◌, le→ltb, lt→ltb, inl, inr,
  ==_iff, ==_refl, ≢→==,
}
use p.Server.{
  try_inc_ref, FidRef, Server, set_ref, inc_ref, dec_ref, find_fid, drop_fid, looked_up, lookup_fid,
  insert_fid, delete_fid, make_ref,
}
use p.Server.Counts.{Counted, inc_ref-Counted, dec_ref-Counted, found-live, owned-live, live-open}
use p.Server.Owners.{
  State, state, owners, count, count_fids, one_if, is, children, give_back, count_fids-drop,
  drop_fid-none, count-middle, children-outside, set_ref-refs,
}

-- A state without references.
abbrev pub new_state : State
new_state =
    state (record { fid_refs = λ r. record { refs = 0; parent = none }; fids = []; closed = [] }) []
      0

-- What handlers do, as far as counts go: they make a reference at a root, or below one that they own,
-- which the new one then owns; take one more of a reference that they own, or, with TryIncRef, of any; look up, insert and delete
-- fids; and give a reference back, which may leave them with its parent. Not among the steps are
-- renames, which change parents. What is open is said of a reference: the reference that Txattrwalk makes
-- closes a file that it shares with another one.
pub data Step : State → State → Type 0 where
  makes_root :
      (s : Server) (held : List ℕ) (made : ℕ)
      → Step (state s held made) (state (make_ref made none s) (made ∷ held) (suc made))
  makes_below :
      (s : Server) (before after : List ℕ) (made p : ℕ)
      → Step
          (state s (before ++ p ∷ after) made)
          (state (make_ref made (some p) s) (made ∷ (before ++ after)) (suc made))
  takes :
      (s : Server) (before after : List ℕ) (made r : ℕ)
      → Step
          (state s (before ++ r ∷ after) made)
          (state (inc_ref r s) (r ∷ (before ++ r ∷ after)) made)
  tries :
      (s : Server) (held : List ℕ) (made r : ℕ)
      → Step
          (state s held made)
          (state (try_inc_ref r s).1 (if (try_inc_ref r s).0 then r ∷ held else held) made)
  looks_up :
      (s : Server) (held : List ℕ) (made fid : ℕ)
      → Step
          (state s held made)
          (state (lookup_fid fid s).1 (give_back (lookup_fid fid s).0 held) made)
  inserts :
      (s : Server) (before after : List ℕ) (made fid r : ℕ)
      → Step (state s (before ++ r ∷ after) made) (
          state
            (insert_fid fid r s).1
            (give_back (insert_fid fid r s).0 (before ++ r ∷ after))
            made)
  deletes :
      (s : Server) (held : List ℕ) (made fid : ℕ)
      → Step
          (state s held made)
          (state (delete_fid fid s).1 (give_back (delete_fid fid s).0 held) made)
  gives_back :
      (s : Server) (before after : List ℕ) (made r : ℕ)
      → Step
          (state s (before ++ r ∷ after) made)
          (state (dec_ref r s).1 (give_back (dec_ref r s).0 (before ++ after)) made)

pub data Reached : State → Type 0 where
  start : Reached new_state
  step : (s s' : State) → Reached s → Step s s' → Reached s'

-- The owners of a reference change hands between the table and a handler.
moved-Counted :
    (s : Server) (held held' : List ℕ) (made : ℕ) (fids : List (ℕ × ℕ))
    → Counted (state s held made)
    → ((q : ℕ) → count q held' + count_fids q fids ≡ count q held + count_fids q s.fids)
    → Counted (state (record s { fids = fids }) held' made)
moved-Counted s held held' made fids h same = record {
  counts = λ q. omega (arith, h.counts q, same q);
  unmade = h.unmade;
  closes = h.closes;
}

taken_out :
    (fid q : ℕ) (fids : List (ℕ × ℕ)) (held : List ℕ)
    → count q (give_back (find_fid fid fids) held) + count_fids q (drop_fid fid fids)
      ≡ count q held + count_fids q fids
taken_out fid q fids held = elim (Option-cases (find_fid fid fids)) [
  | inl e ↦ rw (e, drop_fid-none fid fids e) refl
  | inr (r, e) ↦ rw e (omega (arith, count_fids-drop fid r q fids e))
]

children-made :
    (made : ℕ) (parent : Option ℕ) (f : ℕ → FidRef) (q : ℕ)
    → children (suc made) (set_ref made (record { refs = 1; parent = parent }) f) q
      ≡ one_if (is parent q) + children made f q
children-made made parent f q = rw (==_refl made) (
    ap (λ n. one_if (is parent q) + n)
      (children-outside made made (record { refs = 1; parent = parent }) f q (omega arith)))

lt-suc : (q made : ℕ) → q ≢ made → ltb q (suc made) ≡ ltb q made
lt-suc q made h = ground (arith, h)

make_ref-Counted :
    (s : Server) (held held' : List ℕ) (made : ℕ) (parent : Option ℕ)
    → Counted (state s held made)
    → ((q : ℕ) → count q held ≡ one_if (is parent q) + count q held')
    → Counted (state (make_ref made parent s) (made ∷ held') (suc made))
unfolding make_ref
make_ref-Counted s held held' made parent h same = record {
  counts = λ q. elim (Bool-cases (q == made)) [
    | inl new ↦
        let is_made = (==_iff q made).0 new in
        let none_yet = h.unmade q (omega (arith, is_made)) in
        set_ref-refs made x s.fid_refs q
        ∙ rw new
            (omega (arith, h.counts q, none_yet, same q, children-made made parent s.fid_refs q))
    | inr old ↦
        set_ref-refs made x s.fid_refs q
        ∙ rw old (omega (arith, h.counts q, same q, children-made made parent s.fid_refs q))
  ];
  unmade = λ q out.
      set_ref-refs made x s.fid_refs q
      ∙ rw (≢→== q made (λ e. absurd (omega (arith, e, out)))) (h.unmade q (omega (arith, out)));
  closes = λ q. elim (Bool-cases (q == made)) [
    | inl new ↦
        let is_made = (==_iff q made).0 new in
        rw new (
          h.closes q
          ∙ rw (h.unmade q (omega (arith, is_made)), le→ltb q made (omega (arith, is_made))) refl)
    | inr old ↦ rw (old, lt-suc q made (λ e. absurd (is_old q e old))) (h.closes q)
  ];
}
  where
    x : FidRef
    x = record { refs = 1; parent = parent }

    is_old : (q : ℕ) → q ≡ made → (q == made) ≡ false → ⊥
    is_old q e old = ground (arith, e, old)

Step-Counted : (s s' : State) → Step s s' → Counted s → Counted s'
unfolding try_inc_ref lookup_fid looked_up insert_fid delete_fid
Step-Counted _ _ (makes_root s held made) h =
    make_ref-Counted s held held made none h (λ q. omega arith)
Step-Counted _ _ (makes_below s before after made p) h =
    make_ref-Counted s (before ++ p ∷ after) (before ++ after) made (some p) h
      (λ q. count-middle p q before after)
Step-Counted _ _ (takes s before after made r) h =
    inc_ref-Counted s (before ++ r ∷ after) made r h (
      owned-live (state s (before ++ r ∷ after) made) r h
        (omega (arith, count-middle r r before after, ap one_if (==_refl r))))
Step-Counted _ _ (tries s held made r) h = elim (Bool-cases ((s.fid_refs r).refs == 0)) [
  | inl dead ↦ rw dead h
  | inr live ↦ rw live (inc_ref-Counted s held made r h (ground (arith, live)))
]
Step-Counted _ _ (looks_up s held made fid) h = elim (Option-cases (find_fid fid s.fids)) [
  | inl e ↦ rw e h
  | inr (r, e) ↦ rw e (inc_ref-Counted s held made r h (found-live (state s held made) fid r h e))
]
Step-Counted _ _ (inserts s before after made fid r) h =
    let held = before ++ r ∷ after in
    let more = inc_ref-Counted s held made r h (
      owned-live (state s held made) r h
        (omega (arith, count-middle r r before after, ap one_if (==_refl r)))) in
    moved-Counted (inc_ref r s) (r ∷ held) (give_back (find_fid fid s.fids) held) made
      ((fid, r) ∷ drop_fid fid s.fids) more (λ q. omega (arith, taken_out fid q s.fids held))
Step-Counted _ _ (deletes s held made fid) h =
    moved-Counted s held (give_back (find_fid fid s.fids) held) made (drop_fid fid s.fids) h
      (λ q. taken_out fid q s.fids held)
Step-Counted _ _ (gives_back s before after made r) h = dec_ref-Counted s before after made r h

new_state-Counted : Counted new_state
new_state-Counted = record {
  counts = λ r. refl;
  unmade = λ r out. refl;
  closes = λ r. rw (le→ltb r 0 (omega arith)) refl;
}

pub Reached-Counted : (s : State) → Reached s → Counted s
Reached-Counted _ start = new_state-Counted
Reached-Counted s' (step s _ r e) = Step-Counted s s' e (Reached-Counted s r)

-- In every order of the calls of `Step`, in which handlers give back only what they own: a reference that a
-- fid stands for has a count above 0, and has not closed its file.
pub fid-open :
    (s : State) (fid r : ℕ)
    → Reached s
    → find_fid fid s.server.fids ≡ some r
    → (0 < (s.server.fid_refs r).refs) × (count r s.server.closed ≡ 0)
fid-open s fid r reached e =
    let h = Reached-Counted s reached in
    let live = found-live s fid r h e in (live, live-open s r h live)

-- In every order of the calls of `Step`, a reference closes its file once at most, and it has closed it
-- exactly if the reference was made and nobody owns it: no handler, no fid, and no live reference
-- below it.
pub closed-once :
    (s : State) (r : ℕ)
    → Reached s
    → (count r s.server.closed ≤ 1)
      × ((count r s.server.closed ≡ 1) ↔ ((r < s.made) × (owners s r ≡ 0)))
closed-once s r reached =
    let h = Reached-Counted s reached in
    let closes = h.closes r in
    let counts = h.counts r in
    (
      ground (arith, closes),
      (
        (λ once.
            let no_count : (s.server.fid_refs r).refs ≡ 0 = ground (arith, closes, once) in
            (ground (arith, closes, once), sym counts ∙ no_count)),
        λ (in_range, nobody). closes ∙ rw (counts ∙ nobody, lt→ltb r s.made in_range) refl,
      ),
    )
