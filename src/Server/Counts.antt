-- ===== src/Server/Counts.antt =====
-- p9/server.go: the count of a reference against the number of its owners.
use p.Base.{
  ℕ, ◌+◌, ◌-◌, ◌≤◌, ◌<◌, ◌≡◌, refl, ap, ◌∙◌, List, ◌∷◌, ◌++◌, Bool, true, false, Option, none, some,
  ◌==◌, ltb, if◌then◌else◌, arith, lt→ltb, Bool-cases, inl, inr, ==_iff, ==_refl, ≢→==,
}
use p.Server.{FidRef, Server, set_ref, inc_ref, dec_ref, find_fid}
use p.Server.Owners.{
  one_if, count, count_fids, is, owns, State, owners, children-set, count_fids-drop, count-middle,
  give_back, state, set_ref-refs,
}

-- The count of each reference is the number of its owners, and references that are not made have none.
pub record Counted (s : State) : Type 0 where
  pub counts : (r : ℕ) → (s.server.fid_refs r).refs ≡ owners s r
  pub unmade : (r : ℕ) → s.made ≤ r → (s.server.fid_refs r).refs ≡ 0
  pub closes :
      (r : ℕ)
      → count r s.server.closed
        ≡ (if (s.server.fid_refs r).refs == 0 then (if ltb r s.made then 1 else 0) else 0)

-- A reference that has a count is made.
pub Counted-made : (s : State) (r : ℕ) → Counted s → 0 < (s.server.fid_refs r).refs → r < s.made
Counted-made s r h pos = ground (arith, h.unmade r)

abbrev pub at : Bool → ℕ → ℕ
at here n = if here then n else 0

-- A reference changes: its count by the owners that it gains or loses, those of its parent by whether it
-- lives.
change-Counted :
    (s : Server) (held : List ℕ) (made r : ℕ) (x : FidRef) (fids : List (ℕ × ℕ))
    (closed held' : List ℕ)
    → Counted (state s held made)
    → r < made
    → ((q : ℕ)
        → count q held' + count_fids q fids + owns x q + at (q == r) (s.fid_refs r).refs
          ≡ count q held + count_fids q s.fids + owns (s.fid_refs r) q + at (q == r) x.refs)
    → ((q : ℕ)
        → count q closed ≡ (if q == r then (if x.refs == 0 then 1 else 0) else count q s.closed))
    → Counted (
        state
          (record { fid_refs = set_ref r x s.fid_refs; fids = fids; closed = closed })
          held'
          made)
change-Counted s held made r x fids closed held' h in_range balance closing = record {
  counts = λ q. elim (Bool-cases (q == r)) [
    | inl same ↦
        let is_r = (==_iff q r).0 same in
        let before = h.counts q in
        let refs = ap (λ k. (s.fid_refs k).refs) is_r in
        let now = rw same at (balance q) in
        set_ref-refs r x s.fid_refs q
        ∙ rw same (omega (arith, before, refs, now, children-set made r x s.fid_refs q in_range))
    | inr other ↦
        let before = h.counts q in
        let now = rw other at (balance q) in
        set_ref-refs r x s.fid_refs q
        ∙ rw other (omega (arith, before, now, children-set made r x s.fid_refs q in_range))
  ];
  unmade = λ q out.
      set_ref-refs r x s.fid_refs q
      ∙ rw (≢→== q r (λ e. absurd (omega (arith, e, in_range, out)))) (h.unmade q out);
  closes = λ q. elim (Bool-cases (q == r)) [
    | inl same ↦
        let is_r = (==_iff q r).0 same in
        closing q ∙ rw (same, lt→ltb q made (omega (arith, is_r, in_range))) refl
    | inr other ↦ closing q ∙ rw other (h.closes q)
  ];
}

owns-live : (x : FidRef) (q : ℕ) → 0 < x.refs → owns x q ≡ one_if (is x.parent q)
owns-live x q pos = rw (≢→== x.refs 0 (λ e. absurd (omega (arith, e, pos)))) refl

owns-dead : (x : FidRef) (q : ℕ) → x.refs ≡ 0 → owns x q ≡ 0
owns-dead x q e = ap (λ n. if n == 0 then 0 else one_if (is x.parent q)) e

at-suc : (here : Bool) (n : ℕ) → at here (n + 1) ≡ one_if here + at here n
at-suc true n = omega arith
at-suc false n = refl

-- The file of a reference with a count is open.
pub live-open :
    (s : State) (r : ℕ) → Counted s → 0 < (s.server.fid_refs r).refs → count r s.server.closed ≡ 0
live-open s r h pos =
    h.closes r ∙ rw (≢→== (s.server.fid_refs r).refs 0 (λ e. absurd (omega (arith, e, pos)))) refl

-- It stays open while the count is not 0.
still-open :
    (s : State) (r q n : ℕ)
    → Counted s
    → 0 < (s.server.fid_refs r).refs
    → 0 < n
    → count q s.server.closed
      ≡ (if q == r then (if n == 0 then 1 else 0) else count q s.server.closed)
still-open s r q n h pos live = elim (Bool-cases (q == r)) [
  | inl same ↦
      rw (same, ≢→== n 0 (λ e. absurd (omega (arith, e, live))))
        (ap (λ k. count k s.server.closed) ((==_iff q r).0 same) ∙ live-open s r h pos)
  | inr other ↦ rw other refl
]

-- A reference with a count gets one more, for one more owner.
pub inc_ref-Counted :
    (s : Server) (held : List ℕ) (made r : ℕ)
    → Counted (state s held made)
    → 0 < (s.fid_refs r).refs
    → Counted (state (inc_ref r s) (r ∷ held) made)
unfolding inc_ref
inc_ref-Counted s held made r h pos =
    change-Counted s held made r (record (s.fid_refs r) { refs = (s.fid_refs r).refs + 1 }) s.fids
      s.closed (r ∷ held) h (Counted-made (state s held made) r h pos)
      (λ q. omega (
        arith,
        at-suc (q == r) (s.fid_refs r).refs,
        owns-live (s.fid_refs r) q pos,
        owns-live (record (s.fid_refs r) { refs = (s.fid_refs r).refs + 1 }) q (omega arith),
      ))
      (λ q. still-open (state s held made) r q ((s.fid_refs r).refs + 1) h pos (omega arith))

-- A reference that a handler or the table owns has a count.
pub owned-live :
    (s : State) (r : ℕ)
    → Counted s
    → 0 < count r s.held + count_fids r s.server.fids
    → 0 < (s.server.fid_refs r).refs
owned-live s r h pos = omega (arith, h.counts r, pos)

pub found-live :
    (s : State) (fid r : ℕ)
    → Counted s
    → find_fid fid s.server.fids ≡ some r
    → 0 < (s.server.fid_refs r).refs
found-live s fid r h e =
    owned-live s r h (omega (arith, count_fids-drop fid r r s.server.fids e, ap one_if (==_refl r)))

pub count-give_back :
    (o : Option ℕ) (q : ℕ) (held : List ℕ)
    → count q (give_back o held) ≡ one_if (is o q) + count q held
count-give_back none q held = omega arith
count-give_back (some x) q held = refl

at-zero : (here : Bool) → at here 0 ≡ 0
at-zero true = refl
at-zero false = refl

-- The file is closed once the count is 0, and was open.
now-closed :
    (s : State) (r q n : ℕ)
    → Counted s
    → 0 < (s.server.fid_refs r).refs
    → n ≡ 0
    → one_if (q == r) + count q s.server.closed
      ≡ (if q == r then (if n == 0 then 1 else 0) else count q s.server.closed)
now-closed s r q n h pos zero_now = elim (Bool-cases (q == r)) [
  | inl same ↦
      rw (same, zero_now)
        (ap (λ k. 1 + k)
          (ap (λ k. count k s.server.closed) ((==_iff q r).0 same) ∙ live-open s r h pos))
  | inr other ↦ rw other (omega arith)
]

-- Giving a reference back with DecRef, where a handler owns it.
pub dec_ref-Counted :
    (s : Server) (before after : List ℕ) (made r : ℕ)
    → Counted (state s (before ++ r ∷ after) made)
    → Counted (state (dec_ref r s).1 (give_back (dec_ref r s).0 (before ++ after)) made)
unfolding dec_ref
dec_ref-Counted s before after made r h =
    let whole = state s (before ++ r ∷ after) made in
    let refs = (s.fid_refs r).refs in
    let pos : 0 < refs =
      owned-live whole r h (omega (arith, count-middle r r before after, ap one_if (==_refl r))) in
    let in_range = Counted-made whole r h pos in
    let less : FidRef = record (s.fid_refs r) { refs = refs - 1 } in
    elim (Bool-cases (refs == 1)) [
      | inl last ↦
          let one : refs ≡ 1 = (==_iff refs 1).0 last in
          rw last (
            change-Counted s (before ++ r ∷ after) made r less s.fids (r ∷ s.closed)
              (give_back (s.fid_refs r).parent (before ++ after)) h in_range
              (λ q. omega (
                arith,
                count-give_back (s.fid_refs r).parent q (before ++ after),
                owns-dead less q (left one),
                owns-live (s.fid_refs r) q pos,
                count-middle r q before after,
                ap (at (q == r)) one,
                at-suc (q == r) 0,
                at-zero (q == r),
                ap (at (q == r)) (left one),
              ))
              (λ q. now-closed whole r q (refs - 1) h pos (left one)))
      | inr more ↦
          let two : 1 < refs = ground (arith, more, pos) in
          rw more (
            change-Counted s (before ++ r ∷ after) made r less s.fids s.closed (before ++ after) h
              in_range
              (λ q. omega (
                arith,
                owns-live (s.fid_refs r) q pos,
                owns-live less q (omega (arith, two)),
                count-middle r q before after,
                at-suc (q == r) (refs - 1),
                ap (at (q == r)) (back two),
              ))
              (λ q. still-open whole r q (refs - 1) h pos (omega (arith, two))))
    ]
  where
    left : {n : ℕ} → n ≡ 1 → n - 1 ≡ 0
    left e = omega (arith, e)

    back : {n : ℕ} → 1 < n → n - 1 + 1 ≡ n
    back h = omega (arith, h)
