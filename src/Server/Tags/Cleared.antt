-- ===== src/Server/Tags/Cleared.antt =====
-- p9/server.go: how many requests of a tag are handled, and which channels are closed, in every order.
use mathlib.Core.Path.{subst}
use p.Base.{
  ◌⊎◌, ℕ, suc, ◌<◌, ◌≡◌, refl, sym, ap, ◌∙◌, List, ◌∷◌, ◌++◌, Bool, true, false, Option, none, some,
  ◌==◌, if◌then◌else◌, arith, Bool-cases, Option-cases, inl, inr, ==_iff, ==_refl, ≢→==, some_eq,
  none_is_no_some, true_is_no_false, ◌||◌,
}
use p.Base.Assoc.{lookup, without, put, member, number-IsEquality, lookup-put, lookup-without}
use p.Server.Owners.{count, one_if, count-middle}
use p.Server.Tags.{
  Tags, started, start_tag, cleared, clear_tag, wait_tag, Handling, handling, TagStep, starts,
  drops, clears, TagsReached, begin, go_on,
}

abbrev active_once : Option ℕ → ℕ
active_once none = 0
active_once (some ch) = 1

-- A tag is active exactly while one request of it is handled, and each active tag has a channel of its
-- own, which is open.
record Agree (s : Handling) : Type 0 where
  counts : (t : ℕ) → count t s.busy ≡ active_once (lookup ◌==◌ t s.tags.active)
  made : (t ch : ℕ) → lookup ◌==◌ t s.tags.active ≡ some ch → ch < s.tags.channels
  own :
      (t u ch : ℕ)
      → lookup ◌==◌ t s.tags.active ≡ some ch
      → lookup ◌==◌ u s.tags.active ≡ some ch
      → t ≡ u
  open_now :
      (t ch : ℕ) → lookup ◌==◌ t s.tags.active ≡ some ch → member ◌==◌ ch s.tags.closed ≡ false
  past : (ch : ℕ) → member ◌==◌ ch s.tags.closed ≡ true → ch < s.tags.channels

strip-some :
    {c ch : ℕ} (b : Bool) (o : Option ℕ)
    → (if b then some c else o) ≡ some ch
    → ((b ≡ true) × (c ≡ ch)) ⊎ ((b ≡ false) × (o ≡ some ch))
strip-some true o e = inl (refl, some_eq e)
strip-some false o e = inr (refl, e)

strip-none :
    {ch : ℕ} (b : Bool) (o : Option ℕ)
    → (if b then none else o) ≡ some ch
    → (b ≡ false) × (o ≡ some ch)
strip-none true o e = absurd (none_is_no_some _ e)
strip-none false o e = (refl, e)

started-new :
    (o : Option ℕ) (t : ℕ) (s s' : Tags)
    → started o t s ≡ (true, s')
    → (o ≡ none)
      × (record s { active = put ◌==◌ t s.channels s.active; channels = suc s.channels } ≡ s')
unfolding started
started-new none t s s' e = (refl, ap (λ (p : Bool × Tags). p.1) e)
started-new (some ch) t s s' e = absurd (true_is_no_false (sym (ap (λ (p : Bool × Tags). p.0) e)))

started-old : (o : Option ℕ) (t : ℕ) (s s' : Tags) → started o t s ≡ (false, s') → s ≡ s'
unfolding started
started-old none t s s' e = absurd (true_is_no_false (ap (λ (p : Bool × Tags). p.0) e))
started-old (some ch) t s s' e = ap (λ (p : Bool × Tags). p.1) e

cleared-old :
    (o : Option ℕ) (t : ℕ) (s s' : Tags)
    → cleared o t s ≡ some s'
    → (ch : ℕ) × (o ≡ some ch)
      × (record s { active = without ◌==◌ t s.active; closed = ch ∷ s.closed } ≡ s')
unfolding cleared
cleared-old none t s s' e = absurd (none_is_no_some s' e)
cleared-old (some ch) t s s' e = (ch, refl, some_eq e)

start-Agree :
    (s : Tags) (busy : List ℕ) (t : ℕ)
    → Agree (handling s busy)
    → lookup ◌==◌ t s.active ≡ none
    → Agree (
        handling
          (record s { active = put ◌==◌ t s.channels s.active; channels = suc s.channels })
          (t ∷ busy))
start-Agree s busy t h idle = record {
  counts = λ u. elim (Bool-cases (u == t)) [
    | inl same ↦
        let none_yet =
          h.counts u
          ∙ ap active_once (ap (λ k. lookup ◌==◌ k s.active) ((==_iff u t).0 same) ∙ idle) in
        rw (looks u, same) (omega (arith, none_yet))
    | inr other ↦ rw (looks u, other) (omega (arith, h.counts u))
  ];
  made = λ u ch e. elim (found u ch e) [
    | inl (same, is_ch) ↦ omega (arith, is_ch)
    | inr (other, e') ↦ omega (arith, h.made u ch e')
  ];
  own = λ u v ch e e'. elim (found u ch e) [
    | inl (same, is_ch) ↦ elim (found v ch e') [
      | inl (same', is_ch') ↦ (==_iff u t).0 same ∙ sym ((==_iff v t).0 same')
      | inr (other', old') ↦ absurd (omega (arith, is_ch, h.made v ch old'))
    ]
    | inr (other, old) ↦ elim (found v ch e') [
      | inl (same', is_ch') ↦ absurd (omega (arith, is_ch', h.made u ch old))
      | inr (other', old') ↦ h.own u v ch old old'
    ]
  ];
  open_now = λ u ch e. elim (found u ch e) [
    | inl (same, is_ch) ↦ elim (Bool-cases (member ◌==◌ ch s.closed)) [
      | inl in_past ↦ absurd (omega (arith, is_ch, h.past ch in_past))
      | inr not_yet ↦ not_yet
    ]
    | inr (other, old) ↦ h.open_now u ch old
  ];
  past = λ ch e. omega (arith, h.past ch e);
}
  where
    looks :
        (u : ℕ)
        → lookup ◌==◌ u (put ◌==◌ t s.channels s.active)
          ≡ (if u == t then some s.channels else lookup ◌==◌ u s.active)
    looks u = lookup-put ◌==◌ number-IsEquality u t s.channels s.active

    found :
        (u ch : ℕ)
        → lookup ◌==◌ u (put ◌==◌ t s.channels s.active) ≡ some ch
        → (((u == t) ≡ true) × (s.channels ≡ ch))
          ⊎ (((u == t) ≡ false) × (lookup ◌==◌ u s.active ≡ some ch))
    found u ch e = strip-some (u == t) (lookup ◌==◌ u s.active) (sym (looks u) ∙ e)

clear-Agree :
    (s : Tags) (before after : List ℕ) (t ch : ℕ)
    → Agree (handling s (before ++ t ∷ after))
    → lookup ◌==◌ t s.active ≡ some ch
    → Agree (
        handling
          (record s { active = without ◌==◌ t s.active; closed = ch ∷ s.closed })
          (before ++ after))
clear-Agree s before after t ch h is_active = record {
  counts = λ u. elim (Bool-cases (u == t)) [
    | inl same ↦
        let once =
          h.counts u
          ∙ ap active_once (ap (λ k. lookup ◌==◌ k s.active) ((==_iff u t).0 same) ∙ is_active) in
        rw (looks u, same) (omega (arith, once, count-middle t u before after, ap one_if same))
    | inr other ↦
        rw (looks u, other)
          (omega (arith, h.counts u, count-middle t u before after, ap one_if other))
  ];
  made = λ u ch' e. h.made u ch' (found u ch' e).1;
  own = λ u v ch' e e'. h.own u v ch' (found u ch' e).1 (found v ch' e').1;
  open_now = λ u ch' e.
      let (other, old) = found u ch' e in
      rw
        (≢→== ch' ch (λ is_ch.
          not_other u other (h.own u t ch (old ∙ ap (λ (k : ℕ). some k) is_ch) is_active)))
        (h.open_now u ch' old);
  past = λ ch' e. elim (Bool-cases (ch' == ch)) [
    | inl here ↦ omega (arith, (==_iff ch' ch).0 here, h.made t ch is_active)
    | inr later ↦ h.past ch' (ap (λ b. b || member ◌==◌ ch' s.closed) (sym later) ∙ e)
  ];
}
  where
    looks :
        (u : ℕ)
        → lookup ◌==◌ u (without ◌==◌ t s.active)
          ≡ (if u == t then none else lookup ◌==◌ u s.active)
    looks u = lookup-without ◌==◌ number-IsEquality u t s.active

    found :
        (u ch' : ℕ)
        → lookup ◌==◌ u (without ◌==◌ t s.active) ≡ some ch'
        → ((u == t) ≡ false) × (lookup ◌==◌ u s.active ≡ some ch')
    found u ch' e = strip-none (u == t) (lookup ◌==◌ u s.active) (sym (looks u) ∙ e)

    not_other : (u : ℕ) → (u == t) ≡ false → u ≡ t → ⊥
    not_other u no_eq e = ground (arith, no_eq, e)

TagStep-Agree : (s s' : Handling) → TagStep s s' → Agree s → Agree s'
unfolding start_tag clear_tag
TagStep-Agree _ _ (starts s s' busy t e) h =
    let (idle, is_new) = started-new (lookup ◌==◌ t s.active) t s s' e in
    subst (λ x. Agree (handling x (t ∷ busy))) is_new (start-Agree s busy t h idle)
TagStep-Agree _ _ (drops s s' busy t e) h =
    subst (λ x. Agree (handling x busy)) (started-old (lookup ◌==◌ t s.active) t s s' e) h
TagStep-Agree _ _ (clears s s' before after t e) h =
    let (ch, is_active, is_new) = cleared-old (lookup ◌==◌ t s.active) t s s' e in
    subst (λ x. Agree (handling x (before ++ after))) is_new
      (clear-Agree s before after t ch h is_active)

TagsReached-Agree : (s : Handling) → TagsReached s → Agree s
TagsReached-Agree _ begin = record {
  counts = λ t. refl;
  made = λ t ch e. absurd (none_is_no_some ch e);
  own = λ t u ch e e'. absurd (none_is_no_some ch e);
  open_now = λ t ch e. absurd (none_is_no_some ch e);
  past = λ ch e. absurd (true_is_no_false (sym e));
}
TagsReached-Agree s' (go_on s _ r e) = TagStep-Agree s s' e (TagsReached-Agree s r)

-- In every order of the goroutines of a connection: of a tag, one request at most is handled at a time;
-- when its handler has ended, ClearTag does not panic; a Tflush that came before waits for a channel
-- that is open, and that ClearTag closes; and the tag is free then, so the next request of it is
-- handled.
pub clear_tag-frees :
    (s : Tags) (before after : List ℕ) (t : ℕ)
    → TagsReached (handling s (before ++ t ∷ after))
    → (ch : ℕ) × (s' : Tags) × (clear_tag t s ≡ some s')
      × (count t (before ++ after) ≡ 0)
      × (wait_tag t s ≡ some ch)
      × (member ◌==◌ ch s.closed ≡ false)
      × (member ◌==◌ ch s'.closed ≡ true)
      × (wait_tag t s' ≡ none)
      × ((start_tag t s').0 ≡ true)
unfolding clear_tag cleared wait_tag start_tag started
clear_tag-frees s before after t reached =
    let h = TagsReached-Agree (handling s (before ++ t ∷ after)) reached in
    let here = count-middle t t before after in
    elim (Option-cases (lookup ◌==◌ t s.active)) [
      | inl idle ↦
          absurd (omega (arith, h.counts t, here, ap one_if (==_refl t), ap active_once idle))
      | inr (ch, is_active) ↦
          let free : lookup ◌==◌ t (without ◌==◌ t s.active) ≡ none =
            lookup-without ◌==◌ number-IsEquality t t s.active ∙ rw (==_refl t) refl in
          (
            ch,
            record s { active = without ◌==◌ t s.active; closed = ch ∷ s.closed },
            rw is_active refl,
            omega (arith, h.counts t, here, ap one_if (==_refl t), ap active_once is_active),
            is_active,
            h.open_now t ch is_active,
            rw (==_refl ch) refl,
            free,
            rw free refl,
          )
    ]
