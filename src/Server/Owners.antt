-- ===== src/Server/Owners.antt =====
-- p9/server.go: who owns a reference, and how the numbers of owners change.
use p.Base.{some_eq}
use p.Base.{
  ℕ, zero, suc, ◌+◌, ◌≤◌, ◌<◌, ◌≡◌, ◌≢◌, refl, sym, ap, ◌∙◌, List, [], ◌∷◌, ◌++◌, Bool, true, false,
  Option, none, some, ◌==◌, if◌then◌else◌, arith, Bool-cases, inl, inr, ==_iff, ≢→==,
}
use p.Server.{FidRef, Server, set_ref, find_fid, drop_fid}

abbrev pub one_if : Bool → ℕ
one_if true = 1
one_if false = 0

-- How often a reference occurs in a list, and in a table.
abbrev pub count : ℕ → List ℕ → ℕ
count r [] = 0
count r (x ∷ xs) = one_if (r == x) + count r xs

abbrev pub count_fids : ℕ → List (ℕ × ℕ) → ℕ
count_fids r [] = 0
count_fids r ((f, x) ∷ fids) = one_if (r == x) + count_fids r fids

abbrev pub is : Option ℕ → ℕ → Bool
is none r = false
is (some x) r = r == x

-- A live reference owns its parent.
abbrev pub owns : FidRef → ℕ → ℕ
owns x r = if x.refs == 0 then 0 else one_if (is x.parent r)

-- The live references below a reference, among the first `n`.
abbrev pub children : ℕ → (ℕ → FidRef) → ℕ → ℕ
children zero f r = 0
children (suc n) f r = owns (f n) r + children n f r

-- A state with the references that handlers own, and the number of references made.
pub record State : Type 0 where
  pub server : Server
  pub held : List ℕ
  pub made : ℕ

abbrev pub owners : State → ℕ → ℕ
owners s r = count r s.held + count_fids r s.server.fids + children s.made s.server.fid_refs r

pub children-outside :
    (n k : ℕ) (x : FidRef) (f : ℕ → FidRef) (r : ℕ)
    → n ≤ k
    → children n (set_ref k x f) r ≡ children n f r
children-outside zero k x f r h = refl
children-outside (suc n) k x f r h =
    rw (≢→== n k (λ e. absurd (omega (arith, e, h))))
      (ap (λ t. owns (f n) r + t) (children-outside n k x f r (omega (arith, h))))

-- Changing one reference changes what it owns.
pub children-set :
    (n k : ℕ) (x : FidRef) (f : ℕ → FidRef) (r : ℕ)
    → k < n
    → children n (set_ref k x f) r + owns (f k) r ≡ children n f r + owns x r
children-set zero k x f r h = absurd (omega arith)
children-set (suc n) k x f r h = elim (Bool-cases (n == k)) [
  | inl last ↦
      let is_k = (==_iff n k).0 last in
      let same = ap (λ y. owns (f y) r) is_k in
      rw last (omega (arith, children-outside n k x f r (omega (arith, is_k)), same))
  | inr before ↦ rw before (omega (arith, children-set n k x f r (ground (arith, before, h))))
]

pub count_fids-drop :
    (fid r q : ℕ) (fids : List (ℕ × ℕ))
    → find_fid fid fids ≡ some r
    → count_fids q fids ≡ one_if (q == r) + count_fids q (drop_fid fid fids)
count_fids-drop fid r q [] e = absurd cc
count_fids-drop fid r q ((f, x) ∷ fids) e = elim (Bool-cases (fid == f)) [
  | inl here ↦
      let is_r : some x ≡ some r =
        ap (λ b. if b then some x else find_fid fid fids) (sym here) ∙ e in
      rw here (ap (λ y. one_if (q == y) + count_fids q fids) (some_eq is_r))
  | inr later ↦
      let found = ap (λ b. if b then some x else find_fid fid fids) (sym later) ∙ e in
      rw later (omega (arith, count_fids-drop fid r q fids found))
]

pub drop_fid-none :
    (fid : ℕ) (fids : List (ℕ × ℕ)) → find_fid fid fids ≡ none → drop_fid fid fids ≡ fids
drop_fid-none fid [] e = refl
drop_fid-none fid ((f, x) ∷ fids) e = elim (Bool-cases (fid == f)) [
  | inl here ↦
      absurd (some_is_no_none (ap (λ b. if b then some x else find_fid fid fids) (sym here) ∙ e))
  | inr later ↦ rw later (
      ap (λ m. (f, x) ∷ m)
        (drop_fid-none fid fids
          (ap (λ b. if b then some x else find_fid fid fids) (sym later) ∙ e)))
]
  where
    some_is_no_none : ◌≢◌ {A = Option ℕ} (some x) none
    some_is_no_none h = cc

pub count-middle :
    (r q : ℕ) (before after : List ℕ)
    → count q (before ++ r ∷ after) ≡ one_if (q == r) + count q (before ++ after)
count-middle r q [] after = refl
count-middle r q (x ∷ before) after = omega (arith, count-middle r q before after)

abbrev pub give_back : Option ℕ → List ℕ → List ℕ
give_back none held = held
give_back (some r) held = r ∷ held

abbrev pub state : Server → List ℕ → ℕ → State
state s held made = record { server = s; held = held; made = made }

pub set_ref-refs :
    (r : ℕ) (x : FidRef) (f : ℕ → FidRef) (q : ℕ)
    → (set_ref r x f q).refs ≡ (if q == r then x.refs else (f q).refs)
set_ref-refs r x f q = elim (Bool-cases (q == r)) [ inl e ↦ rw e refl | inr e ↦ rw e refl ]
