-- ===== src/Base/Assoc.antt =====
-- Maps as association lists, and sets as lists, over keys with a Boolean equality.
use mathlib.Core.Path.{◌≡◌, refl, sym, ap, ◌∙◌}
use mathlib.Core.Logic.{◌↔◌, inl, inr}
use mathlib.Core.Bool.{Bool, true, false, ◌&&◌, ◌||◌, not}
use mathlib.Core.Option.{Option, none, some}
use mathlib.Core.List.{List, [], ◌∷◌}
use p.Base.Bytes.{same_bytes, same_bytes→eq, same_bytes_refl}
use p.Base.Tests.{true_is_no_false, ◌==◌, ==_iff, if◌then◌else◌, Bool-cases}

-- A key type with its test.
pub record IsEquality {ℓ} {K : Type ℓ} (same : K → K → Bool) : Type ℓ where
  pub decides : (a b : K) → (same a b ≡ true) ↔ (a ≡ b)

nested {ℓ} :
    {A : Type ℓ} (b : Bool) (x y z : A)
    → (if b then x else z) ≡ (if b then x else (if b then y else z))
nested true x y z = refl
nested false x y z = refl

not_and_or : (b m : Bool) → not b && m ≡ not b && (b || m)
not_and_or true m = refl
not_and_or false m = refl

module _ {ℓ} {K : Type ℓ} (same : K → K → Bool) where
  abbrev pub lookup {κ} : {V : Type κ} → K → List (K × V) → Option V
  lookup k [] = none
  lookup k ((j, v) ∷ m) = if same k j then some v else lookup k m

  abbrev pub without {κ} : {V : Type κ} → K → List (K × V) → List (K × V)
  without k [] = []
  without k ((j, v) ∷ m) = if same k j then without k m else (j, v) ∷ without k m

  abbrev pub put {κ} : {V : Type κ} → K → V → List (K × V) → List (K × V)
  put k v m = (k, v) ∷ without k m

  abbrev pub member : K → List K → Bool
  member k [] = false
  member k (j ∷ s) = same k j || member k s

  abbrev pub discard : K → List K → List K
  discard k [] = []
  discard k (j ∷ s) = if same k j then discard k s else j ∷ discard k s

  abbrev pub include : K → List K → List K
  include k s = if member k s then s else k ∷ s

  module _ (eq : IsEquality same) where
    pub same_refl : (a : K) → same a a ≡ true
    same_refl a = (eq.decides a a).1 refl

    excluded : (j k i : K) → same k i ≡ false → same j k ≡ true → same j i ≡ true → ⊥
    excluded j k i e jk ji =
        let k_is_i = sym ((eq.decides j k).0 jk) ∙ (eq.decides j i).0 ji in
        true_is_no_false (sym ((eq.decides k i).1 k_is_i) ∙ e)

    pub lookup-without {κ} :
        {V : Type κ} (j k : K) (m : List (K × V))
        → lookup j (without k m) ≡ (if same j k then none else lookup j m)
    lookup-without j k [] = elim (Bool-cases (same j k)) [ inl e ↦ rw e refl | inr e ↦ rw e refl ]
    lookup-without j k ((i, v) ∷ m) = elim (Bool-cases (same k i)) [
      | inl e ↦
          let alike : same j k ≡ same j i = ap (same j) ((eq.decides k i).0 e) in
          rw (e, lookup-without j k m, alike) (nested (same j i) none (some v) (lookup j m))
      | inr e ↦
          rw (e, lookup-without j k m)
            (elim (Bool-cases (same j i)) [
              | inl ji ↦ elim (Bool-cases (same j k)) [
                | inl jk ↦ absurd (excluded j k i e jk ji)
                | inr jk ↦ rw (ji, jk) refl
              ]
              | inr ji ↦ rw ji refl
            ])
    ]

    pub lookup-put {κ} :
        {V : Type κ} (j k : K) (v : V) (m : List (K × V))
        → lookup j (put k v m) ≡ (if same j k then some v else lookup j m)
    lookup-put j k v m =
        rw (lookup-without j k m) (sym (nested (same j k) (some v) none (lookup j m)))

    pub member-discard :
        (j k : K) (s : List K) → member j (discard k s) ≡ not (same j k) && member j s
    member-discard j k [] = elim (Bool-cases (same j k)) [ inl e ↦ rw e refl | inr e ↦ rw e refl ]
    member-discard j k (i ∷ s) = elim (Bool-cases (same k i)) [
      | inl e ↦
          let alike : same j k ≡ same j i = ap (same j) ((eq.decides k i).0 e) in
          rw (e, member-discard j k s, alike) (not_and_or (same j i) (member j s))
      | inr e ↦
          rw (e, member-discard j k s)
            (elim (Bool-cases (same j i)) [
              | inl ji ↦ elim (Bool-cases (same j k)) [
                | inl jk ↦ absurd (excluded j k i e jk ji)
                | inr jk ↦ rw (ji, jk) refl
              ]
              | inr ji ↦ rw ji refl
            ])
    ]

    pub member-include : (j k : K) (s : List K) → member j (include k s) ≡ same j k || member j s
    member-include j k s = elim (Bool-cases (member k s)) [
      | inl e ↦ rw e (elim (Bool-cases (same j k)) [
        | inl jk ↦ rw jk (ap (λ x. member x s) ((eq.decides j k).0 jk) ∙ e)
        | inr jk ↦ rw jk refl
      ])
      | inr e ↦ rw e refl
    ]

-- The two kinds of keys.
pub number-IsEquality : IsEquality ◌==◌
number-IsEquality = record { decides = ==_iff }

pub bytes-IsEquality : IsEquality same_bytes
bytes-IsEquality = record {
  decides = λ a b. (same_bytes→eq a b, λ e. ap (same_bytes a) (sym e) ∙ same_bytes_refl a);
}
