-- ===== src/Registry/Init.antt =====
-- p9/messages.go: what `init` leaves in the registry.
use p.Base.{some_eq}
use p.Base.{
  ℕ, ◌≡◌, refl, sym, ap, ◌∙◌, List, [], ◌∷◌, Option, none, some, All, Bool-cases, Option-cases, inl,
  inr, leb, ◌==◌, arith, if◌then◌else◌, ==_iff,
}
use p.Messages.Message.{Message, typ}
use p.Registry.{
  Factory, Registry, register_in, register, register_all, init, no_types, update, find_factory,
}
use p.Registry.Registrations.{registrations}
use p.Messages.Message.Blank.{blank}
use p.Registry.Table.{find-registrations}
use p.Registry.Reuse.{IsRegistry, register-IsRegistry}

abbrev or_else : Option Message → Option Message → Option Message
or_else (some m) o = some m
or_else none o = o

create_update :
    (f : ℕ → Factory) (t : ℕ) (m : Message) (u : ℕ)
    → (update f t (record { create = some m; cache = [] }) u).create
      ≡ (if u == t then some m else (f u).create)
create_update f t m u = ground arith

or_else-none : (o : Option Message) → or_else o none ≡ o
or_else-none none = refl
or_else-none (some m) = refl

register_in-create :
    (create : Option Message) (t : ℕ) (m : Message) (r r' : Registry) (u : ℕ)
    → register_in create t m r ≡ some r'
    → (create ≡ none)
      × ((r'.factories u).create ≡ (if u == t then some m else (r.factories u).create))
unfolding register_in
register_in-create (some taken) t m r r' u s = cc
register_in-create none t m r r' u s = (
  refl,
  sym (ap (λ (x : Registry). (x.factories u).create) (some_eq s)) ∙ create_update r.factories t m u,
)

register-create :
    (t : ℕ) (m : Message) (r r' : Registry) (u : ℕ)
    → register t m r ≡ some r'
    → ((r.factories t).create ≡ none)
      × ((r'.factories u).create ≡ (if u == t then some m else (r.factories u).create))
unfolding register
register-create t m r r' u s = elim (Bool-cases (leb 256 t)) [
  | inl big ↦ cc (rw big at s)
  | inr fits ↦ register_in-create (r.factories t).create t m r r' u (rw fits at s)
]

register_all-create :
    (l : List (ℕ × Message)) (r r' : Registry) (u : ℕ)
    → register_all l r ≡ some r'
    → (r'.factories u).create ≡ or_else (r.factories u).create (find_factory u l)
unfolding register_all find_factory
register_all-create [] r r' u s =
    ap (λ (x : Registry). (x.factories u).create) (sym (some_eq s))
    ∙ sym (or_else-none (r.factories u).create)
register_all-create ((t, m) ∷ rest) r r' u s = elim (Option-cases (register t m r)) [
  | inl e ↦ cc (rw (e, register_all) at s)
  | inr (r'', e) ↦
      let later = register_all-create rest r'' r' u (rw (e, register_all) at s) in
      let (free, now) = register-create t m r r'' u e in
      elim (Bool-cases (u == t)) [
        | inl same ↦ ground (arith, later, now, free, (==_iff u t).0 same)
        | inr other ↦ ground (arith, later, now)
      ]
]

register_all-IsRegistry :
    (l : List (ℕ × Message)) (r r' : Registry)
    → All (λ (entry : ℕ × Message). typ entry.1 ≡ entry.0) l
    → IsRegistry r
    → register_all l r ≡ some r'
    → IsRegistry r'
unfolding register_all
register_all-IsRegistry [] r r' ok h s = rw (← some_eq s) h
register_all-IsRegistry ((t, m) ∷ rest) r r' (ok, oks) h s = elim (Option-cases (register t m r)) [
  | inl e ↦ cc (rw (e, register_all) at s)
  | inr (r'', e) ↦
      register_all-IsRegistry rest r'' r' oks (register-IsRegistry t m r r'' ok h e)
        (rw (e, register_all) at s)
]

registrations-typ : All (λ (entry : ℕ × Message). typ entry.1 ≡ entry.0) registrations
unfolding typ
registrations-typ = omega arith

unwrap : Option Registry → Registry
unwrap none = no_types
unwrap (some r) = r

-- `init` does not panic.
init-eq-some : (r : Registry) × (init ≡ some r)
unfolding init unwrap register register_all register_in
init-eq-some = (unwrap init, refl)

no_types-IsRegistry : IsRegistry no_types
no_types-IsRegistry t = record { creates = λ m e. cc; holds = tt; bounded = omega arith }

-- `init` does not panic. In the registry that it leaves, each message's type is registered, with a
-- factory that makes the zero message of the constructor that the message has; a type that is not
-- listed has none; and no cache holds anything that is not of its type.
pub init_lem :
    (r : Registry) × (init ≡ some r)
    × IsRegistry r
    × ((m : Message) → (r.factories (typ m)).create ≡ some (blank m))
    × ((t : ℕ) → (r.factories t).create ≡ find_factory t registrations)
unfolding init
init_lem =
    let (r, e) = init-eq-some in
    (
      r,
      e,
      register_all-IsRegistry registrations no_types r registrations-typ no_types-IsRegistry e,
      λ m. register_all-create registrations no_types r (typ m) e ∙ find-registrations m,
      λ t. register_all-create registrations no_types r t e,
    )
