-- ===== src/Registry/Reuse.antt =====
-- p9/messages.go: what the registry hands out, new or used, and what it keeps.
use p.Base.{some_eq}
use p.Base.{
  ℕ, ◌≤◌, ◌<◌, ◌≡◌, refl, sym, ap, ◌∙◌, List, [], ◌∷◌, ◌++◌, Option, none, some, All, length,
  length-append, leb, ◌==◌, true, Bool-cases, inl, inr, arith, ==_iff,
}
use p.Messages.Message.{Message, typ, set_payload, rread, twrite, rreaddir}
use p.Messages.Message.Codec.{decode}
use p.Messages.Message.Blank.{blank}
use p.Registry.{
  Factory, Registry, hand_out, got, get, room, put, register_in, register, max_cache_size, update,
  find_factory,
}
use p.Registry.Registrations.{registrations}
use p.Registry.Table.{find-registrations, decode-blank}

some_pair_eq :
    {A B : Type 0} {a c : A} {b d : B}
    → ◌≡◌ {A = Option (A × B)} (some (a, b)) (some (c, d))
    → (a ≡ c) × (b ≡ d)
some_pair_eq e = (cc, cc)

pub blank_of_typ : (used fresh : Message) → typ used ≡ typ fresh → blank used ≡ blank fresh
blank_of_typ used fresh e = cc (
  find-registrations used,
  ap (λ (t : ℕ). find_factory t registrations) e,
  find-registrations fresh,
)

-- Two messages of one type that are given one payload decode alike, whatever they held before.
pub decode_reuse :
    (used fresh : Message) (payload : List ℕ)
    → typ used ≡ typ fresh
    → decode (set_payload payload used) ≡ decode (set_payload payload fresh)
decode_reuse used fresh payload e =
    decode-blank used payload
    ∙ ap (λ m. decode (set_payload payload m)) (blank_of_typ used fresh e)
    ∙ sym (decode-blank fresh payload)

-- What a factory may hold: messages of its own type, and three used ones at most.
pub record IsFactory (t : ℕ) (entry : Factory) : Type 0 where
  pub creates : (m : Message) → entry.create ≡ some m → typ m ≡ t
  pub holds : All (λ m. typ m ≡ t) entry.cache
  pub bounded : length entry.cache ≤ max_cache_size

abbrev pub IsRegistry : Registry → Type 0
IsRegistry r = (t : ℕ) → IsFactory t (r.factories t)

-- Replacing the entry of one type.
update-IsFactory :
    (f : ℕ → Factory) (t : ℕ) (entry : Factory)
    → ((u : ℕ) → IsFactory u (f u))
    → IsFactory t entry
    → (u : ℕ) → IsFactory u (update f t entry u)
update-IsFactory f t entry hf h u = elim (Bool-cases (u == t)) [
  | inl same ↦ rw same (rw ((==_iff u t).0 same) h)
  | inr other ↦ rw other (hf u)
]

hand_out_lem :
    (t : ℕ) (create : Option Message) (cache : List Message) (m : Message) (left : List Message)
    → IsFactory t (record { create = create; cache = cache })
    → hand_out create cache ≡ some (m, left)
    → (typ m ≡ t) × IsFactory t (record { create = create; cache = left })
unfolding hand_out
hand_out_lem t none cache m left h e = cc
hand_out_lem t (some fresh) [] m left h e =
    let (p, q) = some_pair_eq e in rw (← p, ← q) (h.creates fresh refl, h)
hand_out_lem t (some fresh) (used ∷ cache) m left h e =
    let (p, q) = some_pair_eq e in
    rw (← p, ← q)
      (
        h.holds.0,
        record { creates = h.creates; holds = h.holds.1; bounded = omega (arith, h.bounded) },
      )

got_lem :
    (t : ℕ) (r : Registry) (o : Option (Message × List Message)) (m : Message)
    → IsRegistry r
    → hand_out (r.factories t).create (r.factories t).cache ≡ o
    → (got t r o).0 ≡ some m
    → (typ m ≡ t) × IsRegistry (got t r o).1
unfolding got
got_lem t r none m h e s = cc
got_lem t r (some (n, left)) m h e s =
    let (same, kept) = hand_out_lem t (r.factories t).create (r.factories t).cache n left (h t) e in
    (cc, update-IsFactory r.factories t (record (r.factories t) { cache = left }) h kept)

-- From a registry whose factories make and hold messages of their own type, three used ones at
-- most: a message that is handed out has the type that was asked for, and the registry that is
-- left is of this kind again.
pub get-IsRegistry :
    (t : ℕ) (r : Registry) (m : Message)
    → IsRegistry r
    → (get t r).0 ≡ some m
    → (typ m ≡ t) × IsRegistry (get t r).1
unfolding get
get-IsRegistry t r m h e = got_lem t r _ m h refl e

typ-set_payload : (p : List ℕ) (m : Message) → typ (set_payload p m) ≡ typ m
unfolding typ set_payload
typ-set_payload p (rread r) = refl
typ-set_payload p (twrite t) = refl
typ-set_payload p (rreaddir r) = refl
typ-set_payload p _ = refl

All-append {ℓ κ} :
    {A : Type ℓ} (P : A → Type κ) (xs : List A) (y : A) → All P xs → P y → All P (xs ++ y ∷ [])
All-append P [] y h hy = (hy, tt)
All-append P (x ∷ xs) y (hx, hxs) hy = (hx, All-append P xs y hxs hy)

room-lt :
    (create : Option Message) (cache : List Message)
    → room create cache ≡ true
    → length cache < max_cache_size
unfolding room
room-lt none cache h = cc
room-lt (some fresh) cache h = ground arith

-- A message that is put back leaves a registry whose factories make and hold messages of their
-- own type, three used ones at most, if it was one before.
pub put-IsRegistry : (m : Message) (r : Registry) → IsRegistry r → IsRegistry (put m r)
unfolding put
put-IsRegistry m r h =
    let entry = r.factories (typ m) in
    elim (Bool-cases (room entry.create entry.cache)) [
      | inl free ↦ rw free (
          update-IsFactory r.factories (typ m)
            (record entry { cache = entry.cache ++ set_payload [] m ∷ [] }) h
            (record {
              creates = (h (typ m)).creates;
              holds =
                  All-append (λ n. typ n ≡ typ m) entry.cache (set_payload [] m) (h (typ m)).holds
                    (typ-set_payload [] m);
              bounded = omega (
                arith,
                room-lt entry.create entry.cache free,
                length-append entry.cache (set_payload [] m ∷ []),
              );
            }))
      | inr full ↦ rw full h
    ]

register_in-IsRegistry :
    (create : Option Message) (t : ℕ) (m : Message) (r r' : Registry)
    → typ m ≡ t
    → IsRegistry r
    → register_in create t m r ≡ some r'
    → IsRegistry r'
unfolding register_in
register_in-IsRegistry (some taken) t m r r' e h s = cc
register_in-IsRegistry none t m r r' e h s = rw (← some_eq s) (
    update-IsFactory r.factories t (record { create = some m; cache = [] }) h
      (record { creates = λ n same. rw (← some_eq same) e; holds = tt; bounded = omega arith }))

pub register-IsRegistry :
    (t : ℕ) (m : Message) (r r' : Registry)
    → typ m ≡ t
    → IsRegistry r
    → register t m r ≡ some r'
    → IsRegistry r'
unfolding register
register-IsRegistry t m r r' e h s = elim (Bool-cases (leb 256 t)) [
  | inl big ↦ cc (rw big at s)
  | inr fits ↦ register_in-IsRegistry (r.factories t).create t m r r' e h (rw fits at s)
]
