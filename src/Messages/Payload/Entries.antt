-- ===== src/Messages/Payload/Entries.antt =====
-- p9/messages.go: what the decoding of one entry of an Rreaddir takes from its buffer.
use p.Base.{
  ℕ, zero, suc, ◌≤◌, ◌<◌, ◌≡◌, refl, Bool, true, false, [], length, length-drop, arith, Bool-cases,
  inl, inr,
}
use p.Buffer.{Buffer, Reader, ◌>>=◌, pure, has, mark_overrun, read8, read16, read32, read64}
use p.Buffer.Fields.{read_qid_type, read_list, read_string}
use p.Buffer.RoundTrip.{Sticky, read_uint}
use p.Buffer.FieldLaws.{sticky_rules}
use p.Types.Qid.{decode_qid}
use p.Types.Dirent.{Dirent, decode_dirent}
use mathlib.Core.WellFounded.{Acc}

abbrev pub Shorter : Buffer → Buffer → Type 0
Shorter a b = length a.bytes < length b.bytes

Shorter_below : (n : ℕ) (b : Buffer) → length b.bytes < n → Acc Shorter b
Shorter_below zero b h = absurd (omega arith)
Shorter_below (suc n) b h = Acc.intro b (λ a ha. Shorter_below n a (omega arith))

unfoldable pub Shorter_wf : (b : Buffer) → Acc Shorter b
unfolding Shorter_below
Shorter_wf b = Shorter_below (suc (length b.bytes)) b (omega arith)

unfoldable pub dec_fine : (overrun : Bool) → Dec (overrun ≡ false)
dec_fine false = yes refl
dec_fine true = no (λ e. cc)

-- The reader never adds bytes to the buffer.
pub record Consumes {ℓ} {A : Type ℓ} (r : Reader A) : Type ℓ where
  pub at : (b : Buffer) → length (r b).1.bytes ≤ length b.bytes

pub Consumes-pure {ℓ} : {A : Type ℓ} (a : A) → Consumes (pure a)
unfolding pure
Consumes-pure a = record { at = λ b. omega arith }

pub Consumes-bind {ℓ κ} :
    {A : Type ℓ} {B : Type κ} {r : Reader A} {k : A → Reader B}
    → Consumes r
    → ((a : A) → Consumes (k a))
    → Consumes (r >>= k)
unfolding ◌>>=◌
Consumes-bind {r = r} c d = record { at = λ b. omega (arith, c.at b, (d (r b).0).at (r b).1) }

pub read_uint-Consumes : (n : ℕ) → Consumes (read_uint n)
unfolding read_uint has
read_uint-Consumes n = record { at = λ b. ground (arith, length-drop n b.bytes) }

-- A byte that is read without an overrun is gone.
read8_shorter :
    (b : Buffer) → (read8 b).1.overflow ≡ false → length (read8 b).1.bytes < length b.bytes
unfolding read8 has mark_overrun
read8_shorter b h = ground (arith, length-drop 1 b.bytes)

read8-Consumes : Consumes read8
unfolding read8 read_uint
read8-Consumes = read_uint-Consumes 1

read16-Consumes : Consumes read16
unfolding read16 read_uint
read16-Consumes = read_uint-Consumes 2

read32-Consumes : Consumes read32
unfolding read32 read_uint
read32-Consumes = read_uint-Consumes 4

read64-Consumes : Consumes read64
unfolding read64 read_uint
read64-Consumes = read_uint-Consumes 8

read_list-Consumes {ℓ} :
    {A : Type ℓ} {r : Reader A} → Consumes r → (n : ℕ) → Consumes (read_list r n)
unfolding read_list
read_list-Consumes c zero = Consumes-pure []
read_list-Consumes c (suc n) =
    Consumes-bind c (λ x. Consumes-bind (read_list-Consumes c n) (λ xs. Consumes-pure _))

read_string-Consumes : Consumes read_string
unfolding read_string mark_overrun
read_string-Consumes = record {
  at = λ b. ground (
    arith,
    read16-Consumes.at b,
    (read_list-Consumes read8-Consumes (read16 b).0).at (read16 b).1,
  );
}

read_qid_type-Consumes : Consumes read_qid_type
unfolding read_qid_type
read_qid_type-Consumes = read8-Consumes

ruleset consume_rules = (
  Consumes-pure, Consumes-bind, read8-Consumes, read16-Consumes, read32-Consumes, read64-Consumes,
  read_string-Consumes, read_qid_type-Consumes,
)

-- What follows the first byte of an entry.
head_shorter {ℓ} :
    {A : Type ℓ} {k : ℕ → Reader A} (b : Buffer)
    → ((x : ℕ) → Consumes (k x))
    → ((x : ℕ) → Sticky (k x))
    → ((read8 >>= k) b).1.overflow ≡ false
    → length ((read8 >>= k) b).1.bytes < length b.bytes
unfolding ◌>>=◌
head_shorter {k = k} b c s h = elim (Bool-cases (read8 b).1.overflow) [
  | inl over ↦ cc ((s (read8 b).0).at (read8 b).1 over)
  | inr fine ↦ omega (arith, read8_shorter b fine, (c (read8 b).0).at (read8 b).1)
]

-- An entry, behind the first byte of its QID.
after_type : ℕ → Reader Dirent
after_type t = do
  version ← read32
  path ← read64
  offset ← read64
  type ← read_qid_type
  name ← read_string
  pure (record {
    qid = record { type = t; version = version; path = path };
    offset = offset;
    type = type;
    name = name;
  })

after_type-Consumes : (t : ℕ) → Consumes (after_type t)
unfolding after_type
after_type-Consumes t = search consume_rules depth 14

after_type-Sticky : (t : ℕ) → Sticky (after_type t)
unfolding after_type
after_type-Sticky t = search sticky_rules depth 14

-- An entry that is decoded without an overrun takes bytes off the buffer.
pub decode_dirent_shorter :
    (b : Buffer) → (decode_dirent b).1.overflow ≡ false → Shorter (decode_dirent b).1 b
unfolding decode_dirent decode_qid read_qid_type after_type ◌>>=◌ pure
decode_dirent_shorter b h = head_shorter b after_type-Consumes after_type-Sticky h
