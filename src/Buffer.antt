-- ===== src/Buffer.antt =====
-- p9/buffer.go: the byte buffer that messages are encoded to and decoded from.
-- A method that reads is a `Reader`, one that writes is a `Writer`: the receiver `b *buffer` is
-- passed on explicitly. A byte is a number, a Go string is the list of its bytes. The functions of
-- encoding/binary (`order`) are `uint` and `put_uint`.
pub mod Fields
pub mod FieldLaws
pub mod RoundTrip
use p.Base.{
  ℕ, zero, suc, ◌+◌, ◌*◌, ◌/◌, ◌%◌, ◌^◌, bit_and, Bool, true, false, Option, none, some, List, [],
  ◌∷◌, ◌++◌, leb, if◌then◌else◌, length, take, drop,
}

-- The field `data` of the source is `bytes`.
pub record Buffer : Type 0 where
  pub bytes : List ℕ
  pub overflow : Bool

abbrev pub Reader {ℓ} : Type ℓ → Type ℓ
Reader A = Buffer → A × Buffer

abbrev pub Writer : Type 0
Writer = Buffer → Buffer

infixl 5 ◌>>=◌ ◌>>◌
unfoldable pub ◌>>=◌ {ℓ κ} : {A : Type ℓ} {B : Type κ} → Reader A → (A → Reader B) → Reader B
◌>>=◌ r k b = let (a, b') = r b in k a b'

unfoldable pub pure {ℓ} : {A : Type ℓ} → A → Reader A
pure a b = (a, b)

unfoldable pub ◌>>◌ : Writer → Writer → Writer
◌>>◌ w v b = v (w b)

unfoldable pub skip : Writer
skip b = b

-- order.Uint16, order.Uint32 and order.Uint64
unfoldable pub uint : List ℕ → ℕ
uint [] = 0
uint (x ∷ xs) = x + 256 * uint xs

-- order.PutUint16, order.PutUint32 and order.PutUint64, for the number of bytes
unfoldable pub put_uint : ℕ → ℕ → List ℕ
put_uint zero v = []
put_uint (suc n) v = (v % 256) ∷ put_uint n (v / 256)

-- The source appends n zero bytes and returns the slice of them, which every caller fills at once.
-- The argument is the slice as filled.
unfoldable pub append : List ℕ → Writer
append xs b = record b { bytes = b.bytes ++ xs }

unfoldable pub has : ℕ → Buffer → Bool
has n b = leb n (length b.bytes)

unfoldable pub mark_overrun : Writer
mark_overrun b = record b { overflow = true }

unfoldable pub is_overrun : Buffer → Bool
is_overrun b = b.overflow

unfoldable pub consume : ℕ → Reader (Option (List ℕ))
unfolding has mark_overrun
consume n b =
    if has n b
    then (some (take n b.bytes), record b { bytes = drop n b.bytes })
    else (none, mark_overrun b)

unfoldable pub value_or_zero : Option (List ℕ) → ℕ
unfolding uint
value_or_zero none = 0
value_or_zero (some v) = uint v

unfoldable pub read8 : Reader ℕ
unfolding ◌>>=◌ pure consume value_or_zero
read8 = do v ← consume 1; pure (value_or_zero v)

unfoldable pub read16 : Reader ℕ
unfolding ◌>>=◌ pure consume value_or_zero
read16 = do v ← consume 2; pure (value_or_zero v)

unfoldable pub read32 : Reader ℕ
unfolding ◌>>=◌ pure consume value_or_zero
read32 = do v ← consume 4; pure (value_or_zero v)

unfoldable pub read64 : Reader ℕ
unfolding ◌>>=◌ pure consume value_or_zero
read64 = do v ← consume 8; pure (value_or_zero v)

unfoldable pub write8 : ℕ → Writer
unfolding append put_uint
write8 v = append (put_uint 1 v)

unfoldable pub write16 : ℕ → Writer
unfolding append put_uint
write16 v = append (put_uint 2 v)

unfoldable pub write32 : ℕ → Writer
unfolding append put_uint
write32 v = append (put_uint 4 v)

unfoldable pub write64 : ℕ → Writer
unfolding append put_uint
write64 v = append (put_uint 8 v)
