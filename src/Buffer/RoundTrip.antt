-- ===== src/Buffer/RoundTrip.antt =====
-- What a round trip of a reader and a writer of p9/buffer.go is, with rules for the ways to build them.
use p.Base.{
  ℕ, zero, suc, ◌-◌, ◌/◌, ◌^◌, ◌<◌, ◌≡◌, refl, ap, Bool, true, false, List, [], ◌++◌, append_assoc,
  append-nil, length, take, arith, length-append, take-append_lt, take-append_ge, take-append_exact,
  drop-append_exact, length-take, le→leb, lt→leb,
}
use native.Mathlib.Nat.{pow-succ'}
use native.Mathlib.Decide.{dec_lt}
use p.Buffer.{
  Buffer, Reader, Writer, ◌>>=◌, ◌>>◌, pure, skip, uint, put_uint, append, has, consume,
  value_or_zero,
}

abbrev pub buffer : List ℕ → Bool → Buffer
buffer xs o = record { bytes = xs; overflow = o }

-- The reader keeps the overflow flag, once it is set.
pub record Sticky {ℓ} {A : Type ℓ} (r : Reader A) : Type ℓ where
  pub at : (b : Buffer) → b.overflow ≡ true → (r b).1.overflow ≡ true

-- The writer appends `image`; the reader takes exactly `image` off the front, returns `a` and leaves
-- the flag alone; on a part of `image` that is cut off early it sets the flag.
pub record RoundTrips {ℓ} {A : Type ℓ} (w : Writer) (r : Reader A) (a : A) : Type ℓ where
  pub image : List ℕ
  pub writes : (b : Buffer) → w b ≡ append image b
  pub reads : (rest : List ℕ) (o : Bool) → r (buffer (image ++ rest) o) ≡ (a, buffer rest o)
  pub cut : (n : ℕ) (o : Bool) → n < length image → (r (buffer (take n image) o)).1.overflow ≡ true

pub Sticky-pure {ℓ} : {A : Type ℓ} (a : A) → Sticky (pure a)
unfolding pure
Sticky-pure a = record { at = λ b h. h }

pub Sticky-bind {ℓ κ} :
    {A : Type ℓ} {B : Type κ} {r : Reader A} {k : A → Reader B}
    → Sticky r
    → ((a : A) → Sticky (k a))
    → Sticky (r >>= k)
unfolding ◌>>=◌
Sticky-bind {r = r} s t = record { at = λ b h. (t (r b).0).at (r b).1 (s.at b h) }

pub RoundTrips-pure {ℓ} : {A : Type ℓ} (a : A) → RoundTrips skip (pure a) a
unfolding pure skip append
RoundTrips-pure a = record {
  image = [];
  writes = λ b. rw append-nil refl;
  reads = λ rest o. refl;
  cut = λ n o h. absurd (omega arith);
}

-- Where the input ends inside the second part, the first is read whole; where it ends inside the
-- first, the second keeps the flag.
cut_bind {ℓ κ} :
    {A : Type ℓ} {B : Type κ} {w v : Writer} {r : Reader A} {k : A → Reader B} {a : A} {b : B}
    (p : RoundTrips w r a) (s : (x : A) → Sticky (k x)) (q : RoundTrips v (k a) b) (n : ℕ)
    (o : Bool)
    → n < length (p.image ++ q.image)
    → ((r >>= k) (buffer (take n (p.image ++ q.image)) o)).1.overflow ≡ true
unfolding ◌>>=◌
cut_bind {r = r} {k = k} {a = a} p s q n o h = elim (dec_lt n (length p.image)) [
  | yes early ↦
      rw (take-append_lt n p.image q.image (omega arith)) (
        (s (r (buffer (take n p.image) o)).0).at (r (buffer (take n p.image) o)).1
          (p.cut n o early))
  | no late ↦
      rw (take-append_ge n p.image q.image (omega arith), p.reads, ◌>>=◌)
        (q.cut (n - length p.image) o (omega (arith, length-append p.image q.image)))
]

pub RoundTrips-bind {ℓ κ} :
    {A : Type ℓ} {B : Type κ} {w v : Writer} {r : Reader A} {k : A → Reader B} {a : A} {b : B}
    → RoundTrips w r a
    → ((x : A) → Sticky (k x))
    → RoundTrips v (k a) b
    → RoundTrips (w >> v) (r >>= k) b
unfolding ◌>>=◌ ◌>>◌ append
RoundTrips-bind p s q = record {
  image = p.image ++ q.image;
  writes = λ b.
      rw (p.writes, q.writes)
        (ap (λ xs. buffer xs b.overflow) (append_assoc b.bytes p.image q.image));
  reads = λ rest o. rw (append_assoc, p.reads) (q.reads rest o);
  cut = λ n o h. cut_bind p s q n o h;
}

-- The last write of a message meets the last read, and `pure`.
pub RoundTrips-last {ℓ κ} :
    {A : Type ℓ} {B : Type κ} {w : Writer} {r : Reader A} {k : A → Reader B} {a : A} {b : B}
    → RoundTrips w r a
    → ((x : A) → Sticky (k x))
    → RoundTrips skip (k a) b
    → RoundTrips w (r >>= k) b
unfolding ◌>>◌ skip
RoundTrips-last p s q = RoundTrips-bind p s q

-- Numbers of one byte or more.
pub length-put_uint : (n v : ℕ) → length (put_uint n v) ≡ n
unfolding put_uint
length-put_uint zero v = refl
length-put_uint (suc n) v = ap suc (length-put_uint n (v / 256))

pub uint-put_uint : (n v : ℕ) → v < 256 ^ n → uint (put_uint n v) ≡ v
unfolding uint put_uint
uint-put_uint zero v h = omega arith
uint-put_uint (suc n) v h =
    omega (arith, uint-put_uint n (v / 256) (omega (arith, pow-succ' 256 n)))

unfoldable pub read_uint : ℕ → Reader ℕ
unfolding ◌>>=◌ pure consume value_or_zero
read_uint n = do v ← consume n; pure (value_or_zero v)

pub read_uint-Sticky : (n : ℕ) → Sticky (read_uint n)
unfolding read_uint has
read_uint-Sticky n = record { at = λ b h. ground arith }

pub read_uint-RoundTrips :
    (n v : ℕ) → v < 256 ^ n → RoundTrips (append (put_uint n v)) (read_uint n) v
unfolding read_uint has
read_uint-RoundTrips n v h = record {
  image = put_uint n v;
  writes = λ b. refl;
  reads = λ rest o.
      rw
        (
          le→leb n (length (put_uint n v ++ rest))
              (omega (arith, length-put_uint n v, length-append (put_uint n v) rest)),
          take-append_exact n (put_uint n v) rest (length-put_uint n v),
          drop-append_exact n (put_uint n v) rest (length-put_uint n v),
          uint-put_uint n v h,
        )
        refl;
  cut = λ m o lt.
      rw
        (lt→leb n (length (take m (put_uint n v)))
          (omega (arith, lt, length-put_uint n v, length-take m (put_uint n v))))
        refl;
}

-- The image is what the writer writes to an empty buffer.
pub image_lem {ℓ} :
    {A : Type ℓ} {w : Writer} {r : Reader A} {a : A} (p : RoundTrips w r a)
    → p.image ≡ (w (buffer [] false)).bytes
unfolding append
image_lem p = rw p.writes refl
