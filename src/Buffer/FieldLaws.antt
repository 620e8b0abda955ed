-- ===== src/Buffer/FieldLaws.antt =====
-- Round trips and the overflow flag of the typed reads and writes of p9/buffer.go.
use p.Base.{
  ℕ, zero, suc, ◌^◌, ◌<◌, ◌≡◌, refl, ap, ◌∙◌, sym, false, List, [], ◌∷◌, ◌++◌, append_assoc,
  append-nil, length, take, arith, length-append, All, length-take, le→leb, lt→leb, bit_and,
  if◌then◌else◌,
}
use p.Base.Bits.{bit_and_ones}
use p.Buffer.{
  Buffer, Reader, Writer, ◌>>=◌, ◌>>◌, skip, has, mark_overrun, read8, read16, read32, read64,
  write8, write16, write32, write64,
}
use p.Buffer.Fields.{
  permissions_mask, read_qid_type, read_tag, read_fid, read_uid, read_gid, read_file_mode,
  read_permissions, read_open_flags, read_list, read_onto, read_string, write_qid_type, write_tag,
  write_fid, write_uid, write_gid, write_file_mode, write_permissions, write_open_flags, write_list,
  write_string,
}
use p.Buffer.RoundTrip.{
  buffer, Sticky, RoundTrips, Sticky-pure, Sticky-bind, RoundTrips-pure, RoundTrips-bind,
  RoundTrips-last, read_uint-Sticky, read_uint-RoundTrips, read_uint, image_lem,
}
use native.Mathlib.Nat.{mod-eq_of_lt}

pub read8-Sticky : Sticky read8
unfolding read8 read_uint
read8-Sticky = read_uint-Sticky 1

pub read16-Sticky : Sticky read16
unfolding read16 read_uint
read16-Sticky = read_uint-Sticky 2

pub read32-Sticky : Sticky read32
unfolding read32 read_uint
read32-Sticky = read_uint-Sticky 4

pub read64-Sticky : Sticky read64
unfolding read64 read_uint
read64-Sticky = read_uint-Sticky 8

pub read8-RoundTrips : (v : ℕ) → v < 2 ^ 8 → RoundTrips (write8 v) read8 v
unfolding read8 write8 read_uint
read8-RoundTrips v h = read_uint-RoundTrips 1 v h

pub read16-RoundTrips : (v : ℕ) → v < 2 ^ 16 → RoundTrips (write16 v) read16 v
unfolding read16 write16 read_uint
read16-RoundTrips v h = read_uint-RoundTrips 2 v h

pub read32-RoundTrips : (v : ℕ) → v < 2 ^ 32 → RoundTrips (write32 v) read32 v
unfolding read32 write32 read_uint
read32-RoundTrips v h = read_uint-RoundTrips 4 v h

pub read64-RoundTrips : (v : ℕ) → v < 2 ^ 64 → RoundTrips (write64 v) read64 v
unfolding read64 write64 read_uint
read64-RoundTrips v h = read_uint-RoundTrips 8 v h

pub read_permissions-Sticky : Sticky read_permissions
unfolding read_permissions
read_permissions-Sticky = Sticky-bind read32-Sticky (λ m. Sticky-pure _)

permissions_lem : (m : ℕ) → m < 2 ^ 12 → bit_and m permissions_mask ≡ m
permissions_lem m h = bit_and_ones 12 m ∙ mod-eq_of_lt h

pub read_permissions-RoundTrips :
    (m : ℕ) → m < 2 ^ 12 → RoundTrips (write_permissions m) read_permissions m
unfolding read_permissions write_permissions
read_permissions-RoundTrips m h = rw permissions_lem (
    RoundTrips-last (read32-RoundTrips m (omega arith)) (λ m. Sticky-pure _)
      (rw permissions_lem (RoundTrips-pure m)))

pub read_fid-RoundTrips : (f : ℕ) → f < 2 ^ 32 → RoundTrips (write_fid f) read_fid f
unfolding read_fid write_fid
read_fid-RoundTrips f h = rw (mod-eq_of_lt h) (read32-RoundTrips f h)

pub read_list-Sticky {ℓ} : {A : Type ℓ} {r : Reader A} → Sticky r → (n : ℕ) → Sticky (read_list r n)
unfolding read_list
read_list-Sticky s zero = Sticky-pure []
read_list-Sticky s (suc n) =
    Sticky-bind s (λ x. Sticky-bind (read_list-Sticky s n) (λ xs. Sticky-pure _))

pub read_onto-Sticky {ℓ} :
    {A : Type ℓ} {r : Reader A} → Sticky r → (n : ℕ) (xs : List A) → Sticky (read_onto r n xs)
unfolding read_onto
read_onto-Sticky s n xs = record { at = λ b h. (read_list-Sticky s n).at b h }

pub read_list-RoundTrips {ℓ} :
    {A : Type ℓ} (w : A → Writer) (r : Reader A) (xs : List A)
    → Sticky r
    → All (λ x. RoundTrips (w x) r x) xs
    → RoundTrips (write_list w xs) (read_list r (length xs)) xs
unfolding read_list write_list
read_list-RoundTrips w r [] s h = RoundTrips-pure []
read_list-RoundTrips w r (x ∷ xs) s (hx, hxs) =
    RoundTrips-bind hx (λ y. Sticky-bind (read_list-Sticky s (length xs)) (λ ys. Sticky-pure _))
      (RoundTrips-last (read_list-RoundTrips w r xs s hxs) (λ ys. Sticky-pure _)
        (RoundTrips-pure _))

abbrev pub IsByte : ℕ → Type 0
IsByte x = x < 2 ^ 8

-- A string that a message can hold: the length takes 16 bits.
pub record IsText (s : List ℕ) : Type 0 where
  pub short : length s < 2 ^ 16
  pub are_bytes : All IsByte s

bytes-RoundTrips : (s : List ℕ) → All IsByte s → All (λ x. RoundTrips (write8 x) read8 x) s
bytes-RoundTrips [] h = tt
bytes-RoundTrips (x ∷ s) (hx, hs) = (read8-RoundTrips x hx, bytes-RoundTrips s hs)

write_bytes_lem :
    (s : List ℕ) (b : Buffer) → All IsByte s → (write_list write8 s b).bytes ≡ b.bytes ++ s
unfolding write_list write8 skip ◌>>◌
write_bytes_lem [] b h = sym (append-nil b.bytes)
write_bytes_lem (x ∷ s) b (hx, hs) =
    write_bytes_lem s (write8 x b) hs ∙ rw (mod-eq_of_lt hx) (append_assoc b.bytes (x ∷ []) s)

-- What follows the length in `ReadString`.
read_text : ℕ → Reader (List ℕ)
read_text l b = if has l b then read_list read8 l b else ([], mark_overrun b)

read_text-Sticky : (l : ℕ) → Sticky (read_text l)
unfolding read_text mark_overrun
read_text-Sticky l = record { at = λ b h. ground (arith, (read_list-Sticky read8-Sticky l).at b h) }

read_text-RoundTrips :
    (s : List ℕ) → All IsByte s → RoundTrips (write_list write8 s) (read_text (length s)) s
unfolding read_text has mark_overrun
read_text-RoundTrips s h =
    let whole = read_list-RoundTrips write8 read8 s read8-Sticky (bytes-RoundTrips s h) in
    let image : whole.image ≡ s = image_lem whole ∙ write_bytes_lem s (buffer [] false) h in
    record {
      image = whole.image;
      writes = whole.writes;
      reads = λ rest o.
          rw
            (le→leb (length s) (length (whole.image ++ rest))
              (rw image (omega (arith, length-append s rest))))
            (whole.reads rest o);
      cut = λ n o lt.
          rw
            (lt→leb (length s) (length (take n whole.image))
              (omega (arith, lt, length-take n whole.image, ap (length {A = ℕ}) image)))
            refl;
    }

pub read_string-Sticky : Sticky read_string
unfolding read_string read_text ◌>>=◌
read_string-Sticky = Sticky-bind read16-Sticky read_text-Sticky

pub read_string-RoundTrips : (s : List ℕ) → IsText s → RoundTrips (write_string s) read_string s
unfolding read_string write_string read_text ◌>>=◌
read_string-RoundTrips s h = rw (mod-eq_of_lt h.short) (
    RoundTrips-bind (read16-RoundTrips (length s) h.short) read_text-Sticky
      (read_text-RoundTrips s h.are_bytes))

-- Goals in a message are at the names of the typed reads; these are at the width that each has.
pub read_qid_type-RoundTrips : (v : ℕ) → v < 2 ^ 8 → RoundTrips (write_qid_type v) read_qid_type v
unfolding read_qid_type write_qid_type
read_qid_type-RoundTrips = read8-RoundTrips

pub read_qid_type-Sticky : Sticky read_qid_type
unfolding read_qid_type
read_qid_type-Sticky = read8-Sticky

pub read_tag-RoundTrips : (v : ℕ) → v < 2 ^ 16 → RoundTrips (write_tag v) read_tag v
unfolding read_tag write_tag
read_tag-RoundTrips = read16-RoundTrips

pub read_tag-Sticky : Sticky read_tag
unfolding read_tag
read_tag-Sticky = read16-Sticky

pub read_fid-Sticky : Sticky read_fid
unfolding read_fid
read_fid-Sticky = read32-Sticky

pub read_uid-RoundTrips : (v : ℕ) → v < 2 ^ 32 → RoundTrips (write_uid v) read_uid v
unfolding read_uid write_uid
read_uid-RoundTrips = read32-RoundTrips

pub read_uid-Sticky : Sticky read_uid
unfolding read_uid
read_uid-Sticky = read32-Sticky

pub read_gid-RoundTrips : (v : ℕ) → v < 2 ^ 32 → RoundTrips (write_gid v) read_gid v
unfolding read_gid write_gid
read_gid-RoundTrips = read32-RoundTrips

pub read_gid-Sticky : Sticky read_gid
unfolding read_gid
read_gid-Sticky = read32-Sticky

pub read_file_mode-RoundTrips :
    (v : ℕ) → v < 2 ^ 32 → RoundTrips (write_file_mode v) read_file_mode v
unfolding read_file_mode write_file_mode
read_file_mode-RoundTrips = read32-RoundTrips

pub read_file_mode-Sticky : Sticky read_file_mode
unfolding read_file_mode
read_file_mode-Sticky = read32-Sticky

pub read_open_flags-RoundTrips :
    (v : ℕ) → v < 2 ^ 32 → RoundTrips (write_open_flags v) read_open_flags v
unfolding read_open_flags write_open_flags
read_open_flags-RoundTrips = read32-RoundTrips

pub read_open_flags-Sticky : Sticky read_open_flags
unfolding read_open_flags
read_open_flags-Sticky = read32-Sticky

pub ruleset sticky_rules = (
  Sticky-pure, Sticky-bind, read8-Sticky, read16-Sticky, read32-Sticky, read64-Sticky,
  read_qid_type-Sticky, read_tag-Sticky, read_fid-Sticky, read_uid-Sticky, read_gid-Sticky,
  read_file_mode-Sticky, read_permissions-Sticky, read_open_flags-Sticky, read_string-Sticky,
)

pub ruleset round_trip_rules = (
  RoundTrips-pure, RoundTrips-bind, RoundTrips-last, read8-RoundTrips, read16-RoundTrips,
  read32-RoundTrips, read64-RoundTrips, read_qid_type-RoundTrips, read_tag-RoundTrips,
  read_fid-RoundTrips, read_uid-RoundTrips, read_gid-RoundTrips, read_file_mode-RoundTrips,
  read_permissions-RoundTrips, read_open_flags-RoundTrips, read_string-RoundTrips,
)
