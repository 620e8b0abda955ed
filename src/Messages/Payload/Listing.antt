-- ===== src/Messages/Payload/Listing.antt =====
-- p9/messages.go: what an Rreaddir carries of its entries.
use p.Base.{
  ℕ, ◌+◌, ◌⊎◌, ◌^◌, ◌≤◌, ◌<◌, ◌≡◌, refl, sym, ap, ◌∙◌, List, [], ◌∷◌, ◌++◌, append-nil,
  append_assoc, true, false, ltb, if◌then◌else◌, length, length-append, take, take_length,
  take-append_exact, All, arith, Bool-cases, inl, inr,
}
use p.Buffer.{Buffer, has, is_overrun, append, write32, read8, read16, read32, read64}
use p.Buffer.Fields.{read_qid_type, read_string}
use p.Buffer.RoundTrip.{buffer, Sticky, RoundTrips, RoundTrips-last, RoundTrips-pure, image_lem}
use p.Buffer.FieldLaws.{sticky_rules, read32-RoundTrips}
use p.Types.Qid.{decode_qid}
use p.Types.Dirent.{Dirent, decode_dirent, encode_dirent}
use p.Types.Layout.{DirentFits, decode_dirent-RoundTrips}
use p.Messages.Payload.{Rreaddir, read_entries, decode_rreaddir, write_entries, encode_rreaddir}
use p.Messages.Payload.Entries.{Shorter, Shorter_wf, dec_fine, decode_dirent_shorter}
use mathlib.Core.WellFounded.{Acc}
use mathlib.Core.Logic.{dif_pos, dif_neg}
use mathlib.Core.Path.{ap₂, fun_ext}

-- The bytes of one entry, and of several.
abbrev pub dirent_bytes : Dirent → List ℕ
dirent_bytes d = (encode_dirent d (buffer [] false)).bytes

unfoldable pub listing : List Dirent → List ℕ
listing [] = []
listing (d ∷ ds) = dirent_bytes d ++ listing ds

-- The longest prefix that fits, where `used` bytes are taken.
unfoldable pub fitting_from : ℕ → ℕ → List Dirent → List Dirent
fitting_from used count [] = []
fitting_from used count (d ∷ ds) =
    let rest = fitting_from (used + length (dirent_bytes d)) count ds in
    if ltb count (used + length (dirent_bytes d)) then [] else d ∷ rest

abbrev pub fitting : ℕ → List Dirent → List Dirent
fitting count ds = fitting_from 0 count ds

encode_dirent_lem :
    (d : Dirent) (b : Buffer) → DirentFits d → encode_dirent d b ≡ append (dirent_bytes d) b
encode_dirent_lem d b h =
    let rt = decode_dirent-RoundTrips d h in rt.writes b ∙ ap (λ xs. append xs b) (image_lem rt)

decode_dirent_lem :
    (d : Dirent) (rest : List ℕ)
    → DirentFits d
    → decode_dirent (buffer (dirent_bytes d ++ rest) false) ≡ (d, buffer rest false)
decode_dirent_lem d rest h =
    let rt = decode_dirent-RoundTrips d h in
    ap (λ xs. decode_dirent (buffer (xs ++ rest) false)) (sym (image_lem rt)) ∙ rt.reads rest false

-- The loop that writes keeps what fits.
write_entries_lem :
    (count : ℕ) (ds : List Dirent) (done : List ℕ)
    → All DirentFits ds
    → (let r = write_entries count ds (buffer done false) (length done) in take r.1 r.0.bytes)
      ≡ done ++ listing (fitting_from (length done) count ds)
unfolding write_entries listing fitting_from append
write_entries_lem count [] done h = rw append-nil (take_length done)
write_entries_lem count (d ∷ ds) done (hd, hds) =
    elim (Bool-cases (ltb count (length done + length (dirent_bytes d)))) [
      | inl big ↦
          rw (encode_dirent_lem d (buffer done false) hd, length-append, big)
            (take-append_exact (length done) done (dirent_bytes d) refl ∙ sym (append-nil done))
      | inr small ↦
          rw (encode_dirent_lem d (buffer done false) hd, length-append, small)
            ((rw length-append at (write_entries_lem count ds (done ++ dirent_bytes d) hds))
              ∙ append_assoc done (dirent_bytes d) (listing (fitting_from _ count ds)))
    ]

read_entries-nil :
    (b : Buffer) (w : Acc Shorter b) → (decode_dirent b).1.overflow ≡ true → read_entries b w ≡ []
unfolding read_entries is_overrun
read_entries-nil b (Acc.intro _ smaller) h =
    rw (dif_neg (dec_fine (is_overrun (decode_dirent b).1)) (λ e. cc)) refl

read_entries-cons :
    (b : Buffer) (w : Acc Shorter b)
    → (decode_dirent b).1.overflow ≡ false
    → (w' : Acc Shorter (decode_dirent b).1) × (read_entries b w
        ≡ (decode_dirent b).0 ∷ read_entries (decode_dirent b).1 w')
unfolding read_entries is_overrun
read_entries-cons b (Acc.intro _ smaller) h = (
  smaller (decode_dirent b).1 (decode_dirent_shorter b h),
  rw (dif_pos (dec_fine (is_overrun (decode_dirent b).1)) (hlevel) h) refl,
)

decode_dirent-nil : (decode_dirent (buffer [] false)).1.overflow ≡ true
unfolding decode_dirent decode_qid read_qid_type read_string read8 read16 read32 read64 has
decode_dirent-nil = refl

-- The loop that reads takes the entries off one by one, and stops at the end.
read_entries-listing :
    (ds : List Dirent) (b : Buffer) (w : Acc Shorter b)
    → b ≡ buffer (listing ds) false
    → All DirentFits ds
    → read_entries b w ≡ ds
unfolding listing
read_entries-listing [] b w e h =
    read_entries-nil b w (ap (λ (x : Buffer). (decode_dirent x).1.overflow) e ∙ decode_dirent-nil)
read_entries-listing (d ∷ ds) b w e (hd, hds) =
    let q : decode_dirent b ≡ (d, buffer (listing ds) false) =
      ap decode_dirent e ∙ decode_dirent_lem d (listing ds) hd in
    let (w', more) = read_entries-cons b w (ap (λ (x : Dirent × Buffer). x.1.overflow) q) in
    more
    ∙ ap₂ (λ x xs. x ∷ xs) (ap (λ (x : Dirent × Buffer). x.0) q)
        (read_entries-listing ds (decode_dirent b).1 w' (ap (λ (x : Dirent × Buffer). x.1) q) hds)

-- The size that the loop returns is that of what it keeps.
write_entries_size :
    (count : ℕ) (ds : List Dirent) (done : List ℕ)
    → All DirentFits ds
    → (write_entries count ds (buffer done false) (length done)).1
      ≡ length done + length (listing (fitting_from (length done) count ds))
unfolding write_entries listing fitting_from append
write_entries_size count [] done h = omega arith
write_entries_size count (d ∷ ds) done (hd, hds) =
    elim (Bool-cases (ltb count (length done + length (dirent_bytes d)))) [
      | inl big ↦ rw (encode_dirent_lem d (buffer done false) hd, length-append, big) (omega arith)
      | inr small ↦
          rw (encode_dirent_lem d (buffer done false) hd, length-append, small)
            (omega (
              arith,
              (rw length-append at (write_entries_size count ds (done ++ dirent_bytes d) hds)),
              length-append (dirent_bytes d)
                  (listing (fitting_from (length done + length (dirent_bytes d)) count ds)),
            ))
    ]

fitting_from-le :
    (used count : ℕ) (ds : List Dirent)
    → used ≤ count
    → used + length (listing (fitting_from used count ds)) ≤ count
unfolding listing fitting_from
fitting_from-le used count [] h = omega arith
fitting_from-le used count (d ∷ ds) h =
    elim (Bool-cases (ltb count (used + length (dirent_bytes d)))) [
      | inl big ↦ rw big (omega arith)
      | inr small ↦ rw small (
          omega (
            arith,
            length-append (dirent_bytes d)
                (listing (fitting_from (used + length (dirent_bytes d)) count ds)),
            fitting_from-le (used + length (dirent_bytes d)) count ds (ground arith),
          ))
    ]

-- The listing stays within the count that the client asked for.
pub length-listing_le : (count : ℕ) (ds : List Dirent) → length (listing (fitting count ds)) ≤ count
length-listing_le count ds = omega (arith, fitting_from-le 0 count ds (omega arith))

-- The entries that are left out are none, or the first of them does not fit behind the others.
abbrev pub LeavesOut : ℕ → ℕ → List Dirent → List Dirent → Type 0
LeavesOut used count kept rest =
    (rest ≡ [])
    ⊎ ((d : Dirent) × (more : List Dirent) × (rest ≡ d ∷ more)
        × (count < used + length (listing kept) + length (dirent_bytes d)))

fitting_from-longest :
    (used count : ℕ) (ds : List Dirent)
    → (rest : List Dirent) × (ds ≡ fitting_from used count ds ++ rest)
      × LeavesOut used count (fitting_from used count ds) rest
unfolding listing fitting_from
fitting_from-longest used count [] = ([], refl, inl refl)
fitting_from-longest used count (d ∷ ds) =
    elim (Bool-cases (ltb count (used + length (dirent_bytes d)))) [
      | inl big ↦ rw big (d ∷ ds, refl, inr (d, ds, refl, ground (arith, big)))
      | inr small ↦
          let (rest, whole, out) = fitting_from-longest (used + length (dirent_bytes d)) count ds in
          let kept = fitting_from (used + length (dirent_bytes d)) count ds in
          rw small (
            rest,
            ap (λ xs. d ∷ xs) whole,
            elim out [
              | inl e ↦ inl e
              | inr (e, more, cons, over) ↦ inr (
                e,
                more,
                cons,
                omega (arith, over, length-append (dirent_bytes d) (listing kept)),
              )
            ],
          )
    ]

pub record RreaddirFits (r : Rreaddir) : Type 0 where
  pub count : r.count < 2 ^ 32
  pub entries : All DirentFits r.entries

-- The message as it arrives: the entries that fit, and the size of their listing.
abbrev pub sent_rreaddir : Rreaddir → Rreaddir
sent_rreaddir r = record {
  count = length (listing (fitting r.count r.entries));
  entries = fitting r.count r.entries;
  payload = listing (fitting r.count r.entries);
}

-- `encode` sets the payload to the listing of the entries that fit.
pub payload-encode_rreaddir :
    (r : Rreaddir) (b : Buffer)
    → RreaddirFits r
    → (encode_rreaddir r b).0.payload ≡ listing (fitting r.count r.entries)
unfolding encode_rreaddir
payload-encode_rreaddir r b h = write_entries_lem r.count r.entries [] h.entries

encode_rreaddir_lem :
    (r : Rreaddir) (b : Buffer)
    → RreaddirFits r
    → (encode_rreaddir r b).1 ≡ write32 (sent_rreaddir r).count b
unfolding encode_rreaddir
encode_rreaddir_lem r b h =
    ap (λ n. write32 n b)
      (omega (
        arith,
        h.count,
        write_entries_size r.count r.entries [] h.entries,
        length-listing_le r.count r.entries,
      ))

-- The payload that `encode` sets on an Rreaddir whose fields fit their widths is the listing, entry by
-- entry, of a part from the front of its entries, and the count that it sets and writes is the size of
-- that. It stays within the count that the client asked for, and it is the longest such part: if an
-- entry is left out, the listing with the next one would pass that count.
pub encode_rreaddir-longest :
    (r : Rreaddir) (b : Buffer)
    → RreaddirFits r
    → (kept rest : List Dirent) × (r.entries ≡ kept ++ rest)
      × ((encode_rreaddir r b).0.payload ≡ listing kept)
      × ((encode_rreaddir r b).0.count ≡ length (listing kept))
      × ((encode_rreaddir r b).1 ≡ write32 (length (listing kept)) b)
      × (length (listing kept) ≤ r.count)
      × LeavesOut 0 r.count kept rest
unfolding encode_rreaddir
encode_rreaddir-longest r b h =
    let (rest, whole, out) = fitting_from-longest 0 r.count r.entries in
    (
      fitting r.count r.entries,
      rest,
      whole,
      payload-encode_rreaddir r b h,
      omega (
        arith,
        h.count,
        write_entries_size r.count r.entries [] h.entries,
        length-listing_le r.count r.entries,
      ),
      encode_rreaddir_lem r b h,
      length-listing_le r.count r.entries,
      out,
    )

fitting_from-DirentFits :
    (used count : ℕ) (ds : List Dirent)
    → All DirentFits ds
    → All DirentFits (fitting_from used count ds)
unfolding fitting_from
fitting_from-DirentFits used count [] h = tt
fitting_from-DirentFits used count (d ∷ ds) (hd, hds) =
    elim (Bool-cases (ltb count (used + length (dirent_bytes d)))) [
      | inl big ↦ rw big tt
      | inr small ↦
          rw small (hd, fitting_from-DirentFits (used + length (dirent_bytes d)) count ds hds)
    ]

pub decode_rreaddir-Sticky : (r : Rreaddir) → Sticky (decode_rreaddir r)
unfolding decode_rreaddir
decode_rreaddir-Sticky r = search sticky_rules

-- For an Rreaddir whose fields fit their widths: a receiver that has the listing of the entries that fit as
-- its payload decodes, from what the sender encodes, those entries with the size of their listing
-- as count; a part of the encoded fields that is cut short overruns.
pub decode_rreaddir-RoundTrips :
    (r q : Rreaddir)
    → RreaddirFits r
    → q.payload ≡ listing (fitting r.count r.entries)
    → RoundTrips (λ b. (encode_rreaddir r b).1) (decode_rreaddir q) (sent_rreaddir r)
unfolding decode_rreaddir
decode_rreaddir-RoundTrips r q h e = rw (fun_ext (λ b. encode_rreaddir_lem r b h)) (
    RoundTrips-last
      (read32-RoundTrips (sent_rreaddir r).count
        (omega (arith, h.count, length-listing_le r.count r.entries)))
      (λ x. search sticky_rules)
      (rw e (
        rw
          (read_entries-listing (fitting r.count r.entries)
            (buffer (listing (fitting r.count r.entries)) false) (Shorter_wf _) refl
            (fitting_from-DirentFits 0 r.count r.entries h.entries))
          (RoundTrips-pure _))))
