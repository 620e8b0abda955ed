-- ===== src/Messages/Payload/Layout.antt =====
-- p9/messages.go: the layouts of Rread and Twrite.
use p.Base.{ℕ, ◌%◌, ◌^◌, ◌<◌, ◌≡◌, refl, length, Bool, true, false, arith, ==_refl, ◌==◌}
use p.Buffer.{◌>>=◌, pure, skip}
use p.Buffer.RoundTrip.{Sticky, RoundTrips, RoundTrips-bind, RoundTrips-last, RoundTrips-pure}
use p.Buffer.FieldLaws.{sticky_rules, read32-RoundTrips, read64-RoundTrips, read_fid-RoundTrips}
use p.Messages.Payload.{
  Rread, Twrite, mark_unless, decode_rread, encode_rread, decode_twrite, encode_twrite,
}

pub mark_unless-Sticky : (b : Bool) → Sticky (mark_unless b)
unfolding mark_unless
mark_unless-Sticky true = record { at = λ b h. h }
mark_unless-Sticky false = record { at = λ b h. refl }

-- The test of the length passes where the payload has the length that was written.
mark_unless_lem {ℓ} :
    {A : Type ℓ} (n : ℕ) (a : A) → RoundTrips skip (mark_unless (n == n) >>= λ _. pure a) a
unfolding mark_unless ◌>>=◌ pure
mark_unless_lem n a = rw (==_refl n) (unfold pure in RoundTrips-pure a)

pub record RreadFits (r : Rread) : Type 0 where
  pub content : length r.content < 2 ^ 32

pub record TwriteFits (t : Twrite) : Type 0 where
  pub fid : t.fid < 2 ^ 32
  pub offset : t.offset < 2 ^ 64
  pub content : length t.content < 2 ^ 32

pub decode_rread-Sticky : (r : Rread) → Sticky (decode_rread r)
unfolding decode_rread
decode_rread-Sticky r = search (sticky_rules, mark_unless-Sticky)

pub decode_twrite-Sticky : (t : Twrite) → Sticky (decode_twrite t)
unfolding decode_twrite
decode_twrite-Sticky t = search (sticky_rules, mark_unless-Sticky) depth 12

pub decode_rread-RoundTrips :
    (r : Rread) → RreadFits r → RoundTrips (encode_rread r) (decode_rread r) r
unfolding decode_rread encode_rread
decode_rread-RoundTrips r h =
    RoundTrips-last (read32-RoundTrips _ (omega arith))
      (λ x. search (sticky_rules, mark_unless-Sticky))
      (mark_unless_lem (length r.content % 2 ^ 32) r)

-- The receiver's message holds the payload already, and no other field of it matters.
pub decode_twrite-RoundTrips :
    (t q : Twrite)
    → TwriteFits t
    → q.content ≡ t.content
    → RoundTrips (encode_twrite t) (decode_twrite q) t
unfolding decode_twrite encode_twrite
decode_twrite-RoundTrips t q h e = rw e (
    RoundTrips-bind (read_fid-RoundTrips t.fid h.fid)
      (λ x. search (sticky_rules, mark_unless-Sticky) depth 12)
      (RoundTrips-bind (read64-RoundTrips t.offset h.offset)
        (λ x. search (sticky_rules, mark_unless-Sticky) depth 12)
        (RoundTrips-last (read32-RoundTrips _ (omega arith))
          (λ x. search (sticky_rules, mark_unless-Sticky) depth 12)
          (mark_unless_lem (length t.content % 2 ^ 32) t))))
