-- ===== src/Types/AttrMask/Layout.antt =====
-- The layout of an AttrMask of p9/p9.go.
use p.Base.{ℕ, ◌^◌, ◌<◌, ◌≡◌, ap, ◌∙◌, List, [], ◌∷◌, Bool, false, arith, get_or}
use p.Base.Bits.{has, flags, flags_lem, from_bits, from_bits-lt-pow, has-from_bits}
use p.Buffer.{pure, skip}
use p.Buffer.RoundTrip.{Sticky, RoundTrips, RoundTrips-last, RoundTrips-pure, Sticky-pure}
use p.Buffer.FieldLaws.{sticky_rules, read64-RoundTrips}
use mathlib.Core.Path.{subst}
use p.Types.AttrMask.{AttrMask, attr_mask_bits, decode_attr_mask, encode_attr_mask}

-- The bits of the mask, the lowest first.
abbrev pub attr_mask_list : AttrMask → List Bool
attr_mask_list m =
    m.mode ∷ m.n_link ∷ m.uid ∷ m.gid ∷ m.r_dev ∷ m.a_time ∷ m.m_time ∷ m.c_time ∷ m.i_no ∷ m.size
    ∷ m.blocks ∷ m.b_time ∷ m.gen ∷ m.data_version ∷ []

pub attr_mask_bits_lem : (m : AttrMask) → attr_mask_bits m ≡ from_bits (attr_mask_list m)
unfolding attr_mask_bits flags
attr_mask_bits_lem m = flags_lem (attr_mask_list m)

attr_mask_bit :
    (m : AttrMask) (k : ℕ) → has (attr_mask_bits m) (2 ^ k) ≡ get_or (attr_mask_list m) k false
attr_mask_bit m k =
    ap (λ (t : ℕ). has t (2 ^ k)) (attr_mask_bits_lem m) ∙ has-from_bits k (attr_mask_list m)

attr_mask_bits-lt : (m : AttrMask) → attr_mask_bits m < 2 ^ 14
attr_mask_bits-lt m = omega (arith, attr_mask_bits_lem m, from_bits-lt-pow (attr_mask_list m))

attr_mask_of_bits : ℕ → AttrMask
attr_mask_of_bits mask = record {
  mode = has mask 0x00000001;
  n_link = has mask 0x00000002;
  uid = has mask 0x00000004;
  gid = has mask 0x00000008;
  r_dev = has mask 0x00000010;
  a_time = has mask 0x00000020;
  m_time = has mask 0x00000040;
  c_time = has mask 0x00000080;
  i_no = has mask 0x00000100;
  size = has mask 0x00000200;
  blocks = has mask 0x00000400;
  b_time = has mask 0x00000800;
  gen = has mask 0x00001000;
  data_version = has mask 0x00002000;
}

attr_mask_of_bits_lem : (m : AttrMask) → attr_mask_of_bits (attr_mask_bits m) ≡ m
unfolding attr_mask_of_bits
attr_mask_of_bits_lem m = λ i. record {
  mode = attr_mask_bit m 0 i;
  n_link = attr_mask_bit m 1 i;
  uid = attr_mask_bit m 2 i;
  gid = attr_mask_bit m 3 i;
  r_dev = attr_mask_bit m 4 i;
  a_time = attr_mask_bit m 5 i;
  m_time = attr_mask_bit m 6 i;
  c_time = attr_mask_bit m 7 i;
  i_no = attr_mask_bit m 8 i;
  size = attr_mask_bit m 9 i;
  blocks = attr_mask_bit m 10 i;
  b_time = attr_mask_bit m 11 i;
  gen = attr_mask_bit m 12 i;
  data_version = attr_mask_bit m 13 i;
}

pub decode_attr_mask-Sticky : Sticky decode_attr_mask
unfolding decode_attr_mask
decode_attr_mask-Sticky = search sticky_rules

-- For every mask, what is written of it reads back as the mask, and a part of it that is cut short
-- overruns.
pub decode_attr_mask-RoundTrips :
    (m : AttrMask) → RoundTrips (encode_attr_mask m) decode_attr_mask m
unfolding decode_attr_mask encode_attr_mask attr_mask_of_bits
decode_attr_mask-RoundTrips m =
    RoundTrips-last (read64-RoundTrips (attr_mask_bits m) (omega (arith, attr_mask_bits-lt m)))
      (λ x. Sticky-pure _)
      (subst (λ x. RoundTrips skip (pure (attr_mask_of_bits (attr_mask_bits m))) x)
        (attr_mask_of_bits_lem m) (RoundTrips-pure _))
