-- ===== src/Types/SetAttrMask/Layout.antt =====
-- The layout of a SetAttrMask of p9/p9.go.
use p.Base.{ℕ, ◌^◌, ◌<◌, ◌≡◌, ap, ◌∙◌, List, [], ◌∷◌, Bool, false, arith, get_or}
use p.Base.Bits.{has, flags, flags_lem, from_bits, from_bits-lt-pow, has-from_bits}
use p.Buffer.{pure, skip}
use p.Buffer.RoundTrip.{Sticky, RoundTrips, RoundTrips-last, RoundTrips-pure, Sticky-pure}
use p.Buffer.FieldLaws.{sticky_rules, read32-RoundTrips}
use mathlib.Core.Path.{subst}
use p.Types.SetAttrMask.{
  SetAttrMask, set_attr_mask_bits, decode_set_attr_mask, encode_set_attr_mask,
}

-- The bits of the mask, the lowest first.
abbrev pub set_attr_mask_list : SetAttrMask → List Bool
set_attr_mask_list m =
    m.permissions ∷ m.uid ∷ m.gid ∷ m.size ∷ m.a_time ∷ m.m_time ∷ m.c_time
    ∷ m.a_time_not_system_time ∷ m.m_time_not_system_time ∷ []

pub set_attr_mask_bits_lem :
    (m : SetAttrMask) → set_attr_mask_bits m ≡ from_bits (set_attr_mask_list m)
unfolding set_attr_mask_bits flags
set_attr_mask_bits_lem m = flags_lem (set_attr_mask_list m)

set_attr_mask_bit :
    (m : SetAttrMask) (k : ℕ)
    → has (set_attr_mask_bits m) (2 ^ k) ≡ get_or (set_attr_mask_list m) k false
set_attr_mask_bit m k =
    ap (λ (t : ℕ). has t (2 ^ k)) (set_attr_mask_bits_lem m)
    ∙ has-from_bits k (set_attr_mask_list m)

set_attr_mask_bits-lt : (m : SetAttrMask) → set_attr_mask_bits m < 2 ^ 9
set_attr_mask_bits-lt m =
    omega (arith, set_attr_mask_bits_lem m, from_bits-lt-pow (set_attr_mask_list m))

set_attr_mask_of_bits : ℕ → SetAttrMask
set_attr_mask_of_bits mask = record {
  permissions = has mask 0x00000001;
  uid = has mask 0x00000002;
  gid = has mask 0x00000004;
  size = has mask 0x00000008;
  a_time = has mask 0x00000010;
  m_time = has mask 0x00000020;
  c_time = has mask 0x00000040;
  a_time_not_system_time = has mask 0x00000080;
  m_time_not_system_time = has mask 0x00000100;
}

set_attr_mask_of_bits_lem : (m : SetAttrMask) → set_attr_mask_of_bits (set_attr_mask_bits m) ≡ m
unfolding set_attr_mask_of_bits
set_attr_mask_of_bits_lem m = λ i. record {
  permissions = set_attr_mask_bit m 0 i;
  uid = set_attr_mask_bit m 1 i;
  gid = set_attr_mask_bit m 2 i;
  size = set_attr_mask_bit m 3 i;
  a_time = set_attr_mask_bit m 4 i;
  m_time = set_attr_mask_bit m 5 i;
  c_time = set_attr_mask_bit m 6 i;
  a_time_not_system_time = set_attr_mask_bit m 7 i;
  m_time_not_system_time = set_attr_mask_bit m 8 i;
}

pub decode_set_attr_mask-Sticky : Sticky decode_set_attr_mask
unfolding decode_set_attr_mask
decode_set_attr_mask-Sticky = search sticky_rules

pub decode_set_attr_mask-RoundTrips :
    (m : SetAttrMask) → RoundTrips (encode_set_attr_mask m) decode_set_attr_mask m
unfolding decode_set_attr_mask encode_set_attr_mask set_attr_mask_of_bits
decode_set_attr_mask-RoundTrips m =
    RoundTrips-last
      (read32-RoundTrips (set_attr_mask_bits m) (omega (arith, set_attr_mask_bits-lt m)))
      (λ x. Sticky-pure _)
      (subst (λ x. RoundTrips skip (pure (set_attr_mask_of_bits (set_attr_mask_bits m))) x)
        (set_attr_mask_of_bits_lem m) (RoundTrips-pure _))
