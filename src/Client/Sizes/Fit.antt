-- ===== src/Client/Sizes/Fit.antt =====
-- p9/client.go: the payload size against the message size.
use p.Base.{none_is_no_some}
use p.Base.{
  ℕ, ◌+◌, ◌-◌, ◌%◌, ◌^◌, ◌≤◌, ◌<◌, ◌≡◌, refl, sym, ap, ◌∙◌, none, some, leb, if◌then◌else◌, arith,
  Bool-cases, inl, inr,
}
use p.Buffer.{write8, write16, write32, write64, append, put_uint, ◌>>◌}
use p.Buffer.Fields.{write_uid, write_gid, write_file_mode, write_qid_type}
use p.Types.Qid.{encode_qid}
use p.Types.AttrMask.{encode_attr_mask, attr_mask_bits}
use p.Types.Attr.{encode_attr}
use p.Messages.Attributes.{encode_rgetattr}
use p.Messages.Payload.{fixed_size_twrite, fixed_size_rread}
use p.Messages.Message.{rgetattr, payloader, typ}
use p.Messages.Message.Codec.{encode}
use p.Messages.Message.Blank.{zero_rgetattr, blank}
use p.Registry.{Registry, init, calculate_size, calculate_size_with}
use p.Registry.Registrations.{registrations}
use p.Registry.Table.{find-registrations}
use p.Registry.Largest.{register_all-largest}
use p.Transport.{header_length}
use p.Client.Sizes.{with_message_size, round_down, payload_size}

-- The attributes of a file are the longest of the messages without text.
rgetattr-size : calculate_size (blank (rgetattr zero_rgetattr)) ≡ 153
unfolding calculate_size calculate_size_with payloader encode blank encode_rgetattr encode_qid
    encode_attr_mask attr_mask_bits encode_attr write_uid write_gid write_file_mode write_qid_type
    write8 write16 write32 write64 append put_uint ◌>>◌
rgetattr-size = refl

init-largest : (r : Registry) → init ≡ some r → 153 ≤ r.largest_fixed_size
unfolding init
init-largest r e =
    let (_, sizes) = register_all-largest registrations _ r e in
    omega (
      arith,
      rgetattr-size,
      sizes (typ (rgetattr zero_rgetattr)) (blank (rgetattr zero_rgetattr))
          (find-registrations (rgetattr zero_rgetattr)),
    )

round_down-le : (p : ℕ) → 0 < p → (0 < round_down p 512) × (round_down p 512 ≤ p)
unfolding round_down
round_down-le p h = ground arith

with_message_size-some :
    (r : Registry) (size message_size : ℕ)
    → with_message_size r size ≡ some message_size
    → (r.largest_fixed_size < size) × (size ≡ message_size)
unfolding with_message_size
with_message_size-some r size message_size h = elim (Bool-cases (leb size r.largest_fixed_size)) [
  | inl small ↦
      absurd
        (none_is_no_some message_size (ap (λ b. if b then none else some size) (sym small) ∙ h))
  | inr large ↦
      let same : some size ≡ some message_size =
        ap (λ b. if b then none else some size) (sym large) ∙ h in
      (ground (arith, large), cc)
]

-- With the registry that `init` makes, a message size that the client takes leaves a payload size above 0, and a
-- Twrite or an Rread with a payload of that size, header and fields included, is no larger than the
-- message size.
pub payload_size-fits :
    (r : Registry) (size message_size : ℕ)
    → init ≡ some r
    → size < 2 ^ 32
    → with_message_size r size ≡ some message_size
    → (0 < payload_size r message_size)
      × (header_length + fixed_size_twrite + payload_size r message_size ≤ message_size)
      × (header_length + fixed_size_rread + payload_size r message_size ≤ message_size)
unfolding payload_size
payload_size-fits r size message_size e small h =
    let (more, same) = with_message_size-some r size message_size h in
    let large = init-largest r e in
    let left : (message_size + 2 ^ 32 - r.largest_fixed_size) % 2 ^ 32
        ≡ message_size - r.largest_fixed_size =
      omega (arith, more, same, small) in
    let (pos, below) =
      round_down-le (message_size - r.largest_fixed_size) (omega (arith, more, same)) in
    let rounded = ap (λ n. round_down n 512) left in
    (
      omega (arith, pos, rounded),
      omega (arith, below, large, more, same, rounded),
      omega (arith, below, large, more, same, rounded),
    )
