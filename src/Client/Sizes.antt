-- ===== src/Client/Sizes.antt =====
-- p9/client.go: the message size of a client and the payload size that it leaves.
pub mod Fit
use p.Base.{
  ℕ, ◌+◌, ◌-◌, ◌*◌, ◌%◌, ◌^◌, Bool, true, false, not, ◌&&◌, Option, none, some, ◌==◌, ltb, leb,
  if◌then◌else◌,
}
use p.Registry.{Registry}

abbrev pub default_message_size : ℕ
default_message_size = 64 * 1024

-- `none` is ErrMessageTooLarge.
unfoldable pub with_message_size : Registry → ℕ → Option ℕ
with_message_size r m = if leb m r.largest_fixed_size then none else some m

unfoldable pub round_down : ℕ → ℕ → ℕ
round_down p align = if ltb align p && not (p % align == 0) then p - p % align else p

-- c.payloadSize, from c.messageSize
unfoldable pub payload_size : Registry → ℕ → ℕ
unfolding round_down
payload_size r message_size =
    round_down ((message_size + 2 ^ 32 - r.largest_fixed_size) % 2 ^ 32) 512
