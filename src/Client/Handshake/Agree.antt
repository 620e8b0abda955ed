-- ===== src/Client/Handshake/Agree.antt =====
-- p9/client.go and p9/handlers.go: the version exchange of a client with the server.
use p.Base.{ℕ, zero, suc, ◌^◌, ◌<◌, ◌≡◌, refl, ap, ◌∙◌, true, inl, ltb, if◌then◌else◌, arith, ≢→==}
use p.Transport.{maximum_length}
use p.Version.{version_9p2000_l, parse_version, version_string, highest_supported_version}
use p.Version.RoundTrip.{parse_version-version_string}
use p.Client.Handshake.{
  Session, agree_on, handle_tversion, answered, agreed, take_version, on_answer, negotiate,
}

-- The lower of two numbers.
abbrev pub lower : ℕ → ℕ → ℕ
lower a b = if ltb a b then a else b

round_trip :
    (v : ℕ)
    → v < 2 ^ 32
    → parse_version (version_string version_9p2000_l v) ≡ (version_9p2000_l, v, true)
round_trip v h = parse_version-version_string version_9p2000_l v (λ e. cc) (inl refl) h

lower-lt : (v : ℕ) → v < 2 ^ 32 → lower highest_supported_version v < 2 ^ 32
lower-lt v h = ground arith

-- The handler sets the session to the lower version and the lower size, and answers with them.
handle_tversion_lem :
    (msize v : ℕ) (s : Session)
    → 0 < msize
    → v < 2 ^ 32
    → handle_tversion (record { m_size = msize; version = version_string version_9p2000_l v }) s ≡ (
      record {
        m_size = lower maximum_length msize;
        version = version_string version_9p2000_l (lower highest_supported_version v);
      },
      record {
        message_size = lower maximum_length msize;
        version = lower highest_supported_version v;
        base_version = version_9p2000_l;
      },
    )
unfolding handle_tversion agree_on
handle_tversion_lem msize v s pos h =
    rw (≢→== msize 0 (λ e. absurd (omega (arith, e, pos))))
      (ap (λ parsed. agree_on (lower maximum_length msize) parsed s) (round_trip v h))

-- A client that asks the server for a version of 9P2000.L that is a uint32, with a message size
-- above 0, agrees with it in the first round on the lower of that version and the highest that
-- is supported; the session of the server has that version, and the lower of the message size
-- asked for and the maximum.
pub negotiate-handle_tversion :
    (E : Type 0) (msize v : ℕ) (s : Session)
    → 0 < msize
    → v < 2 ^ 32
    → (negotiate {E = E} msize (λ t. answered (handle_tversion t s).0) v
        ≡ agreed (lower highest_supported_version v))
      × ((handle_tversion
            (record { m_size = msize; version = version_string version_9p2000_l v })
            s).1
          ≡ record {
            message_size = lower maximum_length msize;
            version = lower highest_supported_version v;
            base_version = version_9p2000_l;
          })
unfolding negotiate on_answer take_version
negotiate-handle_tversion E msize zero s pos h =
    let handled = handle_tversion_lem msize 0 s pos h in
    (
      ap (λ r. take_version {E = E} (parse_version r.0.version)) handled
          ∙ ap (take_version {E = E}) (round_trip 0 h),
      ap (λ r. r.1) handled,
    )
negotiate-handle_tversion E msize (suc v) s pos h =
    let handled = handle_tversion_lem msize (suc v) s pos h in
    let small = lower-lt (suc v) h in
    (
      ap (λ r. take_version {E = E} (parse_version r.0.version)) handled
          ∙ ap (take_version {E = E}) (round_trip (lower highest_supported_version (suc v)) small),
      ap (λ r. r.1) handled,
    )
