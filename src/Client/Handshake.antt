-- ===== src/Client/Handshake.antt =====
-- p9/client.go, the version exchange of NewClient, and p9/handlers.go, the handler of Tversion. The
-- client's connection is a function from a Tversion to what sendRecv comes to.
pub mod Agree
use p.Base.{
  ℕ, zero, suc, ◌+◌, ◌-◌, ◌*◌, ◌%◌, ◌^◌, ◌≤◌, ◌<◌, List, [], ◌∷◌, Bool, true, false, Option, none,
  some, ◌==◌, ltb, leb, if◌then◌else◌, ◌||◌, ◌&&◌,
}
use p.Messages.Session.{Tversion, Rversion}
use p.Transport.{maximum_length}
use p.Version.{
  BaseVersion, undetermined, version_9p2000, version_9p2000_u, version_9p2000_l, parse_version,
  version_string, highest_supported_version,
}

-- What the handler sets of a connState.
pub record Session : Type 0 where
  pub message_size : ℕ
  pub version : ℕ
  pub base_version : BaseVersion

-- "unknown"
abbrev pub unknown : Rversion
unknown = record { m_size = 0; version = 117 ∷ 110 ∷ 107 ∷ 110 ∷ 111 ∷ 119 ∷ 110 ∷ [] }

unfoldable pub agree_on : ℕ → BaseVersion × ℕ × Bool → Session → Rversion × Session
agree_on msize (base, req, false) s = (unknown, s)
agree_on msize (version_9p2000, req, true) s = (unknown, s)
agree_on msize (version_9p2000_u, req, true) s = (unknown, s)
agree_on msize (version_9p2000_l, req, true) s =
    let version = if ltb highest_supported_version req then highest_supported_version else req in
    (
      record { m_size = msize; version = version_string version_9p2000_l version },
      record { message_size = msize; version = version; base_version = version_9p2000_l },
    )
agree_on msize (undetermined, req, true) s = (
  record { m_size = msize; version = version_string undetermined 0 },
  record { message_size = msize; version = 0; base_version = undetermined },
)

unfoldable pub handle_tversion : Tversion → Session → Rversion × Session
unfolding agree_on
handle_tversion t s =
    let msize = if ltb maximum_length t.m_size then maximum_length else t.m_size in
    if t.m_size == 0 then (unknown, s) else agree_on msize (parse_version t.version) s

-- What sendRecv comes to: an answer, EAGAIN, or another error.
pub data Answer (E : Type 0) : Type 0 where
  answered : Rversion → Answer E
  again : Answer E
  refused : E → Answer E

-- What NewClient comes to.
pub data NewClient (E : Type 0) : Type 0 where
  agreed : ℕ → NewClient E
  versions_exhausted bad_version_string : NewClient E
  failed : E → NewClient E

module _ {E : Type 0} where
  unfoldable pub take_version : BaseVersion × ℕ × Bool → NewClient E
  take_version (base, version, false) = bad_version_string
  take_version (version_9p2000_l, version, true) = agreed version
  take_version (undetermined, version, true) = bad_version_string
  take_version (version_9p2000, version, true) = bad_version_string
  take_version (version_9p2000_u, version, true) = bad_version_string

  -- What follows an answer; `lower` is the next round, if a lower version is left.
  unfoldable pub on_answer : Answer E → NewClient E → NewClient E
  unfolding take_version
  on_answer again lower = lower
  on_answer (refused e) lower = failed e
  on_answer (answered r) lower = take_version (parse_version r.version)

  -- The loop, from the version that is requested; the lowest version is 0.
  unfoldable pub negotiate : ℕ → (Tversion → Answer E) → ℕ → NewClient E
  unfolding on_answer
  negotiate msize ask zero =
      on_answer (ask (record { m_size = msize; version = version_string version_9p2000_l 0 }))
        versions_exhausted
  negotiate msize ask (suc requested) =
      on_answer
        (ask (record { m_size = msize; version = version_string version_9p2000_l (suc requested) }))
        (negotiate msize ask requested)
