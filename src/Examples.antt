-- ===== src/Examples.antt =====
-- Runs of the models at concrete inputs: the data here, the runs in the children.
pub mod Wire
pub mod Tables
pub mod Files
pub mod Sizes
pub mod Server
pub mod Fids
pub mod Handlers
pub mod Requests
use p.Base.{ℕ, List, [], ◌∷◌, false, arith}
use p.Buffer.FieldLaws.{IsText}
use p.Types.Qid.{Qid}
use p.Types.Dirent.{Dirent}
use p.Types.Layout.{DirentFits}
use p.Messages.Session.{Tversion}
use p.Messages.Payload.{Rreaddir}
use p.Messages.Payload.Listing.{RreaddirFits}
use p.Messages.Message.{Message, tversion, rreaddir}
use p.Messages.Message.Fits.{Fits}
use p.Registry.{Registry}
use p.Registry.Init.{init_lem}
use p.Transport.{Head, header_length}
use p.Transport.Header.{HeadFits}
use p.Transport.RoundTrip.{IsReady}

-- "9P2000.L"
abbrev pub version_text : List ℕ
version_text = 57 ∷ 80 ∷ 50 ∷ 48 ∷ 48 ∷ 48 ∷ 46 ∷ 76 ∷ []

abbrev pub hello : Message
hello = tversion (record { m_size = 8192; version = version_text })

pub version_text-IsText : IsText version_text
version_text-IsText = record { short = omega arith; are_bytes = grind arith }

pub hello-Fits : Fits hello
hello-Fits = record { m_size = omega arith; version = version_text-IsText }

-- Two entries of a directory, of which a listing of 40 bytes takes one.
abbrev pub entry_a : Dirent
entry_a = record {
  qid = record { type = 128; version = 1; path = 7 };
  offset = 1;
  type = 128;
  name = 97 ∷ [];
}

abbrev pub entry_b : Dirent
entry_b = record {
  qid = record { type = 0; version = 1; path = 8 };
  offset = 2;
  type = 0;
  name = 98 ∷ [];
}

abbrev pub directory : Rreaddir
directory = record { count = 40; entries = entry_a ∷ entry_b ∷ []; payload = [] }

pub directory-RreaddirFits : RreaddirFits directory
directory-RreaddirFits = record {
  count = omega arith;
  entries = (
    record {
      qid = record { type = omega arith; version = omega arith; path = omega arith };
      offset = omega arith;
      type = omega arith;
      name = record { short = omega arith; are_bytes = grind arith };
    },
    (
      record {
        qid = record { type = omega arith; version = omega arith; path = omega arith };
        offset = omega arith;
        type = omega arith;
        name = record { short = omega arith; are_bytes = grind arith };
      },
      tt,
    ),
  );
}

-- The registry that `init` makes.
abbrev pub registry : Registry
registry = init_lem.0

pub registry-IsReady : IsReady registry
registry-IsReady = let (r, e, h, each, c) = init_lem in record { in_order = h; complete = c }
