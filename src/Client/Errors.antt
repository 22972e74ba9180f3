-- ===== src/Client/Errors.antt =====
-- crates/slink-client/src/identity.rs: why an action did not happen.
use session_link.Common.{
  ℕ, Option, none, some, ◌∷◌, [], Text, codes, contains, nat_eq, if◌then◌else◌,
}
use session_link.Protocol.Errors
use session_link.Protocol.Names.{message_of}

-- `index_out_of_range` stands for the panic of `record.events[seq]` in device.rs.
pub data Error : Type 0 where
  service : ℕ → Text → Error
  locked setup_conflict index_out_of_range : Error
  refused : Text → Error

-- `From<slink_protocol::Error>`
abbrev pub from : Errors.Error → Error
from error = Error.refused (message_of error)

-- The status a page is told.
unfoldable pub status : Error → ℕ
status (Error.service answered message) =
    if contains answered (401 ∷ 403 ∷ 409 ∷ 429 ∷ []) then answered else 422
status _ = 422

-- What a page can act on.
unfoldable pub code : Error → Option Text
code Error.setup_conflict = some (codes "setup_conflict")
code _ = none
