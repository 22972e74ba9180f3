-- ===== src/Protocol/Request/Check.antt =====
-- crates/slink-protocol/src/request.rs: `Request::verify`, `Request::read`, and the code.
use session_link.Common.{
  Bool, false, Text, take, ◌==◌, text_eq, Result, ok, err, ok_or, map_err, ◌>>=◌, ◌>>◌,
}
use session_link.Protocol.Errors.{Kind, Error}
use session_link.Protocol.Crypto.{Libs}
use session_link.Protocol.Encoding.{decode_exact}
use session_link.Protocol.Signed
use session_link.Protocol.Signed.{Signed, hash, verify_bytes}
use session_link.Protocol.Request.{Request, read_request, from_be_bytes, code_from, plain}

module _ (lib : Libs) where
  -- The request a statement holds, if the device it names signed it.
  unfoldable pub verify : Signed → Result Error Request
  verify signed = do
    raw ← Signed.read lib signed Kind.request
    request ← ok_or Error.request (read_request lib raw)
    key ← map_err (λ _. Error.request) (decode_exact lib 32 request.sign_key)
    verify_bytes lib signed Kind.request raw key
    ok request

  -- The request a statement holds, without checking who signed it.
  unfoldable pub read : Signed → Result Error Request
  read signed = do
    raw ← Signed.read lib signed Kind.request
    ok_or Error.request (read_request lib raw)

  -- The first sixty bits of the hash of the payload, in base32, as `XXXX-XXXX-XXXX`.
  unfoldable pub confirmation : Signed → Result Error Text
  confirmation signed = do
    digest ← hash lib signed Kind.request
    bytes ← decode_exact lib 32 digest
    ok (code_from 12 0 (from_be_bytes 0 (take 8 bytes)))

  -- Whether what a person typed is the code of this request.
  unfoldable pub code_matches : Text → Signed → Bool
  code_matches typed signed = elim (confirmation signed) [
    | ok code ↦ plain typed == plain code
    | err e ↦ false
  ]
