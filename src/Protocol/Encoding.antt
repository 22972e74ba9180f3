-- ===== src/Protocol/Encoding.antt =====
-- crates/slink-protocol/src/encoding.rs: base64url in its canonical spelling, and the digest.
use session_link.Common.{
  ℕ, ◌+◌, ◌*◌, ◌/◌, Text, Bytes, Result, ok, ok_or, guard, ◌>>=◌, ◌>>◌, length, byte_len, ◌==◌,
  nat_eq,
}
use session_link.Protocol.Errors.{Error}
use session_link.Protocol.Crypto.{Libs}

-- `(n * 4).div_ceil(3)`
abbrev pub encoded_len : ℕ → ℕ
encoded_len n = (n * 4 + 2) / 3

module _ (lib : Libs) where
  abbrev pub encode : Bytes → Text
  encode = lib.base64_encode

  -- The bytes `text` spells.
  abbrev pub decode : Text → Result Error Bytes
  decode text = ok_or Error.encoding (lib.base64_decode text)

  -- The same, for a value of one length, which is checked before anything is decoded.
  unfoldable pub decode_exact : ℕ → Text → Result Error Bytes
  decode_exact n text = do
    guard (byte_len text == encoded_len n) Error.encoding
    out ← decode text
    guard (length out == n) Error.encoding
    ok out

  -- SHA-256 as the protocol writes it.
  unfoldable pub digest : Bytes → Text
  digest bytes = encode (lib.sha256 bytes)
