-- ===== src/Protocol/Envelope.antt =====
-- crates/slink-protocol/src/envelope.rs: the encrypted document envelope, 24 bytes of header and the
-- document under AES-256-GCM with the header as associated data.
pub mod Laws
use session_link.Common.{
  ℕ, ◌+◌, ◌*◌, not, ◌||◌, [], ◌∷◌, ◌++◌, Text, Bytes, codes, take, drop, length, replicate, ltb,
  ◌==◌, text_eq, Result, ok, err, ok_or, map_err, refuse_if, ◌>>=◌, ◌>>◌,
}
use session_link.Protocol.Errors.{Error}
use session_link.Protocol.Crypto.{Libs}
use session_link.Protocol.Encoding.{decode_exact}

abbrev pub max_plaintext : ℕ
max_plaintext = 25 * 1024 * 1024

abbrev pub header_size : ℕ
header_size = 24

abbrev pub tag_size : ℕ
tag_size = 16

abbrev pub max_envelope : ℕ
max_envelope = header_size + max_plaintext + tag_size

-- `SLINKE`, a zero byte and the version.
abbrev pub magic : Bytes
magic = codes "SLINKE" ++ (0 ∷ 1 ∷ [])

-- Whether `data` has the size and header of an envelope this build reads.
unfoldable pub validate : Bytes → Result Error (Unit {0})
validate bytes =
    refuse_if
      (ltb (length bytes) (header_size + tag_size)
        || ltb max_envelope (length bytes)
        || not (take 8 bytes == magic)
        || not (take 4 (drop 8 bytes) == replicate 4 0))
      Error.envelope

module _ (lib : Libs) where
  -- `plaintext` in an envelope under `key`.
  unfoldable pub encrypt : Bytes → Bytes → Bytes → Result Error Bytes
  encrypt plaintext key nonce = do
    refuse_if (ltb max_plaintext (length plaintext)) Error.plaintext
    let header = magic ++ (replicate 4 0 ++ nonce)
    ok (header ++ lib.aes_256_gcm_seal key nonce header plaintext)

  -- The document inside `data`, if `key` opens it.
  unfoldable pub decrypt : Bytes → Text → Result Error Bytes
  decrypt bytes key_text = do
    validate bytes
    key ← map_err (λ _. Error.content_key) (decode_exact lib 32 key_text)
    let header = take header_size bytes
    let sealed = drop header_size bytes
    ok_or Error.decrypt (lib.aes_256_gcm_open key (drop 12 header) header sealed)
