-- ===== src/Protocol/Wrap/Laws.antt =====
-- Round trips of boxes and wrappers (crates/slink-protocol/src/wrap.rs).
use session_link.Common.{
  true, [], ◌∷◌, ◌++◌, Text, Bytes, IsBytes, All-append, length, length-append, take-append,
  drop-append, ◌≡◌, refl, ok, arith, as_bytes, some,
}
use session_link.Protocol.Crypto.{Libs, x25519}
use session_link.Protocol.Encoding.{encode}
use session_link.Protocol.Laws.{
  IsBase64, IsAes, IsX25519, NoDot, url_safe-NoDot, decode_exact-encode,
}
use session_link.Protocol.Signed.{AgreementKey, agreement_public}
use session_link.Protocol.Wrap.{split_once, info, seal, unseal, wrap, unwrap, split}

module _ (lib : Libs) (b64 : IsBase64 lib) (aes : IsAes lib) where
  -- What is sealed in a box under a nonce of 12 bytes opens under the same key and context.
  pub unseal-seal :
      (key plain : Bytes) (context : Text) (nonce : Bytes)
      → IsBytes plain
      → IsBytes nonce
      → length nonce ≡ 12
      → unseal lib key (seal lib key plain context nonce) context ≡ ok plain
  unfolding unseal seal
  unseal-seal key plain context nonce bytes nonce_bytes len =
      let sealed = lib.aes_256_gcm_seal key nonce (as_bytes context) plain in
      ground (
        arith,
        b64.decode_encode (nonce ++ sealed) (
            All-append _ nonce sealed nonce_bytes
              (aes.seal_bytes key nonce (as_bytes context) plain bytes)),
        length-append nonce sealed,
        aes.length_seal key nonce (as_bytes context) plain,
        take-append 12 nonce sealed len,
        drop-append 12 nonce sealed len,
        aes.open_seal key nonce (as_bytes context) plain,
      )

split_once-append : (a b : Text) → NoDot a → split_once b'.' (a ++ (b'.' ∷ b)) ≡ some (a, b)
unfolding split_once
split_once-append [] b h = ground arith
split_once-append (c ∷ a) b h = ground (arith, split_once-append a b h.1)

-- A wrapper's two halves are told apart.
split-halves :
    (lib : Libs) (b64 : IsBase64 lib) (public sealed : Bytes)
    → IsBytes public
    → length public ≡ 32
    → IsBytes sealed
    → length sealed ≡ 60
    → split lib (encode lib public ++ (b'.' ∷ encode lib sealed))
      ≡ some (encode lib public, public, encode lib sealed)
unfolding split
split-halves lib b64 public sealed pb pl sb sl = ground (
  arith,
  split_once-append (encode lib public) (encode lib sealed)
      (url_safe-NoDot (encode lib public) (b64.alphabet public)),
  decode_exact-encode b64 32 public pb pl,
  decode_exact-encode b64 60 sealed sb sl,
)

-- What an unwrapping comes to, step by step.
unwrap-split :
    (lib : Libs) (private : AgreementKey) (wrapper context : Text) (ephemeral : Text)
    → (public : Bytes) (sealed : Text) (secret key : Bytes)
    → split lib wrapper ≡ some (ephemeral, public, sealed)
    → lib.diffie_hellman private.bytes public ≡ secret
    → lib.was_contributory secret ≡ true
    → unseal lib
        (lib.hkdf_sha256 secret (as_bytes (info context ephemeral (agreement_public lib private))))
        sealed
        (info context ephemeral (agreement_public lib private))
      ≡ ok key
    → length key ≡ 32
    → unwrap lib private wrapper context ≡ ok key
unfolding unwrap x25519
unwrap-split lib private wrapper context ephemeral public sealed secret key parts agreed share opens
      len =
    ground arith

module _ (lib : Libs) (b64 : IsBase64 lib) (aes : IsAes lib) (dh : IsX25519 lib) where
  -- By the laws of base64, AES-GCM and X25519: a key of 32 bytes, wrapped to the public half of
  -- `private` with an ephemeral key of 32 bytes and a nonce of 12, comes out of the wrapper under
  -- `private` and the same context, if what the two keys agree on is contributory.
  pub unwrap-wrap :
      (private ephemeral : AgreementKey) (key : Bytes) (context : Text) (nonce : Bytes)
      → IsBytes key
      → length key ≡ 32
      → IsBytes nonce
      → length nonce ≡ 12
      → IsBytes private.bytes
      → length private.bytes ≡ 32
      → IsBytes ephemeral.bytes
      → length ephemeral.bytes ≡ 32
      → lib.was_contributory (lib.diffie_hellman ephemeral.bytes (lib.x25519_public private.bytes))
        ≡ true
      → (wrapper : Text) × (wrap lib (agreement_public lib private) key context ephemeral nonce
          ≡ ok wrapper)
        × (unwrap lib private wrapper context ≡ ok key)
  unfolding wrap unwrap agreement_public x25519 seal
  unwrap-wrap private ephemeral key context nonce bytes len nonce_bytes nonce_len pb pl eb el
        share =
      let mine = lib.x25519_public private.bytes in
      let theirs = lib.x25519_public ephemeral.bytes in
      let secret = lib.diffie_hellman ephemeral.bytes mine in
      let bound = info context (encode lib theirs) (encode lib mine) in
      let derived = lib.hkdf_sha256 secret (as_bytes bound) in
      let boxed = lib.aes_256_gcm_seal derived nonce (as_bytes bound) key in
      let halves =
        split-halves lib b64 theirs (nonce ++ boxed) (dh.public_bytes ephemeral.bytes eb)
          (dh.length_public ephemeral.bytes el)
          (All-append _ nonce boxed nonce_bytes
            (aes.seal_bytes derived nonce (as_bytes bound) key bytes))
          (omega (
            arith,
            length-append nonce boxed,
            aes.length_seal derived nonce (as_bytes bound) key,
          )) in
      let same : lib.diffie_hellman private.bytes theirs ≡ secret =
        dh.agree private.bytes ephemeral.bytes in
      let opens = unseal-seal lib b64 aes derived key bound nonce bytes nonce_bytes nonce_len in
      (
        encode lib theirs ++ (b'.' ∷ seal lib derived key bound nonce),
        rw
            (
              decode_exact-encode b64 32 mine (dh.public_bytes private.bytes pb)
                  (dh.length_public private.bytes pl),
              share,
            )
            refl,
        unwrap-split lib private _ context (encode lib theirs) theirs (encode lib (nonce ++ boxed))
            secret key halves same share opens len,
      )
