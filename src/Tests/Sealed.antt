-- ===== src/Tests/Sealed.antt =====
-- What is signed, sealed and wrapped in crates/slink-protocol (signed.rs, envelope.rs, wrap.rs,
-- recovery.rs, request.rs), at concrete inputs over stand-ins that meet the libraries' laws.
use session_link.Common.{
  ℕ, ◌+◌, ◌/◌, ◌^◌, ◌≤◌, ◌<◌, true, false, [], ◌++◌, Text, Bytes, codes, length, replicate, ◌≡◌,
  ◌↔◌, refl, ok, arith,
}
use session_link.Protocol.Errors.{Kind, payload_limit}
use session_link.Protocol.Crypto.{small_order}
use session_link.Protocol.Encoding.{encode, encoded_len}
use session_link.Protocol.Signed.{
  Signed, SigningKey, AgreementKey, sign, read, verify, signing_public, agreement_public,
}
use session_link.Protocol.Signed.Laws.{message_injective, sign_lem}
use session_link.Protocol.Envelope.{encrypt, decrypt, validate, magic}
use session_link.Protocol.Envelope.Laws.{IsEnvelope, validate_lem, decrypt-encrypt}
use session_link.Protocol.Wrap.{wrap, unwrap}
use session_link.Protocol.Wrap.Laws.{unwrap-wrap}
use session_link.Protocol.History.{State}
use session_link.Protocol.Recovery.{Recovery, recovery_token, seal_package, open_recovery}
use session_link.Protocol.Recovery.Laws.{open_recovery-seal_package}
use session_link.Protocol.Request.{Request, pending, code_from, plain}
use session_link.Protocol.Request.Laws.{pending_lem, code-injective}
use session_link.Tests.Opened.{opened_basics}
use session_link.Tests.Standard.{
  standard, standard-IsBase64, standard-IsEd25519, standard-IsAes, standard-IsX25519,
  replicate-IsBytes,
}
use session_link.Tests.History.{first_state}

abbrev filled : ℕ → Bytes
filled = replicate 32

abbrev signer : SigningKey
signer = record { seed = filled 7 }

order : small_order (standard.ed25519_public signer.seed) ≡ false
unfolding opened_basics
order = refl

limit : encoded_len (length (codes "a request")) ≤ payload_limit Kind.request
unfolding payload_limit
limit = omega arith

sign_lem_example :
    (s : Signed) × (sign standard Kind.request (codes "a request") signer ≡ ok s)
    × (read standard s Kind.request ≡ ok (codes "a request"))
    × (verify standard s Kind.request (signing_public standard signer) ≡ ok tt)
sign_lem_example =
    sign_lem standard standard-IsBase64 standard-IsEd25519 Kind.request (codes "a request") signer
      (ground arith) (replicate-IsBytes 32 7 (omega arith)) refl order limit

message_injective_example : (Kind.vault ≡ Kind.vault) × (codes "x" ≡ codes "x")
message_injective_example = message_injective Kind.vault Kind.vault (codes "x") (codes "x") refl

decrypt-encrypt_example :
    (envelope : Bytes) × (encrypt standard (codes "a document") (filled 1) (replicate 12 2)
      ≡ ok envelope)
    × (length envelope ≡ length (codes "a document") + 40)
    × (decrypt standard envelope (encode standard (filled 1)) ≡ ok (codes "a document"))
decrypt-encrypt_example =
    decrypt-encrypt standard standard-IsBase64 standard-IsAes (codes "a document") (filled 1)
      (replicate 12 2) (omega arith) (replicate-IsBytes 32 1 (omega arith)) refl refl

abbrev private : AgreementKey
private = record { bytes = filled 3 }

abbrev ephemeral : AgreementKey
ephemeral = record { bytes = filled 4 }

unwrap-wrap_example :
    (wrapper : Text) × (wrap standard
        (agreement_public standard private)
        (filled 5)
        (codes "named/1")
        ephemeral
        (replicate 12 6)
      ≡ ok wrapper)
    × (unwrap standard private wrapper (codes "named/1") ≡ ok (filled 5))
unwrap-wrap_example =
    unwrap-wrap standard standard-IsBase64 standard-IsAes standard-IsX25519 private ephemeral
      (filled 5) (codes "named/1") (replicate 12 6) (replicate-IsBytes 32 5 (omega arith)) refl
      (replicate-IsBytes 12 6 (omega arith)) refl (replicate-IsBytes 32 3 (omega arith)) refl
      (replicate-IsBytes 32 4 (omega arith)) refl refl

abbrev identity : Recovery
identity = record { root = signer; agreement = private }

abbrev enrolled : State
enrolled = record first_state {
  root = signing_public standard signer;
  recovery = agreement_public standard private;
  recovery_box = seal_package standard identity (codes "usr_a") (filled 9) (replicate 12 8);
}

open_recovery-seal_package_example :
    open_recovery standard
      (recovery_token standard (codes "usr_a") enrolled.root (filled 9))
      enrolled
    ≡ ok identity
open_recovery-seal_package_example =
    open_recovery-seal_package standard standard-IsBase64 standard-IsAes identity enrolled
      (filled 9) (replicate 12 8) (replicate-IsBytes 32 7 (omega arith)) refl
      (replicate-IsBytes 32 3 (omega arith)) refl (replicate-IsBytes 32 9 (omega arith)) refl
      (replicate-IsBytes 12 8 (omega arith)) refl refl refl refl

abbrev asked : Request
asked = record {
  account = codes "usr_a";
  root = [];
  name = codes "Laptop";
  sign_key = [];
  box_key = [];
  nonce = [];
  created = 1700000000000;
}

pending_lem_example :
    (pending asked 1700000599999 ≡ true)
    ↔ ((1700000599999 < 1700000600000) × (1700000600000 < 2 ^ 64) × (1700000000000 ≤ 1700000659999))
pending_lem_example = pending_lem asked 1700000599999 (omega arith) (omega arith)

-- A code is twelve characters in three groups.
code_runs : code_from 12 0 (2 ^ 63 + 35) ≡ codes "QAAA-AAAA-AAAC"
unfolding code_from opened_basics
code_runs = refl

same_code : plain (code_from 12 0 (2 ^ 63 + 35)) ≡ plain (code_from 12 0 (2 ^ 63 + 33))
unfolding plain code_from opened_basics
same_code = refl

code-injective_example : (2 ^ 63 + 35) / 16 ≡ (2 ^ 63 + 33) / 16
code-injective_example =
    code-injective (2 ^ 63 + 35) (2 ^ 63 + 33) (omega arith) (omega arith) same_code

-- Forty bytes that start as an envelope does.
abbrev shortest : Bytes
shortest = magic ++ replicate 32 0

validate_lem_example : (validate shortest ≡ ok tt) ↔ IsEnvelope shortest
validate_lem_example = validate_lem shortest
