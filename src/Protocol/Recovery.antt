-- ===== src/Protocol/Recovery.antt =====
-- crates/slink-protocol/src/recovery.rs: the recovery identity, its package and the recovery key.
pub mod Laws
use mathlib.Core.List.{reverse}
use session_link.Common.{
  ℕ, ◌+◌, Bool, true, false, not, ◌&&◌, ◌||◌, Option, none, some, List, [], ◌∷◌, ◌++◌, Text, Bytes,
  codes, as_bytes, take, drop, length, leb, ◌==◌, nat_eq, text_eq, if◌then◌else◌, Result, ok, err,
  ok_or, map_err, guard, refuse_if, ◌>>=◌, ◌>>◌,
}
use session_link.Protocol.Errors.{Error}
use session_link.Protocol.Crypto.{Libs}
use session_link.Protocol.Encoding.{encode, decode_exact, digest}
use session_link.Protocol.Signed.{SigningKey, AgreementKey, signing_public, agreement_public}
use session_link.Protocol.Wrap.{seal, unseal}
use session_link.Protocol.History.{State}

abbrev pub version : Text
version = codes "slr1"

-- The two private keys of a recovery identity.
pub record Recovery : Type 0 where
  pub root : SigningKey
  pub agreement : AgreementKey

unfoldable pub context : Text → Text → Text
context account root = codes "slink/recovery/v1/" ++ (account ++ (b'/' ∷ root))

-- `split(separator)`: the parts between the separators, at least one.
unfoldable pub split_all : ℕ → Text → List Text
split_all separator [] = [] ∷ []
split_all separator (c ∷ rest) =
    let parts = split_all separator rest in
    if c == separator then [] ∷ parts else elim parts [ [] ↦ (c ∷ []) ∷ [] | p ∷ ps ↦ (c ∷ p) ∷ ps ]

-- The `match` on the parts: three, of which the first is the version.
unfoldable pub three_parts : List Text → Option (Text × Text)
three_parts (v ∷ fingerprint ∷ secret ∷ []) =
    if v == version then some (fingerprint, secret) else none
three_parts _ = none

-- The fingerprint and the secret of a recovery key, if it is written as one.
unfoldable pub parts : Text → Option (Text × Text)
unfolding split_all three_parts
parts token = three_parts (split_all b'.' token)

-- `char::is_whitespace`
unfoldable pub is_whitespace : ℕ → Bool
is_whitespace c =
    (leb 9 c && leb c 13)
    || c == 32
    || c == 0x85
    || c == 0xa0
    || c == 0x1680
    || (leb 0x2000 c && leb c 0x200a)
    || c == 0x2028
    || c == 0x2029
    || c == 0x202f
    || c == 0x205f
    || c == 0x3000

unfoldable pub trim_start : Text → Text
trim_start [] = []
trim_start (c ∷ text) = elim (is_whitespace c) [ true ↦ trim_start text | false ↦ c ∷ text ]

-- `trim`
unfoldable pub trim : Text → Text
unfolding trim_start
trim text = reverse (trim_start (reverse (trim_start text)))

module _ (lib : Libs) where
  unfoldable pub fingerprint : Text → Text → Text
  fingerprint account root = digest lib (as_bytes (account ++ (0 ∷ root)))

  -- The recovery key a person is shown for `secret`.
  unfoldable pub recovery_token : Text → Text → Bytes → Text
  recovery_token account root secret =
      version ++ (b'.' ∷ (fingerprint account root ++ (b'.' ∷ encode lib secret)))

  -- Whether a recovery key was made for this account and root key.
  unfoldable pub recovery_token_matches : Text → Text → Text → Bool
  recovery_token_matches token account root = elim (parts token) [
    | none ↦ false
    | some (found, secret) ↦ found == fingerprint account root
  ]

  -- `Recovery::seal`: the recovery package for `account`.
  unfoldable pub seal_package : Recovery → Text → Bytes → Bytes → Text
  seal_package self account secret nonce =
      seal lib secret (self.root.seed ++ self.agreement.bytes)
        (context account (signing_public lib self.root)) nonce

  -- The keys that come out are the ones the history names, or nothing comes out.
  unfoldable pub open_recovery : Text → State → Result Error Recovery
  open_recovery token state = do
    found ← ok_or Error.recovery_token (parts (trim token))
    guard (found.0 == fingerprint state.account state.root) Error.recovery_token
    secret ← decode_exact lib 32 found.1
    keys ←
        map_err (λ _. Error.recovery_key)
          (unseal lib secret state.recovery_box (context state.account state.root))
    guard (length keys == 64) Error.recovery_key
    let root : SigningKey = record { seed = take 32 keys }
    let agreement : AgreementKey = record { bytes = drop 32 keys }
    refuse_if
        (not (signing_public lib root == state.root)
          || not (agreement_public lib agreement == state.recovery))
        Error.recovery_identity
    ok (record { root = root; agreement = agreement })
