-- ===== src/Protocol/Recovery/Laws.antt =====
-- The recovery key as it is written, and the recovery package's round trip
-- (crates/slink-protocol/src/recovery.rs).
use mathlib.Core.List.{reverse, reverse_aux, reverse-reverse}
use session_link.Common.{
  ℕ, true, false, some, [], ◌∷◌, ◌++◌, Text, Bytes, IsBytes, All, All-append, length, length-append,
  take-append, drop-append, ◌≡◌, refl, ok, arith, Text-discrete, ◌↔◌, ℕ_discrete,
}
use session_link.Protocol.Crypto.{Libs}
use session_link.Protocol.Encoding.{encode, digest}
use session_link.Protocol.Laws.{
  IsBase64, IsAes, IsUrlSafe, NoDot, url_safe-NoDot, decode_exact-encode,
}
use session_link.Protocol.Signed.{signing_public, agreement_public}
use session_link.Protocol.Wrap.Laws.{unseal-seal}
use session_link.Protocol.History.{State}
use session_link.Protocol.Recovery.{
  Recovery, version, context, split_all, three_parts, parts, is_whitespace, trim_start, trim,
  fingerprint, recovery_token, recovery_token_matches, seal_package, open_recovery,
}

split_all-NoDot : (a : Text) → NoDot a → split_all b'.' a ≡ a ∷ []
unfolding split_all
split_all-NoDot [] h = refl
split_all-NoDot (c ∷ a) h = ground (arith, split_all-NoDot a h.1)

split_all-append : (a b : Text) → NoDot a → split_all b'.' (a ++ (b'.' ∷ b)) ≡ a ∷ split_all b'.' b
unfolding split_all
split_all-append [] b h = ground arith
split_all-append (c ∷ a) b h = ground (arith, split_all-append a b h.1)

parts-halves :
    (a b : Text) → NoDot a → NoDot b → parts (version ++ (b'.' ∷ (a ++ (b'.' ∷ b)))) ≡ some (a, b)
unfolding parts three_parts Text-discrete
parts-halves a b ha hb =
    let v : NoDot version = (
      λ e. absurd (ground arith),
      (λ e. absurd (ground arith), (λ e. absurd (ground arith), (λ e. absurd (ground arith), tt))),
    ) in
    rw (split_all-append version (a ++ (b'.' ∷ b)) v, split_all-append a b ha, split_all-NoDot b hb)
      refl

abbrev NoSpace : Text → Type 0
NoSpace = All (λ c. is_whitespace c ≡ false)

trim_start-NoSpace : (t : Text) → NoSpace t → trim_start t ≡ t
unfolding trim_start
trim_start-NoSpace [] h = refl
trim_start-NoSpace (c ∷ t) h = ground (arith, h.0)

url_safe-NoSpace : (t : Text) → IsUrlSafe t → NoSpace t
unfolding is_whitespace ℕ_discrete
url_safe-NoSpace [] h = tt
url_safe-NoSpace (c ∷ t) h = (ground arith, url_safe-NoSpace t h.1)

All-reverse_aux : (P : ℕ → Type 0) (s t : Text) → All P s → All P t → All P (reverse_aux s t)
All-reverse_aux P [] t hs ht = ht
All-reverse_aux P (c ∷ s) t hs ht = All-reverse_aux P s (c ∷ t) hs.1 (hs.0, ht)

trim-NoSpace : (t : Text) → NoSpace t → trim t ≡ t
unfolding trim
trim-NoSpace t h =
    rw
      (
        trim_start-NoSpace t h,
        trim_start-NoSpace (reverse t) (All-reverse_aux (λ c. is_whitespace c ≡ false) t [] h tt),
      )
      (reverse-reverse t)

token-NoSpace :
    (a b : Text) → IsUrlSafe a → IsUrlSafe b → NoSpace (version ++ (b'.' ∷ (a ++ (b'.' ∷ b))))
unfolding is_whitespace ℕ_discrete
token-NoSpace a b ha hb = (
  refl,
  (
    refl,
    (
      refl,
      (
        refl,
        (
          refl,
          All-append (λ c. is_whitespace c ≡ false) a (b'.' ∷ b) (url_safe-NoSpace a ha)
              (refl, url_safe-NoSpace b hb),
        ),
      ),
    ),
  ),
)

module _ (lib : Libs) (b64 : IsBase64 lib) where
  -- The parts of a recovery key.
  parts-recovery_token :
      (account root : Text) (secret : Bytes)
      → parts (recovery_token lib account root secret)
        ≡ some (fingerprint lib account root, encode lib secret)
  unfolding recovery_token fingerprint digest
  parts-recovery_token account root secret =
      parts-halves (fingerprint lib account root) (encode lib secret)
        (url_safe-NoDot (fingerprint lib account root) (b64.alphabet _))
        (url_safe-NoDot (encode lib secret) (b64.alphabet secret))

  trim-recovery_token :
      (account root : Text) (secret : Bytes)
      → trim (recovery_token lib account root secret) ≡ recovery_token lib account root secret
  unfolding recovery_token fingerprint digest
  trim-recovery_token account root secret = trim-NoSpace (recovery_token lib account root secret) (
      token-NoSpace (fingerprint lib account root) (encode lib secret) (b64.alphabet _)
        (b64.alphabet secret))

  -- A recovery key matches an account and a root key exactly when it was made for ones with the same
  -- fingerprint.
  pub recovery_token_matches-recovery_token :
      (account root account' root' : Text) (secret : Bytes)
      → (recovery_token_matches lib (recovery_token lib account root secret) account' root' ≡ true)
        ↔ (fingerprint lib account root ≡ fingerprint lib account' root')
  unfolding recovery_token_matches
  recovery_token_matches-recovery_token account root account' root' secret =
      let p = parts-recovery_token account root secret in (λ h. ground arith, λ h. ground arith)

  -- By the laws of base64 and AES-GCM: the recovery package that was sealed for an account under a
  -- secret of 32 bytes and a nonce of 12 opens with its recovery key, under a state of that account
  -- that holds the package and the two public keys of the identity, to the identity.
  pub open_recovery-seal_package :
      IsAes lib
      → (self : Recovery) (state : State) (secret nonce : Bytes) → IsBytes self.root.seed
      → length self.root.seed ≡ 32
      → IsBytes self.agreement.bytes
      → length self.agreement.bytes ≡ 32
      → IsBytes secret
      → length secret ≡ 32
      → IsBytes nonce
      → length nonce ≡ 12
      → state.root ≡ signing_public lib self.root
      → state.recovery ≡ agreement_public lib self.agreement
      → state.recovery_box ≡ seal_package lib self state.account secret nonce
      → open_recovery lib (recovery_token lib state.account state.root secret) state ≡ ok self
  unfolding open_recovery seal_package
  open_recovery-seal_package aes self state secret nonce sb sl ab al cb cl nb nl root recovery
        boxed =
      let keys = self.root.seed ++ self.agreement.bytes in
      let opens =
        unseal-seal lib b64 aes secret keys (context state.account state.root) nonce
          (All-append _ self.root.seed self.agreement.bytes sb ab) nb nl in
      ground (
        arith,
        trim-recovery_token state.account state.root secret,
        parts-recovery_token state.account state.root secret,
        decode_exact-encode b64 32 secret cb cl,
        opens,
        length-append self.root.seed self.agreement.bytes,
        take-append 32 self.root.seed self.agreement.bytes sl,
        drop-append 32 self.root.seed self.agreement.bytes sl,
      )
