-- ===== src/Client/Changes.antt =====
-- crates/slink-client/src/identity.rs: the next state of the account that an action makes. The random
-- bytes are arguments; a wrapper's one-time key and nonce are drawn for the device that it is for.
pub mod Permitted
use session_link.Common.{
  ℕ, ◌+◌, Bool, true, false, not, Option, none, some, List, [], ◌∷◌, ◌++◌, Text, Bytes, codes,
  filter, ◌==◌, text_eq, if◌then◌else◌, Result, ok, err, ok_or, map_err, guard, refuse_if,
  to_option, ◌>>=◌, ◌>>◌,
}
use session_link.Common.Options.{is_some, is_none}
use session_link.Protocol.Crypto.{Libs}
use session_link.Protocol.Signed.{
  Signed, AgreementKey, SigningKey, agreement_public, signing_public,
}
use session_link.Protocol.History.{
  Operation, init, approve, recover, revoke, sharing, Device, State, device, wrap_key,
}
use session_link.Protocol.Request.{Request, id}
use session_link.Protocol.Request.Check.{verify, read, code_matches}
use session_link.Client.Errors.{Error, from}
use session_link.Client.Vault.{Contents, rotate_inbox}

-- The random bytes of a wrapper: its one-time key and its nonce.
pub record Fresh : Type 0 where
  pub ephemeral : Bytes
  pub nonce : Bytes

-- `next.kind = …; next.seq += 1; next.prev = …`
unfoldable pub advance : State → Operation → Text → State
advance next operation head = record next { kind = operation; seq = next.seq + 1; prev = head }

abbrev refused : Text → Error
refused = Error.refused

module _ (lib : Libs) where
  unfoldable pub wrap_to : State → Text → Bytes → Fresh → Result Error Text
  wrap_to state recipient key fresh =
      map_err from
        (wrap_key lib state recipient key (record { bytes = fresh.ephemeral }) fresh.nonce)

  -- `requests.iter().find`: the first request with the id, read but not verified.
  unfoldable pub first_request : List Signed → Text → Option Signed
  first_request [] wanted = none
  first_request (signed ∷ requests) wanted =
      let rest = first_request requests wanted in
      elim (read lib signed) [
        | err e ↦ rest
        | ok request ↦ if id lib request == wanted then some signed else rest
      ]

  -- The request to approve: the first with the id, verified, for this account, with the typed code.
  unfoldable pub approvable : State → List Signed → Text → Text → Option Request
  approvable next requests wanted code = elim (first_request requests wanted) [
    | none ↦ none
    | some signed ↦ elim (to_option (verify lib signed)) [
      | none ↦ none
      | some request ↦
          if request.account == next.account
          then if request.root == next.root
            then if code_matches lib code signed then some request else none
            else none
          else none
    ]
  ]

  abbrev pub listed : Request → Text → Device
  listed request wrapper = record {
    id = id lib request;
    name = request.name;
    sign_key = request.sign_key;
    box_key = request.box_key;
    wrap = wrapper;
  }

  -- `Operation::Approve`
  unfoldable pub approve_next :
      State → List Signed → Text → Text → Bytes → Fresh → Result Error State
  approve_next next requests wanted code key fresh = do
    request ←
        ok_or (refused (codes "device code does not match; check the code on your new device"))
          (approvable next requests wanted code)
    wrapper ← wrap_to next request.box_key key fresh
    ok (record next { devices = next.devices ++ (listed request wrapper ∷ []) })

  -- `next.devices.retain`
  abbrev pub retain : Text → List Device → List Device
  retain gone = filter (λ d. not (d.id == gone))

  -- The wrappers for the devices that stay, put into their places.
  unfoldable pub rewrap : State → Bytes → (Text → Fresh) → List Device → Result Error (List Device)
  rewrap next key fresh [] = ok []
  rewrap next key fresh (d ∷ ds) = do
    wrapper ← wrap_to next d.box_key key (fresh d.id)
    rest ← rewrap next key fresh ds
    ok (record d { wrap = wrapper } ∷ rest)

  -- `if next.inbox.is_some()`: a new incoming-share key.
  unfoldable pub turn_inbox : Contents → State → Bytes → Contents × State
  turn_inbox contents next private =
      if is_some next.inbox then rotate_inbox lib contents next private else (contents, next)

  -- `Operation::Revoke`: the contents and the state after it.
  unfoldable pub revoke_next :
      Contents
      → State
      → Text
      → Text
      → Bytes
      → Bytes
      → (Text → Fresh)
      → Fresh
      → Result Error (Contents × State)
  revoke_next contents next own gone private key fresh recovery_fresh = do
    refuse_if (gone == own) (refused (codes "revoke this device from another approved device"))
    refuse_if (is_none (device next gone)) (refused (codes "device is no longer approved"))
    let turned = turn_inbox contents (record next { epoch = next.epoch + 1 }) private
    let later = record (turned.1) { devices = retain gone next.devices }
    devices ← rewrap later key fresh later.devices
    let listed_again = record later { devices = devices }
    recovery_wrap ← wrap_to listed_again later.recovery key recovery_fresh
    ok (turned.0, record listed_again { recovery_wrap = recovery_wrap })

  -- The state that an action on an approved device makes: `next.signer = own.id` and then what the
  -- action does.
  unfoldable pub sharing_next : Contents → State → Text → Bytes → Contents × State
  sharing_next contents state own private =
      rotate_inbox lib contents (record state { signer = own }) private

  -- `Identity::recover`: the state with this machine's fresh keys, and the root key as the signer.
  unfoldable pub recover_next : State → Device → Bytes → Fresh → Result Error State
  recover_next next added key fresh = do
    wrapper ← wrap_to next added.box_key key fresh
    ok (record next {
      devices = next.devices ++ (record added { wrap = wrapper } ∷ []);
      signer = codes "root";
    })
