-- ===== src/Tests/Changes.antt =====
-- Runs of crates/slink-client/src/identity.rs: the next states that it makes of an account with two
-- devices, and `step` of crates/slink-protocol/src/history.rs on each.
use session_link.Common.{
  ◌⊎◌, inl, inr, ℕ, false, none, some, [], ◌∷◌, Text, codes, replicate, get_or, ◌≡◌, ◌≢◌, refl, ap,
  sym, ◌∙◌, Result, ok, err, arith,
}
use session_link.Protocol.Crypto.{Libs}
use session_link.Protocol.History
use session_link.Protocol.History.{State, find, approve, recover, sharing, revoke, wrap_key}
use session_link.Protocol.History.Step.{step}
use session_link.Protocol.History.Valid.{IsDistinct}
use session_link.Protocol.Signed.{agreement_public}
use session_link.Common.Options.{is_none}
use session_link.Protocol.Request.{id, read_request, from_be_bytes, code_from, plain}
use session_link.Protocol.Request.Check.{verify, read, confirmation, code_matches}
use session_link.Client.Errors.{Error}
use session_link.Client.Vault.{Contents, rotate_inbox}
use session_link.Client.Changes.{
  Fresh, advance, wrap_to, first_request, approvable, approve_next, rewrap, turn_inbox, revoke_next,
  sharing_next, recover_next,
}
use session_link.Client.Changes.Permitted.{approve_next-step, recover_next-step, sharing_next-step}
use session_link.Client.Changes.Permitted.Revoked.{revoke_next-step}
use session_link.Tests.History.{second_state, device_of, event}
use session_link.Tests.Opened.{opened_history}
use session_link.Tests.Records.{raw_request}
use session_link.Tests.Toy.{toy, toy_encode, key_text}

abbrev lib : Libs
lib = record (toy ((6 ∷ [], raw_request) ∷ [])) {
  sha256 = λ bytes. replicate 32 (get_or bytes 0 0);
}

abbrev own : Text
own = (device_of 20 30).id

abbrev fresh : Fresh
fresh = record { ephemeral = replicate 32 81; nonce = replicate 12 82 }

abbrev made_of : Result Error State → State
made_of (ok made) = made
made_of (err e) = second_state

abbrev wanted : Text
wanted = toy_encode (replicate 32 60)

abbrev code : Text
code = codes "AYDA-MBQG-AYDA"

abbrev approved : State
unfolding opened_history id read_request from_be_bytes code_from plain verify read confirmation
    code_matches wrap_key wrap_to first_request approvable approve_next
approved = made_of (
    approve_next lib (record second_state { signer = own }) (event 6 60 ∷ []) wanted code
      (replicate 32 83) fresh)

approves :
    approve_next lib
      (record second_state { signer = own })
      (event 6 60 ∷ [])
      wanted
      code
      (replicate 32 83)
      fresh
    ≡ ok approved
unfolding opened_history approved id read_request from_be_bytes code_from plain verify read
    confirmation code_matches wrap_key wrap_to first_request approvable approve_next
approves = refl

distinct : IsDistinct second_state.devices
unfolding opened_history
distinct = (refl, (refl, tt))

unknown : find second_state.devices wanted ≡ none
unfolding opened_history
unknown = refl

approve_next-step_example :
    step second_state (advance approved approve (toy_encode (2 ∷ []))) ≡ ok tt
approve_next-step_example =
    approve_next-step lib second_state approved own (event 6 60 ∷ []) wanted code (replicate 32 83)
      fresh (toy_encode (2 ∷ [])) distinct unknown approves

-- No request, another code, and another account.
not_approved :
    (approve_next lib second_state [] wanted code (replicate 32 83) fresh
      ≡ err (Error.refused (codes "device code does not match; check the code on your new device")))
    × (approve_next lib second_state (event 6 60 ∷ []) wanted (codes "AYDA") (replicate 32 83) fresh
        ≡ err
            (Error.refused (codes "device code does not match; check the code on your new device")))
unfolding opened_history id read_request from_be_bytes code_from plain verify read confirmation
    code_matches wrap_key wrap_to first_request approvable approve_next
not_approved = (refl, refl)

abbrev new_device : History.Device
new_device = record (device_of 90 30) { wrap = [] }

abbrev recovered : State
unfolding opened_history wrap_key wrap_to recover_next
recovered = made_of (recover_next lib second_state new_device (replicate 32 83) fresh)

recovers : recover_next lib second_state new_device (replicate 32 83) fresh ≡ ok recovered
unfolding opened_history recovered wrap_key wrap_to recover_next
recovers = refl

new_unknown : find second_state.devices new_device.id ≡ none
unfolding opened_history
new_unknown = refl

recover_next-step_example :
    step second_state (advance recovered recover (toy_encode (2 ∷ []))) ≡ ok tt
recover_next-step_example =
    recover_next-step lib second_state recovered new_device (replicate 32 83) fresh
      (toy_encode (2 ∷ [])) distinct new_unknown recovers

abbrev quiet : State
quiet = record second_state { inbox = none }

abbrev contents : Contents
contents = record { version = 1; shares = []; inboxes = []; named = [] }

sharing_next-step_example :
    step quiet (
      advance
        (sharing_next lib contents quiet own (replicate 32 84)).1
        sharing
        (toy_encode (2 ∷ [])))
    ≡ ok tt
sharing_next-step_example =
    sharing_next-step lib contents quiet own (replicate 32 84) (toy_encode (2 ∷ [])) distinct refl

abbrev gone : Text
gone = (device_of 50 31).id

abbrev pair_of : Result Error (Contents × State) → Contents × State
pair_of (ok made) = made
pair_of (err e) = (contents, second_state)

abbrev revoked : Contents × State
unfolding opened_history wrap_key wrap_to rewrap rotate_inbox turn_inbox revoke_next
revoked = pair_of (
    revoke_next lib contents (record second_state { signer = own }) own gone (replicate 32 84)
      (replicate 32 85) (λ id. fresh) fresh)

revokes :
    revoke_next lib contents
      (record second_state { signer = own })
      own
      gone
      (replicate 32 84)
      (replicate 32 85)
      (λ id. fresh)
      fresh
    ≡ ok revoked
unfolding opened_history revoked wrap_key wrap_to rewrap rotate_inbox turn_inbox revoke_next
revokes = refl

here : is_none (find second_state.devices own) ≡ false
unfolding opened_history
here = refl

abbrev first_of : Result Error Text → ℕ
first_of (ok text) = get_or text 0 0
first_of (err e) = 0

-- The wrappers drawn start with the one-time key 81, and those before did not.
drawn :
    (recipient wrapper old : Text)
    → first_of (wrap_to lib (record second_state { epoch = 2 }) recipient (replicate 32 85) fresh)
      ≡ 81
    → get_or old 0 0 ≢ 81
    → wrap_to lib (record second_state { epoch = 2 }) recipient (replicate 32 85) fresh ≡ ok wrapper
    → wrapper ≢ old
drawn recipient wrapper old starts before made e =
    before (ap (λ t. get_or t 0 0) (sym e) ∙ sym (ap first_of made) ∙ starts)

starts_with :
    (k : ℕ)
    → k ≡ 21 ⊎ ((k ≡ 51) ⊎ (k ≡ 8))
    → first_of
        (wrap_to lib (record second_state { epoch = 2 }) (key_text k) (replicate 32 85) fresh)
      ≡ 81
unfolding opened_history wrap_key wrap_to
starts_with k (inl p) = rw p refl
starts_with k (inr (inl p)) = rw p refl
starts_with k (inr (inr p)) = rw p refl

changed : second_state.inbox ≢ some (key_text 84)
changed e = omega (arith, ap (λ o. first_of (elim o [ none ↦ err Error.locked | some t ↦ ok t ])) e)

new_inbox : second_state.inbox ≢ some (agreement_public lib (record { bytes = replicate 32 84 }))
unfolding opened_history
new_inbox = changed

revoke_next-step_example :
    step second_state (advance revoked.1 revoke (toy_encode (2 ∷ []))) ≡ ok tt
revoke_next-step_example =
    revoke_next-step lib contents second_state revoked own gone (replicate 32 84) (replicate 32 85)
      (λ id. fresh) fresh (toy_encode (2 ∷ [])) distinct here
      (
        λ w p. drawn (key_text 21) w _ (starts_with 21 (inl refl)) (λ e. omega (arith, e)) p,
        (
          λ w p.
              drawn (key_text 51) w _ (starts_with 51 (inr (inl refl))) (λ e. omega (arith, e)) p,
          tt,
        ),
      )
      (λ w p. drawn (key_text 8) w _ (starts_with 8 (inr (inr refl))) (λ e. omega (arith, e)) p)
      new_inbox revokes
