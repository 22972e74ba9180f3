-- ===== src/Tests/Opened.antt =====
-- The definitions that the tests compute with, named once.
use session_link.Common.{ℕ_discrete, Text-discrete, Option-discrete, byte_len, as_bytes, utf8_char}
use session_link.Protocol.Errors.{payload_limit, kind_as_str}
use session_link.Protocol.Crypto.{small_order, x25519}
use session_link.Protocol.Encoding.{decode_exact, digest}
use session_link.Protocol.Signed.{
  device_id, message, read, hash, sign, verify, verify_bytes, signing_public, agreement_public,
}
use session_link.Protocol.Payload.{
  parse, once, insert_once, insert, text_lt, get, fields_of, any_misspelt, misspelt, fold, array,
  string, integer, optional_string,
}
use session_link.Protocol.Wrap.{split, split_once, seal, unseal, wrap, unwrap, info}
use session_link.Protocol.Decimal.{print}
use session_link.Protocol.History.{operation_as_str, Operation-discrete, find, context}
use session_link.Protocol.History.Read.{
  read_device, read_devices, read_kind, state_of, read_state, check_key, check_wrapper,
  check_device, check_devices, check_inbox, check_keys,
}
use session_link.Protocol.History.Step.{
  device_changed, count_added, count_removed, rotated, kept, rule, step,
}
use session_link.Protocol.History.Walk.{
  signature_refusal, introduce, signed_by, signer_key, follow, walk_event, walk_events, walk,
  verify_history,
}

unfoldable pub opened_basics : Unit {0}
unfolding ℕ_discrete Text-discrete Option-discrete byte_len as_bytes utf8_char payload_limit
    kind_as_str small_order x25519 decode_exact digest device_id message read hash sign verify
    verify_bytes signing_public agreement_public parse once insert_once insert text_lt get fields_of
    any_misspelt misspelt fold array string integer optional_string split split_once seal unseal
    wrap unwrap info print
opened_basics = tt

unfoldable pub opened_history : Unit {0}
unfolding opened_basics operation_as_str Operation-discrete find context read_device read_devices
    read_kind state_of read_state check_key check_wrapper check_device check_devices check_inbox
    check_keys device_changed count_added count_removed rotated kept rule step signature_refusal
    introduce signed_by signer_key follow walk_event walk_events walk verify_history
opened_history = tt
