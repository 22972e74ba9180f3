-- ===== src/Tests/Written.antt =====
-- Payloads as crates/slink-protocol writes them.
use session_link.Common.{some, [], ◌∷◌, ◌++◌, Text, codes, ◌≡◌, refl}
use session_link.Protocol.Errors.{Kind, Error, Refusal}
use session_link.Protocol.Names.{message_of, refusal_as_str-injective}
use session_link.Protocol.Record.{Vault}
use session_link.Protocol.Write.{
  write_char, write_chars, write_text, unicode_escape, name, text, count, json, finish,
}
use session_link.Protocol.Write.Encode.{encode_vault}
use session_link.Protocol.Write.Scan.{scan_literal, scan_literal-write_text}
use session_link.Tests.Opened.{opened_basics}

abbrev tricky : Text
tricky = codes "a\"b\\c\n<" ++ (0x01 ∷ 0x2028 ∷ [])

write_text_runs : write_text tricky ≡ codes "\"a\\\"b\\\\c\\n\\u003c\\u0001\\u2028\""
unfolding write_char write_chars write_text unicode_escape opened_basics
write_text_runs = refl

scan_literal-write_text_example :
    scan_literal (write_text tricky ++ codes ",\"b\":1}") ≡ some (tricky, codes ",\"b\":1}")
scan_literal-write_text_example = scan_literal-write_text tricky (codes ",\"b\":1}")

abbrev small_vault : Vault
small_vault = record {
  account = codes "usr_a";
  revision = 12;
  head = codes "h";
  epoch = 1;
  signer = codes "root";
  sealed = codes "AA";
}

encode_vault_runs :
    encode_vault small_vault
    ≡ codes
        "{\"account\":\"usr_a\",\"revision\":12,\"head\":\"h\",\"epoch\":1,\"signer\":\"root\",\"data\":\"AA\"}"
unfolding write_char write_chars write_text name text count json finish encode_vault opened_basics
encode_vault_runs = refl

message_runs : message_of (Error.signature Kind.vault) ≡ codes "invalid vault signature"
unfolding message_of opened_basics
message_runs = refl

refusal_as_str-injective_example : Refusal.inbox_reuse ≡ Refusal.inbox_reuse
refusal_as_str-injective_example =
    refusal_as_str-injective Refusal.inbox_reuse Refusal.inbox_reuse refl
