-- ===== src/Protocol/Write.antt =====
-- crates/slink-protocol/src/payload.rs: `Object` and `write_text`, which write a payload as Go's
-- `encoding/json` does.
pub mod Encode
pub mod Scan
use session_link.Common.{
  ℕ, ◌+◌, ◌*◌, ◌/◌, ◌%◌, ◌||◌, [], ◌∷◌, ◌++◌, List, Text, codes, length, byte_len, ltb, ◌==◌,
  nat_eq, if◌then◌else◌, ◌-◌,
}
use session_link.Protocol.Decimal.{print}

abbrev pub hex_digit : ℕ → ℕ
hex_digit d = if ltb d 10 then b'0' + d else b'a' + (d - 10)

-- `\u{:04x}` of a character below 2^16
unfoldable pub unicode_escape : ℕ → Text
unicode_escape c =
    b'\\'
    ∷ b'u'
    ∷ hex_digit (c / 4096 % 16)
    ∷ hex_digit (c / 256 % 16)
    ∷ hex_digit (c / 16 % 16)
    ∷ hex_digit (c % 16)
    ∷ []

-- The `match` on a character.
unfoldable pub write_char : ℕ → Text
unfolding unicode_escape
write_char c =
    if c == 0x22
    then b'\\' ∷ 0x22 ∷ []
    else if c == 0x5c
    then b'\\' ∷ 0x5c ∷ []
    else if c == 0x08
    then b'\\' ∷ b'b' ∷ []
    else if c == 0x0c
    then b'\\' ∷ b'f' ∷ []
    else if c == 0x0a
    then b'\\' ∷ b'n' ∷ []
    else if c == 0x0d
    then b'\\' ∷ b'r' ∷ []
    else if c == 0x09
    then b'\\' ∷ b't' ∷ []
    else if c == b'<' || c == b'>' || c == b'&' || c == 0x2028 || c == 0x2029 || ltb c 0x20
    then unicode_escape c
    else c ∷ []

-- The loop over the characters.
unfoldable pub write_chars : Text → Text
write_chars [] = []
write_chars (c ∷ text) = write_char c ++ write_chars text

-- What `write_text` appends.
unfoldable pub write_text : Text → Text
write_text text = 0x22 ∷ (write_chars text ++ (0x22 ∷ []))

-- An object that is being written, by its text.
abbrev pub Object : Type 0
Object = Text

-- `Object::new`
abbrev pub new : Object
new = b'{' ∷ []

-- `Object::name`
unfoldable pub name : Object → Text → Object
name self key =
    (if ltb 1 (byte_len self) then self ++ (b',' ∷ []) else self) ++ (write_text key ++ (b':' ∷ []))

unfoldable pub text : Text → Text → Object → Object
text key value self = name self key ++ write_text value

unfoldable pub count : Text → ℕ → Object → Object
count key value self = name self key ++ print value

unfoldable pub json : Text → Text → Object → Object
json key value self = name self key ++ value

unfoldable pub finish : Object → Text
finish self = self ++ (b'}' ∷ [])

-- `items.join(",")`
unfoldable pub join : List Text → Text
join [] = []
join (item ∷ []) = item
join (item ∷ other ∷ items) = item ++ (b',' ∷ join (other ∷ items))

unfoldable pub list : List Text → Text
list items = b'[' ∷ (join items ++ (b']' ∷ []))
