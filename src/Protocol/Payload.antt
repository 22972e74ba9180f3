-- ===== src/Protocol/Payload.antt =====
-- crates/slink-protocol/src/payload.rs, reading: a payload is JSON in which no object holds a key
-- twice, and a field is taken by its exact name and in its exact type.
use session_link.Common.{
  ℕ, ◌-◌, ◌+◌, ◌^◌, Bool, true, false, not, ◌&&◌, ◌||◌, Option, none, some, List, [], ◌∷◌, map,
  Text, Bytes, ltb, leb, ◌==◌, nat_eq, text_eq, if◌then◌else◌, contains, any,
}
use session_link.Common.Options.{◌>>=◌, ◌>>◌, check, is_some}
use session_link.Protocol.Json.{Number, Raw, RawItems, RawFields, Value, Items, Fields}
use session_link.Protocol.Crypto.{Libs}

-- `2^53 - 1`
abbrev pub max_safe_integer : ℕ
max_safe_integer = 2 ^ 53 - 1

-- The order of a map's keys: by their characters, which is the order of their UTF-8 bytes.
unfoldable pub text_lt : Text → Text → Bool
text_lt [] [] = false
text_lt [] (d ∷ t) = true
text_lt (c ∷ s) [] = false
text_lt (c ∷ s) (d ∷ t) = ltb c d || (c == d && text_lt s t)

-- `Map::get`
unfoldable pub get : Text → Fields → Option Value
get name Fields.end = none
get name (Fields.field key value rest) = if key == name then some value else get name rest

-- `Map::insert` of a key that the map does not hold.
unfoldable pub insert : Text → Value → Fields → Fields
unfolding text_lt
insert key value Fields.end = Fields.field key value Fields.end
insert key value (Fields.field k v rest) =
    if text_lt key k
    then Fields.field key value (Fields.field k v rest)
    else Fields.field k v (insert key value rest)

-- One round of the loop of `visit_map`: a key given twice is refused.
unfoldable pub insert_once : Text → Value → Fields → Option Fields
unfolding insert get
insert_once key value object = do
  check (not (is_some (get key object)))
  some (insert key value object)

-- `OnceVisitor`: the value of what the reader hands over, unless an object in it repeats a key. The
-- map is made entry by entry, so the entries so far are an argument.
unfoldable mutual
  unfolding insert_once

  pub once : Raw → Option Value
  once Raw.null = some Value.null
  once (Raw.bool b) = some (Value.bool b)
  once (Raw.number n) = some (Value.number n)
  once (Raw.string s) = some (Value.string s)
  once (Raw.array items) = do list ← visit_seq items; some (Value.array list)
  once (Raw.object entries) = do object ← visit_map entries Fields.end; some (Value.object object)

  pub visit_seq : RawItems → Option Items
  visit_seq RawItems.nil = some Items.nil
  visit_seq (RawItems.cons item items) = do
    first ← once item
    list ← visit_seq items
    some (Items.cons first list)

  pub visit_map : RawFields → Fields → Option Fields
  visit_map RawFields.end object = some object
  visit_map (RawFields.field key item entries) object = do
    value ← once item
    more ← insert_once key value object
    visit_map entries more

-- The payload as JSON, unless an object in it holds a key twice.
unfoldable pub parse : Libs → Bytes → Option Value
parse lib raw = do tree ← lib.from_slice raw; once tree

-- How Go's `encoding/json` folds a key's character before matching it to a field.
unfoldable pub fold : ℕ → ℕ
fold character =
    if character == 0x17f
    then b's'
    else if character == 0x212a
    then b'k'
    else if leb b'A' character && leb character b'Z'
    then character + 32
    else character

-- Whether `key` is one of `names` written in another case.
unfoldable pub misspelt : Text → List Text → Bool
unfolding fold
misspelt key names = not (contains key names) && any (λ name. map fold key == name) names

unfoldable pub any_misspelt : Fields → List Text → Bool
unfolding misspelt
any_misspelt Fields.end names = false
any_misspelt (Fields.field key value rest) names = misspelt key names || any_misspelt rest names

-- `Fields::of`: the fields of a JSON object, unless one of its keys is misspelt.
unfoldable pub fields_of : Value → List Text → Option Fields
unfolding any_misspelt
fields_of (Value.object map) names = if any_misspelt map names then none else some map
fields_of _ names = none

abbrev pub as_str : Value → Option Text
as_str (Value.string text) = some text
as_str _ = none

abbrev pub as_u64 : Value → Option ℕ
as_u64 (Value.number (Number.unsigned n)) = some n
as_u64 _ = none

abbrev pub as_array : Value → Option Items
as_array (Value.array items) = some items
as_array _ = none

module _ (self : Fields) where
  unfoldable pub string : Text → Option Text
  unfolding get
  string name = do value ← get name self; as_str value

  -- A string that may be left out or null. Empty counts as left out.
  unfoldable pub optional_string : Text → Option (Option Text)
  unfolding get
  optional_string name = elim (get name self) [
    | none ↦ some none
    | some Value.null ↦ some none
    | some (Value.string []) ↦ some none
    | some (Value.string (c ∷ text)) ↦ some (some (c ∷ text))
    | some _ ↦ none
  ]

  -- A count written as a whole number.
  unfoldable pub integer : Text → Option ℕ
  unfolding get
  integer name = do
    value ← get name self
    number ← as_u64 value
    check (leb number max_safe_integer)
    some number

  unfoldable pub array : Text → Option Items
  unfolding get
  array name = do value ← get name self; as_array value
