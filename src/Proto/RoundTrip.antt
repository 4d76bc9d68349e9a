-- ===== src/Proto/RoundTrip.antt =====
-- Messages come back from values, and values without annotations from messages.
use bass.Prelude.{◌≡◌, refl, ok, arith}
use bass.Value.{Value, null, bool, int, string, empty, pair, file_path, dir_path, command_path}
use bass.Proto.Messages.{
  Message, unset_message, other_message, null_message, bool_message, int_message, string_message,
  array, file_message, dir_message, command_message, Messages, no_messages, and_message, marshal,
  marshal_elements, from_message, from_messages,
}

-- A message of constants, lists and paths: no part of it is unset or of another kind.
abbrev mutual
  pub IsPlain : Message → Type 0
  IsPlain unset_message = ⊥
  IsPlain (other_message k) = ⊥
  IsPlain (array ms) = ArePlain ms
  IsPlain _ = Unit

  pub ArePlain : Messages → Type 0
  ArePlain no_messages = Unit
  ArePlain (and_message m ms) = IsPlain m × ArePlain ms

mutual
  unfolding marshal from_message

  marshal_of_message :
      (m : Message) → IsPlain m → (v : Value) × (from_message m ≡ ok v) × (marshal v ≡ ok m)
  marshal_of_message unset_message p = elim p [ ]
  marshal_of_message (other_message k) p = elim p [ ]
  marshal_of_message null_message p = (null, refl, refl)
  marshal_of_message (bool_message b) p = (bool b, refl, refl)
  marshal_of_message (int_message i) p = (int i, refl, refl)
  marshal_of_message (string_message s) p = (string s, refl, refl)
  marshal_of_message (array no_messages) p = (empty, refl, refl)
  marshal_of_message (array (and_message m ms)) p =
      let (v, e, f) = marshal_of_message m p.0 in
      let (vs, es, fs) = elements_of_messages ms p.1 in
      (pair v vs, ground (arith, e, es), ground (arith, f, fs))
  marshal_of_message (file_message p) q = (file_path p, refl, refl)
  marshal_of_message (dir_message p) q = (dir_path p, refl, refl)
  marshal_of_message (command_message c) p = (command_path c, refl, refl)

  elements_of_messages :
      (ms : Messages)
      → ArePlain ms
      → (vs : Value) × (from_messages ms ≡ ok vs) × (marshal_elements vs ≡ ok ms)
  elements_of_messages no_messages p = (empty, refl, refl)
  elements_of_messages (and_message m ms) p =
      let (v, e, f) = marshal_of_message m p.0 in
      let (vs, es, fs) = elements_of_messages ms p.1 in
      (pair v vs, ground (arith, e, es), ground (arith, f, fs))

-- A message of constants, file, directory and command paths, and lists of such messages, is read without
-- an error, and what it is read as is marshalled to the message.
pub marshal-from_message :
    (m : Message) → IsPlain m → (v : Value) × (from_message m ≡ ok v) × (marshal v ≡ ok m)
marshal-from_message m p = marshal_of_message m p

-- Data: no metadata, no cons cells, no symbols, and every list ends in the empty one.
abbrev mutual
  pub IsData : Value → Type 0
  IsData null = Unit
  IsData (bool b) = Unit
  IsData (int i) = Unit
  IsData (string s) = Unit
  IsData empty = Unit
  IsData (pair a d) = IsData a × IsDataList d
  IsData (file_path p) = Unit
  IsData (dir_path p) = Unit
  IsData (command_path c) = Unit
  IsData _ = ⊥

  pub IsDataList : Value → Type 0
  IsDataList empty = Unit
  IsDataList (pair a d) = IsData a × IsDataList d
  IsDataList _ = ⊥

mutual
  unfolding marshal from_message

  message_of_marshal :
      (v : Value) → IsData v → (m : Message) × (marshal v ≡ ok m) × (from_message m ≡ ok v)
  message_of_marshal null p = (null_message, refl, refl)
  message_of_marshal (bool b) p = (bool_message b, refl, refl)
  message_of_marshal (int i) p = (int_message i, refl, refl)
  message_of_marshal (string s) p = (string_message s, refl, refl)
  message_of_marshal empty p = (array no_messages, refl, refl)
  message_of_marshal (pair a d) p =
      let (m, e, f) = message_of_marshal a p.0 in
      let (ms, es, fs) = messages_of_elements d p.1 in
      (array (and_message m ms), ground (arith, e, es), ground (arith, f, fs))
  message_of_marshal (file_path p) q = (file_message p, refl, refl)
  message_of_marshal (dir_path p) q = (dir_message p, refl, refl)
  message_of_marshal (command_path c) q = (command_message c, refl, refl)
  message_of_marshal _ p = elim p [ ]

  messages_of_elements :
      (v : Value)
      → IsDataList v
      → (ms : Messages) × (marshal_elements v ≡ ok ms) × (from_messages ms ≡ ok v)
  messages_of_elements empty p = (no_messages, refl, refl)
  messages_of_elements (pair a d) p =
      let (m, e, f) = message_of_marshal a p.0 in
      let (ms, es, fs) = messages_of_elements d p.1 in
      (and_message m ms, ground (arith, e, es), ground (arith, f, fs))
  messages_of_elements _ p = elim p [ ]

-- Data (constants, lists that end in the empty one, and file, directory and command paths, with no
-- metadata) is marshalled without an error, to a message that it comes back from as it was.
pub from_message-marshal :
    (v : Value) → IsData v → (m : Message) × (marshal v ≡ ok m) × (from_message m ≡ ok v)
from_message-marshal v p = message_of_marshal v p
