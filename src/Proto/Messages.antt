-- ===== src/Proto/Messages.antt =====
-- `MarshalProto` and `FromProto` of pkg/bass/proto.go, for the values that hold no scope, thunk,
-- secret or path into the host; of the messages of the other kinds only the kind is kept.
use bass.Prelude.{Text, Bool, Result, ok, err}
use bass.Prelude.Int.{ℤ}
use bass.Value.{
  Value, null, bool, int, string, empty, pair, cons, annotate, annotated, annotate_binding,
  file_path, dir_path, command_path, DirPath, scope, thunk, thunk_path, readable,
}

-- The kinds of messages of which this model holds only the kind. Those of thunks, and of all that a
-- thunk holds, are in Thunk.
pub data Kind : Type 0 where
  secret_kind object_kind thunk_kind host_path_kind thunk_path_kind : Kind
  logical_path_kind thunk_addr_kind cache_path_kind : Kind

mutual
  -- The `oneof` of a value's message, which may be unset.
  pub data Message : Type 0 where
    unset_message : Message
    other_message : Kind → Message
    null_message : Message
    bool_message : Bool → Message
    int_message : ℤ → Message
    string_message : Text → Message
    array : Messages → Message
    file_message : Text → Message
    dir_message : DirPath → Message
    command_message : Text → Message

  pub data Messages : Type 0 where
    no_messages : Messages
    and_message : Message → Messages → Messages

-- The errors: no `ProtoMarshaler`, a list that ends in no list, a kind of value that the model does
-- not hold the message of, and an error within an element (less its index).
pub data MarshalError : Type 0 where
  not_a_marshaler not_a_list unmodelled : MarshalError
  element : MarshalError → MarshalError

abbrev pub as_array : Result MarshalError Messages → Result MarshalError Message
as_array (err e) = err e
as_array (ok ms) = ok (array ms)

-- `ToSlice` fails before any element is marshalled; of the elements' errors the first one counts.
abbrev pub prepend_message :
    Result MarshalError Message → Result MarshalError Messages → Result MarshalError Messages
prepend_message (ok m) (ok ms) = ok (and_message m ms)
prepend_message (ok m) (err e) = err e
prepend_message (err e) (ok ms) = err (element e)
prepend_message (err e) (err not_a_list) = err not_a_list
prepend_message (err e) (err _) = err (element e)

-- `marshal_elements` is `ToSlice` and the loop over its result.
unfoldable mutual
  pub marshal : Value → Result MarshalError Message
  marshal null = ok null_message
  marshal (bool b) = ok (bool_message b)
  marshal (int i) = ok (int_message i)
  marshal (string s) = ok (string_message s)
  marshal empty = ok (array no_messages)
  marshal (pair a d) = as_array (prepend_message (marshal a) (marshal_elements d))
  marshal (annotated v m) = marshal v
  marshal (file_path p) = ok (file_message p)
  marshal (dir_path p) = ok (dir_message p)
  marshal (command_path c) = ok (command_message c)
  marshal (scope a) = err unmodelled
  marshal (thunk args stdin) = err unmodelled
  marshal (thunk_path t p) = err unmodelled
  marshal (readable f) = err unmodelled
  marshal v = err not_a_marshaler

  pub marshal_elements : Value → Result MarshalError Messages
  marshal_elements empty = ok no_messages
  marshal_elements (pair a d) = prepend_message (marshal a) (marshal_elements d)
  marshal_elements (cons a d) = prepend_message (marshal a) (marshal_elements d)
  marshal_elements (annotate v r c m) = marshal_elements v
  marshal_elements (annotated v m) = marshal_elements v
  marshal_elements (annotate_binding b r m) = marshal_elements b
  marshal_elements v = err not_a_list

-- The errors: an unset message, a kind that the model does not read, and an error within an element
-- (less its index).
pub data MessageError : Type 0 where
  unexpected_type : MessageError
  unread : Kind → MessageError
  within : MessageError → MessageError

abbrev pub put_first :
    Result MessageError Value → Result MessageError Value → Result MessageError Value
put_first (err e) rest = err (within e)
put_first (ok v) (err e) = err e
put_first (ok v) (ok vs) = ok (pair v vs)

unfoldable mutual
  pub from_message : Message → Result MessageError Value
  from_message unset_message = err unexpected_type
  from_message (other_message k) = err (unread k)
  from_message null_message = ok null
  from_message (bool_message b) = ok (bool b)
  from_message (int_message i) = ok (int i)
  from_message (string_message s) = ok (string s)
  from_message (array ms) = from_messages ms
  from_message (file_message p) = ok (file_path p)
  from_message (dir_message p) = ok (dir_path p)
  from_message (command_message c) = ok (command_path c)

  -- The loop over the elements, and `NewList`.
  pub from_messages : Messages → Result MessageError Value
  from_messages no_messages = ok empty
  from_messages (and_message m ms) = put_first (from_message m) (from_messages ms)
