-- ===== src/Proto/Examples.antt =====
-- A list and a path with a glob, there and back.
use bass.Prelude.{Bool, codes, ◌≡◌, ◌↔◌, [], ◌∷◌, ok}
use bass.Value.{Value, null, bool, pair, empty}
use bass.Proto.Messages.{
  Message, array, null_message, bool_message, and_message, no_messages, marshal, from_message,
}
use bass.Proto.RoundTrip.{marshal-from_message, from_message-marshal}
use bass.Proto.HostPaths.{
  dir, HostPath, HasNoGlobs, marshal_host, from_host, from_host-marshal_host,
}

abbrev two_messages : Message
two_messages = array (and_message null_message (and_message (bool_message Bool.true) no_messages))

abbrev two_values : Value
two_values = pair null (pair (bool Bool.true) empty)

marshal-from_message_example :
    (v : Value) × (from_message two_messages ≡ ok v) × (marshal v ≡ ok two_messages)
marshal-from_message_example = marshal-from_message two_messages (tt, (tt, tt))

from_message-marshal_example :
    (m : Message) × (marshal two_values ≡ ok m) × (from_message m ≡ ok two_values)
from_message-marshal_example = from_message-marshal two_values (tt, (tt, tt))

abbrev globbed : HostPath
globbed = record {
  context_dir = codes "/src";
  path = dir (record { path = codes "."; include = codes "*.go" ∷ []; exclude = [] });
}

from_host-marshal_host_example :
    (from_host (marshal_host globbed) ≡ globbed) ↔ HasNoGlobs globbed.path
from_host-marshal_host_example = from_host-marshal_host globbed
