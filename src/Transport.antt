-- ===== src/Transport.antt =====
-- client/transport/transport-in-socket.ts and transport-base.ts, with client/utils/
-- integer-id-generator.ts: the messages that a page sends to the proxy over a WebSocket.
--
-- A message that waits for its answer is a listener of the socket, known by its identifier. An
-- event of the socket goes to all listeners. What becomes of the promises is a list. The socket is
-- taken to accept what is sent: a call of `send` that throws is left out.
pub mod Messages
pub mod Counts
mod Tests
use testcafe_hammerhead.Common.{
  ℕ, suc, ◌-◌, Bool, true, false, List, [], ◌∷◌, ◌++◌, String, str_eq, length, map, if◌then◌else◌,
}
use testcafe_hammerhead.Common.Int.{ℤ, pos, negsuc, ◌+ℤ◌, eq_ℤ}

-- `MAX_SAFE_INTEGER` and `MIN_SAFE_INTEGER`
abbrev pub max_safe_integer : ℤ
max_safe_integer = pos 9007199254740991

abbrev pub min_safe_integer : ℤ
min_safe_integer = negsuc 9007199254740990

-- `increment` of the generator
unfoldable pub increment : ℤ → ℤ
increment id = if eq_ℤ id max_safe_integer then min_safe_integer else id +ℤ pos 1

pub data Settlement : Type 0 where
  resolved rejected : ℤ → Settlement

pub record ServiceMessage : Type 0 where
  pub id : ℤ
  pub cmd : String

-- The queue is what the native storage keeps under the session's identifier.
pub record Transport : Type 0 where
  pub last_id : ℤ
  pub active_service_msg_count : ℕ
  pub pending : List ℤ
  pub sent : List ServiceMessage
  pub settled : List Settlement
  pub stored_messages : List String

abbrev pub new_transport : List String → Transport
new_transport stored = record {
  last_id = min_safe_integer;
  active_service_msg_count = 0;
  pending = [];
  sent = [];
  settled = [];
  stored_messages = stored;
}

-- `asyncServiceMsg`, and `queuedAsyncServiceMsg`, which is the same
unfoldable pub async_service_msg : String → Transport → Transport
unfolding increment
async_service_msg cmd t = record t {
  last_id = increment t.last_id;
  active_service_msg_count = suc t.active_service_msg_count;
  pending = t.pending ++ increment t.last_id ∷ [];
  sent = t.sent ++ record { id = increment t.last_id; cmd = cmd } ∷ [];
}

-- The listeners that stay, and what happens to the others, when a message with an identifier comes.
unfoldable pub still_pending : ℤ → List ℤ → List ℤ
still_pending id [] = []
still_pending id (p ∷ ps) = let rest = still_pending id ps in if eq_ℤ p id then rest else p ∷ rest

unfoldable pub answered : ℤ → List ℤ → List Settlement
answered id [] = []
answered id (p ∷ ps) = let rest = answered id ps in if eq_ℤ p id then resolved p ∷ rest else rest

-- `handleMessage` of all listeners
unfoldable pub handle_message : ℤ → Transport → Transport
unfolding still_pending answered
handle_message id t = record t {
  active_service_msg_count = t.active_service_msg_count - length (answered id t.pending);
  pending = still_pending id t.pending;
  settled = t.settled ++ answered id t.pending;
}

-- `handleError` of all listeners
unfoldable pub handle_error : Transport → Transport
handle_error t = record t {
  active_service_msg_count = t.active_service_msg_count - length t.pending;
  pending = [];
  settled = t.settled ++ map rejected t.pending;
}

-- `handleClose` of all listeners; a clean close takes them away and settles nothing.
unfoldable pub handle_close : Bool → Transport → Transport
handle_close was_clean t = record t {
  pending = [];
  settled = if was_clean then t.settled else t.settled ++ map rejected t.pending;
}

-- `_storeMessage`
unfoldable pub store_message : String → Transport → Transport
store_message cmd t = record t { stored_messages = t.stored_messages ++ cmd ∷ [] }

-- The loop of `_removeMessageFromStore`.
unfoldable pub remove_first_cmd : String → List String → List String
remove_first_cmd cmd [] = []
remove_first_cmd cmd (m ∷ ms) =
    let rest = remove_first_cmd cmd ms in if str_eq m cmd then ms else m ∷ rest

unfoldable pub remove_message_from_store : String → Transport → Transport
unfolding remove_first_cmd
remove_message_from_store cmd t = record t {
  stored_messages = remove_first_cmd cmd t.stored_messages;
}

unfoldable pub send_all : List String → Transport → Transport
unfolding async_service_msg
send_all [] t = t
send_all (m ∷ ms) t = send_all ms (async_service_msg m t)

unfoldable pub batch_update : Transport → Transport
unfolding send_all
batch_update t = send_all t.stored_messages (record t { stored_messages = [] })

pub data Event : Type 0 where
  send store remove_stored : String → Event
  message : ℤ → Event
  error update : Event
  close : (was_clean : Bool) → Event

unfoldable pub step : Event → Transport → Transport
unfolding async_service_msg handle_message handle_error handle_close store_message
    remove_message_from_store batch_update
step (send cmd) t = async_service_msg cmd t
step (store cmd) t = store_message cmd t
step (remove_stored cmd) t = remove_message_from_store cmd t
step (message id) t = handle_message id t
step error t = handle_error t
step update t = batch_update t
step (close was_clean) t = handle_close was_clean t

unfoldable pub run : List Event → Transport → Transport
unfolding step
run [] t = t
run (e ∷ es) t = run es (step e t)
