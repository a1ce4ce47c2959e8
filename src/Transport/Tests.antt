-- ===== src/Transport/Tests.antt =====
-- Runs of a transport.
use testcafe_hammerhead.Common.{
  ℕ, ◌≡◌, ◌+◌, ◌≤◌, refl, true, false, List, [], ◌∷◌, ◌++◌, String, length,
}
use testcafe_hammerhead.Common.Int.{ℤ, negsuc, eq_ℤ}
use testcafe_hammerhead.Transport.{
  new_transport, resolved, Event, send, store, message, error, update, close, step, run,
  batch_update,
}
use testcafe_hammerhead.Transport.Messages.{
  weight_sent, weight_pending, weight_settled, weight_dropped, run-settled, commands,
  batch_update-commands,
}
use testcafe_hammerhead.Transport.Counts.{run-active, active_after_close}

abbrev first_id : ℤ
first_id = negsuc 9007199254740989

abbrev stored : List String
stored = "log" ∷ "cookies" ∷ []

abbrev events : List Event
events = send "ready" ∷ update ∷ message first_id ∷ store "again" ∷ []

abbrev weight : ℤ → ℕ
weight id = elim (eq_ℤ id first_id) [ true ↦ 5 | false ↦ 1 ]

answered_first : (run events (new_transport stored)).settled ≡ resolved first_id ∷ []
unfolding run
answered_first = refl

-- After a close nothing waits, and two messages count as active.
counted_after_close :
    (run (close true ∷ []) (run events (new_transport stored))).active_service_msg_count ≡ 2
unfolding run
counted_after_close = refl

-- The three messages that wait at the clean close are never settled.
abbrev closed_events : List Event
closed_events = send "late" ∷ events ++ close true ∷ send "later" ∷ []

run-settled_example :
    weight_sent weight (run closed_events (new_transport stored))
    ≡ weight_pending weight (run closed_events (new_transport stored))
      + weight_settled weight (run closed_events (new_transport stored))
      + weight_dropped weight closed_events (new_transport stored)
run-settled_example = run-settled weight stored closed_events

run-active_example :
    (run events (new_transport stored)).active_service_msg_count
    ≡ length (run events (new_transport stored)).pending
run-active_example = run-active stored events (tt, (tt, (tt, (tt, tt))))

active_after_close_example :
    length (run events (new_transport stored)).pending
    ≤ (run
        (message first_id ∷ error ∷ [])
        (step (close true) (run events (new_transport stored)))).active_service_msg_count
active_after_close_example = active_after_close stored events (message first_id ∷ error ∷ []) true

batch_update-commands_example :
    (commands (batch_update (run (send "ready" ∷ store "again" ∷ []) (new_transport stored)))
      ≡ commands (run (send "ready" ∷ store "again" ∷ []) (new_transport stored))
        ++ (run (send "ready" ∷ store "again" ∷ []) (new_transport stored)).stored_messages)
    × ((batch_update
          (run (send "ready" ∷ store "again" ∷ []) (new_transport stored))).stored_messages
        ≡ [])
batch_update-commands_example =
    batch_update-commands (run (send "ready" ∷ store "again" ∷ []) (new_transport stored))
