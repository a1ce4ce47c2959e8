-- ===== src/Transport/Counts.antt =====
-- The number of active messages.
use testcafe_hammerhead.Common.{
  ℕ, ◌+◌, ◌≤◌, ◌≡◌, refl, sym, Bool, List, [], ◌∷◌, String, length, length-append, arith, All,
  Bool-cases, inl, inr,
}
use testcafe_hammerhead.Common.Int.{ℤ, eq_ℤ}
use testcafe_hammerhead.Transport.{
  Transport, new_transport, increment, async_service_msg, still_pending, answered, handle_message,
  handle_error, handle_close, store_message, remove_message_from_store, send_all, batch_update,
  Event, send, store, remove_stored, message, error, update, close, step, run,
}

length-answered :
    (id : ℤ) (l : List ℤ) → length (still_pending id l) + length (answered id l) ≡ length l
unfolding still_pending answered
length-answered id [] = refl
length-answered id (p ∷ l) = elim (Bool-cases (eq_ℤ p id)) [
  | inl e ↦ rw (e, sym (length-answered id l)) (omega arith)
  | inr e ↦ rw (e, sym (length-answered id l)) (omega arith)
]

-- At least so many active messages beside those that wait, and exactly so many.
record Spare (k : ℕ) (t : Transport) : Type 0 where
  spare : k + length t.pending ≤ t.active_service_msg_count

record Exact (t : Transport) : Type 0 where
  exact : t.active_service_msg_count ≡ length t.pending

module _ (k : ℕ) where
  async_service_msg-Spare :
      (cmd : String) (t : Transport) → Spare k t → Spare k (async_service_msg cmd t)
  unfolding async_service_msg
  async_service_msg-Spare cmd t h = record {
    spare = omega (arith, h.spare, length-append t.pending (increment t.last_id ∷ []));
  }

  send_all-Spare : (l : List String) (t : Transport) → Spare k t → Spare k (send_all l t)
  unfolding send_all
  send_all-Spare [] t h = h
  send_all-Spare (m ∷ l) t h =
      send_all-Spare l (async_service_msg m t) (async_service_msg-Spare m t h)

  step-Spare : (e : Event) (t : Transport) → Spare k t → Spare k (step e t)
  unfolding step handle_message handle_error handle_close store_message remove_message_from_store
      batch_update
  step-Spare (send cmd) t h = async_service_msg-Spare cmd t h
  step-Spare (store cmd) t h = record { spare = h.spare }
  step-Spare (remove_stored cmd) t h = record { spare = h.spare }
  step-Spare (message id) t h = record {
    spare = omega (arith, h.spare, length-answered id t.pending);
  }
  step-Spare error t h = record { spare = omega (arith, h.spare) }
  step-Spare update t h = send_all-Spare t.stored_messages _ (record { spare = h.spare })
  step-Spare (close was_clean) t h = record { spare = omega (arith, h.spare) }

  run-Spare : (es : List Event) (t : Transport) → Spare k t → Spare k (run es t)
  unfolding run
  run-Spare [] t h = h
  run-Spare (e ∷ es) t h = run-Spare es (step e t) (step-Spare e t h)

async_service_msg-Exact : (cmd : String) (t : Transport) → Exact t → Exact (async_service_msg cmd t)
unfolding async_service_msg
async_service_msg-Exact cmd t h = record {
  exact = omega (arith, h.exact, length-append t.pending (increment t.last_id ∷ []));
}

send_all-Exact : (l : List String) (t : Transport) → Exact t → Exact (send_all l t)
unfolding send_all
send_all-Exact [] t h = h
send_all-Exact (m ∷ l) t h =
    send_all-Exact l (async_service_msg m t) (async_service_msg-Exact m t h)

-- An event that leaves the socket open.
abbrev pub IsOpen : Event → Type 0
IsOpen (close was_clean) = ⊥
IsOpen _ = Unit

step-Exact : (e : Event) (t : Transport) → IsOpen e → Exact t → Exact (step e t)
unfolding step handle_message handle_error store_message remove_message_from_store batch_update
step-Exact (send cmd) t o h = async_service_msg-Exact cmd t h
step-Exact (store cmd) t o h = record { exact = h.exact }
step-Exact (remove_stored cmd) t o h = record { exact = h.exact }
step-Exact (message id) t o h = record {
  exact = omega (arith, h.exact, length-answered id t.pending);
}
step-Exact error t o h = record { exact = omega (arith, h.exact) }
step-Exact update t o h = send_all-Exact t.stored_messages _ (record { exact = h.exact })
step-Exact (close was_clean) t o h = absurd o

run-Exact : (es : List Event) (t : Transport) → All IsOpen es → Exact t → Exact (run es t)
unfolding run
run-Exact [] t o h = h
run-Exact (e ∷ es) t o h = run-Exact es (step e t) o.1 (step-Exact e t o.0 h)

-- As long as the socket is not closed, the number of active messages is the number of those that
-- wait for an answer.
pub run-active :
    (stored : List String) (es : List Event)
    → All IsOpen es
    → (run es (new_transport stored)).active_service_msg_count
      ≡ length (run es (new_transport stored)).pending
run-active stored es o = (run-Exact es (new_transport stored) o (record { exact = refl })).exact

-- Once the socket is closed, clean or not, the messages that waited count as active for ever:
-- whatever happens before and after, the number does not fall below theirs.
pub active_after_close :
    (stored : List String) (es later : List Event) (was_clean : Bool)
    → length (run es (new_transport stored)).pending
      ≤ (run later
          (step (close was_clean) (run es (new_transport stored)))).active_service_msg_count
unfolding step handle_close
active_after_close stored es later was_clean =
    let t = run es (new_transport stored) in
    let h = run-Spare 0 es (new_transport stored) (record { spare = omega arith }) in
    let g =
      run-Spare (length t.pending) later (step (close was_clean) t)
        (record { spare = omega (arith, h.spare) }) in
    omega (arith, g.spare)
