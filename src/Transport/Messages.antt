-- ===== src/Transport/Messages.antt =====
-- What becomes of the messages that are sent.
use testcafe_hammerhead.Common.{
  ℕ, ◌+◌, ◌≡◌, refl, ap, sym, ◌∙◌, true, false, List, [], ◌∷◌, ◌++◌, String, map, total,
  total-append, arith, Bool-cases, inl, inr,
}
use testcafe_hammerhead.Common.Int.{ℤ, eq_ℤ}
use testcafe_hammerhead.Transport.{
  Settlement, resolved, rejected, Transport, new_transport, increment, async_service_msg,
  still_pending, answered, handle_message, handle_error, handle_close, store_message,
  remove_message_from_store, send_all, batch_update, Event, send, store, remove_stored, message,
  error, update, close, step, run,
}

abbrev pub settled_id : Settlement → ℤ
settled_id (resolved id) = id
settled_id (rejected id) = id

-- The weights of the messages that were sent, that wait, and that are settled.
abbrev pub weight_sent : (ℤ → ℕ) → Transport → ℕ
weight_sent w t = total (λ m. w m.id) t.sent

abbrev pub weight_pending : (ℤ → ℕ) → Transport → ℕ
weight_pending w t = total w t.pending

abbrev pub weight_settled : (ℤ → ℕ) → Transport → ℕ
weight_settled w t = total (λ s. w (settled_id s)) t.settled

-- The weights of the messages that wait when the socket is closed cleanly.
abbrev pub dropped_at : (ℤ → ℕ) → Event → Transport → ℕ
dropped_at w (close true) t = weight_pending w t
dropped_at w _ t = 0

unfoldable pub weight_dropped : (ℤ → ℕ) → List Event → Transport → ℕ
unfolding step
weight_dropped w [] t = 0
weight_dropped w (e ∷ es) t = dropped_at w e t + weight_dropped w es (step e t)

record Balanced (w : ℤ → ℕ) (dropped : ℕ) (t : Transport) : Type 0 where
  balance : weight_sent w t ≡ weight_pending w t + weight_settled w t + dropped

total-answered :
    (w : ℤ → ℕ) (id : ℤ) (l : List ℤ)
    → total w (still_pending id l) + total (λ s. w (settled_id s)) (answered id l) ≡ total w l
unfolding still_pending answered
total-answered w id [] = refl
total-answered w id (p ∷ l) = elim (Bool-cases (eq_ℤ p id)) [
  | inl e ↦ rw (e, sym (total-answered w id l)) (omega arith)
  | inr e ↦ rw (e, sym (total-answered w id l)) (omega arith)
]

total-map :
    (w : ℤ → ℕ) (f : ℤ → Settlement) (l : List ℤ)
    → ((p : ℤ) → settled_id (f p) ≡ p)
    → total (λ s. w (settled_id s)) (map f l) ≡ total w l
total-map w f [] h = refl
total-map w f (p ∷ l) h = rw (h p, total-map w f l h) refl

module _ (w : ℤ → ℕ) (k : ℕ) where
  async_service_msg-Balanced :
      (cmd : String) (t : Transport) → Balanced w k t → Balanced w k (async_service_msg cmd t)
  unfolding async_service_msg
  async_service_msg-Balanced cmd t h = record {
    balance = omega (
      arith,
      h.balance,
      total-append (λ m. w m.id) t.sent (record { id = increment t.last_id; cmd = cmd } ∷ []),
      total-append w t.pending (increment t.last_id ∷ []),
    );
  }

  send_all-Balanced :
      (l : List String) (t : Transport) → Balanced w k t → Balanced w k (send_all l t)
  unfolding send_all
  send_all-Balanced [] t h = h
  send_all-Balanced (m ∷ l) t h =
      send_all-Balanced l (async_service_msg m t) (async_service_msg-Balanced m t h)

  settle-Balanced :
      (t : Transport) (kept : List ℤ) (done : List Settlement) (n : ℕ)
      → total w kept + total (λ s. w (settled_id s)) done ≡ total w t.pending
      → Balanced w k t
      → Balanced w k
          (record t { active_service_msg_count = n; pending = kept; settled = t.settled ++ done })
  settle-Balanced t kept done n e h = record {
    balance = omega (arith, h.balance, e, total-append (λ s. w (settled_id s)) t.settled done);
  }

  total-settled :
      (f : ℤ → Settlement) (t : Transport)
      → ((p : ℤ) → settled_id (f p) ≡ p)
      → total w [] + total (λ s. w (settled_id s)) (map f t.pending) ≡ total w t.pending
  total-settled f t h = omega (arith, total-map w f t.pending h)

  undropped : (t : Transport) → Balanced w k t → Balanced w (k + 0) t
  undropped t h = record { balance = omega (arith, h.balance) }

  step-Balanced :
      (e : Event) (t : Transport) → Balanced w k t → Balanced w (k + dropped_at w e t) (step e t)
  unfolding step handle_message handle_error handle_close store_message remove_message_from_store
      batch_update
  step-Balanced (send cmd) t h = undropped _ (async_service_msg-Balanced cmd t h)
  step-Balanced (store cmd) t h = undropped _ (record { balance = h.balance })
  step-Balanced (remove_stored cmd) t h = undropped _ (record { balance = h.balance })
  step-Balanced (message id) t h =
      undropped _ (settle-Balanced t _ _ _ (total-answered w id t.pending) h)
  step-Balanced error t h =
      undropped _
        (settle-Balanced t [] (map rejected t.pending) _ (total-settled rejected t (λ p. refl)) h)
  step-Balanced update t h =
      undropped _ (send_all-Balanced t.stored_messages _ (record { balance = h.balance }))
  step-Balanced (close true) t h = record { balance = omega (arith, h.balance) }
  step-Balanced (close false) t h =
      undropped _
        (settle-Balanced t [] (map rejected t.pending) _ (total-settled rejected t (λ p. refl)) h)

run-Balanced :
    (w : ℤ → ℕ) (k : ℕ) (es : List Event) (t : Transport)
    → Balanced w k t
    → Balanced w (k + weight_dropped w es t) (run es t)
unfolding run weight_dropped
run-Balanced w k [] t h = undropped w k t h
run-Balanced w k (e ∷ es) t h =
    let b = run-Balanced w (k + dropped_at w e t) es (step e t) (step-Balanced w k e t h) in
    record { balance = omega (arith, b.balance) }

-- Whatever the socket does and the page sends: under every weight of identifiers, the messages that
-- were sent weigh as much as those that wait, those whose promise is settled, and those that waited
-- when the socket was closed cleanly, together. So each message waits, is settled or was waiting at
-- a clean close, and only one of these, and none is settled twice.
pub run-settled :
    (w : ℤ → ℕ) (stored : List String) (es : List Event)
    → weight_sent w (run es (new_transport stored))
      ≡ weight_pending w (run es (new_transport stored))
        + weight_settled w (run es (new_transport stored))
        + weight_dropped w es (new_transport stored)
run-settled w stored es =
    let b = run-Balanced w 0 es (new_transport stored) (record { balance = refl }) in
    omega (arith, b.balance)

++_nil : (l : List String) → l ++ [] ≡ l
++_nil [] = refl
++_nil (a ∷ l) = ap (λ m. a ∷ m) (++_nil l)

abbrev pub commands : Transport → List String
commands t = map (λ m. m.cmd) t.sent

map-snoc :
    {A B : Type 0} (f : A → B) (l : List A) (a : A) (rest : List B)
    → map f (l ++ a ∷ []) ++ rest ≡ map f l ++ f a ∷ rest
map-snoc f [] a rest = refl
map-snoc f (b ∷ l) a rest = rw (map-snoc f l a rest) refl

send_all-commands :
    (l : List String) (t : Transport)
    → (commands (send_all l t) ≡ commands t ++ l)
      × ((send_all l t).stored_messages ≡ t.stored_messages)
unfolding send_all async_service_msg
send_all-commands [] t = (sym (++_nil (commands t)), refl)
send_all-commands (m ∷ l) t =
    let (sent, stored) = send_all-commands l (async_service_msg m t) in
    (sent ∙ map-snoc (λ s. s.cmd) t.sent (record { id = increment t.last_id; cmd = m }) l, stored)

-- A batch update sends every stored message once, in the order in which they were stored and
-- behind what was sent before, and leaves nothing in the store.
pub batch_update-commands :
    (t : Transport)
    → (commands (batch_update t) ≡ commands t ++ t.stored_messages)
      × ((batch_update t).stored_messages ≡ [])
unfolding batch_update
batch_update-commands t = send_all-commands t.stored_messages (record t { stored_messages = [] })
