-- ===== src/Listening/Events.antt =====
-- The entries of an element: which there are after `addListeningElement`, and what the loops over
-- several events do to each of them.
use mathlib.Core.Option
use testcafe_hammerhead.Common.{
  ℕ, String, ◌≡◌, ◌∙◌, refl, sym, ap, Bool, true, false, Option, none, some, List, [], ◌∷◌, ◌++◌,
  arith, ◌==◌, str_eq, eq_iff, any_of, if◌then◌else◌, Bool-cases, Option-cases, inl, inr, All,
}
use testcafe_hammerhead.Common.Assoc.{lookup, lookup-insert}
use testcafe_hammerhead.Listening.{
  EventCtx, Element, get_event_ctx, new_event_ctx, add_entry, add_entries, add_listening_element,
  put_event_ctx, update_event, for_events, push_before, drop_before, remove_first,
  add_internal_before_handler, remove_internal_before_handler,
}

abbrev pub is_listed : String → List String → Bool
is_listed event events = any_of (λ e. str_eq e event) events

-- The entry that `addListeningElement` leaves: an old one stays, a listed event without one gets
-- a new one.
abbrev pub or_new : Bool → Option EventCtx → Option EventCtx
or_new true none = some new_event_ctx
or_new listed entry = entry

lookup-add_entry :
    (ctx : List (String × EventCtx)) (event k : String)
    → lookup k (add_entry ctx event) ≡ or_new (str_eq event k) (lookup k ctx)
lookup-add_entry ctx event k = elim (Option-cases (lookup event ctx)) [
  | inl e ↦
      rw (e, add_entry)
        (rw lookup-insert (elim (Bool-cases (str_eq event k)) [
          | inl same ↦ rw (same, ← (eq_iff event k).0 same, e)
          | inr other ↦ rw other
        ]))
  | inr (c, e) ↦
      rw (e, add_entry)
        (elim (Bool-cases (str_eq event k)) [
          | inl same ↦ rw (same, ← (eq_iff event k).0 same, e)
          | inr other ↦ rw other
        ])
]

lookup-add_entries :
    (ctx : List (String × EventCtx)) (events : List String) (k : String)
    → lookup k (add_entries ctx events) ≡ or_new (is_listed k events) (lookup k ctx)
unfolding add_entries
lookup-add_entries ctx [] k = ground arith
lookup-add_entries ctx (event ∷ events) k =
    ground (arith, lookup-add_entries (add_entry ctx event) events k, lookup-add_entry ctx event k)

entries : Element → List (String × EventCtx)
entries el = Option.get_or el.storage_prop []

get_event_ctx-entries : (el : Element) (k : String) → get_event_ctx el k ≡ lookup k (entries el)
unfolding get_event_ctx entries lookup
get_event_ctx-entries el k = ground arith

-- After `addListeningElement` every listed event has an entry; entries that were there, listed or
-- not, stay as they were, and no other entry appears.
get_event_ctx-add_listening_element :
    (el : Element) (events : List String) (k : String)
    → get_event_ctx (add_listening_element el events) k
      ≡ or_new (is_listed k events) (get_event_ctx el k)
unfolding add_listening_element entries
get_event_ctx-add_listening_element el events k =
    get_event_ctx-entries (add_listening_element el events) k
    ∙ lookup-add_entries (entries el) events k
    ∙ ap (or_new (is_listed k events)) (sym (get_event_ctx-entries el k))

get_event_ctx-update_event :
    (f : EventCtx → EventCtx) (el : Element) (event : String) {c : EventCtx}
    → get_event_ctx el event ≡ some c
    → (next : Element) × (update_event f el event ≡ some next)
      × ((k : String)
          → get_event_ctx next k ≡ (if str_eq event k then some (f c) else get_event_ctx el k))
unfolding update_event entries
get_event_ctx-update_event f el event {c} e =
    let next = put_event_ctx el event (f c) in
    (
      next,
      ground (arith, e),
      λ k.
          get_event_ctx-entries next k
          ∙ lookup-insert event k (f c) (entries el)
          ∙ ap (λ o. if str_eq event k then some (f c) else o) (sym (get_event_ctx-entries el k)),
    )

abbrev pub Distinct : List String → Type 0
Distinct [] = Unit
Distinct (e ∷ es) = (is_listed e es ≡ false) × Distinct es

-- Every event has an entry with the property.
abbrev pub Entries : (EventCtx → Type 0) → Element → List String → Type 0
Entries P el events = All (λ e. (c : EventCtx) × (get_event_ctx el e ≡ some c) × P c) events

Entries-same :
    (P : EventCtx → Type 0) (el next : Element) (event : String) (o : Option EventCtx)
    (events : List String)
    → ((k : String) → get_event_ctx next k ≡ (if str_eq event k then o else get_event_ctx el k))
    → is_listed event events ≡ false
    → Entries P el events
    → Entries P next events
Entries-same P el next event o [] same d h = tt
Entries-same P el next event o (e ∷ es) same d ((c, found, p), h) = (
  (c, ground (arith, same e, eq_iff event e, eq_iff e event), p),
  Entries-same P el next event o es same (ground arith) h,
)

-- A loop over distinct events that have entries changes the entry of each, once, and no other.
get_event_ctx-for_events :
    (f : EventCtx → EventCtx) (events : List String) (el : Element)
    → Distinct events
    → Entries (λ _. Unit {0}) el events
    → (next : Element) × (for_events (update_event f) events el ≡ some next)
      × ((k : String)
          → get_event_ctx next k ≡ (
              if is_listed k events then Option.map f (get_event_ctx el k) else get_event_ctx el k))
unfolding for_events
get_event_ctx-for_events f [] el d h = (el, refl, λ k. refl)
get_event_ctx-for_events f (event ∷ events) el d ((c, found, _), h) =
    let (mid, step, at_mid) = get_event_ctx-update_event f el event found in
    let (next, loop, at_next) =
      get_event_ctx-for_events f events mid d.1
        (Entries-same _ el mid event (some (f c)) events at_mid d.0 h) in
    (
      next,
      rw (step, for_events) loop,
      λ k. elim (Bool-cases (str_eq event k)) [
        | inl same ↦
            let e = (eq_iff event k).0 same in
            ground (arith, at_next k, at_mid k, rw e at d.0, rw e at found)
        | inr other ↦ ground (arith, at_next k, at_mid k)
      ],
    )

abbrev pub Absent : ℕ → List ℕ → Type 0
Absent handler hs = any_of (λ h. h == handler) hs ≡ false

remove_first-append :
    (handler : ℕ) (hs : List ℕ) → Absent handler hs → remove_first handler (hs ++ handler ∷ []) ≡ hs
unfolding remove_first
remove_first-append handler [] a = ground arith
remove_first-append handler (h ∷ hs) a = ground (arith, remove_first-append handler hs)

drop_before-push_before :
    (handler : ℕ) (c : EventCtx)
    → Absent handler c.internal_before_handlers
    → drop_before handler (push_before handler c) ≡ c
drop_before-push_before handler c a = rw (remove_first-append handler c.internal_before_handlers a)

-- The entries are there after a loop too.
Entries-for_events :
    (f : EventCtx → EventCtx) (P : EventCtx → Type 0) (el next : Element) (listed : String → Bool)
    (events : List String)
    → ((k : String)
        → get_event_ctx next k
          ≡ (if listed k then Option.map f (get_event_ctx el k) else get_event_ctx el k))
    → Entries P el events
    → Entries (λ _. Unit {0}) next events
Entries-for_events f P el next listed [] at h = tt
Entries-for_events f P el next listed (e ∷ es) at ((c, found, p), h) = (
  (if listed e then f c else c, ground (arith, at e), tt),
  Entries-for_events f P el next listed es at h,
)

Entries-any :
    (P : EventCtx → Type 0) (el : Element) (events : List String)
    → Entries P el events
    → Entries (λ _. Unit {0}) el events
Entries-any P el [] h = tt
Entries-any P el (e ∷ es) ((c, found, p), h) = ((c, found, tt), Entries-any P el es h)

Entries-at :
    (P : EventCtx → Type 0) (el : Element) (events : List String) (k : String)
    → Entries P el events
    → is_listed k events ≡ true
    → (c : EventCtx) × (get_event_ctx el k ≡ some c) × P c
Entries-at P el [] k h m = cc
Entries-at P el (e ∷ es) k (here, h) m = elim (Bool-cases (str_eq e k)) [
  | inl same ↦ let (c, found, p) = here in (c, rw ((eq_iff e k).0 same) at found, p)
  | inr other ↦ Entries-at P el es k h (rw other at m)
]

-- At distinct events that have entries, a handler that none of them has before its outer handlers
-- can be added and removed again; both succeed, and afterwards every entry is as it was.
remove_internal_before_handler-add_internal_before_handler :
    (el : Element) (events : List String) (handler : ℕ)
    → Distinct events
    → Entries (λ c. Absent handler c.internal_before_handlers) el events
    → (mid : Element) × (next : Element) × (add_internal_before_handler el events handler
        ≡ some mid)
      × (remove_internal_before_handler mid events handler ≡ some next)
      × ((k : String)
          → is_listed k events ≡ true
          → get_event_ctx mid k ≡ Option.map (push_before handler) (get_event_ctx el k))
      × ((k : String) → get_event_ctx next k ≡ get_event_ctx el k)
unfolding add_internal_before_handler remove_internal_before_handler
remove_internal_before_handler-add_internal_before_handler el events handler d h =
    let f = push_before handler in
    let (mid, add, at_mid) = get_event_ctx-for_events f events el d (Entries-any _ el events h) in
    let (next, remove, at_next) =
      get_event_ctx-for_events (drop_before handler) events mid d
        (Entries-for_events f _ el mid (λ k. is_listed k events) events at_mid h) in
    (
      mid,
      next,
      add,
      remove,
      λ k m. at_mid k ∙ rw m,
      λ k. elim (Bool-cases (is_listed k events)) [
        | inl m ↦
            let (c, found, absent) = Entries-at _ el events k h m in
            ground (arith, at_next k, at_mid k, found, drop_before-push_before handler c absent)
        | inr n ↦ ground (arith, at_next k, at_mid k)
      ],
    )
