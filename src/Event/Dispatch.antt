-- ===== src/Event/Dispatch.antt =====
-- Which listeners `nan_dispatch_event` calls.
use opennan.Prelude.{
  ℕ, suc, ◌≡◌, refl, sym, ap, ◌∙◌, Bool, true, false, ◌&&◌, Option, none, some, List, [], ◌∷◌, ◌++◌,
  map, arith, keep, ◌==◌, Bool-cases, inl, inr,
}
use mathlib.Core.List.{append-nil, append_assoc}
use opennan.LinkedList.{list_for_each}
use opennan.LinkedList.Laws.{list_filter_for_each-keep}
use opennan.Event.{
  Listener, EventState, Event, Call, event_type, event_code, starts_with, strstr, is_at_start,
  matches_event, dispatch,
}

strstr_start : (text needle : List ℕ) → is_at_start (strstr text needle) ≡ starts_with text needle
unfolding strstr
strstr_start [] needle = ground arith
strstr_start (c ∷ text) needle = elim (Bool-cases (starts_with (c ∷ text) needle)) [
  | inl e ↦ rw e refl
  | inr e ↦ rw e (not_at_start (strstr text needle))
]
  where
    not_at_start :
        (o : Option ℕ)
        → is_at_start (elim o as (λ o. Option ℕ) [ none ↦ none | some n ↦ some (suc n) ]) ≡ false
    not_at_start none = refl
    not_at_start (some n) = ground arith

-- Whether a listener is called: its event, and its service name as a prefix, if it has one.
abbrev pub is_called : Event → List ℕ → Listener → Bool
is_called event service_name item =
    event_code item.event == event_code (event_type event)
    && (elim item.service_name as (λ o. Bool) [
      | none ↦ true
      | some name ↦ starts_with service_name name
    ])

matches-is_called :
    (event : Event) (name : List ℕ) (item : Listener)
    → matches_event item (event_type event) name ≡ is_called event name item
unfolding matches_event
matches-is_called event name item =
    elim (Bool-cases (event_code item.event == event_code (event_type event))) [
      | inl e ↦ rw e (by_name item.service_name)
      | inr e ↦ rw e refl
    ]
  where
    by_name :
        (o : Option (List ℕ))
        → (elim o as (λ o. Bool) [ none ↦ true | some n ↦ is_at_start (strstr name n) ])
          ≡ (elim o as (λ o. Bool) [ none ↦ true | some n ↦ starts_with name n ])
    by_name none = refl
    by_name (some n) = strstr_start name n

-- The call that a listener gets.
abbrev pub call_of : Event → Listener → Call
call_of event item = record {
  function = item.listener;
  event = event;
  argument = item.additional_data;
}

collected :
    (event : Event) (calls : List Call) (items : List Listener)
    → list_for_each (λ calls item. calls ++ call_of event item ∷ []) calls items
      ≡ calls ++ map (call_of event) items
unfolding list_for_each
collected event calls [] = sym (append-nil calls)
collected event calls (x ∷ items) =
    collected event (calls ++ call_of event x ∷ []) items
    ∙ append_assoc calls (call_of event x ∷ []) (map (call_of event) items)

keep_cong :
    (p q : Listener → Bool) (items : List Listener)
    → ((x : Listener) → p x ≡ q x)
    → keep p items ≡ keep q items
keep_cong p q [] h = refl
keep_cong p q (x ∷ items) h = rw (h x, keep_cong p q items h) refl

-- `nan_dispatch_event` calls, in the order in which they were added, exactly the listeners for that
-- event which have no service name, or one that the name of the service begins with.
pub dispatch_lem :
    (s : EventState) (event : Event) (name : List ℕ)
    → dispatch s event name ≡ map (call_of event) (keep (is_called event name) s.listeners)
unfolding dispatch
dispatch_lem s event name =
    list_filter_for_each-keep (λ item. matches_event item (event_type event) name) _ [] s.listeners
    ∙ collected event [] _
    ∙ ap (map (call_of event)) (keep_cong _ _ s.listeners (matches-is_called event name))
