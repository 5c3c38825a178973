-- ===== src/Cmd/Register.antt =====
-- `publish`, from the line to the lookup of the service and the call of the listener.
use opennan.Prelude.{
  ℕ, ◌≡◌, refl, sym, ap, ◌∙◌, Bool, true, false, Option, none, some, List, [], ◌∷◌, ◌++◌, map,
  arith, length, keep, if◌then◌else◌,
}
use opennan.Prelude.Int.{minus_one}
use mathlib.Core.List.{map-append}
use opennan.LinkedList.Laws.{list_add-append}
use opennan.Event
use opennan.Event.{Event, EventState, Listener, Receive, Call, dispatch, receive, starts_with}
use opennan.Event.Dispatch.{is_called, call_of, dispatch_lem}
use opennan.Service.Defs.{Service, get_by_name, publish, publish_both, published}
use opennan.Service.Lookup.{get_by_name-publish}
use opennan.State.{NanState}
use opennan.Cmd.Text.{codes, space, strtok}
use opennan.Cmd.Defs.{
  Context, Outcome, done, null_pointer, registered, refused, listen, publish_service, is_registered,
  string_or_empty,
}
use opennan.Cmd.Terminal.{Terminal, handled, forget, handle_cmd, handle_line, action, information}
use opennan.Cmd.Tokens.{NoSpace, strtok_word, strtok_first}

starts_with_refl : (xs : List ℕ) → starts_with xs xs ≡ true
unfolding starts_with
starts_with_refl [] = refl
starts_with_refl (x ∷ xs) = ground (arith, starts_with_refl xs)

keep_append :
    (p : Listener → Bool) (xs : List Listener) (x : Listener)
    → p x ≡ true
    → keep p (xs ++ x ∷ []) ≡ keep p xs ++ x ∷ []
keep_append p [] x h = rw h refl
keep_append p (y ∷ xs) x h = ground (arith, keep_append p xs x h)

-- A listener that was added for a name is called last.
pub dispatch-add_listener :
    (s : EventState) (ref : ℕ) (name : List ℕ) (listener argument : ℕ) (r : Receive)
    → dispatch
        (Event.add_listener s ref Event.type_receive (some name) listener argument)
        (receive r)
        name
      ≡ dispatch s (receive r) name
        ++ record { function = listener; event = receive r; argument = argument } ∷ []
unfolding Event.add_listener
dispatch-add_listener s ref name listener argument r =
    let item : Listener = record {
      ref = ref;
      event = Event.type_receive;
      service_name = some name;
      listener = listener;
      additional_data = argument;
    } in
    let called : is_called (receive r) name item ≡ true = starts_with_refl name in
    dispatch_lem (Event.add_listener s ref Event.type_receive (some name) listener argument)
      (receive r) name
    ∙ ap (λ xs. map (call_of (receive r)) (keep (is_called (receive r) name) xs))
        (list_add-append s.listeners item)
    ∙ ap (map (call_of (receive r)))
        (keep_append (is_called (receive r) name) s.listeners item called)
    ∙ map-append (call_of (receive r)) (keep (is_called (receive r) name) s.listeners) (item ∷ [])
    ∙ ap (λ xs. xs ++ call_of (receive r) item ∷ []) (sym (dispatch_lem s (receive r) name))

-- The outcome of `publish` for a name and information.
abbrev pub published_with : Context → NanState → List ℕ → List ℕ → Outcome
published_with c s name info =
    let made =
      publish c.sha256 s.services c.service_block name publish_both minus_one (some info)
        (length info) in
    if is_registered s.services name
    then done refused s
    else done (registered made.0)
        (listen c (record s { services = made.1 }) Event.type_receive name c.handle_event_receive)

module _ (c : Context) (s : NanState) where
  abbrev with_info : List ℕ → Option (List ℕ) × List ℕ → Outcome
  with_info name z = published_with c s name (string_or_empty z.0)

  abbrev with_name : Option (List ℕ) × List ℕ → Outcome
  with_name z = elim z.0 [
    | none ↦ null_pointer
    | some name ↦ published_with c s name (string_or_empty (strtok z.1).0)
  ]

publish_line :
    (c : Context) (l : Terminal) (x : ℕ) (w : List ℕ) (y : ℕ) (u : List ℕ)
    → NoSpace (x ∷ w)
    → NoSpace (y ∷ u)
    → handle_cmd c l (codes "publish " ++ (x ∷ w) ++ space ∷ y ∷ u)
      ≡ forget (published_with c l.nan_state (x ∷ w) (y ∷ u))
unfolding handle_cmd handle_line action information publish_service
publish_line c l x w y u h k =
    ap (λ z. forget (with_name c l.nan_state z)) (strtok_first x w h (y ∷ u))
    ∙ ap (λ z. forget (with_info c l.nan_state (x ∷ w) z)) (strtok_word y u k)

registered_of :
    (o : Option Service)
    → (elim o as (λ o. Bool) [ none ↦ false | some x ↦ true ]) ≡ false
    → o ≡ none
registered_of none h = refl
registered_of (some x) h = absurd (ground (arith, h))

known-refused :
    (c : Context) (s : NanState) (name info : List ℕ) (service : Service)
    → get_by_name s.services name none ≡ some service
    → published_with c s name info ≡ done refused s
known-refused c s name info service e = rw (registered_some _ service e) refl
  where
    registered_some :
        (o : Option Service) (service : Service)
        → o ≡ some service
        → (elim o as (λ o. Bool) [ none ↦ false | some x ↦ true ]) ≡ true
    registered_some none service e = absurd (ground (arith, e))
    registered_some (some x) service e = refl

-- `publish` with a name and information, both without spaces. If a service of that name is
-- registered, the line is refused, and nothing but the last command changes. If none is, the name
-- leads to a published service afterwards, with this information, unlimited in time, and with the
-- instance id that is shown; an event of the kind receive for this name calls the listener of the
-- terminal, after those that were called before; and to publish the name again is refused.
pub handle_cmd-publish :
    (c : Context) (l : Terminal) (x : ℕ) (w : List ℕ) (y : ℕ) (u : List ℕ)
    → NoSpace (x ∷ w)
    → NoSpace (y ∷ u)
    → let name = x ∷ w in
      let line = codes "publish " ++ name ++ space ∷ y ∷ u in
      (is_registered l.nan_state.services name ≡ true
        → handle_cmd c l line
          ≡ handled refused (record { nan_state = l.nan_state; last_cmd = none }))
      × (is_registered l.nan_state.services name ≡ false
          → (id : ℕ) × (s : NanState) × (handle_cmd c l line
              ≡ handled (registered id) (record { nan_state = s; last_cmd = none }))
            × ((service : Service) × (get_by_name s.services name none ≡ some service)
                × (service.instance_id ≡ id)
                × (service.type ≡ published)
                × (service.time_to_live ≡ minus_one)
                × (service.service_specific_info ≡ some (y ∷ u)))
            × ((r : Receive)
                → dispatch s.events (receive r) name
                  ≡ dispatch l.nan_state.events (receive r) name
                    ++ record {
                      function = c.handle_event_receive;
                      event = receive r;
                      argument = c.state;
                    }
                      ∷ [])
            × (handle_cmd c (record { nan_state = s; last_cmd = none }) line
                ≡ handled refused (record { nan_state = s; last_cmd = none })))
unfolding Event.add_listener
handle_cmd-publish c l x w y u h k =
    let s = l.nan_state in
    let name : List ℕ = x ∷ w in
    let info : List ℕ = y ∷ u in
    let line = publish_line c l x w y u h k in
    let made =
      publish c.sha256 s.services c.service_block name publish_both minus_one (some info)
        (length info) in
    let s' : NanState =
      listen c (record s { services = made.1 }) Event.type_receive name c.handle_event_receive in
    let after : Terminal = record { nan_state = s'; last_cmd = none } in
    (
      (λ e. line ∙ rw e refl),
      (λ e.
          let missing = registered_of (get_by_name s.services name none) e in
          let (service, found, same_id, type, parameter, ttl, same_info) =
            get_by_name-publish c.sha256 s.services c.service_block name publish_both minus_one y u
              missing in
          (
            made.0,
            s',
            line ∙ rw e refl,
            (service, found, same_id, type, ttl, same_info),
            (λ r.
                dispatch-add_listener s.events c.listener_block name c.handle_event_receive c.state
                  r),
            publish_line c after x w y u h k
                ∙ ap forget (known-refused c s' name info service found),
          )),
    )
