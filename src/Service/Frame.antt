-- ===== src/Service/Frame.antt =====
-- One service discovery frame: which services go into it, and what that makes of the state.
use opennan.Prelude.{
  ℕ, ◌≡◌, refl, sym, ap, ap₂, ◌∙◌, List, [], ◌∷◌, ◌++◌, map, All, keep, Bool-cases, inl, inr,
}
use mathlib.Core.List.{append-nil, append_assoc}
use opennan.LinkedList.{list_add, list_for_each}
use opennan.LinkedList.Laws.{list_filter_for_each-keep, list_add-append}
use opennan.Service.Defs.{
  Service, ServiceState, should_announce, announced_once, modify_service, update_announced_services,
  get_services_to_announce,
}
use opennan.Service.Announce.{transmitted}
use opennan.Service.Updates.{
  NotIn, IsValid, update_all, ref-transmitted, update_missing, refs_to_announce, update_own,
  update_append,
}

-- The addresses that are added to a list of addresses.
added_refs :
    (refs : List ℕ) (xs : List Service)
    → list_for_each (λ rs x. list_add rs x.ref) refs xs ≡ refs ++ map (λ x. x.ref) xs
unfolding list_for_each
added_refs refs [] = sym (append-nil refs)
added_refs refs (x ∷ xs) =
    added_refs (list_add refs x.ref) xs
    ∙ ap (λ rs. rs ++ map (λ y. y.ref) xs) (list_add-append refs x.ref)
    ∙ append_assoc refs (x.ref ∷ []) (map (λ y. y.ref) xs)

-- A frame has the services that are to be announced, the published ones first, in the order in
-- which they were added.
pub get_services_lem :
    (s : ServiceState)
    → get_services_to_announce s []
      ≡ refs_to_announce s.published_services ++ refs_to_announce s.subscribed_services
unfolding get_services_to_announce
get_services_lem s =
    list_filter_for_each-keep should_announce (λ rs x. list_add rs x.ref) _ s.subscribed_services
    ∙ added_refs _ (keep should_announce s.subscribed_services)
    ∙ ap (λ rs. rs ++ refs_to_announce s.subscribed_services)
        (list_filter_for_each-keep should_announce (λ rs x. list_add rs x.ref) []
            s.published_services
          ∙ added_refs [] (keep should_announce s.published_services))

update_state :
    (refs : List ℕ) (s : ServiceState)
    → update_announced_services s refs ≡ record s {
      published_services = update_all refs s.published_services;
      subscribed_services = update_all refs s.subscribed_services;
    }
unfolding update_announced_services update_all list_for_each modify_service
update_state [] s = refl
update_state (r ∷ refs) s = update_state refs (modify_service s r announced_once)

refs_apart :
    (xs ys : List Service)
    → All (λ x. NotIn x.ref ys) xs
    → All (λ r. NotIn r ys) (refs_to_announce xs)
refs_apart [] ys h = tt
refs_apart (x ∷ xs) ys h = elim (Bool-cases (should_announce x)) [
  | inl e ↦ rw e (h.0, refs_apart xs ys h.1)
  | inr e ↦ rw e (refs_apart xs ys h.1)
]

apart_head :
    (xs : List Service) (y : Service) (ys : List Service)
    → All (λ x. NotIn x.ref (y ∷ ys)) xs
    → NotIn y.ref (map transmitted xs)
apart_head [] y ys h = tt
apart_head (x ∷ xs) y ys h = ((λ e. h.0.0 (sym e ∙ ref-transmitted x)), apart_head xs y ys h.1)

apart_tail :
    (xs : List Service) (y : Service) (ys : List Service)
    → All (λ x. NotIn x.ref (y ∷ ys)) xs
    → All (λ x. NotIn x.ref ys) xs
apart_tail [] y ys h = tt
apart_tail (x ∷ xs) y ys h = (h.0.1, apart_tail xs y ys h.1)

apart_flip :
    (xs ys : List Service)
    → All (λ x. NotIn x.ref ys) xs
    → All (λ y. NotIn y.ref (map transmitted xs)) ys
apart_flip xs [] h = tt
apart_flip xs (y ∷ ys) h = (apart_head xs y ys h, apart_flip xs ys (apart_tail xs y ys h))

-- The lists after one frame: on each list, every service that was to be announced is counted once,
-- and nothing else changes.
pub frame_lem :
    (s : ServiceState)
    → IsValid s
    → update_announced_services s (get_services_to_announce s []) ≡ record s {
      published_services = map transmitted s.published_services;
      subscribed_services = map transmitted s.subscribed_services;
    }
frame_lem s v =
    let pubs = refs_to_announce s.published_services in
    let subs = refs_to_announce s.subscribed_services in
    let of_published : update_all (pubs ++ subs) s.published_services
        ≡ map transmitted s.published_services =
      update_append pubs subs s.published_services
      ∙ ap (update_all subs) (update_own s.published_services v.published_once)
      ∙ update_missing subs (map transmitted s.published_services)
          (refs_apart s.subscribed_services _ (apart_flip s.published_services _ v.apart)) in
    let of_subscribed : update_all (pubs ++ subs) s.subscribed_services
        ≡ map transmitted s.subscribed_services =
      update_append pubs subs s.subscribed_services
      ∙ ap (update_all subs)
          (update_missing pubs s.subscribed_services (refs_apart s.published_services _ v.apart))
      ∙ update_own s.subscribed_services v.subscribed_once in
    ap (update_announced_services s) (get_services_lem s)
    ∙ update_state (pubs ++ subs) s
    ∙ ap₂ (λ p q. record s { published_services = p; subscribed_services = q }) of_published
        of_subscribed
