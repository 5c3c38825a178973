-- ===== src/Service/Rounds.antt =====
-- Service discovery frames one after the other.
use opennan.Prelude.{
  ℕ, zero, suc, ◌≡◌, refl, sym, ap, ap₂, ◌∙◌, subst, List, [], ◌∷◌, ◌++◌, map, All, keep, ltb,
  Bool-cases, inl, inr,
}
use opennan.Service.Defs.{
  Service, ServiceState, should_announce, update_announced_services, get_services_to_announce,
}
use opennan.Service.Announce.{
  transmitted, transmissions, turns, aged, transmissions-aged, should_announce-turns,
}
use opennan.Service.Updates.{NotIn, Distinct, IsValid, ref-transmitted, refs_to_announce}
use opennan.Service.Frame.{frame_lem, get_services_lem}

NotIn-transmitted : (r : ℕ) (xs : List Service) → NotIn r xs → NotIn r (map transmitted xs)
NotIn-transmitted r [] h = tt
NotIn-transmitted r (x ∷ xs) h =
    ((λ e. h.0 (sym (ref-transmitted x) ∙ e)), NotIn-transmitted r xs h.1)

Distinct-transmitted : (xs : List Service) → Distinct xs → Distinct (map transmitted xs)
Distinct-transmitted [] d = tt
Distinct-transmitted (x ∷ xs) d = (
  subst (λ r. NotIn r (map transmitted xs)) (sym (ref-transmitted x))
      (NotIn-transmitted x.ref xs d.0),
  Distinct-transmitted xs d.1,
)

apart-transmitted :
    (xs ys : List Service)
    → All (λ x. NotIn x.ref ys) xs
    → All (λ x. NotIn x.ref (map transmitted ys)) (map transmitted xs)
apart-transmitted [] ys h = tt
apart-transmitted (x ∷ xs) ys h = (
  subst (λ r. NotIn r (map transmitted ys)) (sym (ref-transmitted x))
      (NotIn-transmitted x.ref ys h.0),
  apart-transmitted xs ys h.1,
)

-- Some frames one after the other.
pub frames : ℕ → ServiceState → ServiceState
frames zero s = s
frames (suc n) s = frames n (update_announced_services s (get_services_to_announce s []))

map-transmissions :
    (n : ℕ) (xs : List Service)
    → map (transmissions n) (map transmitted xs) ≡ map (transmissions (suc n)) xs
unfolding transmissions
map-transmissions n [] = refl
map-transmissions n (x ∷ xs) = ap (◌∷◌ (transmissions n (transmitted x))) (map-transmissions n xs)

map-transmissions_zero : (xs : List Service) → map (transmissions 0) xs ≡ xs
unfolding transmissions
map-transmissions_zero [] = refl
map-transmissions_zero (x ∷ xs) = ap (◌∷◌ x) (map-transmissions_zero xs)

-- Frames as so many transmissions of each service.
frames-transmissions :
    (n : ℕ) (s : ServiceState)
    → IsValid s
    → frames n s ≡ record s {
      published_services = map (transmissions n) s.published_services;
      subscribed_services = map (transmissions n) s.subscribed_services;
    }
unfolding frames
frames-transmissions zero s v =
    ap₂ (λ p q. record s { published_services = p; subscribed_services = q })
      (sym (map-transmissions_zero s.published_services))
      (sym (map-transmissions_zero s.subscribed_services))
frames-transmissions (suc n) s v =
    let after : ServiceState = record s {
      published_services = map transmitted s.published_services;
      subscribed_services = map transmitted s.subscribed_services;
    } in
    let valid : IsValid after = record {
      published_once = Distinct-transmitted s.published_services v.published_once;
      subscribed_once = Distinct-transmitted s.subscribed_services v.subscribed_once;
      apart = apart-transmitted s.published_services s.subscribed_services v.apart;
    } in
    ap (frames n) (frame_lem s v)
    ∙ frames-transmissions n after valid
    ∙ ap₂ (λ p q. record s { published_services = p; subscribed_services = q })
        (map-transmissions n s.published_services) (map-transmissions n s.subscribed_services)

-- The services whose turn is in the frame after `n`.
abbrev pub turn_refs : ℕ → List Service → List ℕ
turn_refs n xs = map (λ x. x.ref) (keep (λ x. ltb (turns n x) (turns (suc n) x)) xs)

ref-transmissions : (n : ℕ) (x : Service) → (transmissions n x).ref ≡ x.ref
ref-transmissions n x = ap (λ y. y.ref) (transmissions-aged n x)

refs-turns :
    (n : ℕ) (xs : List Service) → refs_to_announce (map (transmissions n) xs) ≡ turn_refs n xs
refs-turns n [] = refl
refs-turns n (x ∷ xs) = elim (Bool-cases (should_announce (transmissions n x))) [
  | inl e ↦
      rw (e, sym (should_announce-turns n x) ∙ e)
        (ap₂ ◌∷◌ (ref-transmissions n x) (refs-turns n xs))
  | inr e ↦ rw (e, sym (should_announce-turns n x) ∙ e) (refs-turns n xs)
]

map-aged : (n : ℕ) (xs : List Service) → map (transmissions n) xs ≡ map (λ x. aged (turns n x) x) xs
map-aged n [] = refl
map-aged n (x ∷ xs) = ap₂ ◌∷◌ (transmissions-aged n x) (map-aged n xs)

-- The state after `n` frames, and the services of the next one, where no block stands twice in the
-- lists. An unsolicited publish and an active subscribe that was not replied to are in every frame
-- until their time to live is used up, or in all if it is negative; a solicited publish that was
-- asked for is in the first one, if its time to live is not 0; no other service is in any. Each
-- frame takes one off the positive time to live of the services in it, clears the flag of the
-- published ones, and changes nothing else. A frame names the published services first, in the
-- order of the lists.
pub frames_lem :
    (n : ℕ) (s : ServiceState)
    → IsValid s
    → (frames n s ≡ record s {
      published_services = map (λ x. aged (turns n x) x) s.published_services;
      subscribed_services = map (λ x. aged (turns n x) x) s.subscribed_services;
    })
      × (get_services_to_announce (frames n s) []
          ≡ turn_refs n s.published_services ++ turn_refs n s.subscribed_services)
frames_lem n s v =
    let after = frames-transmissions n s v in
    (
      after
          ∙ ap₂ (λ p q. record s { published_services = p; subscribed_services = q })
              (map-aged n s.published_services) (map-aged n s.subscribed_services),
      get_services_lem (frames n s)
          ∙ ap {A = ServiceState}
              (λ t. refs_to_announce t.published_services ++ refs_to_announce t.subscribed_services)
              after
          ∙ ap₂ (◌++◌) (refs-turns n s.published_services) (refs-turns n s.subscribed_services),
    )
