-- ===== src/Service/Lookup.antt =====
-- `nan_publish` and the search for a service by its name.
use opennan.Prelude.{
  ℕ, ◌≡◌, refl, ap, ◌∙◌, Bool, true, false, none, some, Option, List, [], ◌∷◌, arith, length, take,
  lt→ltb,
}
use opennan.Prelude.Int.{ℤ}
use opennan.Utils.{increase_non_zero_id}
use opennan.LinkedList.{list_add, list_find}
use opennan.Service.Defs.{
  Service, ServiceState, published, equal, get_by_name, find_service, publish, service_id_create,
}

pub equal_refl : (xs : List ℕ) → equal xs xs ≡ true
equal_refl [] = refl
equal_refl (x ∷ xs) = ground (arith, equal_refl xs)

list_find-list_add_missing {ℓ} :
    {A : Type ℓ} (p : A → Bool) (xs : List A) (x : A)
    → list_find p xs ≡ none
    → p x ≡ true
    → list_find p (list_add xs x) ≡ some x
unfolding list_find list_add
list_find-list_add_missing p [] x h e = rw e refl
list_find-list_add_missing p (y ∷ xs) x h e = ground (arith, list_find-list_add_missing p xs x)

take_all : (xs : List ℕ) → take (length xs) xs ≡ xs
take_all [] = refl
take_all (x ∷ xs) = ap (◌∷◌ x) (take_all xs)

-- The first of two, if there is one.
abbrev either : Option Service → Option Service → Option Service
either o other = elim o [ some service ↦ some service | none ↦ other ]

neither : (o other : Option Service) → either o other ≡ none → (o ≡ none) × (other ≡ none)
neither none other h = (refl, h)
neither (some x) other h = absurd (ground (arith, h))

-- A published service whose name no other has is found by it.
get_by_name-list_add :
    (s : ServiceState) (name : List ℕ) (x : Service) (id : ℕ)
    → get_by_name s name none ≡ none
    → equal name x.service_name ≡ true
    → get_by_name
        (record s { published_services = list_add s.published_services x; last_instance_id = id })
        name
        none
      ≡ some x
unfolding get_by_name find_service
get_by_name-list_add s name x id h same =
    let p : Service → Bool = λ y. equal name y.service_name in
    let (missing, unpublished) =
      neither (list_find p s.subscribed_services) (list_find p s.published_services) h in
    ap (λ o. either o (list_find p (list_add s.published_services x))) missing
    ∙ list_find-list_add_missing p s.published_services x unpublished same

-- What is found after `nan_publish` of a name that was not registered, with information.
pub get_by_name-publish :
    (sha256 : List ℕ → List ℕ) (s : ServiceState) (block : Service) (name : List ℕ) (type : ℕ)
    (ttl : ℤ) (d : ℕ) (u : List ℕ)
    → get_by_name s name none ≡ none
    → let (publish_id, after) =
        publish sha256 s block name type ttl (some (d ∷ u)) (length (d ∷ u)) in
      (x : Service) × (get_by_name after name none ≡ some x)
      × (x.instance_id ≡ publish_id)
      × (x.type ≡ published)
      × (x.parameter_type ≡ type)
      × (x.time_to_live ≡ ttl)
      × (x.service_specific_info ≡ some (d ∷ u))
unfolding publish
get_by_name-publish sha256 s block name type ttl d u h =
    let n = length (d ∷ u) in
    let id = increase_non_zero_id s.last_instance_id in
    let x : Service = record block {
      service_name = name;
      type = published;
      instance_id = id;
      service_id = service_id_create sha256 name;
      service_specific_info = some (take n (d ∷ u));
      service_specific_info_length = n;
      time_to_live = ttl;
      parameter_type = type;
      flag = false;
    } in
    rw (lt→ltb 0 n (omega arith)) (
      x,
      get_by_name-list_add s name x id h (equal_refl name),
      refl,
      refl,
      refl,
      refl,
      ap some (take_all (d ∷ u)),
    )
