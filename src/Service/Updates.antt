-- ===== src/Service/Updates.antt =====
-- What the loop of `nan_update_announced_services` does to the lists of src/service.c, in which no
-- block stands twice.
use opennan.Prelude.{
  ℕ, ◌≡◌, ◌≢◌, refl, sym, ap, ◌∙◌, subst, List, [], ◌∷◌, ◌++◌, map, arith, All, keep, Bool-cases,
  inl, inr,
}
use opennan.LinkedList.{list_for_each}
use opennan.Service.Defs.{Service, ServiceState, should_announce, announced_once, modify}
use opennan.Service.Announce.{transmitted}

abbrev pub NotIn : ℕ → List Service → Type 0
NotIn r = All (λ x. x.ref ≢ r)

abbrev pub Distinct : List Service → Type 0
Distinct [] = Unit {0}
Distinct (x ∷ xs) = NotIn x.ref xs × Distinct xs

-- No block stands twice in the lists.
pub record IsValid (s : ServiceState) : Type 0 where
  pub published_once : Distinct s.published_services
  pub subscribed_once : Distinct s.subscribed_services
  pub apart : All (λ x. NotIn x.ref s.subscribed_services) s.published_services

-- What the loop of `nan_update_announced_services` does to one list.
unfoldable pub update_all : List ℕ → List Service → List Service
update_all refs xs = list_for_each (λ ys ref. modify ref announced_once ys) xs refs

pub ref-transmitted : (x : Service) → (transmitted x).ref ≡ x.ref
unfolding transmitted announced_once
ref-transmitted x = ground arith

modify_missing :
    (f : Service → Service) (r : ℕ) (xs : List Service) → NotIn r xs → modify r f xs ≡ xs
unfolding modify
modify_missing f r [] h = refl
modify_missing f r (x ∷ xs) h = ground (arith, h.0, modify_missing f r xs h.1)

-- An entry whose address is not in the list stays.
update_cons :
    (refs : List ℕ) (y : Service) (xs : List Service)
    → All (λ r. y.ref ≢ r) refs
    → update_all refs (y ∷ xs) ≡ y ∷ update_all refs xs
unfolding update_all list_for_each modify
update_cons [] y xs h = refl
update_cons (r ∷ refs) y xs h =
    let stays : modify r announced_once (y ∷ xs) ≡ y ∷ modify r announced_once xs =
      ground (arith, h.0) in
    ap (update_all refs) stays ∙ update_cons refs y (modify r announced_once xs) h.1

pub update_missing :
    (refs : List ℕ) (xs : List Service) → All (λ r. NotIn r xs) refs → update_all refs xs ≡ xs
unfolding update_all list_for_each
update_missing [] xs h = refl
update_missing (r ∷ refs) xs h =
    ap (update_all refs) (modify_missing announced_once r xs h.0) ∙ update_missing refs xs h.1

NotIn-refs :
    (y : ℕ) (xs : List Service)
    → NotIn y xs
    → All (λ r. y ≢ r) (map (λ x. x.ref) (keep should_announce xs))
NotIn-refs y [] h = tt
NotIn-refs y (x ∷ xs) h = elim (Bool-cases (should_announce x)) [
  | inl e ↦ rw e ((λ f. h.0 (sym f)), NotIn-refs y xs h.1)
  | inr e ↦ rw e (NotIn-refs y xs h.1)
]

abbrev pub refs_to_announce : List Service → List ℕ
refs_to_announce xs = map (λ x. x.ref) (keep should_announce xs)

ref-announced_once : (x : Service) → (announced_once x).ref ≡ x.ref
unfolding announced_once
ref-announced_once x = ground arith

update_head :
    (x : Service) (xs : List Service)
    → NotIn x.ref xs
    → update_all (x.ref ∷ refs_to_announce xs) (x ∷ xs)
      ≡ announced_once x ∷ update_all (refs_to_announce xs) xs
unfolding update_all list_for_each modify
update_head x xs h =
    let changed : modify x.ref announced_once (x ∷ xs) ≡ announced_once x ∷ xs =
      ground (arith, modify_missing announced_once x.ref xs h) in
    ap (update_all (refs_to_announce xs)) changed
    ∙ update_cons (refs_to_announce xs) (announced_once x) xs (
        NotIn-refs (announced_once x).ref xs
          (subst (λ r. NotIn r xs) (sym (ref-announced_once x)) h))

pub update_own :
    (xs : List Service) → Distinct xs → update_all (refs_to_announce xs) xs ≡ map transmitted xs
unfolding transmitted
update_own [] d = update_missing [] [] tt
update_own (x ∷ xs) d = elim (Bool-cases (should_announce x)) [
  | inl e ↦ rw e (update_head x xs d.0 ∙ ap (◌∷◌ (announced_once x)) (update_own xs d.1))
  | inr e ↦ rw e (
      update_cons (refs_to_announce xs) x xs (NotIn-refs x.ref xs d.0)
      ∙ ap (◌∷◌ x) (update_own xs d.1))
]

pub update_append :
    (rs ts : List ℕ) (xs : List Service)
    → update_all (rs ++ ts) xs ≡ update_all ts (update_all rs xs)
unfolding update_all list_for_each
update_append [] ts xs = refl
update_append (r ∷ rs) ts xs = update_append rs ts (modify r announced_once xs)
