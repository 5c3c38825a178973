-- ===== src/LinkedList/Laws.antt =====
-- What the list operations do to the items.
use opennan.Prelude.{
  ◌≡◌, refl, ap, Bool, true, false, none, some, List, [], ◌∷◌, ◌++◌, arith, keep, All, ◌⊎◌, inl,
  inr, Bool-cases, ◌∙◌,
}
use opennan.LinkedList.{
  list_ok, list_not_found, list_add, list_remove, list_find, list_filter_for_each, list_for_each,
}

module _ {ℓ} {A : Type ℓ} where
  pub list_add-append : (xs : List A) (x : A) → list_add xs x ≡ xs ++ x ∷ []
  unfolding list_add
  list_add-append [] x = refl
  list_add-append (y ∷ xs) x = ap (◌∷◌ y) (list_add-append xs x)

  -- Where a list splits at the first item that passes a test.
  pub data FirstAt (p : A → Bool) (x : A) (xs : List A) : Type ℓ where
    first_at :
        (before after : List A)
        → xs ≡ before ++ x ∷ after
        → p x ≡ true
        → All (λ y. p y ≡ false) before
        → FirstAt p x xs

  -- LIST_FIND gives the first item that meets the condition, and NULL exactly if none does.
  pub list_find_lem :
      (p : A → Bool) (xs : List A)
      → ((list_find p xs ≡ none) × All (λ y. p y ≡ false) xs)
        ⊎ ((x : A) × (list_find p xs ≡ some x) × FirstAt p x xs)
  unfolding list_find
  list_find_lem p [] = inl (refl, tt)
  list_find_lem p (y ∷ xs) = elim (Bool-cases (p y)) [
    | inl e ↦ inr (y, ground arith, first_at [] xs refl e tt)
    | inr e ↦ elim (list_find_lem p xs) [
      | inl (f, h) ↦ inl (ground arith, (e, h))
      | inr (x, f, first_at before after s px h) ↦
          inr (x, ground arith, first_at (y ∷ before) after (ap (◌∷◌ y) s) px (e, h))
    ]
  ]

  list_remove_append :
      (p : A → Bool) (before : List A) (x : A) (after : List A)
      → p x ≡ true
      → All (λ y. p y ≡ false) before
      → list_remove p (before ++ x ∷ after) ≡ (list_ok, before ++ after)
  unfolding list_remove
  list_remove_append p [] x after e h = ground arith
  list_remove_append p (y ∷ before) x after e h =
      ground (arith, h.0, list_remove_append p before x after e h.1)

  list_remove_missing :
      (p : A → Bool) (xs : List A)
      → All (λ y. p y ≡ false) xs
      → list_remove p xs ≡ (list_not_found, xs)
  unfolding list_remove
  list_remove_missing p [] h = refl
  list_remove_missing p (y ∷ xs) h = ground (arith, h.0, list_remove_missing p xs h.1)

  -- `list_remove` unlinks the first entry that holds the item and no other; without such an entry
  -- it reports LIST_NOT_FOUND and leaves the list alone.
  pub list_remove_lem :
      (p : A → Bool) (xs : List A)
      → ((list_remove p xs ≡ (list_not_found, xs)) × All (λ y. p y ≡ false) xs)
        ⊎ ((x : A) × (before : List A) × (after : List A) × (xs ≡ before ++ x ∷ after)
            × (p x ≡ true)
            × All (λ y. p y ≡ false) before
            × (list_remove p xs ≡ (list_ok, before ++ after)))
  list_remove_lem p xs = elim (list_find_lem p xs) [
    | inl (_, h) ↦ inl (list_remove_missing p xs h, h)
    | inr (x, _, first_at before after s e h) ↦ inr (
      x,
      before,
      after,
      s,
      e,
      h,
      (ap (list_remove p) s) ∙ list_remove_append p before x after e h,
    )
  ]

  -- LIST_FILTER_FOR_EACH runs its body on the items that meet the condition, in order.
  pub list_filter_for_each-keep {κ} :
      {S : Type κ} (p : A → Bool) (body : S → A → S) (s : S) (xs : List A)
      → list_filter_for_each p body s xs ≡ list_for_each body s (keep p xs)
  unfolding list_filter_for_each list_for_each
  list_filter_for_each-keep p body s [] = refl
  list_filter_for_each-keep p body s (x ∷ xs) = elim (Bool-cases (p x)) [
    | inl e ↦ rw e (list_filter_for_each-keep p body (body s x) xs)
    | inr e ↦ rw e (list_filter_for_each-keep p body s xs)
  ]
