-- ===== src/LinkedList.antt =====
-- The linked lists of src/list.c and the loops of src/list.h. A list is its items in order, behind
-- the entry that holds none. Items are compared by their pointers: `same` is that test.
pub mod Laws
mod Tests
use opennan.Prelude.{
  ℕ, suc, Bool, true, false, Option, none, some, List, [], ◌∷◌, ◌++◌, length, if◌then◌else◌,
}
use opennan.Prelude.Int.{u32}

-- `enum list_status`; LIST_OMEM is never returned.
pub data ListStatus : Type 0 where
  list_ok list_not_found : ListStatus

module _ {ℓ} {A : Type ℓ} where
  unfoldable pub list_init : List A
  list_init = []

  unfoldable pub list_len : List A → ℕ
  list_len xs = u32 (length xs)

  unfoldable pub list_add : List A → A → List A
  list_add [] item = item ∷ []
  list_add (x ∷ xs) item = x ∷ list_add xs item

  unfoldable pub list_remove : (A → Bool) → List A → ListStatus × List A
  list_remove same [] = (list_not_found, [])
  list_remove same (x ∷ xs) =
      let (status, rest) = list_remove same xs in
      if same x then (list_ok, xs) else (status, x ∷ rest)

  -- An iterator is what is left of the list; the item is NULL at its end.
  unfoldable pub list_it_next : List A → ListStatus × Option A × List A
  list_it_next [] = (list_not_found, none, [])
  list_it_next (x ∷ xs) = (list_ok, some x, xs)

  -- LIST_FIND
  unfoldable pub list_find : (A → Bool) → List A → Option A
  list_find condition [] = none
  list_find condition (x ∷ xs) = if condition x then some x else list_find condition xs

  -- LIST_FOR_EACH with a body that updates a state.
  unfoldable pub list_for_each {κ} : {S : Type κ} → (S → A → S) → S → List A → S
  list_for_each body s [] = s
  list_for_each body s (x ∷ xs) = list_for_each body (body s x) xs

  -- LIST_FILTER_FOR_EACH
  unfoldable pub list_filter_for_each {κ} : {S : Type κ} → (A → Bool) → (S → A → S) → S → List A → S
  list_filter_for_each condition body s [] = s
  list_filter_for_each condition body s (x ∷ xs) =
      list_filter_for_each condition body (if condition x then body s x else s) xs

  -- LIST_REMOVE: the item that was found, if any, and the list without it.
  unfoldable pub list_remove_if : (A → A → Bool) → (A → Bool) → List A → Option A × List A
  unfolding list_find list_remove
  list_remove_if same condition xs = elim (list_find condition xs) [
    | none ↦ (none, xs)
    | some x ↦ (some x, (list_remove (same x) xs).1)
  ]
