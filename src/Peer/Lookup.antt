-- ===== src/Peer/Lookup.antt =====
-- Addresses are keys of the table of peers.
use opennan.Prelude.{
  ◌≡◌, ◌≢◌, refl, Bool, true, false, Option, none, some, List, [], ◌∷◌, arith, All, if◌then◌else◌,
  Bool-cases, inl, inr, ◌∙◌, subst, sym,
}
use opennan.Utils.{EtherAddr, ether_addr_equal}
use opennan.Utils.Addresses.{ether_addr_equal_iff}
use opennan.LinkedList.{list_add, list_find}
use opennan.Peer.Defs.{Peer, write_back, same}

-- No other peer of the list has the block or the address of `p`.
abbrev pub Apart : Peer → List Peer → Type 0
Apart p = All (λ q. (q.ref ≢ p.ref) × (q.addr ≢ p.addr))

-- No block and no address stands twice in the list.
abbrev pub IsTable : List Peer → Type 0
IsTable [] = Unit {0}
IsTable (p ∷ ps) = Apart p ps × IsTable ps

abbrev pub has_addr : EtherAddr → Peer → Bool
has_addr a p = ether_addr_equal p.addr a

pub list_find-list_add :
    (a : EtherAddr) (xs : List Peer) (p : Peer)
    → list_find (has_addr a) (list_add xs p)
      ≡ elim (list_find (has_addr a) xs) as (λ o. Option Peer) [
        | none ↦ if has_addr a p then some p else none
        | some q ↦ some q
      ]
unfolding list_find list_add
list_find-list_add a [] p = refl
list_find-list_add a (q ∷ xs) p = ground (arith, list_find-list_add a xs p)

pub Apart-missing :
    (p : Peer) (xs : List Peer)
    → All (λ q. q.ref ≢ p.ref) xs
    → list_find (has_addr p.addr) xs ≡ none
    → Apart p xs
unfolding list_find
Apart-missing p [] f e = tt
Apart-missing p (q ∷ xs) f e = (
  (f.0, λ h. ground (arith, ether_addr_equal_iff q.addr p.addr, h)),
  Apart-missing p xs f.1 (ground arith),
)

Apart-list_add :
    (p r : Peer) (xs : List Peer)
    → Apart p xs
    → r.ref ≢ p.ref
    → r.addr ≢ p.addr
    → Apart p (list_add xs r)
unfolding list_add
Apart-list_add p r [] h f g = ((f, g), tt)
Apart-list_add p r (q ∷ xs) h f g = (h.0, Apart-list_add p r xs h.1 f g)

-- A new peer under an address that is not in the table leaves a table.
pub IsTable-list_add :
    (xs : List Peer) (r : Peer) → IsTable xs → Apart r xs → IsTable (list_add xs r)
unfolding list_add
IsTable-list_add [] r t a = (tt, tt)
IsTable-list_add (q ∷ xs) r t a = (
  Apart-list_add q r xs t.0 (λ e. a.0.0 (ground arith)) (λ e. a.0.1 (ground arith)),
  IsTable-list_add xs r t.1 a.1,
)

-- A property of both peers holds of the one that is chosen.
if_either {ℓ} : (P : Peer → Type ℓ) (b : Bool) (p q : Peer) → P p → P q → P (if b then p else q)
if_either P true p q hp hq = hp
if_either P false p q hp hq = hq

Apart-write_back :
    (q p : Peer) (xs : List Peer)
    → Apart q xs
    → p.ref ≢ q.ref
    → p.addr ≢ q.addr
    → Apart q (write_back p xs)
unfolding write_back
Apart-write_back q p [] h f g = tt
Apart-write_back q p (r ∷ xs) h f g = (
  if_either (λ x. (x.ref ≢ q.ref) × (x.addr ≢ q.addr)) (same p r) p r (f, g) h.0,
  Apart-write_back q p xs h.1 f g,
)

-- Nothing is written where no entry has the block.
write_back-Apart : (p : Peer) (xs : List Peer) → Apart p xs → write_back p xs ≡ xs
unfolding write_back same
write_back-Apart p [] h = refl
write_back-Apart p (q ∷ xs) h = ground (arith, h.0.0, write_back-Apart p xs h.1)

Apart-same :
    (p p' : Peer) (xs : List Peer) → p'.ref ≡ p.ref → p'.addr ≡ p.addr → Apart p xs → Apart p' xs
Apart-same p p' [] f g h = tt
Apart-same p p' (q ∷ xs) f g h =
    ((λ e. h.0.0 (e ∙ f), λ e. h.0.1 (e ∙ g)), Apart-same p p' xs f g h.1)

-- What holds of all peers holds of the one that a lookup finds.
pub All-list_find {ℓ} :
    (P : Peer → Type ℓ) (c : Peer → Bool) (xs : List Peer) {p : Peer}
    → All P xs
    → list_find c xs ≡ some p
    → P p × (c p ≡ true)
unfolding list_find
All-list_find P c [] h e = cc
All-list_find P c (q ∷ xs) {p} h e = elim (Bool-cases (c q)) [
  | inl t ↦ let same_peer : q ≡ p = ground arith in (subst P same_peer h.0, ground arith)
  | inr f ↦ All-list_find P c xs h.1 (ground arith)
]

-- Writing to the peer that a lookup found keeps the table, replaces what a lookup of its address
-- finds, and leaves the lookups of other addresses alone.
pub record Written (p p' : Peer) (xs : List Peer) : Type 0 where
  pub table : IsTable (write_back p' xs)
  pub found : list_find (has_addr p.addr) (write_back p' xs) ≡ some p'
  pub others :
      (a : EtherAddr)
      → a ≢ p.addr
      → list_find (has_addr a) (write_back p' xs) ≡ list_find (has_addr a) xs

module _ (p p' : Peer) (r : p'.ref ≡ p.ref) (a : p'.addr ≡ p.addr) where
  written_here : (q : Peer) (xs : List Peer) → IsTable (q ∷ xs) → q ≡ p → Written p p' (q ∷ xs)
  unfolding write_back same list_find
  written_here q xs t e =
      let apart = Apart-same q p' xs (ground arith) (ground arith) t.0 in
      let rest = write_back-Apart p' xs apart in
      let whole : write_back p' (q ∷ xs) ≡ p' ∷ xs = ground (arith, rest) in
      record {
        table = subst IsTable (sym whole) (apart, t.1);
        found = ground (arith, ether_addr_equal_iff p'.addr p.addr);
        others = λ b n.
            ground (arith, rest, ether_addr_equal_iff p'.addr b, ether_addr_equal_iff q.addr b, n);
      }

  written_later :
      (q : Peer) (xs : List Peer)
      → IsTable (q ∷ xs)
      → q.ref ≢ p.ref
      → q.addr ≢ p.addr
      → Written p p' xs
      → Written p p' (q ∷ xs)
  unfolding write_back same list_find
  written_later q xs t f g w = record {
    table =
        subst IsTable (sym skip)
          (Apart-write_back q p' xs t.0 (λ e. f (sym e ∙ r)) (λ e. g (sym e ∙ a)), w.table);
    found = ground (arith, w.found, ether_addr_equal_iff q.addr p.addr);
    others = λ b n. ground (arith, w.others b n);
  }
    where
      skip : write_back p' (q ∷ xs) ≡ q ∷ write_back p' xs
      skip = ground arith

  pub written :
      (xs : List Peer) → IsTable xs → list_find (has_addr p.addr) xs ≡ some p → Written p p' xs
  unfolding list_find
  written [] t e = cc
  written (q ∷ xs) t e = elim (Bool-cases (has_addr p.addr q)) [
    | inl h ↦ written_here q xs t (ground arith)
    | inr h ↦
        let later : list_find (has_addr p.addr) xs ≡ some p = ground arith in
        let far = (All-list_find (λ x. (x.ref ≢ q.ref) × (x.addr ≢ q.addr)) _ xs t.0 later).0 in
        written_later q xs t (λ f. far.0 (sym f)) (λ f. far.1 (sym f)) (written xs t.1 later)
  ]
