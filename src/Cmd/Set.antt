-- ===== src/Cmd/Set.antt =====
-- `set rf` and `set mp`, from the line to the state.
use opennan.Prelude.{
  ℕ, ◌+◌, ◌%◌, ◌^◌, ◌≤◌, ◌<◌, ◌≡◌, ◌⊎◌, inl, inr, refl, sym, subst, Bool-cases, ap, ◌∙◌, true,
  false, List, [], ◌∷◌, ◌++◌, arith, Option, none, some, ◌==◌,
}
use opennan.Prelude.Int.{pos, signed, residue}
use opennan.Sync.Defs.{SyncState}
use opennan.Service.Defs.{equal}
use opennan.State.{NanState}
use opennan.Cmd.Text.{codes, atoi, strtok}
use opennan.Cmd.Defs.{
  Context, Outcome, done, value_set, refused, with_rank, set_target, set_value, validate_number,
  validate_number_range,
}
use opennan.Cmd.Terminal.{
  Terminal, Handled, forget, handled, handle_cmd, handle_line, action, information,
}
use opennan.Cmd.Tokens.{strtok_word}
use opennan.Cmd.Numbers.{digits, value, AreDigits, digits-NoSpace, atoi-digits}

-- What can be set, how it is written, and the field.
pub data Target : Type 0 where
  random_factor master_preference : Target

abbrev pub written : Target → List ℕ
written random_factor = codes "rf"
written master_preference = codes "mp"

abbrev pub assign : Target → ℕ → SyncState → SyncState
assign random_factor n s = record s { random_factor = n }
assign master_preference n s = record s { master_preference = n }

-- Whether some digits are taken for a number: one that is not 0, or a lone 0.
abbrev pub IsNumber : List ℕ → Type 0
IsNumber ds = (0 < value 0 ds % 2 ^ 32) ⊎ (ds ≡ 0 ∷ [])

module _ (s : NanState) (t : Target) (v : List ℕ) where
  set_target_valid :
      validate_number_range v (pos 0) (pos 255) ≡ true
      → set_target s (written t) v
        ≡ done value_set (with_rank s (assign t (residue (2 ^ 8) (atoi v)) s.sync))
  unfolding set_target
  set_target_valid h = by_target t
    where
      by_target :
          (t : Target)
          → set_target s (written t) v
            ≡ done value_set (with_rank s (assign t (residue (2 ^ 8) (atoi v)) s.sync))
      by_target random_factor = rw h refl
      by_target master_preference = rw h refl

  set_target_refused :
      validate_number_range v (pos 0) (pos 255) ≡ false
      → set_target s (written t) v ≡ done refused s
  unfolding set_target
  set_target_refused h = by_target t
    where
      by_target : (t : Target) → set_target s (written t) v ≡ done refused s
      by_target random_factor = rw h refl
      by_target master_preference = rw h refl

-- What `nan_cmd_set_value` does with the second word.
abbrev then_set : NanState → List ℕ → Option (List ℕ) × List ℕ → Handled
then_set s target z =
    forget (elim z.0 as (λ o. Outcome) [ none ↦ done refused s | some v ↦ set_target s target v ])

-- The line `set`, a target and a word.
set_line :
    (c : Context) (l : Terminal) (t : Target) (x : ℕ) (w : List ℕ)
    → strtok (x ∷ w) ≡ (some (x ∷ w), [])
    → handle_cmd c l (codes "set " ++ written t ++ b' ' ∷ x ∷ w)
      ≡ forget (set_target l.nan_state (written t) (x ∷ w))
unfolding handle_cmd handle_line action information set_value
set_line c l random_factor x w e = ap (then_set l.nan_state (codes "rf")) e
set_line c l master_preference x w e = ap (then_set l.nan_state (codes "mp")) e

-- The test of the number.
equal_zero : (d : ℕ) (ds : List ℕ) → equal (digits (d ∷ ds)) (codes "0") ≡ true → d ∷ ds ≡ 0 ∷ []
equal_zero d [] h = ap (λ k. k ∷ []) (ground (arith, h))
equal_zero d (d' ∷ ds) h = absurd (ground (arith, h))

valid_digits :
    (d : ℕ) (ds : List ℕ)
    → AreDigits (d ∷ ds)
    → value 0 (d ∷ ds) < 2 ^ 63
    → IsNumber (d ∷ ds)
    → value 0 (d ∷ ds) % 2 ^ 32 ≤ 255
    → validate_number_range (digits (d ∷ ds)) (pos 0) (pos 255) ≡ true
unfolding validate_number_range validate_number atoi
valid_digits d ds h k (inl p) r = rw (atoi-digits d ds h k) (ground (arith, p))
valid_digits d ds h k (inr e) r =
    subst (λ xs. validate_number_range (digits xs) (pos 0) (pos 255) ≡ true) (sym e) refl

refused_digits :
    (d : ℕ) (ds : List ℕ)
    → AreDigits (d ∷ ds)
    → value 0 (d ∷ ds) < 2 ^ 63
    → (255 < value 0 (d ∷ ds) % 2 ^ 32) ⊎ (¬ (IsNumber (d ∷ ds)))
    → validate_number_range (digits (d ∷ ds)) (pos 0) (pos 255) ≡ false
unfolding validate_number_range validate_number
refused_digits d ds h k (inl r) = rw (atoi-digits d ds h k) (ground (arith, r))
refused_digits d ds h k (inr e) = elim (Bool-cases (equal (digits (d ∷ ds)) (codes "0"))) [
  | inl z ↦ absurd (e (inr (equal_zero d ds z)))
  | inr z ↦ elim (Bool-cases (value 0 (d ∷ ds) % 2 ^ 32 == 0)) [
    | inl n ↦ rw (atoi-digits d ds h k, z) (ground (arith, n))
    | inr n ↦ absurd (e (inl (ground (arith, n))))
  ]
]

-- The line `set rf` or `set mp` with decimal digits, of a number below 2^63, reaches the state as
-- follows. The number counts modulo 2^32. If that is at most 255, and either not 0 or written as a
-- single 0, it becomes the random factor or the master preference, and the master rank is
-- calculated from it and the interface address; if it is above 255, or 0 but not written as a
-- single 0, the line is refused and the state stays. In both cases there is no last command any
-- more.
pub set_lem :
    (c : Context) (l : Terminal) (t : Target) (d : ℕ) (ds : List ℕ)
    → AreDigits (d ∷ ds)
    → value 0 (d ∷ ds) < 2 ^ 63
    → let number = value 0 (d ∷ ds) % 2 ^ 32 in
      let result = handle_cmd c l (codes "set " ++ written t ++ b' ' ∷ digits (d ∷ ds)) in
      (IsNumber (d ∷ ds)
        → number ≤ 255
        → result
          ≡ handled value_set (record {
            nan_state = with_rank l.nan_state (assign t number l.nan_state.sync);
            last_cmd = none;
          }))
      × ((255 < number) ⊎ (¬ IsNumber (d ∷ ds))
          → result ≡ handled refused (record { nan_state = l.nan_state; last_cmd = none }))
set_lem c l t d ds h k =
    let s = l.nan_state in
    let number = value 0 (d ∷ ds) % 2 ^ 32 in
    let line =
      set_line c l t (b'0' + d) (digits ds)
        (strtok_word (b'0' + d) (digits ds) (digits-NoSpace (d ∷ ds) h)) in
    let spelled = atoi-digits d ds h k in
    (
      (λ n r.
          let octet : residue (2 ^ 8) (signed (2 ^ 31) number) ≡ number = ground (arith, r) in
          line
          ∙ ap forget (set_target_valid s t (digits (d ∷ ds)) (valid_digits d ds h k n r))
          ∙ ap (λ z. forget (done value_set (with_rank s (assign t (residue (2 ^ 8) z) s.sync))))
              spelled
          ∙ ap (λ z. forget (done value_set (with_rank s (assign t z s.sync)))) octet),
      (λ r.
          line ∙ ap forget (set_target_refused s t (digits (d ∷ ds)) (refused_digits d ds h k r))),
    )
