-- ===== src/Cmd/Repeat.antt =====
-- What an empty line does after a command that prints.
use opennan.Prelude.{ℕ, ◌≡◌, ap, ◌∙◌, Option, none, some, List, [], ◌∷◌, ◌++◌}
use opennan.Cmd.Text.{space, non_empty, cut}
use opennan.Cmd.Defs.{Context, Output}
use opennan.Cmd.Terminal.{
  Terminal, Handled, handled, crashed, forget, handle_cmd, handle_line, information, action,
}
use opennan.Cmd.Tokens.{NoSpace, strtok_word, strtok_first, cut_word, cut_first}

module _ (k : Context) (l : Terminal) (c : ℕ) (w : List ℕ) (h : NoSpace (c ∷ w)) where
  -- What a command does with its first word, what is behind that, and what remains of the line.
  abbrev with_word : Option (List ℕ) × List ℕ → List ℕ → Handled
  with_word z line = elim z.0 [
    | none ↦ crashed
    | some word ↦ elim (information word (non_empty z.1)) as (λ o. Handled) [
      | some output ↦ handled output (record l { last_cmd = some line })
      | none ↦ forget (action k l.nan_state word (non_empty z.1))
    ]
  ]

  abbrev printed : Option Output → Option (List ℕ) → Handled
  printed o args = elim o [
    | some output ↦ handled output (record l { last_cmd = some (c ∷ w) })
    | none ↦ forget (action k l.nan_state (c ∷ w) args)
  ]

  handle_line-word :
      (output : Output)
      → information (c ∷ w) none ≡ some output
      → handle_line k l (c ∷ w) ≡ handled output (record l { last_cmd = some (c ∷ w) })
  unfolding handle_line
  handle_line-word output e =
      ap (λ z. with_word z (cut (c ∷ w))) (strtok_word c w h)
      ∙ ap (λ z. with_word (some (c ∷ w), []) z) (cut_word c w h)
      ∙ ap (λ o. printed o none) e

  handle_line-first :
      (args : List ℕ) (output : Output)
      → information (c ∷ w) (non_empty args) ≡ some output
      → handle_line k l ((c ∷ w) ++ space ∷ args)
        ≡ handled output (record l { last_cmd = some (c ∷ w) })
  unfolding handle_line
  handle_line-first args output e =
      ap (λ z. with_word z (cut ((c ∷ w) ++ space ∷ args))) (strtok_first c w h args)
      ∙ ap (λ z. with_word (some (c ∷ w), args) z) (cut_first c w h args)
      ∙ ap (λ o. printed o (non_empty args)) e

-- A line with a word of no spaces that prints information, a space and arguments, prints that with
-- these arguments, and leaves the state as it is. An empty line after it prints what the word
-- prints without arguments: they are not part of the last command. Another empty line does so
-- again.
pub handle_cmd-repeated :
    (k : Context) (l : Terminal) (c : ℕ) (w args : List ℕ) (output plain : Output)
    → NoSpace (c ∷ w)
    → information (c ∷ w) (non_empty args) ≡ some output
    → information (c ∷ w) none ≡ some plain
    → let after = record l { last_cmd = some (c ∷ w) } in
      (handle_cmd k l ((c ∷ w) ++ space ∷ args) ≡ handled output after)
      × (handle_cmd k after [] ≡ handled plain after)
unfolding handle_cmd
handle_cmd-repeated k l c w args output plain h e f =
    let after : Terminal = record l { last_cmd = some (c ∷ w) } in
    (handle_line-first k l c w h args output e, handle_line-word k after c w h plain f)
