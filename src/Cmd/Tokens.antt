-- ===== src/Cmd/Tokens.antt =====
-- `strtok` on a text without spaces.
use opennan.Prelude.{ℕ, ◌≡◌, ◌≢◌, refl, some, List, [], ◌∷◌, ◌++◌, arith, All}
use opennan.Cmd.Text.{space, leading, behind_leading, token, behind_token, strtok, cut}

-- A word: no space, and not empty.
abbrev pub NoSpace : List ℕ → Type 0
NoSpace = All (λ c. c ≢ space)

pub token-NoSpace : (w : List ℕ) → NoSpace w → token w ≡ w
unfolding token
token-NoSpace [] h = refl
token-NoSpace (c ∷ w) h = ground (arith, token-NoSpace w h.1, h.0)

pub behind_token-NoSpace : (w : List ℕ) → NoSpace w → behind_token w ≡ []
unfolding behind_token
behind_token-NoSpace [] h = refl
behind_token-NoSpace (c ∷ w) h = ground (arith, behind_token-NoSpace w h.1, h.0)

pub token-append : (w rest : List ℕ) → NoSpace w → token (w ++ space ∷ rest) ≡ w
unfolding token
token-append [] rest h = refl
token-append (c ∷ w) rest h = ground (arith, token-append w rest h.1, h.0)

pub behind_token-append : (w rest : List ℕ) → NoSpace w → behind_token (w ++ space ∷ rest) ≡ rest
unfolding behind_token
behind_token-append [] rest h = refl
behind_token-append (c ∷ w) rest h = ground (arith, behind_token-append w rest h.1, h.0)

pub behind_leading-NoSpace : (c : ℕ) (w : List ℕ) → c ≢ space → behind_leading (c ∷ w) ≡ c ∷ w
unfolding behind_leading
behind_leading-NoSpace c w h = ground arith

pub leading-NoSpace : (c : ℕ) (w : List ℕ) → c ≢ space → leading (c ∷ w) ≡ []
unfolding leading
leading-NoSpace c w h = ground arith

module _ (c : ℕ) (w : List ℕ) (h : NoSpace (c ∷ w)) where
  pub strtok_word : strtok (c ∷ w) ≡ (some (c ∷ w), [])
  unfolding strtok
  strtok_word =
      rw (behind_leading-NoSpace c w h.0, token-NoSpace (c ∷ w) h, behind_token-NoSpace (c ∷ w) h)
        refl

  pub cut_word : cut (c ∷ w) ≡ c ∷ w
  unfolding cut
  cut_word =
      rw (leading-NoSpace c w h.0, behind_leading-NoSpace c w h.0, token-NoSpace (c ∷ w) h) refl

  module _ (rest : List ℕ) where
    pub strtok_first : strtok ((c ∷ w) ++ space ∷ rest) ≡ (some (c ∷ w), rest)
    unfolding strtok
    strtok_first =
        rw
          (
            behind_leading-NoSpace c (w ++ space ∷ rest) h.0,
            token-append (c ∷ w) rest h,
            behind_token-append (c ∷ w) rest h,
          )
          refl

    pub cut_first : cut ((c ∷ w) ++ space ∷ rest) ≡ c ∷ w
    unfolding cut
    cut_first =
        rw
          (
            leading-NoSpace c (w ++ space ∷ rest) h.0,
            behind_leading-NoSpace c (w ++ space ∷ rest) h.0,
            token-append (c ∷ w) rest h,
          )
          refl
