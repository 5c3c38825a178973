-- ===== src/Cmd/Text.antt =====
-- What daemon/cmd.c and daemon/core.c call of the C library on strings: `strtok`, `strcmp`,
-- `strstr` and `atoi`. A string is its characters before the NUL.
use Prim.Native.Char.{code}
use Prim.Native.String.{String}
use opennan.Prelude.{
  ℕ, ◌+◌, ◌-◌, ◌*◌, ◌%◌, ◌^◌, Bool, true, false, ◌&&◌, ◌||◌, Option, none, some, List, [], ◌∷◌,
  ◌++◌, min, leb, ◌==◌, if◌then◌else◌,
}
use opennan.Prelude.Int.{ℤ, pos, signed, residue, sub_ℕ}

abbrev pub codes : String → List ℕ
codes String.[] = []
codes (String.◌∷◌ c s) = code c ∷ codes s

-- The `char` of a space.
abbrev pub space : ℕ
space = 32

-- The leading spaces, and what is behind them.
unfoldable pub leading : List ℕ → List ℕ
leading [] = []
leading (c ∷ text) = if c == space then c ∷ leading text else []

unfoldable pub behind_leading : List ℕ → List ℕ
behind_leading [] = []
behind_leading (c ∷ text) = if c == space then behind_leading text else c ∷ text

-- The characters up to the first space, and what is behind that space.
unfoldable pub token : List ℕ → List ℕ
token [] = []
token (c ∷ text) = if c == space then [] else c ∷ token text

unfoldable pub behind_token : List ℕ → List ℕ
behind_token [] = []
behind_token (c ∷ text) = if c == space then text else behind_token text

-- NULL for the empty string.
abbrev pub non_empty : List ℕ → Option (List ℕ)
non_empty [] = none
non_empty (c ∷ text) = some (c ∷ text)

-- `strtok(text, " ")`: the token, if there is one, and where the next call goes on.
unfoldable pub strtok : List ℕ → Option (List ℕ) × List ℕ
unfolding behind_leading token behind_token
strtok text = let rest = behind_leading text in (non_empty (token rest), behind_token rest)

-- The first call of a function that may be given NULL: `strtok` then goes on where it was, which is
-- the end of the line.
unfoldable pub strtok_args : Option (List ℕ) → Option (List ℕ) × List ℕ
unfolding strtok
strtok_args none = strtok []
strtok_args (some text) = strtok text

-- What the string is after that call: it ends behind the token, where a NUL was written.
unfoldable pub cut : List ℕ → List ℕ
unfolding leading behind_leading token
cut text = leading text ++ token (behind_leading text)

-- `isspace` and `isdigit` in the C locale.
abbrev pub is_space : ℕ → Bool
is_space c = c == 32 || (leb 9 c && leb c 13)

abbrev pub is_digit : ℕ → Bool
is_digit c = leb 48 c && leb c 57

-- The number that the leading digits spell, behind one that was read.
unfoldable pub read_digits : ℕ → List ℕ → ℕ
read_digits n [] = n
read_digits n (c ∷ text) =
    let rest = read_digits (n * 10 + (c - 48)) text in if is_digit c then rest else n

-- `strtol` takes a number that a `long` does not hold for the nearest that it does, and `atoi`
-- makes an `int` of that.
unfoldable pub to_number : Bool → ℕ → ℤ
to_number true n = signed (2 ^ 31) (residue (2 ^ 32) (sub_ℕ 0 (min n (2 ^ 63))))
to_number false n = signed (2 ^ 31) (min n (2 ^ 63 - 1) % 2 ^ 32)

unfoldable pub signed_number : List ℕ → ℤ
unfolding read_digits to_number
signed_number [] = pos 0
signed_number (c ∷ text) =
    if c == b'-'
    then to_number true (read_digits 0 text)
    else if c == b'+'
    then to_number false (read_digits 0 text)
    else to_number false (read_digits 0 (c ∷ text))

unfoldable pub atoi : List ℕ → ℤ
unfolding signed_number
atoi [] = pos 0
atoi (c ∷ text) = if is_space c then atoi text else signed_number (c ∷ text)
