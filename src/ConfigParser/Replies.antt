-- ===== src/ConfigParser/Replies.antt =====
-- What a step of src/ConfigParser.cpp comes to.
use lazy_team.Base.{ℕ, zero, suc, List, [], ◌∷◌, Fault, out_of_range}

-- The message of `putError`; `no_message` is an ERROR that is handed on, or the end of the file inside a block.
pub data Error : Type 0 where
  read_line name_match semantic name_dup no_entity open_file no_message : Error

pub data Reply {ℓ} (A : Type ℓ) : Type ℓ where
  done : A → Reply A
  error : Error → Reply A
  aborted : Fault → Reply A

infixl 5 ◌>>=◌
abbrev pub ◌>>=◌ {ℓ ℓ'} : {X : Type ℓ} {Y : Type ℓ'} → Reply X → (X → Reply Y) → Reply Y
aborted reason >>= next = aborted reason
error message >>= next = error message
done value >>= next = next value

-- `elements[i]`
unfoldable pub at {ℓ} : {A : Type ℓ} → List A → ℕ → Reply A
at [] i = aborted out_of_range
at (x ∷ xs) zero = done x
at (x ∷ xs) (suc i) = at xs i
