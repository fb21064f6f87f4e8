-- ===== src/Text/Search.antt =====
-- `find`, `find_first_of`, `substr`, `==` and the arithmetic on positions.
use Prim.Native.Char.{code}
use Prim.Native.String.{String}
use lazy_team.Base.{
  ℕ, suc, ◌+◌, ◌-◌, Bool, true, false, ◌&&◌, List, [], ◌∷◌, Option, none, some, ◌≢◌, ltb, leb, ◌==◌,
  if◌then◌else◌, length, take, drop, All, Outcome, ok, fault, out_of_range,
}
use mathlib.Core.Option

abbrev pub Bytes : Type 0
Bytes = List ℕ

-- The bytes of a literal, which is ASCII.
abbrev pub codes : String → Bytes
codes String.[] = []
codes (String.◌∷◌ c s) = code c ∷ codes s

abbrev pub crlf : Bytes
crlf = b'\r' ∷ b'\n' ∷ []

abbrev pub Lacks : ℕ → Bytes → Type 0
Lacks b = All (λ c. c ≢ b)

-- `a == b`, `!a.compare(b)`
unfoldable pub text_eq : Bytes → Bytes → Bool
text_eq [] [] = true
text_eq (x ∷ xs) (y ∷ ys) = x == y && text_eq xs ys
text_eq _ _ = false

-- `s.compare(0, p.length(), p) == 0`
unfoldable pub starts_with : Bytes → Bytes → Bool
starts_with [] s = true
starts_with (p ∷ ps) [] = false
starts_with (p ∷ ps) (c ∷ s) = p == c && starts_with ps s

-- `s.find(p)`
unfoldable pub find : Bytes → Bytes → Option ℕ
unfolding starts_with
find p [] = if starts_with p [] then some 0 else none
find p (c ∷ s) = if starts_with p (c ∷ s) then some 0 else Option.map suc (find p s)

-- `s.find_first_of(set)`, the set given by its test
unfoldable pub find_class : (ℕ → Bool) → Bytes → Option ℕ
find_class test [] = none
find_class test (c ∷ s) = if test c then some 0 else Option.map suc (find_class test s)

-- `pos + k` for a small positive `k`: `npos` is the greatest number, and wraps around to `k - 1`.
abbrev pub plus : Option ℕ → ℕ → ℕ
plus none k = k - 1
plus (some p) k = p + k

-- `s.find(p, pos)`
unfoldable pub find_from : Bytes → Bytes → ℕ → Option ℕ
unfolding find
find_from p s pos =
    if ltb (length s) pos then none else Option.map (λ i. i + pos) (find p (drop pos s))

-- `s.substr(pos, n)`, with `none` for a count of `npos`; it throws behind the end.
unfoldable pub substr : Bytes → ℕ → Option ℕ → Outcome Bytes
substr s pos none = if ltb (length s) pos then fault out_of_range else ok (drop pos s)
substr s pos (some n) = if ltb (length s) pos then fault out_of_range else ok (take n (drop pos s))

-- `::tolower` in the C locale
unfoldable pub to_lower : ℕ → ℕ
to_lower c = if leb b'A' c && leb c b'Z' then c + 32 else c
