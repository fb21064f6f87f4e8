-- ===== src/CgiConnector/Strip.antt =====
-- The loop of `prepareResponse` of src/CgiConnector.cpp that removes the lines in front of the body.
use lazy_team.Base.{
  ℕ, zero, suc, ◌+◌, ◌≤◌, ◌<◌, [], ◌∷◌, ◌++◌, ◌⊎◌, append-nil, none, some, ◌≡◌, refl, sym, ap, ◌∙◌,
  length, take, drop, ◌-◌, Outcome, ok, fault, arith, Ends, length-drop, take-append-drop,
  append_assoc, Option-cases, inl, inr,
}
use lazy_team.Text.{Bytes, crlf, find, find-le, starts_with}
use lazy_team.CgiConnector.{strip_lines}

strip_none :
    (fuel : ℕ) (buff : Bytes) → find crlf buff ≡ none → strip_lines (suc fuel) buff ≡ ok buff
unfolding strip_lines
strip_none fuel buff e = rw (e, strip_lines)

strip_round :
    (fuel : ℕ) (buff : Bytes) (p : ℕ)
    → find crlf buff ≡ some p
    → strip_lines (suc fuel) buff ≡ strip_lines fuel (drop (p + 2) buff)
unfolding strip_lines
strip_round fuel buff p e = rw (e, strip_lines)

-- What is found is a line end.
take-crlf :
    (buff : Bytes) (p : ℕ) → find crlf buff ≡ some p → take (p + 2) buff ≡ take p buff ++ crlf
unfolding find starts_with
take-crlf [] p e = cc
take-crlf (c ∷ []) zero e = ground arith
take-crlf (c ∷ d ∷ s) zero e = ground arith
take-crlf (c ∷ s) (suc p) e = ground (arith, take-crlf s p)

-- It is empty, or its last two bytes are a line end.
abbrev pub EndsLine : Bytes → Type 0
EndsLine front = (front ≡ []) ⊎ ((g : Bytes) × (front ≡ g ++ crlf))

-- What is left of the output: the bytes behind its last line end.
abbrev pub Stripped : Bytes → Outcome Bytes → Type 0
Stripped buff o =
    (front : Bytes) × (b : Bytes) × (o ≡ ok b)
    × (buff ≡ front ++ b)
    × EndsLine front
    × (find crlf b ≡ none)

EndsLine-append : (l g front : Bytes) → l ≡ g ++ crlf → EndsLine front → EndsLine (l ++ front)
EndsLine-append l g front e (inl f) = inr (g, ap (λ (x : Bytes). l ++ x) f ∙ append-nil l ∙ e)
EndsLine-append l g front e (inr (h, f)) =
    inr (l ++ h, ap (λ (x : Bytes). l ++ x) f ∙ sym (append_assoc l h crlf))

strip-more :
    (buff : Bytes) (p : ℕ) (o : Outcome Bytes)
    → find crlf buff ≡ some p
    → Stripped (drop (p + 2) buff) o
    → Stripped buff o
strip-more buff p o found (front, b, e, parts, ends, lacks) = (
  take (p + 2) buff ++ front,
  b,
  e,
  sym (take-append-drop (p + 2) buff)
      ∙ ap (λ (l : Bytes). take (p + 2) buff ++ l) parts
      ∙ sym (append_assoc (take (p + 2) buff) front b),
  EndsLine-append (take (p + 2) buff) (take p buff) front (take-crlf buff p found) ends,
  lacks,
)

strip_fuel : (fuel : ℕ) (buff : Bytes) → length buff < fuel → Stripped buff (strip_lines fuel buff)
strip_fuel zero buff h = elim h [ ]
strip_fuel (suc fuel) buff h = elim (Option-cases (find crlf buff)) [
  | inl e ↦ ([], buff, strip_none fuel buff e, refl, inl refl, e)
  | inr (p, e) ↦
      let inside : p + 2 ≤ length buff = find-le crlf buff p e in
      let gone : length (drop (p + 2) buff) ≡ length buff - (p + 2) = length-drop (p + 2) buff in
      rw (strip_round fuel buff p e) (
        strip-more buff p (strip_lines fuel (drop (p + 2) buff)) e
          (strip_fuel fuel (drop (p + 2) buff) (omega arith)))
]

-- The loop ends within as many rounds as there are bytes and one more, and leaves exactly the bytes behind the last
-- line end of the output, or the whole output if it holds none.
pub strip_lines-Stripped : (buff : Bytes) → Stripped buff (strip_lines (length buff + 1) buff)
strip_lines-Stripped buff = strip_fuel (length buff + 1) buff (omega arith)

Stripped-Ends : (buff : Bytes) (o : Outcome Bytes) → Stripped buff o → Ends o
Stripped-Ends buff (ok b) h = tt
Stripped-Ends buff (fault e) (front, b, same, parts, ends, h) = cc

pub strip_lines-Ends : (buff : Bytes) → Ends (strip_lines (length buff + 1) buff)
strip_lines-Ends buff = Stripped-Ends buff _ (strip_lines-Stripped buff)
