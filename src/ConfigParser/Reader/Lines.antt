-- ===== src/ConfigParser/Reader/Lines.antt =====
-- `getSemanticLine` of src/ConfigParser.cpp reads as if its buffer had no bound.
use lazy_team.Base.{
  ℕ, zero, suc, ◌+◌, ◌≤◌, ◌<◌, Bool, true, false, List, [], ◌∷◌, ◌++◌, ◌≡◌, ◌≢◌, ◌⊎◌, inl, inr,
  refl, ap, subst, sym, ◌∙◌, arith, ◌==◌, if◌then◌else◌, length, Bool-cases, append_assoc,
}
use lazy_team.Text.{Bytes, Lacks}
use lazy_team.ConfigParser.Reader.{
  ConfigFile, line_room, ChunkEnd, line_end, full, file_end, read_chunk, until_nul, Line, got,
  ended, after_chunk, get_line, after_line, semantic_lines, get_semantic_line, trim_whitespace,
  cut_comment,
}
use lazy_team.ConfigParser.Reader.Chunks.{
  IsChunk, read_chunk-IsChunk, until_nul_lem, first_line, behind_line, is_last, behind_line-le,
  All_front, All_back, All-first_line, All-behind_line,
}
use lazy_team.ConfigParser.Reader.Steps.{case_true}

put_byte : ℕ → List Bytes → List Bytes
put_byte c [] = (c ∷ []) ∷ []
put_byte c (l ∷ ls) = (c ∷ l) ∷ ls

-- The lines of a text.
unfoldable pub lines : Bytes → List Bytes
unfolding put_byte
lines [] = []
lines (c ∷ s) = if c == b'\n' then [] ∷ lines s else put_byte c (lines s)

-- The first of some lines that is not blank, without its comment and the blanks around it; the number
-- of the line, counted on from `n`; and the lines behind it.
unfoldable pub first_semantic : ℕ → List Bytes → Line × ℕ × List Bytes
first_semantic n [] = (ended [], n, [])
first_semantic n (l ∷ ls) = elim (trim_whitespace (cut_comment l)) [
  | [] ↦ first_semantic (n + 1) ls
  | c ∷ s ↦ (got (c ∷ s), n + 1, ls)
]

lines_lem : (c : ℕ) (s : Bytes) → lines (c ∷ s) ≡ first_line (c ∷ s) ∷ lines (behind_line (c ∷ s))
unfolding lines put_byte first_line behind_line
lines_lem c [] = ground arith
lines_lem c (d ∷ s) = elim (Bool-cases (c == b'\n')) [
  | inl e ↦ rw e refl
  | inr e ↦ rw e (ap (put_byte c) (lines_lem d s))
]

-- The file behind its first line.
abbrev next : ConfigFile → ConfigFile
next f = record f { rest = behind_line f.rest; at_eof = is_last f.rest }

got_eq :
    (l m : Bytes) (g : ConfigFile) (r : Bytes) (b : Bool)
    → l ≡ m
    → g.rest ≡ r
    → g.at_eof ≡ b
    → ◌≡◌ {A = Line × ConfigFile} (got l, g) (got m, record g { rest = r; at_eof = b })
got_eq l m g r b p q e =
    ap (λ (l : Bytes). (got l, g)) p
    ∙ ap (λ (r : Bytes). (got m, record g { rest = r })) q
    ∙ ap (λ (b : Bool). (got m, record g { rest = r; at_eof = b })) e

after_chunk-plain :
    (again : Bytes → ConfigFile → Line × ConfigFile) (how : ChunkEnd) (line stored : Bytes)
    (f g : ConfigFile)
    → ((l : Bytes)
        → 1 ≤ length g.rest
        → length g.rest + line_room ≤ length f.rest
        → Lacks 0 g.rest
        → again l g ≡ (got (l ++ first_line g.rest), next g))
    → g.at_eof ≡ false
    → g.broken ≡ false
    → IsChunk line_room f.rest how stored g.rest
    → Lacks 0 f.rest
    → 1 ≤ length f.rest
    → after_chunk again how line stored g ≡ (
      got (line ++ first_line f.rest),
      record g { rest = behind_line f.rest; at_eof = is_last f.rest },
    )
unfolding after_chunk
after_chunk-plain again line_end line stored f g ih e b c h k =
    got_eq _ _ g _ _
      (ap (λ (l : Bytes). line ++ until_nul l) c.0
        ∙ ap (◌++◌ line) (until_nul_lem (first_line f.rest) (All-first_line (λ b. b ≢ 0) f.rest h)))
      c.1 (e ∙ sym c.2)
after_chunk-plain again full line stored f g ih e b c h k =
    let parts = subst (Lacks 0) c.5 h in
    ih (line ++ until_nul stored) c.4 (omega (arith, c.3))
      (All_back (λ b. b ≢ 0) stored g.rest parts)
    ∙ got_eq _ _ (next g) _ _
        (append_assoc line (until_nul stored) (first_line g.rest)
          ∙ ap (λ (l : Bytes). line ++ (l ++ first_line g.rest))
              (until_nul_lem stored (All_front (λ b. b ≢ 0) stored g.rest parts))
          ∙ ap (◌++◌ line) (sym c.0))
        (sym c.1) (sym c.2)
after_chunk-plain again file_end line [] f g ih e b c h k = absurd (omega (arith, ap length c.0))
after_chunk-plain again file_end line (x ∷ s) f g ih e b c h k =
    case_true
      (λ r. ◌≡◌ {A = Line × ConfigFile} r (
        got (line ++ first_line f.rest),
        record g { rest = behind_line f.rest; at_eof = is_last f.rest },
      ))
      g.broken _ _ (λ t. cc)
      (λ t.
        got_eq _ _ (record g { at_eof = true }) _ _
          (ap (λ (l : Bytes). line ++ until_nul l) c.0
            ∙ ap (◌++◌ line) (until_nul_lem f.rest h ∙ sym c.2))
          (c.1 ∙ sym c.3) (sym c.4))

pub get_line-plain :
    (fuel : ℕ) (line : Bytes) (f : ConfigFile)
    → f.at_eof ≡ false
    → f.broken ≡ false
    → Lacks 0 f.rest
    → 1 ≤ length f.rest
    → length f.rest ≤ fuel
    → get_line fuel line f ≡ (got (line ++ first_line f.rest), next f)
unfolding get_line
get_line-plain zero line f e b h k n = absurd (omega arith)
get_line-plain (suc fuel) line f e b h k n =
    let k0 = read_chunk line_room f.rest in
    case_true (λ r. r ≡ (got (line ++ first_line f.rest), next f)) f.at_eof _ _ (λ t. cc)
      (λ t.
        after_chunk-plain (λ l g. get_line fuel l g) k0.how line k0.stored f
          (record f { rest = k0.behind })
          (λ l i j m. get_line-plain fuel l (record f { rest = k0.behind }) e b m i (omega arith)) e
          b (read_chunk-IsChunk line_room f.rest) h k)

-- At the end of the file nothing is read.
get_line-nil :
    (fuel n : ℕ) (b : Bool)
    → get_line (suc (suc fuel)) [] (record { rest = []; broken = false; at_eof = b; line_num = n })
      ≡ (ended [], record { rest = []; broken = false; at_eof = true; line_num = n })
unfolding get_line after_chunk read_chunk
get_line-nil fuel n true = refl
get_line-nil fuel n false = refl

-- A file that met its end has nothing left.
abbrev pub IsFile : ConfigFile → Type 0
IsFile f = (f.at_eof ≡ false) ⊎ (f.rest ≡ [])

next-IsFile : (s : Bytes) → (is_last s ≡ false) ⊎ (behind_line s ≡ [])
unfolding is_last behind_line
next-IsFile [] = inr refl
next-IsFile (c ∷ s) = elim (Bool-cases (c == b'\n')) [
  | inl e ↦ rw e (inl refl)
  | inr e ↦ rw e (next-IsFile s)
]

-- What is compared: the line, its number, and the lines behind it.
abbrev pub seen : Line × ConfigFile → Line × ℕ × List Bytes
seen r = (r.0, r.1.line_num, lines r.1.rest)

after_line-seen :
    (again : ConfigFile → Line × ConfigFile) (l : Bytes) (f : ConfigFile)
    → seen (again (record f { line_num = f.line_num + 1 }))
      ≡ first_semantic (f.line_num + 1) (lines f.rest)
    → seen (after_line again (got l, f)) ≡ first_semantic f.line_num (l ∷ lines f.rest)
unfolding after_line first_semantic
after_line-seen again l f h =
    elim (trim_whitespace (cut_comment l))
      as (λ t.
        seen (elim t [
          | [] ↦ again (record f { line_num = f.line_num + 1 })
          | c ∷ s ↦ (got (c ∷ s), record f { line_num = f.line_num + 1 })
        ])
        ≡ elim t [
          | [] ↦ first_semantic (f.line_num + 1) (lines f.rest)
          | c ∷ s ↦ (got (c ∷ s), f.line_num + 1, lines f.rest)
        ]) [ [] ↦ h | c ∷ s ↦ refl ]

behind_line-lt : (c : ℕ) (s : Bytes) → length (behind_line (c ∷ s)) ≤ length s
unfolding behind_line
behind_line-lt c s = elim (Bool-cases (c == b'\n')) [
  | inl e ↦ rw e (omega arith)
  | inr e ↦ rw e (behind_line-le s)
]

semantic_lines-seen :
    (fuel : ℕ) (s : Bytes) (b : Bool) (n : ℕ)
    → length s < fuel
    → (b ≡ false) ⊎ (s ≡ [])
    → Lacks 0 s
    → seen (semantic_lines fuel (record { rest = s; broken = false; at_eof = b; line_num = n }))
      ≡ first_semantic n (lines s)
unfolding semantic_lines after_line lines first_semantic
semantic_lines-seen zero s b n k i h = absurd (omega arith)
semantic_lines-seen (suc fuel) [] b n k i h =
    ap (λ r. seen (after_line (λ g. semantic_lines fuel g) r)) (get_line-nil 0 n b)
semantic_lines-seen (suc fuel) (c ∷ s) true n k (inl e) h = cc
semantic_lines-seen (suc fuel) (c ∷ s) true n k (inr e) h = cc
semantic_lines-seen (suc fuel) (c ∷ s) false n k i h =
    let f : ConfigFile = record { rest = c ∷ s; broken = false; at_eof = false; line_num = n } in
    ap (λ r. seen (after_line (λ g. semantic_lines fuel g) r))
      (get_line-plain (length (c ∷ s) + 2) [] f refl refl h (omega arith) (omega arith))
    ∙ after_line-seen (λ g. semantic_lines fuel g) (first_line (c ∷ s)) (next f)
        (semantic_lines-seen fuel (behind_line (c ∷ s)) (is_last (c ∷ s)) (n + 1)
          (omega (arith, behind_line-lt c s)) (next-IsFile (c ∷ s))
          (All-behind_line (λ b. b ≢ 0) (c ∷ s) h))
    ∙ ap (first_semantic n) (sym (lines_lem c s))

-- A file with no NUL byte whose reads do not fail: `getSemanticLine` gives the first line that is not
-- blank, cut at its comment and trimmed, counts every line that it passed, and goes on behind it; when
-- no such line is left it gives END_OF_FILE. A line's length does not matter.
pub get_semantic_line-lines :
    (f : ConfigFile)
    → f.broken ≡ false
    → IsFile f
    → Lacks 0 f.rest
    → seen (get_semantic_line f) ≡ first_semantic f.line_num (lines f.rest)
unfolding get_semantic_line
get_semantic_line-lines f b i h =
    ap (λ (b : Bool). seen (semantic_lines (length f.rest + 2) (record f { broken = b }))) b
    ∙ semantic_lines-seen (length f.rest + 2) f.rest f.at_eof f.line_num (omega arith) i h
