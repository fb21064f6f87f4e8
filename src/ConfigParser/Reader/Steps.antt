-- ===== src/ConfigParser/Reader/Steps.antt =====
-- `getSemanticLine` of src/ConfigParser.cpp goes on in the file with every line, and its loops end.
use lazy_team.Base.{
  ℕ, zero, suc, ◌+◌, ◌≤◌, ◌<◌, Bool, true, false, [], ◌∷◌, ◌++◌, ◌≡◌, refl, ap, subst, sym, arith,
  if◌then◌else◌, length, take, drop, take-append-drop, none, some, All, All-append,
}
use lazy_team.Text.{Bytes, codes, find}
use lazy_team.ConfigParser.Reader.{
  ConfigFile, line_room, ChunkEnd, line_end, full, file_end, read_chunk, until_nul, Line, got,
  ended, failed, stuck, is_white, after_chunk, get_line, after_line, semantic_lines,
  get_semantic_line, trim_whitespace, cut_comment,
}
use lazy_team.ConfigParser.Reader.Chunks.{
  IsChunk, read_chunk-IsChunk, All-until_nul, IsChunk-All, All_front, All_back,
}
use lazy_team.ConfigParser.Reader.Trim.{FirstStays, trim_whitespace-IsTrimmed}

-- The bytes that are left, and one for the end of the file as long as no read has met it.
abbrev pub left : ConfigFile → ℕ
left f = length f.rest + (if f.at_eof then 0 else 1)

-- The rounds that the inner loop needs.
abbrev pub needs : ConfigFile → ℕ
needs f = length f.rest + (if f.at_eof then 1 else 2)

pub open_lem :
    (f : ConfigFile)
    → f.at_eof ≡ false
    → (left f ≡ length f.rest + 1) × (needs f ≡ length f.rest + 2)
open_lem f e = (
  ap (λ (b : Bool). length f.rest + (if b then 0 else 1)) e,
  ap (λ (b : Bool). length f.rest + (if b then 1 else 2)) e,
)

-- A case split on a test, with what it came to.
pub case_true :
    (P : Line × ConfigFile → Type 0) (b : Bool) (x y : Line × ConfigFile)
    → (b ≡ true → P x)
    → (b ≡ false → P y)
    → P (if b then x else y)
case_true P true x y h k = h refl
case_true P false x y h k = k refl

module _ (P : ℕ → Type 0) where
  -- A line takes something of what is left, and what holds of all bytes holds of its bytes.
  abbrev pub IsRead : ℕ → Line × ConfigFile → Type 0
  IsRead n (got line, f) = (left f < n) × All P line × All P f.rest
  IsRead n (ended line, f) = (left f ≤ n) × All P f.rest
  IsRead n (failed, f) = (left f ≤ n) × All P f.rest
  IsRead n (stuck, f) = ⊥

  IsRead-le : (m n : ℕ) (r : Line × ConfigFile) → m ≤ n → IsRead m r → IsRead n r
  IsRead-le m n (got line, f) h (r, p, q) = (omega arith, p, q)
  IsRead-le m n (ended line, f) h (r, p) = (omega arith, p)
  IsRead-le m n (failed, f) h (r, p) = (omega arith, p)
  IsRead-le m n (stuck, f) h r = absurd r

  after_chunk-IsRead :
      (fuel : ℕ) (again : Bytes → ConfigFile → Line × ConfigFile) (how : ChunkEnd)
      (line stored : Bytes) (f g : ConfigFile)
      → ((l : Bytes) (h : ConfigFile)
          → needs h ≤ fuel
          → All P l
          → All P h.rest
          → IsRead (left h) (again l h))
      → f.at_eof ≡ false
      → IsChunk line_room f.rest how stored g.rest
      → g.at_eof ≡ false
      → needs f ≤ suc fuel
      → All P line
      → All P stored × All P g.rest
      → IsRead (left f) (after_chunk again how line stored g)
  unfolding after_chunk
  after_chunk-IsRead fuel again line_end line stored f g ih e c eg h al (al', ag) = (
    omega (arith, open_lem f e, open_lem g eg, c.3),
    All-append P line (until_nul stored) al (All-until_nul P stored al'),
    ag,
  )
  after_chunk-IsRead fuel again full line stored f g ih e c eg h al (al', ag) =
      IsRead-le (left g) (left f) (again (line ++ until_nul stored) g)
        (omega (arith, open_lem f e, open_lem g eg, c.3))
        (ih (line ++ until_nul stored) g (omega (arith, open_lem f e, open_lem g eg, c.3))
          (All-append P line (until_nul stored) al (All-until_nul P stored al')) ag)
  after_chunk-IsRead fuel again file_end line [] f g ih e c eg h al (al', ag) =
      case_true (IsRead (left f)) g.broken _ _
        (λ b. (omega (arith, open_lem f e, open_lem g eg, ap length c.1), ag))
        (λ b.
          IsRead-le (left (record g { at_eof = true })) (left f)
            (again line (record g { at_eof = true })) (omega (arith, open_lem f e, ap length c.1))
            (ih line (record g { at_eof = true }) (omega (arith, open_lem f e, ap length c.1)) al
              ag))
  after_chunk-IsRead fuel again file_end line (x ∷ s) f g ih e c eg h al (al', ag) =
      case_true (IsRead (left f)) g.broken _ _
        (λ b. (omega (arith, open_lem f e, open_lem g eg, ap length c.1), ag))
        (λ b. (
          omega (arith, open_lem f e, ap length c.1),
          All-append P line (until_nul (x ∷ s)) al (All-until_nul P (x ∷ s) al'),
          ag,
        ))

  get_line-IsRead :
      (fuel : ℕ) (line : Bytes) (f : ConfigFile)
      → needs f ≤ fuel
      → All P line
      → All P f.rest
      → IsRead (left f) (get_line fuel line f)
  unfolding get_line
  get_line-IsRead zero line f h al af = absurd (ground arith)
  get_line-IsRead (suc fuel) line f h al af =
      let k = read_chunk line_room f.rest in
      case_true (IsRead (left f)) f.at_eof _ _ (λ e. (omega arith, af))
        (λ e.
          after_chunk-IsRead fuel (λ l g. get_line fuel l g) k.how line k.stored f
            (record f { rest = k.behind }) (λ l g. get_line-IsRead fuel l g) e
            (read_chunk-IsChunk line_room f.rest) e h al
            (IsChunk-All P line_room f.rest k.how k.stored k.behind
              (read_chunk-IsChunk line_room f.rest) af))

  -- The same of `getSemanticLine`, whose line begins with a byte that is not white.
  abbrev pub IsSemantic : ℕ → Line × ConfigFile → Type 0
  IsSemantic n (got [], f) = ⊥
  IsSemantic n (got (c ∷ line), f) =
      (left f < n) × (is_white c ≡ false) × All P (c ∷ line) × All P f.rest
  IsSemantic n (ended line, f) = (left f ≤ n) × All P f.rest
  IsSemantic n (failed, f) = (left f ≤ n) × All P f.rest
  IsSemantic n (stuck, f) = ⊥

  IsSemantic-le : (m n : ℕ) (r : Line × ConfigFile) → m ≤ n → IsSemantic m r → IsSemantic n r
  IsSemantic-le m n (got [], f) h r = absurd r
  IsSemantic-le m n (got (c ∷ line), f) h (r, p, q, s) = (omega arith, p, q, s)
  IsSemantic-le m n (ended line, f) h (r, p) = (omega arith, p)
  IsSemantic-le m n (failed, f) h (r, p) = (omega arith, p)
  IsSemantic-le m n (stuck, f) h r = absurd r

  All-trim : (s : Bytes) → All P s → All P (trim_whitespace s)
  All-trim s h =
      let t = trim_whitespace-IsTrimmed s in
      All_front P (trim_whitespace s) t.back
        (All_back P t.front (trim_whitespace s ++ t.back) (subst (All P) t.parts h))

  All-cut : (s : Bytes) → All P s → All P (cut_comment s)
  unfolding cut_comment
  All-cut s h =
      elim (find (codes "#") s) as (λ o. All P (elim o [ none ↦ s | some p ↦ take p s ])) [
        | none ↦ h
        | some p ↦ All_front P (take p s) (drop p s) (subst (All P) (sym (take-append-drop p s)) h)
      ]

  after_line-IsSemantic :
      (n : ℕ) (again : ConfigFile → Line × ConfigFile) (r : Line × ConfigFile)
      → ((h : ConfigFile) → left h < n → All P h.rest → IsSemantic (left h) (again h))
      → IsRead n r
      → IsSemantic n (after_line again r)
  unfolding after_line
  after_line-IsSemantic n again (got line, f) ih (h, al, af) =
      let t = trim_whitespace (cut_comment line) in
      go t (All-trim (cut_comment line) (All-cut line al))
        (trim_whitespace-IsTrimmed (cut_comment line)).first_stays
    where
      go :
          (t : Bytes)
          → All P t
          → FirstStays t
          → IsSemantic n (elim t [
            | [] ↦ again (record f { line_num = f.line_num + 1 })
            | c ∷ s ↦ (got (c ∷ s), record f { line_num = f.line_num + 1 })
          ])
      go [] a b =
          IsSemantic-le (left f) n (again (record f { line_num = f.line_num + 1 })) (omega arith)
            (ih (record f { line_num = f.line_num + 1 }) h af)
      go (c ∷ s) a b = (h, b, a, af)
  after_line-IsSemantic n again (ended line, f) ih h = h
  after_line-IsSemantic n again (failed, f) ih h = h
  after_line-IsSemantic n again (stuck, f) ih h = absurd h

  semantic_lines-IsSemantic :
      (fuel : ℕ) (f : ConfigFile)
      → left f < fuel
      → All P f.rest
      → IsSemantic (left f) (semantic_lines fuel f)
  unfolding semantic_lines
  semantic_lines-IsSemantic zero f h a = absurd (omega arith)
  semantic_lines-IsSemantic (suc fuel) f h a =
      after_line-IsSemantic (left f) (λ g. semantic_lines fuel g)
        (get_line (length f.rest + 2) [] f)
        (λ g k b. semantic_lines-IsSemantic fuel g (omega arith) b)
        (get_line-IsRead (length f.rest + 2) [] f (ground arith) tt a)

  pub get_semantic_line-IsSemantic :
      (f : ConfigFile) → All P f.rest → IsSemantic (left f) (get_semantic_line f)
  unfolding get_semantic_line
  get_semantic_line-IsSemantic f a =
      semantic_lines-IsSemantic (length f.rest + 2) f (ground arith) a
