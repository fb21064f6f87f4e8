-- ===== src/ConfigParser/Safe.antt =====
-- What is safe for a function of src/ConfigParser.cpp: it fails no assert, reads no element that is not
-- there, and its loops end.
pub mod Pages
pub mod Blocks
use lazy_team.Base.{
  ℕ, zero, suc, ◌+◌, ◌≤◌, ◌<◌, Bool, true, false, List, [], ◌∷◌, Option, none, some, ◌≡◌, ◌≢◌, inl,
  inr, refl, sym, subst, failed_assert, arith, if◌then◌else◌, length, All, Bool-cases,
}
use lazy_team.Text.{Bytes, Lacks, is_space, skip_space, word, after_word}
use lazy_team.ConfigParser.Replies.{Reply, done, error, aborted, at, ◌>>=◌}
use lazy_team.ConfigParser.Reader.{
  ConfigFile, Line, got, ended, failed, stuck, is_white, words, elements_of, line_reply,
  get_semantic_line, get_line_elements,
}
use lazy_team.ConfigParser.Reader.Steps.{left, IsSemantic, get_semantic_line-IsSemantic}
use lazy_team.ConfigParser.Blocks.{Parser, then_read}

-- No byte is a form feed, which is the one space that the code does not trim.
abbrev pub NoFormFeed : Bytes → Type 0
NoFormFeed = Lacks 12

-- The value has the property, and the rest of the file is no longer than `n` and has no form feed.
abbrev pub Fine : {A : Type 0} → (A → ConfigFile → Type 0) → ℕ → Reply A × ConfigFile → Type 0
Fine P n (done a, f) = P a f × (left f ≤ n) × NoFormFeed f.rest
Fine P n (error e, f) = (left f ≤ n) × NoFormFeed f.rest
Fine P n (aborted e, f) = ⊥

-- A reply with the property, which does not abort.
abbrev pub Sound : {A : Type 0} → (A → Type 0) → Reply A → Type 0
Sound P (done a) = P a
Sound P (error e) = Unit
Sound P (aborted e) = ⊥

pub reply-Fine :
    {A : Type 0} (P : A → ConfigFile → Type 0) (r : Reply A) (f : ConfigFile)
    → Sound (λ a. P a f) r
    → NoFormFeed f.rest
    → Fine P (left f) (r, f)
reply-Fine P (done a) f h n = (h, omega arith, n)
reply-Fine P (error e) f h n = (omega arith, n)
reply-Fine P (aborted e) f h n = absurd h

pub then_read-Fine :
    {A B : Type 0} (P : A → ConfigFile → Type 0) (Q : B → ConfigFile → Type 0) (n : ℕ)
    (r : Reply A × ConfigFile) (next : A → Parser B)
    → Fine P n r
    → ((a : A) (f : ConfigFile) → P a f → left f ≤ n → NoFormFeed f.rest → Fine Q n (next a f))
    → Fine Q n (then_read next r)
then_read-Fine P Q n (done a, f) next (p, l, h) k = k a f p l h
then_read-Fine P Q n (error e, f) next h k = h
then_read-Fine P Q n (aborted e, f) next h k = absurd h

pub Fine-le :
    {A : Type 0} (P : A → ConfigFile → Type 0) (m n : ℕ) (r : Reply A × ConfigFile)
    → m ≤ n
    → Fine P m r
    → Fine P n r
Fine-le P m n (done a, f) h (p, l, k) = (p, omega arith, k)
Fine-le P m n (error e, f) h (l, k) = (omega arith, k)
Fine-le P m n (aborted e, f) h k = absurd k

abbrev pub NonEmpty {ℓ} : {A : Type ℓ} → List A → Type 0
NonEmpty [] = ⊥
NonEmpty (x ∷ xs) = Unit

pub bind-Sound :
    {A B : Type 0} (P : A → Type 0) (Q : B → Type 0) (r : Reply A) (next : A → Reply B)
    → Sound P r
    → ((a : A) → P a → Sound Q (next a))
    → Sound Q (r >>= next)
bind-Sound P Q (done a) next h k = k a h
bind-Sound P Q (error e) next h k = tt
bind-Sound P Q (aborted e) next h k = absurd h

pub if-Sound :
    {A : Type 0} (P : A → Type 0) (b : Bool) (x y : Reply A)
    → (b ≡ true → Sound P x)
    → (b ≡ false → Sound P y)
    → Sound P (if b then x else y)
if-Sound P true x y h k = h refl
if-Sound P false x y h k = k refl

pub option-Sound :
    {A B : Type 0} (P : A → Type 0) (o : Option B) (x : Reply A) (y : B → Reply A)
    → Sound P x
    → ((b : B) → Sound P (y b))
    → Sound P (elim o [ none ↦ x | some b ↦ y b ])
option-Sound P none x y h k = h
option-Sound P (some b) x y h k = k b

pub at-Sound :
    {A : Type 0} (P : A → Type 0) (xs : List A) (i : ℕ)
    → All P xs
    → i < length xs
    → Sound P (at xs i)
unfolding at
at-Sound P [] i h l = absurd (omega arith)
at-Sound P (x ∷ xs) zero h l = h.0
at-Sound P (x ∷ xs) (suc i) h l = at-Sound P xs i h.1 (omega arith)

-- The words of a line: at least one, none empty; and the read took something.
abbrev pub IsElements : List Bytes → Type 0
IsElements es = NonEmpty es × All NonEmpty es

abbrev pub Taken : ℕ → List Bytes → ConfigFile → Type 0
Taken n es f = IsElements es × (left f < n)

abbrev StartsWord : Bytes → Type 0
StartsWord [] = Unit
StartsWord (c ∷ r) = is_space c ≡ false

skip_space-StartsWord : (s : Bytes) → StartsWord (skip_space s)
unfolding skip_space
skip_space-StartsWord [] = tt
skip_space-StartsWord (d ∷ s) = elim (Bool-cases (is_space d)) [
  | inl b ↦ rw b (skip_space-StartsWord s)
  | inr b ↦ rw b b
]

word-NonEmpty : (c : ℕ) (r : Bytes) → is_space c ≡ false → NonEmpty (word (c ∷ r))
unfolding word
word-NonEmpty c r e = rw e tt

words-NonEmpty : (fuel : ℕ) (s : Bytes) → All NonEmpty (words fuel s)
unfolding words
words-NonEmpty zero s = tt
words-NonEmpty (suc fuel) s =
    elim (skip_space s)
        as (λ t.
          StartsWord t
          → All NonEmpty
              (elim t [ [] ↦ [] | c ∷ r ↦ word (c ∷ r) ∷ words fuel (after_word (c ∷ r)) ])) [
                | [] ↦ λ h. tt
                | c ∷ r ↦ λ h. (word-NonEmpty c r h, words-NonEmpty fuel (after_word (c ∷ r)))
              ]
      (skip_space-StartsWord s)

-- A byte that is neither white nor a form feed is no space.
white_space : (c : ℕ) → is_white c ≡ false → c ≢ 12 → is_space c ≡ false
unfolding is_white is_space
white_space c e h = ground arith

skip_none : (c : ℕ) (s : Bytes) → is_space c ≡ false → skip_space (c ∷ s) ≡ c ∷ s
unfolding skip_space
skip_none c s e = rw e refl

words-first : (fuel c : ℕ) (s : Bytes) → is_space c ≡ false → NonEmpty (words (suc fuel) (c ∷ s))
unfolding words
words-first fuel c s e =
    subst
      (λ (t : Bytes).
        NonEmpty (elim t [ [] ↦ [] | c ∷ r ↦ word (c ∷ r) ∷ words fuel (after_word (c ∷ r)) ]))
      (sym (skip_none c s e)) tt

words_reply-Fine :
    (n : ℕ) (ws : List Bytes) (f : ConfigFile)
    → NonEmpty ws
    → All NonEmpty ws
    → left f < n
    → NoFormFeed f.rest
    → Fine (Taken n) n (
      elim ws as (λ x. Reply (List Bytes)) [ [] ↦ aborted failed_assert | w ∷ ws ↦ done (w ∷ ws) ],
      f,
    )
words_reply-Fine n [] f h a l k = absurd h
words_reply-Fine n (w ∷ ws) f h a l k = (((tt, a), l), omega arith, k)

suc_plus : (n : ℕ) → suc (n + 1) ≡ suc n + 1
suc_plus n = omega arith

line_reply-Fine :
    (n : ℕ) (r : Line × ConfigFile)
    → IsSemantic (λ c. c ≢ 12) n r
    → Fine (Taken n) n (line_reply r.0, r.1)
unfolding line_reply elements_of
line_reply-Fine n (got (c ∷ line), f) (h, w, a, b) =
    words_reply-Fine n (words (suc (length line) + 1) (c ∷ line)) f
      (subst (λ (k : ℕ). NonEmpty (words k (c ∷ line))) (suc_plus (length line))
        (words-first (length line + 1) c line (white_space c w a.0)))
      (words-NonEmpty (suc (length line) + 1) (c ∷ line)) h b
line_reply-Fine n (got [], f) h = absurd h
line_reply-Fine n (ended line, f) h = h
line_reply-Fine n (failed, f) h = h
line_reply-Fine n (stuck, f) h = absurd h

pub get_line_elements-Fine :
    (f : ConfigFile) → NoFormFeed f.rest → Fine (Taken (left f)) (left f) (get_line_elements f)
unfolding get_line_elements
get_line_elements-Fine f h =
    line_reply-Fine (left f) (get_semantic_line f) (get_semantic_line-IsSemantic (λ c. c ≢ 12) f h)
