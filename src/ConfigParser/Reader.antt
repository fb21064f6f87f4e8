-- ===== src/ConfigParser/Reader.antt =====
-- `getSemanticLine`, `getLineElements` and `trimWhitespace` of src/ConfigParser.cpp. The file is the
-- list of its bytes; `broken` says that a read behind them fails instead of meeting the end.
pub mod Chunks
pub mod Steps
pub mod Lines
pub mod Trim
pub mod Words
use lazy_team.Base.{
  ℕ, zero, suc, ◌+◌, Bool, true, false, not, ◌||◌, List, [], ◌∷◌, ◌++◌, Option, none, some, ◌==◌,
  if◌then◌else◌, length, take, drop, Fault, failed_assert, out_of_fuel,
}
use lazy_team.Text.{Bytes, codes, find, find_class, plus, skip_space, word, after_word}
use lazy_team.ConfigParser.Replies.{Error, read_line, no_message, Reply, done, error, aborted}

pub record ConfigFile : Type 0 where
  pub rest : Bytes
  pub broken : Bool
  pub at_eof : Bool
  pub line_num : ℕ

-- The room for bytes in a buffer of `LINE_BUFF`.
abbrev pub line_room : ℕ
line_room = 1023

-- How `getline` into a buffer ends: at a line end, with a full buffer, or at the end of the file.
pub data ChunkEnd : Type 0 where
  line_end full file_end : ChunkEnd

pub record Chunk : Type 0 where
  pub stored : Bytes
  pub behind : Bytes
  pub how : ChunkEnd

put_front : ℕ → Chunk → Chunk
put_front c k = record k { stored = c ∷ k.stored }

-- `config_file.getline(buffer, room + 1)`
unfoldable pub read_chunk : ℕ → Bytes → Chunk
unfolding put_front
read_chunk room [] = record { stored = []; behind = []; how = file_end }
read_chunk zero (c ∷ s) =
    if c == b'\n'
    then record { stored = []; behind = s; how = line_end }
    else record { stored = []; behind = c ∷ s; how = full }
read_chunk (suc room) (c ∷ s) =
    if c == b'\n'
    then record { stored = []; behind = s; how = line_end }
    else put_front c (read_chunk room s)

-- The buffer as a C string.
unfoldable pub until_nul : Bytes → Bytes
until_nul [] = []
until_nul (c ∷ s) = if c == 0 then [] else c ∷ until_nul s

-- The result of `getSemanticLine` with the line that it leaves: OK, END_OF_FILE or ERROR; `stuck` is
-- the model's loop without rounds.
pub data Line : Type 0 where
  got ended : Bytes → Line
  failed stuck : Line

-- The end of a round of the inner loop: it goes on while the read has failed, with a full buffer or
-- with nothing before the end of the file.
unfoldable pub after_chunk :
    (Bytes → ConfigFile → Line × ConfigFile)
    → ChunkEnd
    → Bytes
    → Bytes
    → ConfigFile
    → Line × ConfigFile
after_chunk again line_end line stored f = (got (line ++ until_nul stored), f)
after_chunk again full line stored f = again (line ++ until_nul stored) f
after_chunk again file_end line stored f = if f.broken then (failed, f) else elim stored [
  | [] ↦ again line (record f { at_eof = true })
  | c ∷ s ↦ (got (line ++ until_nul (c ∷ s)), record f { at_eof = true })
]

-- The inner loop.
unfoldable pub get_line : ℕ → Bytes → ConfigFile → Line × ConfigFile
unfolding after_chunk
get_line zero line f = (stuck, f)
get_line (suc fuel) line f =
    let k = read_chunk line_room f.rest in
    if f.at_eof
    then (ended line, f)
    else after_chunk (λ l g. get_line fuel l g) k.how line k.stored (record f { rest = k.behind })

-- `WHITE_SPACES`
unfoldable pub is_white : ℕ → Bool
is_white c = c == b' ' || c == 11 || c == b'\n' || c == b'\r' || c == b'\t'

not_white : ℕ → Bool
unfolding is_white
not_white c = not (is_white c)

-- `s.find_last_of(set)`, the set given by its test
unfoldable pub find_last_class : (ℕ → Bool) → Bytes → Option ℕ
find_last_class test [] = none
find_last_class test (c ∷ s) = elim (find_last_class test s) [
  | some i ↦ some (suc i)
  | none ↦ if test c then some 0 else none
]

unfoldable pub trim_whitespace : Bytes → Bytes
unfolding not_white
trim_whitespace str = elim (find_class not_white str) [
  | none ↦ []
  | some pos ↦ take (plus (find_last_class not_white (drop pos str)) 1) (drop pos str)
]

unfoldable pub cut_comment : Bytes → Bytes
cut_comment line = elim (find (codes "#") line) [ none ↦ line | some p ↦ take p line ]

-- The end of a round of the outer loop: a line that is blank is skipped.
unfoldable pub after_line : (ConfigFile → Line × ConfigFile) → Line × ConfigFile → Line × ConfigFile
after_line again (got line, f) =
    let f' = record f { line_num = f.line_num + 1 } in
    elim (trim_whitespace (cut_comment line)) [ [] ↦ again f' | c ∷ s ↦ (got (c ∷ s), f') ]
after_line again (ended line, f) = (ended line, f)
after_line again (failed, f) = (failed, f)
after_line again (stuck, f) = (stuck, f)

-- The outer loop.
unfoldable pub semantic_lines : ℕ → ConfigFile → Line × ConfigFile
unfolding after_line
semantic_lines zero f = (stuck, f)
semantic_lines (suc fuel) f =
    after_line (λ g. semantic_lines fuel g) (get_line (length f.rest + 2) [] f)

unfoldable pub get_semantic_line : ConfigFile → Line × ConfigFile
unfolding semantic_lines
get_semantic_line f = semantic_lines (length f.rest + 2) f

-- `iss >> element` until a read fails, which it does when nothing but space is left.
unfoldable pub words : ℕ → Bytes → List Bytes
words zero s = []
words (suc fuel) s = elim (skip_space s) [
  | [] ↦ []
  | c ∷ r ↦ word (c ∷ r) ∷ words fuel (after_word (c ∷ r))
]

unfoldable pub elements_of : Bytes → Reply (List Bytes)
unfolding words
elements_of line = elim (words (length line + 1) line) [
  | [] ↦ aborted failed_assert
  | w ∷ ws ↦ done (w ∷ ws)
]

-- The result for the callers, who take END_OF_FILE for an error.
unfoldable pub line_reply : Line → Reply (List Bytes)
unfolding elements_of
line_reply (got line) = elements_of line
line_reply (ended line) = error no_message
line_reply failed = error read_line
line_reply stuck = aborted out_of_fuel

unfoldable pub get_line_elements : ConfigFile → Reply (List Bytes) × ConfigFile
unfolding get_semantic_line line_reply
get_line_elements f = (line_reply (get_semantic_line f).0, (get_semantic_line f).1)
