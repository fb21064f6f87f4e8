-- ===== src/System.antt =====
-- The operating system, which the server only calls: a parameter of the model. `S` is its state.
-- Descriptors and process numbers are natural numbers, and a failed call gives `none` or `false`.
use lazy_team.Base.{ℕ, Bool, List, Option, Outcome}
use lazy_team.Text.{Bytes}
use lazy_team.TermPrinter.{TermPrinter}

-- What `stat` says of a path; `other` is a device, a socket and the like.
pub data FileKind : Type 0 where
  absent regular folder other : FileKind

-- What a child process is started with: the program, its argument and its environment.
pub record Child : Type 0 where
  pub bin : Bytes
  pub script : Bytes
  pub envp : List Bytes

pub record System (S : Type 0) : Type 0 where
  -- `stat`
  pub stat : S → Bytes → FileKind
  -- `open` with O_RDONLY; with O_WRONLY | O_CREAT | O_TRUNC; with O_WRONLY | O_APPEND
  pub open_read : S → Bytes → Option ℕ × S
  pub open_create : S → Bytes → Option ℕ × S
  pub open_append : S → Bytes → Option ℕ × S
  -- `fstat` and `close`
  pub fstat : S → ℕ → Bool
  pub close : S → ℕ → S
  -- `unlink`
  pub unlink : S → Bytes → S
  -- `opendir` and the names that `readdir` gives
  pub read_dir : S → Bytes → Option (List Bytes)
  -- the time and the time of a file's last change, as `strftime` writes them
  pub date : S → Bytes
  pub last_modified : S → Bytes → Bytes
  -- `pipe`: the end to read from and the end to write to
  pub pipe : S → Option (ℕ × ℕ) × S
  -- `fork`, with the child that redirects its input and output and runs `execve`; preparing the
  -- arguments can throw, which ends the child alone
  pub fork : S → Outcome Child → Option ℕ × S
  -- `inet_ntoa` of the address that `getsockname` gives for a descriptor
  pub address : S → ℕ → Bytes

-- The state behind the server: the system, and the terminal's queues.
pub record World (S : Type 0) : Type 0 where
  pub system : S
  pub terminal : TermPrinter
