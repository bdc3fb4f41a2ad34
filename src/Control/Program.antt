-- ===== src/Control/Program.antt =====
-- src/core/main.cc: the program's two sides over the files that they share, `main` without arguments
-- up to the event loop and behind it, and `main` with arguments; and the handler of SIGHUP.
-- Control.antt has what these make of the texts.
use acnet.Prelude.{ℕ, if◌then◌else◌, Bool, true, false, Option, none, some, List, Bytes, codes}
use acnet.Control.{
  Opt, Ending, succeeds, fails, aborts, scan, command, stop_at, control_text, fgets, Request,
  request_of,
}
use acnet.Control.System.{System, directory, regular_file}

abbrev pub logs_dir : Bytes
logs_dir = codes "logs"

abbrev pub control_file : Bytes
control_file = codes "logs/acnet.control"

abbrev pub pid_file : Bytes
pid_file = codes "logs/acnet.pid"

module _ (S : System) where
  unfoldable pub mkdir_if_not_exists : Bytes → S.State → S.State × Bool
  mkdir_if_not_exists dir s = elim (S.stat s dir) [
    | some directory ↦ (s, true)
    | some _ ↦ (s, false)
    | none ↦ S.mkdir s dir
  ]

  unfoldable pub delete_if_exists : Bytes → S.State → S.State
  delete_if_exists path s = elim (S.stat s path) [
    | none ↦ s
    | some regular_file ↦ (S.unlink s path).0
    | some _ ↦ s
  ]

  -- `fopen` for reading and one `fgets`: a line of at most `n` bytes.
  unfoldable pub first_line : ℕ → Bytes → S.State → Option Bytes
  first_line n path s = elim (S.content s path) [ none ↦ none | some text ↦ fgets n text ]

  -- The command is written and the service is signalled: the files, the ending, and the process that
  -- gets the signal.
  unfoldable pub signal_service : Option Bytes → S.State → S.State × Ending × Option ℕ
  unfolding first_line
  signal_service text s = elim text [
    | none ↦ (s, fails, none)
    | some t ↦
        let s' = S.write s control_file t in
        elim (first_line 31 pid_file s') [
          | none ↦ (s', aborts, none)
          | some line ↦ (s', succeeds, some (S.strtol line))
        ]
  ]

  unfoldable pub write_command : Bytes → Option Bytes → S.State → S.State × Ending × Option ℕ
  unfolding mkdir_if_not_exists signal_service
  write_command cmd arg s =
      let (s', done) = mkdir_if_not_exists logs_dir s in
      if done
      then elim (S.create s' control_file) [
        | none ↦ (s', aborts, none)
        | some t ↦ signal_service (control_text cmd arg) t
      ]
      else (s', aborts, none)

  -- `parse_command_line` with its effects.
  unfoldable pub command_line : List Opt → Option Bytes → S.State → S.State × Ending × Option ℕ
  unfolding write_command
  command_line opts arg s = elim (scan opts none) [
    | stop_at e ↦ (s, e, none)
    | command none ↦ (s, succeeds, none)
    | command (some cmd) ↦ write_command cmd arg s
  ]

  -- `sigal_handle` with its effects.
  unfoldable pub handle_signal : S.State → S.State × Option Request
  unfolding delete_if_exists first_line
  handle_signal s = elim (first_line 63 control_file s) [
    | none ↦ (s, none)
    | some line ↦ (delete_if_exists control_file s, request_of line)
  ]

  -- `main` without arguments, up to `EventLoop`; false where it leaves with `EXIT_FAILURE`.
  unfoldable pub set_up : (pid : ℕ) → S.State → S.State × Bool
  unfolding mkdir_if_not_exists
  set_up pid s =
      let (s', done) = mkdir_if_not_exists logs_dir s in
      if done
      then elim (S.create s' pid_file) [
        | none ↦ (s', false)
        | some t ↦ (S.write t pid_file (S.decimal pid), true)
      ]
      else (s', false)

  -- What `atexit` has registered.
  unfoldable pub at_exit : S.State → S.State
  unfolding delete_if_exists
  at_exit s = delete_if_exists pid_file s

  -- The exit status of `main` with arguments. A command that is refused ends in 0 as well.
  unfoldable pub exit_status : Ending → ℕ
  exit_status succeeds = 0
  exit_status fails = 0
  exit_status aborts = 1
