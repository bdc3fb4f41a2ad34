-- ===== src/Control.antt =====
-- src/core/main.cc: the command line writes a command to the control file and signals the service;
-- the handler of SIGHUP reads the file and calls the manager. `getopt_long`, the file system and
-- `strtol` are arguments. Diagnostics on stderr are left out.
pub mod RoundTrip
pub mod System
pub mod Program
pub mod Service
pub mod Typed
pub mod Stopping
use acnet.Prelude.{
  ℕ, zero, suc, ◌==◌, if◌then◌else◌, Bool, true, false, Option, none, some, List, [], ◌∷◌, ◌++◌,
  Bytes, codes, bytes_eq,
}

-- One result of `getopt_long`: 'h', 's' with `optarg` (`none` for a null pointer, which is what the
-- long option `--signal` gives, as it is declared with `no_argument`), ':' and '?'.
pub data Opt : Type 0 where
  help : Opt
  signal : Option Bytes → Opt
  missing_argument : Opt
  unknown : Opt

-- What the system answers while the command is passed on: `mkdir_if_not_exists`, `fopen` of the
-- control file, and the first line of the pid file (`none` where `fopen` or `fgets` fails).
pub record Shell : Type 0 where
  pub logs_ok : Bool
  pub control_ok : Bool
  pub pid_line : Option Bytes
  pub strtol : Bytes → ℕ

-- How `parse_command_line` ends: it returns 0, returns -1, or leaves by `exit(EXIT_FAILURE)`.
pub data Ending : Type 0 where
  succeeds : Ending
  fails : Ending
  aborts : Ending

-- The ending, the new content of the control file if it was opened, and the process that was
-- signalled.
pub record Outcome : Type 0 where
  pub ending : Ending
  pub control : Option Bytes
  pub killed : Option ℕ

-- The loop over the options: the last command, or how it ends at once.
pub data Scan : Type 0 where
  command : Option Bytes → Scan
  stop_at : Ending → Scan

unfoldable pub scan : List Opt → Option Bytes → Scan
scan [] cmd = command cmd
scan (help ∷ opts) cmd = stop_at succeeds
scan (signal arg ∷ opts) cmd = scan opts arg
scan (missing_argument ∷ opts) cmd = stop_at fails
scan (unknown ∷ opts) cmd = stop_at fails

-- What is printed to the control file; `arg` is `argv[optind]`, where there is one.
unfoldable pub control_text : Bytes → Option Bytes → Option Bytes
control_text cmd arg =
    if bytes_eq cmd (codes "stop")
    then some (codes "stop")
    else (if bytes_eq cmd (codes "reload")
        then some (elim arg [ none ↦ codes "reload all" | some name ↦ codes "reload " ++ name ])
        else (if bytes_eq cmd (codes "remove")
            then elim arg [ none ↦ none | some name ↦ some (codes "remove " ++ name) ]
            else none))

-- The part of `parse_command_line` under `if (command)`. The file is truncated when it is opened,
-- also where nothing is printed to it.
unfoldable pub pass_on : Shell → Bytes → Option Bytes → Outcome
pass_on sh cmd arg =
    if sh.logs_ok
    then (if sh.control_ok
        then elim (control_text cmd arg) [
          | none ↦ record { ending = fails; control = some []; killed = none }
          | some text ↦ elim sh.pid_line [
            | none ↦ record { ending = aborts; control = some text; killed = none }
            | some line ↦ record {
              ending = succeeds;
              control = some text;
              killed = some (sh.strtol line);
            }
          ]
        ]
        else record { ending = aborts; control = none; killed = none })
    else record { ending = aborts; control = none; killed = none }

-- `parse_command_line`
unfoldable pub parse_command_line : Shell → List Opt → Option Bytes → Outcome
parse_command_line sh opts arg = elim (scan opts none) [
  | stop_at e ↦ record { ending = e; control = none; killed = none }
  | command none ↦ record { ending = succeeds; control = none; killed = none }
  | command (some cmd) ↦ pass_on sh cmd arg
]

-- `fgets(cmd, n + 1, file)`: at most `n` bytes, up to a newline; `none` at the end of the file.
unfoldable pub read_line : ℕ → Bytes → Bytes
read_line zero text = []
read_line (suc n) [] = []
read_line (suc n) (c ∷ text) = let rest = read_line n text in if c == 10 then c ∷ [] else c ∷ rest

unfoldable pub fgets : ℕ → Bytes → Option Bytes
fgets n [] = none
fgets n (c ∷ text) = some (read_line n (c ∷ text))

-- The C string in a buffer: the bytes before the first NUL.
unfoldable pub c_string : Bytes → Bytes
c_string [] = []
c_string (c ∷ text) = let rest = c_string text in if c == 0 then [] else c ∷ rest

-- `strchr(cmd, ' ')`, and the text cut there: what is before, and what is after.
unfoldable pub split_space : Bytes → Bytes × Option Bytes
split_space [] = ([], none)
split_space (c ∷ text) =
    let (before, after) = split_space text in
    if c == 32 then ([], some text) else (c ∷ before, after)

-- The call of the manager that the handler makes.
pub data Request : Type 0 where
  reload_module : Bytes → Request
  remove_module : Bytes → Request
  shut_down : Request

-- `sigal_handle` after the file has been read.
unfoldable pub request_of : Bytes → Option Request
request_of line =
    let (cmd, arg) = split_space (c_string line) in
    elim arg [
      | some name ↦
          if bytes_eq cmd (codes "reload")
          then some (reload_module name)
          else (if bytes_eq cmd (codes "remove") then some (remove_module name) else none)
      | none ↦ if bytes_eq cmd (codes "stop") then some shut_down else none
    ]

-- `sigal_handle`, on the content of the control file (`none` where it does not open).
unfoldable pub sigal_handle : Option Bytes → Option Request
sigal_handle none = none
sigal_handle (some text) = elim (fgets 63 text) [ none ↦ none | some line ↦ request_of line ]
