-- ===== src/Examples/Commands.antt =====
-- The command line on `acnet -s reload net`, and what the service's handler makes of it.
use acnet.Prelude.{◌≡◌, refl, true, none, some, List, [], ◌∷◌, codes, bytes_eq}
use acnet.Control.{
  Shell, Opt, signal, help, unknown, succeeds, stop_at, command, scan, parse_command_line, pass_on,
  control_text, sigal_handle, reload_module, fgets, read_line, c_string, split_space, request_of,
}

abbrev shell : Shell
shell = record { logs_ok = true; control_ok = true; pid_line = some (codes "42"); strtol = λ _. 42 }

abbrev typed : List Opt
typed = signal (some (codes "reload")) ∷ []

scan-typed : scan typed none ≡ command (some (codes "reload"))
unfolding scan
scan-typed = refl

typed-succeeds : (parse_command_line shell typed (some (codes "net"))).ending ≡ succeeds
unfolding parse_command_line scan pass_on control_text bytes_eq
typed-succeeds = refl

help-stops : scan (help ∷ unknown ∷ []) none ≡ stop_at succeeds
unfolding scan
help-stops = refl

handle-two_words : sigal_handle (some (codes "reload a b")) ≡ some (reload_module (codes "a b"))
unfolding sigal_handle fgets request_of read_line c_string split_space bytes_eq
handle-two_words = refl
