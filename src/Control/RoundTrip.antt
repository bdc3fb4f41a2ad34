-- ===== src/Control/RoundTrip.antt =====
-- What the service is asked to do is what was typed, with names cut to 56 bytes.
use acnet.Prelude.{
  ℕ, zero, suc, ◌≡◌, refl, ◌==◌, false, Option, none, some, List, [], ◌∷◌, ◌++◌, arith, Bytes,
  codes, bytes_eq, if◌then◌else◌, Option-cases, inl, inr,
}
use acnet.Control.{
  Shell, Opt, succeeds, control_text, pass_on, parse_command_line, scan, command, read_line, fgets,
  c_string, split_space, Request, reload_module, remove_module, shut_down, request_of, sigal_handle,
}

abbrev pub take : ℕ → Bytes → Bytes
take zero xs = []
take (suc n) [] = []
take (suc n) (x ∷ xs) = x ∷ take n xs

-- No byte is NUL or a newline.
abbrev pub IsPlain : Bytes → Type 0
IsPlain [] = Unit {0}
IsPlain (c ∷ text) = ((c == 0) ≡ false) × ((c == 10) ≡ false) × IsPlain text

pub read_line-plain : (n : ℕ) (text : Bytes) → IsPlain text → read_line n text ≡ take n text
unfolding read_line
read_line-plain zero text p = refl
read_line-plain (suc n) [] p = refl
read_line-plain (suc n) (c ∷ text) p = ground (arith, read_line-plain n text p.2)

c_string-plain : (n : ℕ) (text : Bytes) → IsPlain text → c_string (take n text) ≡ take n text
unfolding c_string
c_string-plain zero text p = refl
c_string-plain (suc n) [] p = refl
c_string-plain (suc n) (c ∷ text) p = ground (arith, c_string-plain n text p.2)

-- What a command with its optional argument asks for; a name is cut to what fits the handler's
-- buffer, and a reload without a name is one of all modules.
pub requested : Bytes → Option Bytes → Option Request
requested cmd arg =
    if bytes_eq cmd (codes "stop")
    then some shut_down
    else (if bytes_eq cmd (codes "reload")
        then some (reload_module (elim arg [ none ↦ codes "all" | some name ↦ take 56 name ]))
        else (if bytes_eq cmd (codes "remove")
            then elim arg [ none ↦ none | some name ↦ some (remove_module (take 56 name)) ]
            else none))

pub requested-stop : (arg : Option Bytes) → requested (codes "stop") arg ≡ some shut_down
unfolding requested bytes_eq
requested-stop arg = refl

abbrev pub IsPlainArg : Option Bytes → Type 0
IsPlainArg none = Unit {0}
IsPlainArg (some name) = IsPlain name

handle-reload :
    (name : Bytes)
    → IsPlain name
    → sigal_handle (some (codes "reload " ++ name)) ≡ some (reload_module (take 56 name))
unfolding sigal_handle fgets request_of read_line c_string split_space bytes_eq
handle-reload name p = rw (read_line-plain 56 name p, c_string-plain 56 name p) refl

handle-remove :
    (name : Bytes)
    → IsPlain name
    → sigal_handle (some (codes "remove " ++ name)) ≡ some (remove_module (take 56 name))
unfolding sigal_handle fgets request_of read_line c_string split_space bytes_eq
handle-remove name p = rw (read_line-plain 56 name p, c_string-plain 56 name p) refl

handle-stop : sigal_handle (some (codes "stop")) ≡ some shut_down
unfolding sigal_handle fgets request_of read_line c_string split_space bytes_eq
handle-stop = refl

handle-reload_all : sigal_handle (some (codes "reload all")) ≡ some (reload_module (codes "all"))
unfolding sigal_handle fgets request_of read_line c_string split_space bytes_eq
handle-reload_all = refl

control_text-handled :
    (cmd : Bytes) (arg : Option Bytes) {text : Bytes}
    → IsPlainArg arg
    → control_text cmd arg ≡ some text
    → sigal_handle (some text) ≡ requested cmd arg
unfolding control_text requested
control_text-handled cmd none {text} p e = ground (arith, handle-stop, handle-reload_all)
control_text-handled cmd (some name) {text} p e =
    ground (arith, handle-stop, handle-reload name p, handle-remove name p)

pub pass_on-succeeds :
    (sh : Shell) (cmd : Bytes) (arg : Option Bytes)
    → (pass_on sh cmd arg).ending ≡ succeeds
    → (text : Bytes) × (line : Bytes) × (control_text cmd arg ≡ some text)
      × (sh.pid_line ≡ some line)
      × (pass_on sh cmd arg
          ≡ record { ending = succeeds; control = some text; killed = some (sh.strtol line) })
unfolding pass_on
pass_on-succeeds sh cmd arg e = elim (Option-cases (control_text cmd arg)) [
  | inl n ↦ absurd (ground arith)
  | inr (text, t) ↦ elim (Option-cases sh.pid_line) [
    | inl n ↦ absurd (ground arith)
    | inr (line, k) ↦ (text, line, t, k, ground arith)
  ]
]

-- Where the command line gives a command and the tool succeeds, the service is signalled under the
-- number in its pid file, and what its handler then does is what the command asks for: `stop` shuts
-- down, `reload` reloads the named module or all, `remove` removes the named module. Names are any
-- bytes but NUL and newline, spaces included; of a name of more than 56 bytes only the first 56
-- reach the manager.
pub parse_command_line-handled :
    (sh : Shell) (opts : List Opt) (cmd : Bytes) (arg : Option Bytes)
    → scan opts none ≡ command (some cmd)
    → IsPlainArg arg
    → (parse_command_line sh opts arg).ending ≡ succeeds
    → let o = parse_command_line sh opts arg in
      (sigal_handle o.control ≡ requested cmd arg)
      × ((line : Bytes) × (sh.pid_line ≡ some line) × (o.killed ≡ some (sh.strtol line)))
unfolding parse_command_line
parse_command_line-handled sh opts cmd arg s p e =
    let (text, line, t, k, o) = pass_on-succeeds sh cmd arg (rw (s, parse_command_line) at e) in
    rw (s, parse_command_line, o) (control_text-handled cmd arg p t, (line, k, refl))
