-- ===== src/Control/Typed.antt =====
-- What is typed on the command line reaches the service that runs.
use acnet.Prelude.{
  ℕ, zero, suc, ◌^◌, ◌<◌, ◌≤◌, ◌≡◌, ◌≢◌, refl, true, false, Option, none, some, List, [], ◌∷◌,
  arith, length, Bytes, bytes_eq, Option-cases, inl, inr, ap, sym, ◌∙◌,
}
use acnet.Control.{Shell, Opt, succeeds, scan, command, parse_command_line, fgets, sigal_handle}
use acnet.Control.RoundTrip.{
  IsPlain, IsPlainArg, requested, take, read_line-plain, pass_on-succeeds,
  parse_command_line-handled,
}
use acnet.Control.System.{System, IsLawful, directory, regular_file, other_file}
use acnet.Control.Program.{
  control_file, pid_file, delete_if_exists, first_line, command_line, handle_signal, set_up,
}
use acnet.Control.Service.{shell_of, command_line-Leaves, set_up-content}

take-all : (n : ℕ) (text : Bytes) → length text ≤ n → take n text ≡ text
take-all zero [] h = refl
take-all zero (c ∷ text) h = absurd (omega arith)
take-all (suc n) [] h = refl
take-all (suc n) (c ∷ text) h = ap (λ xs. c ∷ xs) (take-all n text (omega arith))

fgets-short :
    (n : ℕ) (text : Bytes) → IsPlain text → text ≢ [] → length text ≤ n → fgets n text ≡ some text
unfolding fgets
fgets-short n [] p d h = absurd (d refl)
fgets-short n (c ∷ text) p d h = ap some (read_line-plain n (c ∷ text) p ∙ take-all n (c ∷ text) h)

module _ (S : System) (L : IsLawful S) where
  delete_if_exists-content :
      (p : Bytes) (s : S.State) (q : Bytes)
      → bytes_eq q p ≡ false
      → S.content (delete_if_exists S p s) q ≡ S.content s q
  unfolding delete_if_exists
  delete_if_exists-content p s q d = elim (Option-cases (S.stat s p)) [
    | inl e ↦ rw (e, delete_if_exists) refl
    | inr (directory, e) ↦ rw (e, delete_if_exists) refl
    | inr (regular_file, e) ↦ rw (e, delete_if_exists) (ground (arith, L.content-unlink s p q, d))
    | inr (other_file, e) ↦ rw (e, delete_if_exists) refl
  ]

  -- The handler with its effects asks for what the content of the control file asks for.
  handle_signal-request :
      (s : S.State) → (handle_signal S s).1 ≡ sigal_handle (S.content s control_file)
  unfolding handle_signal sigal_handle first_line
  handle_signal-request s = elim (Option-cases (S.content s control_file)) [
    | inl e ↦ rw (e, handle_signal, first_line, sigal_handle) refl
    | inr (text, e) ↦ elim (Option-cases (fgets 63 text)) [
      | inl f ↦ rw (e, handle_signal, first_line, sigal_handle, f) refl
      | inr (line, f) ↦ rw (e, handle_signal, first_line, sigal_handle, f) refl
    ]
  ]

  handle_signal-content :
      (s : S.State) (q : Bytes)
      → bytes_eq q control_file ≡ false
      → S.content (handle_signal S s).0 q ≡ S.content s q
  unfolding handle_signal
  handle_signal-content s q d = elim (Option-cases (first_line S 63 control_file s)) [
    | inl e ↦ rw (e, handle_signal) refl
    | inr (line, e) ↦ rw (e, handle_signal) (delete_if_exists-content control_file s q d)
  ]

  parse-control :
      (sh : Shell) (opts : List Opt) (cmd : Bytes) (arg : Option Bytes)
      → scan opts none ≡ command (some cmd)
      → (parse_command_line sh opts arg).ending ≡ succeeds
      → (text : Bytes) × ((parse_command_line sh opts arg).control ≡ some text)
  unfolding parse_command_line
  parse-control sh opts cmd arg h e =
      let (text, line, t, k, o) = pass_on-succeeds sh cmd arg (rw (h, parse_command_line) at e) in
      (text, rw (h, parse_command_line, o) refl)

  -- The service has been set up with its number in the pid file; then, in the files that it left, a
  -- command is given on the command line, whose names have no NUL and no newline, and the tool
  -- succeeds. The process that it signals is the service, what the handler of the service then asks
  -- the manager for is what was typed, and the pid file is there for the next command.
  pub typed-requested :
      (pid : ℕ) (s : S.State) (opts : List Opt) (cmd : Bytes) (arg : Option Bytes)
      → pid < 2 ^ 31
      → (set_up S pid s).1 ≡ true
      → scan opts none ≡ command (some cmd)
      → IsPlainArg arg
      → (command_line S opts arg (set_up S pid s).0).1 ≡ succeeds
      → let (files, ending, killed) = command_line S opts arg (set_up S pid s).0 in
        let (left, request) = handle_signal S files in
        (killed ≡ some pid)
        × (request ≡ requested cmd arg)
        × (S.content left pid_file ≡ some (S.decimal pid))
  unfolding bytes_eq first_line
  typed-requested pid s opts cmd arg b h k p e =
      let s1 = (set_up S pid s).0 in
      let (ending, killed, files) = command_line-Leaves S L opts arg s1 in
      let c = set_up-content S L pid s h in
      let ok = sym ending ∙ e in
      let (handled, (line, read, number)) =
        parse_command_line-handled (shell_of S L s1) opts cmd arg k p ok in
      let (text, written) = parse-control (shell_of S L s1) opts cmd arg k ok in
      let s2 = (command_line S opts arg s1).0 in
      let f : S.content s2 control_file ≡ some text =
        files control_file
        ∙ ap (λ c. elim c [ none ↦ S.content s1 control_file | some t ↦ some t ]) written in
      let mine : first_line S 31 pid_file s1 ≡ some (S.decimal pid) =
        rw (first_line, c)
          (fgets-short 31 (S.decimal pid) (L.decimal-IsPlain pid b) (L.length-decimal pid b).1
            (L.length-decimal pid b).0) in
      let same : line ≡ S.decimal pid = cc (read, mine) in
      (
        killed ∙ number ∙ ap (λ l. some (S.strtol l)) same ∙ ap some (L.strtol-decimal pid b),
        handle_signal-request s2 ∙ ap sigal_handle (f ∙ sym written) ∙ handled,
        handle_signal-content s2 pid_file refl ∙ files pid_file ∙ c,
      )
