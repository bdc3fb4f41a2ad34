-- ===== src/Control/Service.antt =====
-- The program's two sides meet in the control file and the pid file.
use acnet.Prelude.{
  ℕ, ◌≡◌, refl, if◌then◌else◌, Bool, true, false, Option, none, some, List, [], arith, Bytes,
  bytes_eq, bytes_eq_refl, Bool-cases, Option-cases, inl, inr, ap, ◌∙◌,
}
use acnet.Control.{
  Shell, Opt, Ending, Outcome, scan, command, stop_at, control_text, pass_on, parse_command_line,
}
use acnet.Control.System.{System, IsLawful, directory, regular_file, other_file}
use acnet.Control.Program.{
  logs_dir, control_file, pid_file, mkdir_if_not_exists, first_line, signal_service, write_command,
  command_line, set_up,
}

abbrev pub is_some {ℓ} : {A : Type ℓ} → Option A → Bool
is_some none = false
is_some (some a) = true

module _ (S : System) (L : IsLawful S) where
  mkdir_if_not_exists-content :
      (dir : Bytes) (s : S.State) (q : Bytes)
      → S.content (mkdir_if_not_exists S dir s).0 q ≡ S.content s q
  unfolding mkdir_if_not_exists
  mkdir_if_not_exists-content dir s q = elim (Option-cases (S.stat s dir)) [
    | inl e ↦ rw (e, mkdir_if_not_exists) (L.content-mkdir s dir q)
    | inr (directory, e) ↦ rw (e, mkdir_if_not_exists) refl
    | inr (regular_file, e) ↦ rw (e, mkdir_if_not_exists) refl
    | inr (other_file, e) ↦ rw (e, mkdir_if_not_exists) refl
  ]

  -- A file that is created and written has the text, and the others are as before.
  create-write-content :
      (s t : S.State) (p text q : Bytes)
      → S.create s p ≡ some t
      → S.content (S.write t p text) q ≡ (if bytes_eq q p then some text else S.content s q)
  create-write-content s t p text q h =
      let e : S.content t p ≡ some [] = L.content-create s t p p h ∙ rw (bytes_eq_refl p) refl in
      let w = L.content-write t p [] text q e in
      elim (Bool-cases (bytes_eq q p)) [
        | inl b ↦ ground (arith, w, b)
        | inr b ↦ ground (arith, w, L.content-create s t p q h, b)
      ]

  first_line-same :
      (n : ℕ) (p : Bytes) (s t : S.State)
      → S.content t p ≡ S.content s p
      → first_line S n p t ≡ first_line S n p s
  unfolding first_line
  first_line-same n p s t e = rw (first_line, e) refl

  -- What `parse_command_line` is answered in the state `s`.
  abbrev pub shell_of : S.State → Shell
  shell_of s =
      let (s', done) = mkdir_if_not_exists S logs_dir s in
      record {
        logs_ok = done;
        control_ok = is_some (S.create s' control_file);
        pid_line = first_line S 31 pid_file s;
        strtol = S.strtol;
      }

  -- The files behind a call with this outcome.
  abbrev pub Leaves : S.State → S.State × Ending × Option ℕ → Outcome → Type 0
  Leaves s (s', ending, killed) o =
      (ending ≡ o.ending)
      × (killed ≡ o.killed)
      × ((q : Bytes)
          → S.content s' q ≡ (
              if bytes_eq q control_file
              then elim o.control [ none ↦ S.content s q | some text ↦ some text ]
              else S.content s q))

  unwritten :
      (s : S.State) (q : Bytes) (c : Bool)
      → S.content s q ≡ (if c then S.content s q else S.content s q)
  unwritten s q c = ground arith

  write_command-Leaves :
      (cmd : Bytes) (arg : Option Bytes) (s : S.State)
      → Leaves s (write_command S cmd arg s) (pass_on (shell_of s) cmd arg)
  unfolding write_command signal_service pass_on
  write_command-Leaves cmd arg s =
      let s1 = (mkdir_if_not_exists S logs_dir s).0 in
      let m = mkdir_if_not_exists-content logs_dir s in
      elim (Bool-cases (mkdir_if_not_exists S logs_dir s).1) [
        | inr e ↦
            rw (e, write_command, pass_on)
              (refl, refl, λ q. m q ∙ unwritten s q (bytes_eq q control_file))
        | inl e ↦ elim (Option-cases (S.create s1 control_file)) [
          | inl f ↦
              rw (e, write_command, pass_on, f)
                (refl, refl, λ q. m q ∙ unwritten s q (bytes_eq q control_file))
          | inr (t, f) ↦ elim (Option-cases (control_text cmd arg)) [
            | inl g ↦
                rw (e, write_command, pass_on, f, g)
                  (
                    refl,
                    refl,
                    λ q.
                        L.content-create s1 t control_file q f
                        ∙ ap (λ c. if bytes_eq q control_file then some [] else c) (m q),
                  )
            | inr (text, g) ↦
                let w : (q : Bytes)
                    → S.content (S.write t control_file text) q
                      ≡ (if bytes_eq q control_file then some text else S.content s q) =
                  λ q.
                    create-write-content s1 t control_file text q f
                    ∙ ap (λ c. if bytes_eq q control_file then some text else c) (m q) in
                let l : first_line S 31 pid_file (S.write t control_file text)
                    ≡ first_line S 31 pid_file s =
                  first_line-same 31 pid_file s (S.write t control_file text)
                    (unfold bytes_eq in w pid_file) in
                elim (Option-cases (first_line S 31 pid_file s)) [
                  | inl h ↦
                      rw (e, write_command, pass_on, f, g, signal_service, l, h) (refl, refl, w)
                  | inr (line, h) ↦
                      rw (e, write_command, pass_on, f, g, signal_service, l, h) (refl, refl, w)
                ]
          ]
        ]
      ]

  -- `parse_command_line` with its effects on the files, for a lawful system: the ending, the process that
  -- is signalled and the content of the control file are those of the function on the answers that the
  -- system gives in the state before, on every path, and no other file has changed.
  pub command_line-Leaves :
      (opts : List Opt) (arg : Option Bytes) (s : S.State)
      → Leaves s (command_line S opts arg s) (parse_command_line (shell_of s) opts arg)
  unfolding command_line parse_command_line
  command_line-Leaves opts arg s =
      elim (scan opts none)
          as (λ c.
            scan opts none ≡ c
            → Leaves s (command_line S opts arg s) (parse_command_line (shell_of s) opts arg)) [
              | stop_at e ↦ λ h.
                  rw (h, command_line, parse_command_line)
                    (refl, refl, λ q. unwritten s q (bytes_eq q control_file))
              | command none ↦ λ h.
                  rw (h, command_line, parse_command_line)
                    (refl, refl, λ q. unwritten s q (bytes_eq q control_file))
              | command (some cmd) ↦
                  λ h. rw (h, command_line, parse_command_line) (write_command-Leaves cmd arg s)
            ]
        refl

  -- The service has written its number.
  pub set_up-content :
      (pid : ℕ) (s : S.State)
      → (set_up S pid s).1 ≡ true
      → S.content (set_up S pid s).0 pid_file ≡ some (S.decimal pid)
  unfolding set_up
  set_up-content pid s h =
      let s1 = (mkdir_if_not_exists S logs_dir s).0 in
      elim (Bool-cases (mkdir_if_not_exists S logs_dir s).1) [
        | inr e ↦ absurd (ground (arith, e, h))
        | inl e ↦ elim (Option-cases (S.create s1 pid_file)) [
          | inl f ↦ absurd (ground (arith, e, f, h))
          | inr (t, f) ↦
              rw (e, set_up, f)
                (create-write-content s1 t pid_file (S.decimal pid) pid_file f
                  ∙ rw (bytes_eq_refl pid_file) refl)
        ]
      ]
