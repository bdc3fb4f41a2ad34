-- ===== src/Examples/Typing.antt =====
-- A system whose files are a function, and `acnet -s stop` typed beside a service under the number 42.
use acnet.Prelude.{
  ℕ, zero, suc, ◌+◌, ◌-◌, ◌*◌, ◌/◌, ◌%◌, ◌≤◌, ◌<◌, ◌≡◌, ltb, refl, arith, if◌then◌else◌, true,
  Option, none, some, List, [], ◌∷◌, ◌++◌, length, length-append, Bytes, codes, bytes_eq,
  Bool-cases, inl, inr, ap, sym,
}
use acnet.Control.System.{System, IsLawful, directory, regular_file}
use acnet.Prelude.{contains}
use acnet.Message.{cmd_exit, module_exited}
use acnet.Manager.Shutdown.{IsShutDown}
use acnet.Control.{Opt, signal, succeeds, scan, command, control_text, fgets, read_line}
use acnet.Control.RoundTrip.{IsPlain, requested}
use acnet.Control.Program.{
  pid_file, mkdir_if_not_exists, first_line, signal_service, write_command, command_line,
  handle_signal, set_up,
}
use acnet.Control.Typed.{typed-requested}
use acnet.Control.Stopping.{calls, typed_stop-Ended}
use acnet.Examples.Supervisor.{event, one_child, one_child-IsWellFormed}

-- At most `fuel` decimal digits.
unfoldable digits : (fuel : ℕ) → ℕ → Bytes
digits zero n = []
digits (suc fuel) n =
    let rest = digits fuel (n / 10) in
    if ltb n 10 then (48 + n) ∷ [] else rest ++ (48 + n % 10) ∷ []

unfoldable value : ℕ → Bytes → ℕ
value acc [] = acc
value acc (c ∷ text) = value (acc * 10 + (c - 48)) text

value-append :
    (acc c : ℕ) (text : Bytes) → value acc (text ++ c ∷ []) ≡ value acc text * 10 + (c - 48)
unfolding value
value-append acc c [] = refl
value-append acc c (d ∷ text) = value-append (acc * 10 + (d - 48)) c text

power : ℕ → ℕ
power zero = 1
power (suc k) = 10 * power k

value-digits : (fuel n : ℕ) → n < power fuel → value 0 (digits fuel n) ≡ n
unfolding digits value power
value-digits zero n h = omega arith
value-digits (suc fuel) n h =
    let rest = value-digits fuel (n / 10) (omega arith) in
    let step = value-append 0 (48 + n % 10) (digits fuel (n / 10)) in
    elim (Bool-cases (ltb n 10)) [
      | inl e ↦ rw (digits, e) (omega arith)
      | inr e ↦ rw (digits, e) (omega (arith, rest, step))
    ]

length-digits : (fuel n : ℕ) → length (digits fuel n) ≤ fuel
unfolding digits
length-digits zero n = omega arith
length-digits (suc fuel) n =
    ground (
      arith,
      length-digits fuel (n / 10),
      length-append (digits fuel (n / 10)) ((48 + n % 10) ∷ []),
    )

digits-some : (fuel n : ℕ) → 0 < length (digits (suc fuel) n)
unfolding digits
digits-some fuel n = ground (arith, length-append (digits fuel (n / 10)) ((48 + n % 10) ∷ []))

IsPlain-append : (c : ℕ) (text : Bytes) → 48 ≤ c → IsPlain text → IsPlain (text ++ c ∷ [])
IsPlain-append c [] h p = (ground arith, ground arith, tt)
IsPlain-append c (d ∷ text) h p = (p.0, p.1, IsPlain-append c text h p.2)

digits-IsPlain : (fuel n : ℕ) → IsPlain (digits fuel n)
unfolding digits
digits-IsPlain zero n = tt
digits-IsPlain (suc fuel) n =
    let rest = digits-IsPlain fuel (n / 10) in
    elim (Bool-cases (ltb n 10)) [
      | inl e ↦ rw (digits, e) (ground arith, ground arith, tt)
      | inr e ↦
          rw (digits, e) (IsPlain-append (48 + n % 10) (digits fuel (n / 10)) (omega arith) rest)
    ]

abbrev system : System
system = record {
  State = Bytes → Option Bytes;
  stat = λ s p.
      if bytes_eq p (codes "logs")
      then some directory
      else elim (s p) [ none ↦ none | some text ↦ some regular_file ];
  mkdir = λ s p. (s, true);
  unlink = λ s p. (λ q. if bytes_eq q p then none else s q, true);
  create = λ s p. some (λ q. if bytes_eq q p then some [] else s q);
  write = λ s p more q.
      if bytes_eq q p
      then elim (s p) [ none ↦ some more | some text ↦ some (text ++ more) ]
      else s q;
  content = λ s p. s p;
  decimal = digits 10;
  strtol = value 0;
}

system-IsLawful : IsLawful system
unfolding power
system-IsLawful = record {
  content-mkdir = λ s p q. refl;
  content-unlink = λ s p q. refl;
  content-create = λ s t p q h. ap (λ o. elim o [ none ↦ none | some f ↦ f q ]) (sym h);
  content-write = λ s p text more q h. rw h refl;
  strtol-decimal = λ n h. value-digits 10 n (omega arith);
  decimal-IsPlain = λ n h. digits-IsPlain 10 n;
  length-decimal =
      λ n h. (omega (arith, length-digits 10 n), λ e. omega (arith, digits-some 9 n, ap length e));
}

abbrev empty : Bytes → Option Bytes
empty q = none

abbrev typed : Bytes → List Opt
typed cmd = signal (some cmd) ∷ []

is_set_up : (set_up system 42 empty).1 ≡ true
unfolding set_up mkdir_if_not_exists bytes_eq
is_set_up = refl

stop-succeeds :
    (command_line system (typed (codes "stop")) none (set_up system 42 empty).0).1 ≡ succeeds
unfolding set_up mkdir_if_not_exists bytes_eq command_line scan write_command signal_service
    first_line control_text digits fgets read_line
stop-succeeds = refl

reload-succeeds :
    (command_line system (typed (codes "reload")) (some (codes "net")) (set_up system 42 empty).0).1
    ≡ succeeds
unfolding set_up mkdir_if_not_exists bytes_eq command_line scan write_command signal_service
    first_line control_text digits fgets read_line
reload-succeeds = refl

scan-typed : (cmd : Bytes) → scan (typed cmd) none ≡ command (some cmd)
unfolding scan
scan-typed cmd = refl

typed-requested_example :
    let (files, ending, killed) =
      command_line system
        (typed (codes "reload"))
        (some (codes "net"))
        (set_up system 42 empty).0 in
    let (left, request) = handle_signal system files in
    (killed ≡ some 42)
    × (request ≡ requested (codes "reload") (some (codes "net")))
    × (system.content left pid_file ≡ some (digits 10 42))
typed-requested_example =
    typed-requested system system-IsLawful 42 empty (typed (codes "reload")) (codes "reload")
      (some (codes "net")) (omega arith) is_set_up (scan-typed (codes "reload"))
      (refl, refl, (refl, refl, (refl, refl, tt))) reload-succeeds

typed_stop-Ended_example :
    let files = (command_line system (typed (codes "stop")) none (set_up system 42 empty).0).0 in
    IsShutDown
      (calls (handle_signal system files).1)
      one_child
      (event cmd_exit)
      (event module_exited ∷ [])
unfolding contains
typed_stop-Ended_example =
    typed_stop-Ended system system-IsLawful 42 empty (typed (codes "stop")) none one_child
      (event cmd_exit) (event module_exited ∷ []) (omega arith) is_set_up
      (scan-typed (codes "stop")) tt stop-succeeds one_child-IsWellFormed refl refl
      ((refl, refl), tt) (λ i. refl)
