-- ===== src/Control/Stopping.antt =====
-- `acnet -s stop`, from the shell to the end of the service's event loop.
use acnet.Prelude.{
  ◌^◌, ◌<◌, ◌≡◌, ℕ, true, Option, none, some, List, [], ◌∷◌, Bytes, codes, ◌∙◌, sym, subst,
}
use acnet.Message.{cmd_exit}
use acnet.Manager.State.{ActorManager}
use acnet.Manager.EventLoop.{Delivery, Action, shuts_down, reloads, removes}
use acnet.Manager.Tables.{IsWellFormed}
use acnet.Manager.Exits.{AreExits, IsFrom}
use acnet.Manager.Shutdown.{IsShutDown, shutdown-Ended}
use acnet.Control.{Opt, succeeds, scan, command, Request, reload_module, remove_module, shut_down}
use acnet.Control.RoundTrip.{requested-stop, IsPlainArg}
use acnet.Control.System.{System, IsLawful}
use acnet.Control.Program.{set_up, command_line, handle_signal}
use acnet.Control.Typed.{typed-requested}

-- The calls that the handler makes of the manager.
unfoldable pub calls : Option Request → List Action
calls none = []
calls (some (reload_module name)) = reloads name ∷ []
calls (some (remove_module name)) = removes name ∷ []
calls (some shut_down) = shuts_down ∷ []

-- The service has been set up, its manager is well-formed and runs; `stop` is given on the command
-- line, and the tool succeeds. Then the calls that the handler makes of the manager, and the delivery of
-- the manager's message to itself, send one stop message to the mailbox of each child, with as many
-- references as there are children. One exit event of each child, in any order, then ends the event loop
-- with no child left, and the loop has not returned before the last of the exits.
pub typed_stop-Ended :
    (S : System) (L : IsLawful S) (pid : ℕ) (s : S.State) (opts : List Opt) (arg : Option Bytes)
    (m : ActorManager) (x : Delivery) (ds : List Delivery)
    → pid < 2 ^ 31
    → (set_up S pid s).1 ≡ true
    → scan opts none ≡ command (some (codes "stop"))
    → IsPlainArg arg
    → (command_line S opts arg (set_up S pid s).0).1 ≡ succeeds
    → IsWellFormed m
    → m.is_running ≡ true
    → x.body.type ≡ cmd_exit
    → AreExits ds
    → IsFrom ds m.childrens
    → let request = (handle_signal S (command_line S opts arg (set_up S pid s).0).0).1 in
      IsShutDown (calls request) m x ds
unfolding calls
typed_stop-Ended S L pid s opts arg m x ds b h k p e v r t a f =
    let (killed, request, file) = typed-requested S L pid s opts (codes "stop") arg b h k p e in
    let q = request ∙ requested-stop arg in
    subst (λ o. IsShutDown (calls o) m x ds) (sym q) (shutdown-Ended m x ds v r t a f)
