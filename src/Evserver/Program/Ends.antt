-- ===== src/Evserver/Program/Ends.antt =====
-- What main of evserver/src/main.cpp leaves open, however it goes on.
use linux_internals.Evserver.Options.{
  Choice, default_choice, Outcome, start, exit, thrown, with_backend, with_port, with_buffer,
  with_max_events, apply_option, parse_options, has_vector, construct, main,
}
use linux_internals.Evserver.Socket.{without}
use linux_internals.Evserver.Setup.Start.UringStarted.{ReadyOf, server_start-Started}
use linux_internals.Evserver.Setup.Start.Started.{Started}
use linux_internals.Evserver.Setup.Start.{Members}
use linux_internals.Evserver.Setup.Descriptors.{
  open_fds, owned, is_some, without_first, open_fds-drop_socket, drop_socket-error,
}
use linux_internals.Evserver.Setup.{Net, Setup}
use linux_internals.Evserver.Server.{Backend, ServerClass, make_server, parse_backend}
use linux_internals.Prelude.{
  ℕ, ◌^◌, ◌≡◌, refl, ap, ◌∙◌, ◌≢◌, Bool, true, false, ◌&&◌, ◌||◌, Option, none, some, List, [], ◌∷◌,
  ◌++◌, arith, leb, if◌then◌else◌, stoi, stoul, ℤ, pos, negsuc, Text, codes, text_eq, after_prefix,
}
use linux_internals.Evserver.Program.{
  Finish, exits, aborts, serves, close_owned, close_members, config_of, after_start, start_server,
  program,
}

close_owned-fds :
    (o : ℤ) (s : Setup) (ds : List ℕ)
    → open_fds s.trace ≡ owned o ++ ds
    → open_fds (close_owned o s).trace ≡ ds
unfolding close_owned
close_owned-fds (pos n) s ds h = open_fds-drop_socket n s ∙ ap (without n) h ∙ without_first n ds
close_owned-fds (negsuc n) s ds h = h

close_owned-error : (o : ℤ) (s : Setup) → (close_owned o s).error ≡ s.error
unfolding close_owned
close_owned-error (pos n) s = drop_socket-error n s
close_owned-error (negsuc n) s = refl

close_members-fds :
    (m : Members) (s : Setup) (ds : List ℕ)
    → open_fds s.trace ≡ owned m.epoll ++ (owned m.signal ++ (owned m.listener ++ ds))
    → open_fds (close_members m s).trace ≡ ds
unfolding close_members
close_members-fds m s ds h =
    close_owned-fds m.listener _ ds
      (close_owned-fds m.signal _ (owned m.listener ++ ds) (close_owned-fds m.epoll s _ h))

close_members-error : (m : Members) (s : Setup) → (close_members m s).error ≡ s.error
unfolding close_members
close_members-error m s =
    close_owned-error m.listener _ ∙ (close_owned-error m.signal _ ∙ close_owned-error m.epoll s)

-- Against the state before: main that ends leaves nothing open, and exit code 1 has a message; and a
-- server that is run owns what is open, and has got ready what its backend waits on.
abbrev pub Finished : Setup → Finish × Setup → Type 0
Finished s (exits code, s') =
    (open_fds s'.trace ≡ open_fds s.trace) × (code ≡ 1 → is_some s'.error ≡ true)
Finished s (aborts, s') = open_fds s'.trace ≡ open_fds s.trace
Finished s (serves class m, s') =
    (open_fds s'.trace
      ≡ owned m.epoll ++ (owned m.signal ++ (owned m.listener ++ open_fds s.trace)))
    × ReadyOf class m s'

after_start-Finished :
    (class : ServerClass) (s : Setup) (out : Bool × Members × Setup)
    → s.wanted ≡ true
    → Started (ReadyOf class) s out
    → Finished s (after_start class out.0 out.1 out.2)
unfolding after_start
after_start-Finished class s (true, m, s') w h = (h.held, h.ready refl)
after_start-Finished class s (false, m, s') w h = (
  close_members-fds m s' (open_fds s.trace) h.held,
  λ _. ap is_some (close_members-error m s') ∙ h.told refl w,
)

-- The options never end main with exit code 1.
abbrev OtherExit : Outcome → Type 0
OtherExit (exit code) = code ≢ 1
OtherExit _ = Unit

if_OtherExit :
    (b : Bool) (x y : Outcome) → OtherExit x → OtherExit y → OtherExit (if b then x else y)
if_OtherExit true x y p q = p
if_OtherExit false x y p q = q

prefix_OtherExit :
    (o : Option Text) (f : Text → Outcome) (y : Outcome)
    → ((v : Text) → OtherExit (f v))
    → OtherExit y
    → OtherExit (elim o as (λ _. Outcome) [ some v ↦ f v | none ↦ y ])
prefix_OtherExit (some v) f y p q = p v
prefix_OtherExit none f y p q = q

with_backend-OtherExit : (c : Choice) (o : Option Backend) → OtherExit (with_backend c o)
unfolding with_backend
with_backend-OtherExit c none = λ e. absurd (omega (arith, e))
with_backend-OtherExit c (some b) = tt

with_port-OtherExit : (c : Choice) (o : Option ℤ) → OtherExit (with_port c o)
unfolding with_port
with_port-OtherExit c none = tt
with_port-OtherExit c (some n) = tt

with_buffer-OtherExit : (c : Choice) (o : Option ℕ) → OtherExit (with_buffer c o)
unfolding with_buffer
with_buffer-OtherExit c none = tt
with_buffer-OtherExit c (some n) = tt

with_max_events-OtherExit : (c : Choice) (o : Option ℤ) → OtherExit (with_max_events c o)
unfolding with_max_events
with_max_events-OtherExit c none = tt
with_max_events-OtherExit c (some n) = tt

apply_option-OtherExit : (c : Choice) (arg : Text) → OtherExit (apply_option c arg)
unfolding apply_option
apply_option-OtherExit c arg =
    if_OtherExit (text_eq arg (codes "-h") || text_eq arg (codes "--help")) _ _
      (λ e. absurd (omega (arith, e)))
      (prefix_OtherExit (after_prefix (codes "--backend=") arg) _ _
        (λ v. with_backend-OtherExit c (parse_backend v))
        (prefix_OtherExit (after_prefix (codes "--port=") arg) _ _
          (λ v. with_port-OtherExit c (stoi v))
          (prefix_OtherExit (after_prefix (codes "--buffer=") arg) _ _
            (λ v. with_buffer-OtherExit c (stoul v))
            (prefix_OtherExit (after_prefix (codes "--max-events=") arg) _ _
              (λ v. with_max_events-OtherExit c (stoi v)) (λ e. absurd (omega (arith, e)))))))

next_option :
    (o : Outcome) (next : Choice → Outcome)
    → OtherExit o
    → ((c : Choice) → OtherExit (next c))
    → OtherExit
        (elim o as (λ _. Outcome) [ start c ↦ next c | exit code ↦ exit code | thrown ↦ thrown ])
next_option (start c) next p q = q c
next_option (exit code) next p q = p
next_option thrown next p q = tt

parse_options-OtherExit : (c : Choice) (args : List Text) → OtherExit (parse_options c args)
unfolding parse_options
parse_options-OtherExit c [] = tt
parse_options-OtherExit c (arg ∷ args) =
    next_option (apply_option c arg) (λ c'. parse_options c' args) (apply_option-OtherExit c arg)
      (λ c'. parse_options-OtherExit c' args)

construct-OtherExit : (c : Choice) → OtherExit (construct c)
unfolding construct
construct-OtherExit c = if_OtherExit (has_vector c.backend && leb (2 ^ 63) c.buffer_size) _ _ tt tt

main-OtherExit : (args : List Text) → OtherExit (main args)
unfolding main
main-OtherExit args =
    next_option (parse_options default_choice args) construct
      (parse_options-OtherExit default_choice args) construct-OtherExit

finish-Finished :
    (net : Net) (o : Outcome) (s : Setup)
    → s.wanted ≡ true
    → OtherExit o
    → Finished s (elim o as (λ _. Finish × Setup) [
      | start c ↦ start_server net c s
      | exit code ↦ (exits code, s)
      | thrown ↦ (aborts, s)
    ])
unfolding start_server
finish-Finished net (start c) s w p =
    after_start-Finished (make_server (config_of c)) s _ w
      (server_start-Started (make_server (config_of c)) net c.port s)
finish-Finished net (exit code) s w p = (refl, λ e. absurd (p e))
finish-Finished net thrown s w p = refl

-- However the options and the system calls turn out: main that returns without running a server leaves
-- open only what was open before, and has a message if its exit code is 1; and the server that it runs
-- owns every descriptor that is new, and its start() has got ready what the backend waits on.
pub program-Finished :
    (net : Net) (args : List Text) (s : Setup) → s.wanted ≡ true → Finished s (program net args s)
unfolding program
program-Finished net args s w = finish-Finished net (main args) s w (main-OtherExit args)
