-- ===== src/Proxy/Options.antt =====
-- The command line of p6/starter-code/proxyserver.c: default_settings, and the loop of main over the
-- arguments behind the program's name.
use cs537projects.Base.{
  ℕ, zero, suc, ◌≡◌, refl, ap, ◌∙◌, sym, Option, none, some, List, [], ◌∷◌, ◌++◌, map,
  if◌then◌else◌, length, append_assoc, append-nil,
}
use cs537projects.Base.Int.{ℤ, pos, pos_part}
use cs537projects.CString.{str_eq, atoi}

pub record Settings : Type 0 where
  pub num_listener : ℤ
  pub listener_ports : List ℤ
  pub num_workers : ℤ
  pub fileserver_ipaddr : List ℕ
  pub fileserver_port : ℤ
  pub max_queue_size : ℤ

-- "127.0.0.1"
abbrev local_host : List ℕ
local_host = b'1' ∷ b'2' ∷ b'7' ∷ b'.' ∷ b'0' ∷ b'.' ∷ b'0' ∷ b'.' ∷ b'1' ∷ []

abbrev pub default_settings : Settings
default_settings = record {
  num_listener = pos 1;
  listener_ports = pos 8000 ∷ [];
  num_workers = pos 1;
  fileserver_ipaddr = local_host;
  fileserver_port = pos 3333;
  max_queue_size = pos 100;
}

-- What the next argument is: an option, or a value that `++i` steps to.
pub data Wanted : Type 0 where
  an_option : Wanted
  a_count : Wanted
  ports : ℕ → Wanted
  a_worker_count : Wanted
  a_queue_size : Wanted
  an_address : Wanted
  a_port : Wanted

-- `missing_value`: the NULL behind the arguments is taken for a value.
pub data Parsed : Type 0 where
  usage : Parsed
  missing_value : Parsed
  parsed : Settings → Parsed

abbrev pub flag : ℕ → List ℕ
flag c = b'-' ∷ c ∷ []

unfoldable pub option_of : List ℕ → Option Wanted
unfolding str_eq
option_of arg =
    if str_eq (flag b'l') arg
    then some a_count
    else (if str_eq (flag b'w') arg
        then some a_worker_count
        else (if str_eq (flag b'q') arg
            then some a_queue_size
            else (if str_eq (flag b'i') arg
                then some an_address
                else (if str_eq (flag b'p') arg then some a_port else none))))

-- The `for` over the ports of "-l" is left when none is wanted any more.
abbrev ports_left : ℕ → Wanted
ports_left zero = an_option
ports_left (suc n) = ports (suc n)

abbrev without_ports : ℤ → Settings → Settings
without_ports n s = record s { num_listener = n; listener_ports = [] }

abbrev add_port : ℤ → Settings → Settings
add_port p s = record s { listener_ports = s.listener_ports ++ (p ∷ []) }

unfoldable pub parse_args : List (List ℕ) → Wanted → Settings → Parsed
unfolding option_of atoi
parse_args [] an_option s = parsed s
parse_args [] a_count s = missing_value
parse_args [] (ports n) s = missing_value
parse_args [] a_worker_count s = missing_value
parse_args [] a_queue_size s = missing_value
parse_args [] an_address s = missing_value
parse_args [] a_port s = missing_value
parse_args (arg ∷ args) an_option s = elim (option_of arg) [
  | none ↦ usage
  | some wanted ↦ parse_args args wanted s
]
parse_args (arg ∷ args) a_count s =
    parse_args args (ports_left (pos_part (atoi arg))) (without_ports (atoi arg) s)
parse_args (arg ∷ args) (ports zero) s = parse_args args an_option (add_port (atoi arg) s)
parse_args (arg ∷ args) (ports (suc n)) s = parse_args args (ports_left n) (add_port (atoi arg) s)
parse_args (arg ∷ args) a_worker_count s =
    parse_args args an_option (record s { num_workers = atoi arg })
parse_args (arg ∷ args) a_queue_size s =
    parse_args args an_option (record s { max_queue_size = atoi arg })
parse_args (arg ∷ args) an_address s =
    parse_args args an_option (record s { fileserver_ipaddr = arg })
parse_args (arg ∷ args) a_port s =
    parse_args args an_option (record s { fileserver_port = atoi arg })

-- One option with its values.
pub data Given : Type 0 where
  listeners : List ℕ → List (List ℕ) → Given
  workers : List ℕ → Given
  queue : List ℕ → Given
  address : List ℕ → Given
  server_port : List ℕ → Given

abbrev pub written : Given → List (List ℕ)
written (listeners n ps) = flag b'l' ∷ n ∷ ps
written (workers n) = flag b'w' ∷ n ∷ []
written (queue n) = flag b'q' ∷ n ∷ []
written (address a) = flag b'i' ∷ a ∷ []
written (server_port n) = flag b'p' ∷ n ∷ []

unfoldable pub applied : Given → Settings → Settings
unfolding atoi
applied (listeners n ps) s = record s { num_listener = atoi n; listener_ports = map atoi ps }
applied (workers n) s = record s { num_workers = atoi n }
applied (queue n) s = record s { max_queue_size = atoi n }
applied (address a) s = record s { fileserver_ipaddr = a }
applied (server_port n) s = record s { fileserver_port = atoi n }

-- "-l" has as many ports as it says.
abbrev pub Counted : List Given → Type 0
Counted [] = Unit {0}
Counted (listeners n ps ∷ more) = (atoi n ≡ pos (length ps)) × Counted more
Counted (workers n ∷ more) = Counted more
Counted (queue n ∷ more) = Counted more
Counted (address a ∷ more) = Counted more
Counted (server_port n ∷ more) = Counted more

abbrev pub all_written : List Given → List (List ℕ)
all_written [] = []
all_written (g ∷ more) = written g ++ all_written more

abbrev pub all_applied : List Given → Settings → Settings
all_applied [] s = s
all_applied (g ∷ more) s = all_applied more (applied g s)

parse_args-ports :
    (ps args : List (List ℕ)) (n : ℤ) (read : List ℤ) (s : Settings)
    → parse_args
        (ps ++ args)
        (ports_left (length ps))
        (record s { num_listener = n; listener_ports = read })
      ≡ parse_args args an_option
          (record s { num_listener = n; listener_ports = read ++ map atoi ps })
unfolding parse_args
parse_args-ports [] args n read s =
    ap (λ r. parse_args args an_option (record s { num_listener = n; listener_ports = r }))
      (sym (append-nil read))
parse_args-ports (p ∷ ps) args n read s =
    parse_args-ports ps args n (read ++ (atoi p ∷ [])) s
    ∙ ap (λ r. parse_args args an_option (record s { num_listener = n; listener_ports = r }))
        (append_assoc read (atoi p ∷ []) (map atoi ps))

-- Options in any order and number, each "-l" with as many ports as it says, are parsed into the
-- settings that they give, the later ones over the earlier ones.
pub parse_args-all_written :
    (given : List Given) (s : Settings)
    → Counted given
    → parse_args (all_written given) an_option s ≡ parsed (all_applied given s)
unfolding parse_args applied option_of str_eq
parse_args-all_written [] s h = refl
parse_args-all_written (listeners n ps ∷ more) s h =
    ap
      (λ k.
        parse_args (ps ++ all_written more) (ports_left (pos_part k)) (without_ports (atoi n) s))
      h.0
    ∙ parse_args-ports ps (all_written more) (atoi n) [] s
    ∙ parse_args-all_written more (applied (listeners n ps) s) h.1
parse_args-all_written (workers n ∷ more) s h =
    parse_args-all_written more (applied (workers n) s) h
parse_args-all_written (queue n ∷ more) s h = parse_args-all_written more (applied (queue n) s) h
parse_args-all_written (address a ∷ more) s h =
    parse_args-all_written more (applied (address a) s) h
parse_args-all_written (server_port n ∷ more) s h =
    parse_args-all_written more (applied (server_port n) s) h
