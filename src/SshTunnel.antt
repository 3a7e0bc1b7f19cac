-- ===== src/SshTunnel.antt =====
-- src/core/ssh_tunnel.h and .c: the `ssh -N -L` process that forwards a local port to the broker.
-- Strings are given without their NUL, `none` is NULL. The system's answers are a record: what the
-- sockets, `posix_spawnp`, and the n-th round's `waitpid` and `connect` say. A function that starts or
-- ends processes returns its calls on them, in order.
pub mod Argv
pub mod Children
use mqtt_viewer.Base.{
  ℕ, zero, suc, ◌+◌, ◌-◌, Bool, true, false, not, ◌&&◌, List, [], ◌∷◌, ◌++◌, Option, none, some,
  length, ltb, leb, ◌==◌, if◌then◌else◌, Bytes, codes, str_eq,
}
use mqtt_viewer.Decimal.{decimal}
use mqtt_viewer.Util.{truncated, or_empty}
use mqtt_viewer.ConnectionLog.{ConnectionLog, LogLevel, connection_log_add}

-- `pid` is 0 where there is no process.
pub record SshTunnel : Type 0 where
  pub pid : ℕ
  pub local_port : ℕ

abbrev pub no_tunnel : SshTunnel
no_tunnel = record { pid = 0; local_port = 0 }

pub record SshTunnelOpts : Type 0 where
  pub target_host : Bytes
  pub target_port : ℕ
  pub jump_host : Bytes
  pub jump_port : ℕ
  pub jump_user : Option Bytes
  pub jump_key_path : Option Bytes
  pub jump_password : Option Bytes

abbrev pub ssh_tunnel_max_args : ℕ
ssh_tunnel_max_args = 20

-- `s && s[0]`
unfoldable pub is_set : Option Bytes → Bool
is_set none = false
is_set (some []) = false
is_set (some (c ∷ s)) = true

-- `PUSH` for each of a list of arguments; `none` is the early return of -1.
unfoldable pub push_all : ℕ → List Bytes → List Bytes → Option (List Bytes)
push_all argv_cap argv [] = some argv
push_all argv_cap argv (s ∷ ss) =
    let rest = push_all argv_cap (argv ++ (s ∷ [])) ss in
    if leb (argv_cap - 1) (length argv) then none else rest

-- The arguments in the order of the `PUSH`es.
unfoldable pub arguments : SshTunnelOpts → ℕ → List Bytes
arguments opts local_port =
    let password = is_set opts.jump_password in
    let port = if opts.jump_port == 0 then 22 else opts.jump_port in
    let spec =
      codes "127.0.0.1:"
      ++ (decimal local_port ++ (b':' ∷ (opts.target_host ++ (b':' ∷ decimal opts.target_port)))) in
    (if password then codes "sshpass" ∷ codes "-e" ∷ [] else [])
    ++ (codes "ssh"
        ∷ codes "-N"
        ∷ ((if password then [] else codes "-o" ∷ codes "BatchMode=yes" ∷ [])
            ++ (codes "-o"
                ∷ codes "ExitOnForwardFailure=yes"
                ∷ codes "-o"
                ∷ codes "StrictHostKeyChecking=accept-new"
                ∷ codes "-p"
                ∷ truncated 8 (decimal port)
                ∷ ((if is_set opts.jump_key_path
                      then codes "-i" ∷ or_empty opts.jump_key_path ∷ []
                      else [])
                    ++ (codes "-L"
                        ∷ truncated 600 spec
                        ∷ (if is_set opts.jump_user
                            then truncated 400 (or_empty opts.jump_user ++ (b'@' ∷ opts.jump_host))
                            else opts.jump_host)
                        ∷ [])))))

unfoldable pub ssh_tunnel_build_argv : SshTunnelOpts → ℕ → ℕ → Option (List Bytes)
ssh_tunnel_build_argv opts local_port argv_cap = push_all argv_cap [] (arguments opts local_port)

-- What the sockets of `reserve_free_port` answer, and the port that the system chose.
pub record Socket : Type 0 where
  pub opened : Bool
  pub bound : Bool
  pub named : Bool
  pub port : ℕ

unfoldable pub reserve_free_port : Socket → Option ℕ
reserve_free_port s = if s.opened && (s.bound && s.named) then some s.port else none

-- The system's answers to one start: `spawn_rc` is 0 for success, `exited` and `connectable` are asked
-- once a round; `envp_ok` tells whether `malloc` gave the new environment.
pub record System : Type 0 where
  pub socket : Socket
  pub environ : List Bytes
  pub envp_ok : Bool
  pub spawn_rc : ℕ
  pub not_found : Bool
  pub pid : ℕ
  pub exited : ℕ → Bool
  pub connectable : ℕ → Bool
  pub strerror : ℕ → Bytes
  pub now : ℕ

-- The environment of the child: `SSHPASS=..` behind the caller's variables.
unfoldable pub environment : System → Option Bytes → List Bytes
environment sys password =
    if is_set password && sys.envp_ok
    then sys.environ ++ (truncated 192 (codes "SSHPASS=" ++ or_empty password) ∷ [])
    else sys.environ

-- A call on a process: the spawn that made it, a `waitpid` with WNOHANG and whether the process had
-- exited, a `kill` with SIGTERM, and a `waitpid` that waits for its end.
pub data ProcessCall : Type 0 where
  spawned : ℕ → ProcessCall
  polled : ℕ → Bool → ProcessCall
  terminated : ℕ → ProcessCall
  waited : ℕ → ProcessCall

pub record Started : Type 0 where
  pub tunnel : SshTunnel
  pub log : ConnectionLog
  pub done : Bool
  pub calls : List ProcessCall

abbrev pub note : System → ConnectionLog → LogLevel → Bytes → ConnectionLog
note sys log level text = connection_log_add sys.now log level text

abbrev pub refused : System → ConnectionLog → Bytes → List ProcessCall → Started
refused sys log text calls = record {
  tunnel = no_tunnel;
  log = note sys log LogLevel.error text;
  done = false;
  calls = calls;
}

-- The waiting loop, from its round `i`, with `left` rounds to come.
unfoldable pub wait_for : System → ℕ → ConnectionLog → ℕ → ℕ → Started
wait_for sys port log i zero =
    refused sys log (codes "SSH tunnel: timed out waiting for the tunnel to come up")
      (ProcessCall.terminated sys.pid ∷ ProcessCall.waited sys.pid ∷ [])
wait_for sys port log i (suc left) =
    let rest = wait_for sys port log (i + 1) left in
    let poll = ProcessCall.polled sys.pid (sys.exited i) in
    if sys.exited i
    then refused sys log
        (codes "SSH tunnel: ssh exited before the tunnel came up (check jump host/user/key)")
        (poll ∷ [])
    else if sys.connectable i
    then record {
      tunnel = record { pid = sys.pid; local_port = port };
      log =
          note sys log LogLevel.info
            (truncated 128 (codes "SSH tunnel established on 127.0.0.1:" ++ decimal port));
      done = true;
      calls = poll ∷ [];
    }
    else record rest { calls = poll ∷ rest.calls }

abbrev pub launch_failed : System → Bytes → Bytes
launch_failed sys program = truncated 256 (
    codes "SSH tunnel: failed to launch " ++ (program ++ (b':' ∷ b' ' ∷ sys.strerror sys.spawn_rc)))

abbrev pub program_of : List Bytes → Bytes
program_of [] = []
program_of (p ∷ ps) = p

-- `rc == ENOENT && strcmp(argv[0], "sshpass") == 0`
abbrev pub spawn_error : System → Bytes → Bytes
spawn_error sys program =
    if sys.not_found && str_eq program (codes "sshpass")
    then truncated 256 (
        codes
          "SSH tunnel: 'sshpass' not found on PATH - install it (e.g. `brew install hudochenkov/sshpass/sshpass` or `apt install sshpass`) or use key-based auth instead")
    else launch_failed sys program

-- The process that was spawned, and what became of it.
abbrev pub launched : System → Started → Started
launched sys s = record s { calls = ProcessCall.spawned sys.pid ∷ s.calls }

-- The child's command line and environment come second. 8000 ms in steps of 100 ms are 80 rounds.
abbrev pub spawn :
    System → SshTunnelOpts → ConnectionLog → ℕ → List Bytes → Started × List (List Bytes)
spawn sys opts log port argv = (
  if sys.spawn_rc == 0
      then launched sys (wait_for sys port log 0 80)
      else refused sys log (spawn_error sys (program_of argv)) [],
  argv ∷ environment sys opts.jump_password ∷ [],
)

abbrev pub with_argv :
    System → SshTunnelOpts → ConnectionLog → ℕ → Option (List Bytes) → Started × List (List Bytes)
with_argv sys opts log port none =
    (refused sys log (codes "SSH tunnel: command too long to build") [], [])
with_argv sys opts log port (some argv) = spawn sys opts log port argv

abbrev pub with_port :
    System → SshTunnelOpts → ConnectionLog → Option ℕ → Started × List (List Bytes)
with_port sys opts log none =
    (refused sys log (codes "SSH tunnel: failed to reserve a local port") [], [])
with_port sys opts log (some port) =
    with_argv sys opts log port (ssh_tunnel_build_argv opts port ssh_tunnel_max_args)

unfoldable pub ssh_tunnel_start :
    System → SshTunnelOpts → ConnectionLog → Started × List (List Bytes)
ssh_tunnel_start sys opts log = with_port sys opts log (reserve_free_port sys.socket)

-- `running` is true where `waitpid` returned 0.
unfoldable pub ssh_tunnel_poll_alive : Bool → SshTunnel → SshTunnel × Bool
ssh_tunnel_poll_alive running tunnel =
    if tunnel.pid == 0
    then (tunnel, false)
    else if running
    then (tunnel, true)
    else (no_tunnel, false)

unfoldable pub ssh_tunnel_stop : SshTunnel → SshTunnel × List ProcessCall
ssh_tunnel_stop tunnel = (
  no_tunnel,
  if tunnel.pid == 0
      then []
      else ProcessCall.terminated tunnel.pid ∷ ProcessCall.waited tunnel.pid ∷ [],
)
