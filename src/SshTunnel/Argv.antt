-- ===== src/SshTunnel/Argv.antt =====
-- The command line of the tunnel.
use mqtt_viewer.Base.{
  ℕ, ◌+◌, ◌≤◌, ◌<◌, List, [], ◌∷◌, ◌++◌, append_assoc, append-nil, some, ◌≡◌, refl, sym, ap, arith,
  length, length-append, Bytes,
}
use mqtt_viewer.SshTunnel.{
  SshTunnelOpts, is_set, push_all, arguments, ssh_tunnel_build_argv, ssh_tunnel_max_args,
}

push_all-fits :
    (size : ℕ) (argv ss : List Bytes)
    → length argv + length ss < size
    → push_all size argv ss ≡ some (argv ++ ss)
unfolding push_all
push_all-fits size argv [] h = ap some (sym (append-nil argv))
push_all-fits size argv (s ∷ ss) h = ground (
  arith,
  push_all-fits size (argv ++ (s ∷ [])) ss,
  length-append argv (s ∷ []),
  append_assoc argv (s ∷ []) ss,
)

arguments-length : (opts : SshTunnelOpts) (port : ℕ) → length (arguments opts port) ≤ 15
unfolding arguments
arguments-length opts port = grind arith

-- The command fits into the array for each choice of options: `ssh_tunnel_build_argv` never returns -1
-- from `ssh_tunnel_start`, and gives all its arguments.
pub ssh_tunnel_build_argv-fits :
    (opts : SshTunnelOpts) (port : ℕ)
    → ssh_tunnel_build_argv opts port ssh_tunnel_max_args ≡ some (arguments opts port)
unfolding ssh_tunnel_build_argv
ssh_tunnel_build_argv-fits opts port =
    push_all-fits 20 [] (arguments opts port) (omega (arith, arguments-length opts port))

-- The password never stands in the command line, which other processes may read: two passwords that
-- are not empty give the same one.
pub ssh_tunnel_build_argv_hides_password :
    (opts : SshTunnelOpts) (port size c d : ℕ) (p q : Bytes)
    → ssh_tunnel_build_argv (record opts { jump_password = some (c ∷ p) }) port size
      ≡ ssh_tunnel_build_argv (record opts { jump_password = some (d ∷ q) }) port size
unfolding ssh_tunnel_build_argv arguments is_set
ssh_tunnel_build_argv_hides_password opts port size c d p q = refl
