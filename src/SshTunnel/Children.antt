-- ===== src/SshTunnel/Children.antt =====
-- No process is left behind.
use mqtt_viewer.Base.{
  ℕ, zero, suc, ◌+◌, ◌<◌, Bool, true, false, ◌||◌, List, [], ◌∷◌, ◌++◌, Option, none, some, ◌≡◌,
  ◌⊎◌, inl, inr, refl, arith, ◌==◌, ==_iff, if◌then◌else◌, Bytes, Bool-cases,
}
use mqtt_viewer.ConnectionLog.{ConnectionLog}
use mqtt_viewer.SshTunnel.{
  no_tunnel, SshTunnelOpts, System, ProcessCall, Started, wait_for, spawn, with_argv, with_port,
  ssh_tunnel_start, ssh_tunnel_stop, reserve_free_port,
}

abbrev has : ℕ → List ℕ → Bool
has p [] = false
has p (q ∷ qs) = q == p || has p qs

abbrev remove : ℕ → List ℕ → List ℕ
remove p [] = []
remove p (q ∷ qs) = if q == p then remove p qs else q ∷ remove p qs

-- The children that are left by calls on processes, where those in the first list were sent a SIGTERM
-- and those in the second run or were not reaped: a spawn adds one, a poll that finds it exited reaps
-- it, and so does a wait for one that was sent a SIGTERM. A wait for another one reaps nothing.
abbrev pub children_after : List ℕ → List ℕ → List ProcessCall → List ℕ
children_after ending running [] = running
children_after ending running (ProcessCall.spawned p ∷ calls) =
    children_after ending (p ∷ running) calls
children_after ending running (ProcessCall.polled p exited ∷ calls) =
    children_after ending (if exited then remove p running else running) calls
children_after ending running (ProcessCall.terminated p ∷ calls) =
    children_after (p ∷ ending) running calls
children_after ending running (ProcessCall.waited p ∷ calls) =
    children_after ending (if has p ending then remove p running else running) calls

-- From the children `start`, the calls leave the tunnel's process where the start succeeded, and none
-- else; with those of a later stop they leave none.
pub record IsOwned (pid : ℕ) (start : List ℕ) (s : Started) : Type 0 where
  pub owner :
      ((s.done ≡ true) × (s.tunnel.pid ≡ pid) × (children_after [] start s.calls ≡ pid ∷ []))
      ⊎ ((s.done ≡ false) × (s.tunnel ≡ no_tunnel) × (children_after [] start s.calls ≡ []))
  pub stopped : children_after [] start (s.calls ++ (ssh_tunnel_stop s.tunnel).1) ≡ []

module _ (sys : System) (h : 0 < sys.pid) where
  same : (sys.pid == sys.pid) ≡ true
  same = (==_iff sys.pid sys.pid).1 refl

  wait_for-IsOwned :
      (port : ℕ) (log : ConnectionLog) (i left : ℕ)
      → IsOwned sys.pid (sys.pid ∷ []) (wait_for sys port log i left)
  unfolding wait_for ssh_tunnel_stop
  wait_for-IsOwned port log i zero = record {
    owner = inr (refl, refl, rw same refl);
    stopped = rw same refl;
  }
  wait_for-IsOwned port log i (suc left) =
      let rest = wait_for-IsOwned port log (i + 1) left in
      elim (Bool-cases (sys.exited i)) [
        | inl e ↦ rw e (record { owner = inr (refl, refl, rw same refl); stopped = rw same refl })
        | inr e ↦ elim (Bool-cases (sys.connectable i)) [
          | inl q ↦
              let up : (sys.pid == 0) ≡ false = ground arith in
              rw (e, q) (record { owner = inl (refl, refl, refl); stopped = rw up (rw same refl) })
          | inr q ↦ rw (e, q) (record { owner = rest.owner; stopped = rest.stopped })
        ]
      ]

  spawn-IsOwned :
      (opts : SshTunnelOpts) (log : ConnectionLog) (port : ℕ) (argv : List Bytes)
      → IsOwned sys.pid [] (spawn sys opts log port argv).0
  spawn-IsOwned opts log port argv =
      let w = wait_for-IsOwned port log 0 80 in
      elim (Bool-cases (sys.spawn_rc == 0)) [
        | inl e ↦ simp e (record { owner = w.owner; stopped = w.stopped })
        | inr e ↦
            unfold ssh_tunnel_stop in
            simp e (record { owner = inr (refl, refl, refl); stopped = refl })
      ]

  with_argv-IsOwned :
      (opts : SshTunnelOpts) (log : ConnectionLog) (port : ℕ) (argv : Option (List Bytes))
      → IsOwned sys.pid [] (with_argv sys opts log port argv).0
  with_argv-IsOwned opts log port none =
      unfold ssh_tunnel_stop in record { owner = inr (refl, refl, refl); stopped = refl }
  with_argv-IsOwned opts log port (some argv) = spawn-IsOwned opts log port argv

  with_port-IsOwned :
      (opts : SshTunnelOpts) (log : ConnectionLog) (port : Option ℕ)
      → IsOwned sys.pid [] (with_port sys opts log port).0
  with_port-IsOwned opts log none =
      unfold ssh_tunnel_stop in record { owner = inr (refl, refl, refl); stopped = refl }
  with_port-IsOwned opts log (some port) = with_argv-IsOwned opts log port _

  -- A start that succeeds leaves one child, the process of the tunnel, whose `pid` it keeps; one that
  -- fails, for whatever reason, leaves no child and no tunnel: what it spawned was reaped. Stopping the
  -- tunnel then leaves no child. A process has a `pid` that is not 0.
  pub ssh_tunnel_start-IsOwned :
      (opts : SshTunnelOpts) (log : ConnectionLog)
      → IsOwned sys.pid [] (ssh_tunnel_start sys opts log).0
  unfolding ssh_tunnel_start
  ssh_tunnel_start-IsOwned opts log = with_port-IsOwned opts log (reserve_free_port sys.socket)
