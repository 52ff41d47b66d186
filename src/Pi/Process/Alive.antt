-- ===== src/Pi/Process/Alive.antt =====
-- The management process goes on.
use pi_ssc_ssd_ssa.Common.{ℕ, ◌≡◌, refl, sym, ◌∙◌, false, some, []}
use pi_ssc_ssd_ssa.Public.{Entry}
use pi_ssc_ssd_ssa.Hlist.{Hlist}
use pi_ssc_ssd_ssa.MsgList.{ListHead}
use pi_ssc_ssd_ssa.Pi.Db.{pi_default_args_init}
use pi_ssc_ssd_ssa.Pi.Ports.{pi_default_args_init-IsDb}
use pi_ssc_ssd_ssa.Pi.Receive.{MsgQueue}
use pi_ssc_ssd_ssa.Pi.Server.{Fd, listen_start}
use pi_ssc_ssd_ssa.Pi.Server.Calm.{listen_start-IsServer}
use pi_ssc_ssd_ssa.Pi.Process.{HostEvent, Host, pi_step}
use pi_ssc_ssd_ssa.Pi.Process.Steps.{IsHost, CanCome, step-IsHost}

module _ (H : Hlist Entry) (L : ListHead MsgQueue) where
  -- The states that a sequence of events leads to, each of which can come where it does.
  pub data Reach (h : Host H L) : Host H L → Type 0 where
    start : Reach h h
    after :
        {h1 h2 : Host H L}
        → Reach h h1
        → (e : HostEvent) → CanCome H L e h1
        → pi_step H L e h1 ≡ some h2
        → Reach h h2

  reached-IsHost : (h h' : Host H L) → IsHost H L h → Reach h h' → IsHost H L h'
  reached-IsHost h h' v start = v
  reached-IsHost h h' v (after {h1 = t} path e ok run) =
      let (r, run', v') = step-IsHost H L e t (reached-IsHost h t v path) ok in
      let same : some r ≡ some h' = sym run' ∙ run in let eq : r ≡ h' = cc in rw (← eq) v'

  -- The management process at its start, with an empty queue.
  abbrev pub at_start : ℕ → Fd → Host H L
  at_start sock_fd junk = record {
    pi = record { db = pi_default_args_init H; threads = 0 };
    server = listen_start L sock_fd junk (record { queue = L.init; pending = false });
    sent = [];
    said = [];
  }

  pub start-IsHost : (sock_fd : ℕ) (junk : Fd) → IsHost H L (at_start sock_fd junk)
  unfolding listen_start
  start-IsHost sock_fd junk = record {
    db_ok = (pi_default_args_init-IsDb H).0;
    server_ok = (listen_start-IsServer L sock_fd junk _).0;
    queue_ok = record { ms = []; there = L.items-init; can = refl };
  }

  -- From its start, in whatever order the management process reads messages that it can handle,
  -- handles what it has read, and carries out commands with memory for their messages, while no round
  -- of its server finds each place taken: each state that is reached has the database, the array of
  -- descriptors and the queue in order, and each event that can come next is dealt with, so that
  -- commands return and the handling thread comes to the end of its round.
  pub host-goes_on :
      (sock_fd : ℕ) (junk : Fd) (h : Host H L) (e : HostEvent)
      → Reach (at_start sock_fd junk) h
      → CanCome H L e h
      → IsHost H L h
        × (h' : Host H L) × (pi_step H L e h ≡ some h')
        × Reach (at_start sock_fd junk) h'
  host-goes_on sock_fd junk h e path ok =
      let v = reached-IsHost (at_start sock_fd junk) h (start-IsHost sock_fd junk) path in
      let (h', run, v') = step-IsHost H L e h v ok in (v, h', run, after path e ok run)
