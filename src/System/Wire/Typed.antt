-- ===== src/System/Wire/Typed.antt =====
-- Each message on the wire between the management process and the SSC is one that its reader can
-- handle.
use pi_ssc_ssd_ssa.Common.{ℕ, ◌≡◌, refl, sym, ◌∙◌, true, false, some, [], every}
use pi_ssc_ssd_ssa.Public.{Entry}
use pi_ssc_ssd_ssa.Hlist.{Hlist}
use pi_ssc_ssd_ssa.MsgList.{ListHead}
use pi_ssc_ssd_ssa.Pi.Db.{Env}
use pi_ssc_ssd_ssa.Pi.Receive.{MsgQueue}
use pi_ssc_ssd_ssa.Pi.Server.{Fd}
use pi_ssc_ssd_ssa.Pi.Process.Alive.{at_start, start-IsHost}
use pi_ssc_ssd_ssa.Ssc.Db.{SscDb, ssc_db_init}
use pi_ssc_ssd_ssa.Ssc.Comm.{Platform}
use pi_ssc_ssd_ssa.Ssc.Invariant.{ssc_db_init-IsSscDb}
use pi_ssc_ssd_ssa.Ssc.Process.{connecting}
use pi_ssc_ssd_ssa.System.Wire.{WireEvent, Wire, wire_step}
use pi_ssc_ssd_ssa.System.Wire.Kinds.{IsWire}
use pi_ssc_ssd_ssa.System.Wire.HostSteps.{CanWire}
use pi_ssc_ssd_ssa.System.Wire.Steps.{step-IsWire}

module _ (H : Hlist Entry) (L : ListHead MsgQueue) where
  -- Both processes at their starts, before they are connected; `db` holds the zeros of the globals of
  -- the SSC.
  abbrev pub at_first : ℕ → Fd → SscDb H → Wire H L
  at_first sock_fd junk db = record {
    host = at_start H L sock_fd junk;
    process = record {
      ssc = record {
        db = ssc_db_init H db;
        ds_is_end = false;
        waiting = 0;
        to_ssd = [];
        to_pi = [];
      };
      link = connecting;
      threads = [];
    };
    read_by_pi = 0;
    read_by_ssc = 0;
    ds = [];
  }

  first-IsWire : (sock_fd : ℕ) (junk : Fd) (db : SscDb H) → IsWire H L (at_first sock_fd junk db)
  unfolding every
  first-IsWire sock_fd junk db = record {
    host_ok = start-IsHost H L sock_fd junk;
    db_ok = ssc_db_init-IsSscDb H db;
    pi_can = refl;
    ssc_can = refl;
    ds_can = refl;
  }

  module _ (env : Env) (platform : Platform) where
    -- The states that a sequence of events leads to, each of which can come where it does.
    pub data Reach (s : Wire H L) : Wire H L → Type 0 where
      start : Reach s s
      after :
          {t u : Wire H L}
          → Reach s t
          → (e : WireEvent) → CanWire H L env platform e t
          → wire_step H L env platform e t ≡ some u
          → Reach s u

    reached-IsWire : (s u : Wire H L) → env.mem ≡ true → IsWire H L s → Reach s u → IsWire H L u
    reached-IsWire s u mem v start = v
    reached-IsWire s u mem v (after {t = t} path e ok run) =
        let (r, run', v') =
          step-IsWire H L env platform e t mem (reached-IsWire s t mem v path) ok in
        let same : some r ≡ some u = sym run' ∙ run in let eq : r ≡ u = cc in rw (← eq) v'

    -- Let the management process and the SSC start, with memory in the SSC. In whatever order their
    -- threads go on, commands come in (with memory for their messages), line cards send notices, and
    -- connections are made and lost, while each process reads messages that the other has written, of
    -- which some may be lost, and no round of the server finds each place taken: in each state that is
    -- reached both processes are in order, each message that the SSC has written is one that the
    -- management process can handle, and each message that the management process has written, or one
    -- of its threads is still to send, is one that the SSC can handle; and each event that can come
    -- next is dealt with.
    pub wire-goes_on :
        (sock_fd : ℕ) (junk : Fd) (db : SscDb H) (s : Wire H L) (e : WireEvent)
        → env.mem ≡ true
        → Reach (at_first sock_fd junk db) s
        → CanWire H L env platform e s
        → IsWire H L s
          × (s' : Wire H L) × (wire_step H L env platform e s ≡ some s')
          × Reach (at_first sock_fd junk db) s'
    wire-goes_on sock_fd junk db s e mem path ok =
        let v =
          reached-IsWire (at_first sock_fd junk db) s mem (first-IsWire sock_fd junk db) path in
        let (s', run, v') = step-IsWire H L env platform e s mem v ok in
        (v, s', run, after path e ok run)
