-- ===== src/System/Wire/Steps.antt =====
-- One step of the management process and the SSC.
use pi_ssc_ssd_ssa.Common.{ℕ, ◌+◌, ◌≡◌, refl, true, some, every-get_elem?}
use pi_ssc_ssd_ssa.Public.{Entry}
use pi_ssc_ssd_ssa.Public.Message.{mac_entry}
use pi_ssc_ssd_ssa.Hlist.{Hlist}
use pi_ssc_ssd_ssa.MsgList.{ListHead}
use pi_ssc_ssd_ssa.Pi.Db.{Env}
use pi_ssc_ssd_ssa.Pi.Receive.{MsgQueue}
use pi_ssc_ssd_ssa.Ssc.Comm.{Platform}
use pi_ssc_ssd_ssa.Ssc.Process.{
  Event, connect, read, read_failed, notified, sync, looked, Process, step,
}
use pi_ssc_ssd_ssa.Ssc.Process.Alive.{can_come, step-IsSscDb}
use pi_ssc_ssd_ssa.System.Wire.{
  WireEvent, pi_polled, pi_handled, pi_called, ds_begun, ds_sent, ssc_connected, ssc_read,
  ssc_read_failed, ssc_notified, ssc_synced, ssc_looked, Wire, to_ssc, ssc_read_step, wire_step,
}
use pi_ssc_ssd_ssa.System.Wire.Sent.{step-CanPi}
use pi_ssc_ssd_ssa.System.Wire.Kinds.{can_ssc, IsWire}
use pi_ssc_ssd_ssa.System.Wire.HostSteps.{
  CanWire, Steps, polled-Steps, handled-Steps, called-Steps, ds_begun-Steps, ds_sent-Steps,
}

module _ (H : Hlist Entry) (L : ListHead MsgQueue) (env : Env) (platform : Platform) where
  -- The SSC goes on.
  ssc_step :
      (e : Event) (s : Wire H L) (n : ℕ)
      → env.mem ≡ true
      → IsWire H L s
      → can_come H env platform e s.process ≡ true
      → (p : Process H) × (step H env platform e s.process ≡ some p)
        × IsWire H L (record s { process = p; read_by_ssc = n })
  ssc_step e s n mem v ok =
      let (p, run, w) = step-IsSscDb H env platform e s.process mem v.db_ok ok in
      (
        p,
        run,
        record {
          host_ok = v.host_ok;
          db_ok = w;
          pi_can = step-CanPi H env platform e s.process p v.pi_can run;
          ssc_can = v.ssc_can;
          ds_can = v.ds_can;
        },
      )

  ssc_read-Steps :
      (skip : ℕ) (s : Wire H L)
      → env.mem ≡ true
      → IsWire H L s
      → CanWire H L env platform (ssc_read skip) s
      → Steps H L env platform (ssc_read skip) s
  unfolding wire_step ssc_read_step can_ssc
  ssc_read-Steps skip s mem v (connected, m, there) =
      let can = every-get_elem? can_ssc (to_ssc H L s) _ m v.ssc_can there in
      let ok : can_come H env platform (read m) s.process ≡ true = rw connected can in
      let (p, run, w) = ssc_step (read m) s (s.read_by_ssc + skip + 1) mem v ok in
      (_, simp (there, run), w)

  -- An event that can come is dealt with.
  pub step-IsWire :
      (e : WireEvent) (s : Wire H L)
      → env.mem ≡ true
      → IsWire H L s
      → CanWire H L env platform e s
      → Steps H L env platform e s
  unfolding wire_step
  step-IsWire (pi_polled mem a from) s _ v ok = polled-Steps H L env platform mem a from s v ok
  step-IsWire (pi_handled e create) s _ v ok = handled-Steps H L env platform e create s v
  step-IsWire (pi_called e net junk cmd) s _ v ok =
      called-Steps H L env platform e net junk cmd s v ok
  step-IsWire (ds_begun junk) s _ v ok = ds_begun-Steps H L env platform junk s v ok
  step-IsWire (ds_sent net k) s _ v ok = ds_sent-Steps H L env platform net k s v ok
  step-IsWire (ssc_connected opened create) s mem v ok =
      let (p, run, w) = ssc_step (connect opened create) s s.read_by_ssc mem v ok in
      (record s { process = p }, simp run, w)
  step-IsWire (ssc_read skip) s mem v ok = ssc_read-Steps skip s mem v ok
  step-IsWire (ssc_read_failed opened) s mem v ok =
      let (p, run, w) = ssc_step (read_failed opened) s s.read_by_ssc mem v ok in
      (record s { process = p }, simp run, w)
  step-IsWire (ssc_notified e) s mem v ok =
      let (p, run, w) = ssc_step (notified (mac_entry e)) s s.read_by_ssc mem v refl in
      (record s { process = p }, simp run, w)
  step-IsWire (ssc_synced k) s mem v ok =
      let (p, run, w) = ssc_step (sync k) s s.read_by_ssc mem v ok in
      (record s { process = p }, simp run, w)
  step-IsWire ssc_looked s mem v ok =
      let (p, run, w) = ssc_step looked s s.read_by_ssc mem v ok in
      (record s { process = p }, simp run, w)
