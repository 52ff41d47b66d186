-- ===== src/System/Wire/Kinds.antt =====
-- The messages that the management process sends are of the kinds that the SSC can handle.
use pi_ssc_ssd_ssa.Common.{ℕ, ◌≡◌, refl, Bool, true, false, List, map, every}
use pi_ssc_ssd_ssa.Public.{Entry}
use pi_ssc_ssd_ssa.Public.Message.{Msg}
use pi_ssc_ssd_ssa.Hlist.{Hlist}
use pi_ssc_ssd_ssa.MsgList.{ListHead}
use pi_ssc_ssd_ssa.Pi.Handlers.{pthread_ds_fun}
use pi_ssc_ssd_ssa.Pi.Receive.{MsgQueue}
use pi_ssc_ssd_ssa.Pi.Cli.{Command, clear_vlan}
use pi_ssc_ssd_ssa.Pi.Cli.Done.{order, sends, vlan_order}
use pi_ssc_ssd_ssa.Pi.Process.{Host}
use pi_ssc_ssd_ssa.Pi.Process.Queue.{can_handle}
use pi_ssc_ssd_ssa.Pi.Process.Steps.{IsHost}
use pi_ssc_ssd_ssa.Ssc.Invariant.{IsSscDb}
use pi_ssc_ssd_ssa.Ssc.Process.Kinds.{well_formed}
use pi_ssc_ssd_ssa.System.Wire.{Wire, to_ssc, to_pi}

-- A message that the SSC can handle.
unfoldable pub can_ssc : Msg → Bool
can_ssc m = well_formed m.msg_type m.msg

module _ (H : Hlist Entry) (L : ListHead MsgQueue) where
  -- The message of a command is one that the SSC can handle.
  vlan-can_ssc :
      (b : Bool) (n : ℕ) (fds : List ℕ)
      → every can_ssc (map (λ (m : Msg × List ℕ). m.0) (sends H (vlan_order b n) fds)) ≡ true
  unfolding every can_ssc well_formed
  vlan-can_ssc true n fds = refl
  vlan-can_ssc false n fds = refl

  pub order-can_ssc :
      (junk : ℕ) (cmd : Command) (fds : List ℕ)
      → every can_ssc (map (λ (m : Msg × List ℕ). m.0) (sends H (order junk cmd) fds)) ≡ true
  unfolding every can_ssc well_formed
  order-can_ssc junk (clear_vlan n) fds = vlan-can_ssc _ n fds
  order-can_ssc junk cmd fds = refl

  -- What a thread of `pthread_ds_fun` sends.
  pub ds-can_ssc : (junk : ℕ) (h : Host H L) → every can_ssc (pthread_ds_fun H junk h.pi.db) ≡ true
  unfolding every can_ssc well_formed pthread_ds_fun
  ds-can_ssc junk h = refl

  -- Both processes are in order, what the SSC has written can be handled by the management process,
  -- and what that has written, or a thread of it is still to send, by the SSC.
  pub record IsWire (s : Wire H L) : Type 0 where
    pub host_ok : IsHost H L s.host
    pub db_ok : IsSscDb H s.process.ssc.db
    pub pi_can : every can_handle (to_pi H L s) ≡ true
    pub ssc_can : every can_ssc (to_ssc H L s) ≡ true
    pub ds_can : every (every can_ssc) s.ds ≡ true
