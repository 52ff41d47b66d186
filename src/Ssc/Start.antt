-- ===== src/Ssc/Start.antt =====
-- ssc/ssc_mac_init.c: `ssc_mac_rookie_init`, whose first call starts the thread that connects and
-- reads, so that the other three run beside it.
pub mod Early
use pi_ssc_ssd_ssa.Common.{
  Bool, true, false, Option, none, some, List, [], ◌∷◌, if◌then◌else◌, ◌>>=◌,
}
use pi_ssc_ssd_ssa.Public.{Entry}
use pi_ssc_ssd_ssa.Public.Message.{Msg}
use pi_ssc_ssd_ssa.Hlist.{Hlist}
use pi_ssc_ssd_ssa.Pi.Db.{Env}
use pi_ssc_ssd_ssa.Ssc.Db.{SscDb, ssc_db_init}
use pi_ssc_ssd_ssa.Ssc.Comm.{Platform, Ssc}
use pi_ssc_ssd_ssa.Ssc.Process.{
  Link, connecting, stopped, Event, connect, read, read_failed, notified, sync, Process, step,
}

-- The calls of `ssc_mac_rookie_init`.
pub data Init : Type 0 where
  comm_init : Init
  opera_init : Init
  db_init : Init
  register : Init

abbrev pub ssc_mac_rookie_init : List Init
ssc_mac_rookie_init = comm_init ∷ opera_init ∷ db_init ∷ register ∷ []

-- `ssc_mac_func` is set, with these calls left.
abbrev pub is_set : List Init → Bool
is_set (comm_init ∷ rest) = false
is_set (opera_init ∷ rest) = false
is_set left = true

-- The line cards' notices are received, with these calls left.
abbrev pub is_registered : List Init → Bool
is_registered [] = true
is_registered (i ∷ rest) = false

-- The next call, with the result of `pthread_create` in `ssc_comm_init`; or an event of the process.
pub data StartEvent : Type 0 where
  next_call : Bool → StartEvent
  meanwhile : Event → StartEvent

module _ (H : Hlist Entry) where
  pub record Start : Type 0 where
    pub process : Process H
    pub left : List Init

  unfoldable pub ssc_comm_init : Bool → Process H → Process H
  ssc_comm_init create p = record p { link = if create then connecting else stopped }

  unfoldable pub call : Bool → Init → Process H → Process H
  call create comm_init p = ssc_comm_init create p
  call create opera_init p = p
  call create db_init p = record p { ssc = record p.ssc { db = ssc_db_init H p.ssc.db } }
  call create register p = p

module _ (H : Hlist Entry) (env : Env) (platform : Platform) where
  -- A message that is read before the functions are set is a call through NULL, and a notice does not
  -- come before its function is registered.
  unfoldable pub meanwhile_step : Event → Start H → Option (Start H)
  meanwhile_step e s = do p ← step H env platform e s.process; some (record s { process = p })

  unfoldable pub start_step : StartEvent → Start H → Option (Start H)
  start_step (next_call create) s = elim s.left [
    | [] ↦ none
    | i ∷ rest ↦ some (record { process = call H create i s.process; left = rest })
  ]
  start_step (meanwhile (read m)) s = if is_set s.left then meanwhile_step (read m) s else none
  start_step (meanwhile (notified body)) s =
      if is_registered s.left then meanwhile_step (notified body) s else none
  start_step (meanwhile e) s = meanwhile_step e s

  unfoldable pub start_steps : List StartEvent → Start H → Option (Start H)
  start_steps [] s = some s
  start_steps (e ∷ es) s = start_step e s >>= start_steps es
