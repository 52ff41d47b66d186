-- ===== src/Ssc/Process.antt =====
-- ssc_comm_pi.c: the threads of the SSC as one process. `pthread_deal_func` connects and reads, each
-- connection starts a thread that sends the database, and the line cards' notices come in between.
-- What the system answers is an event. A thread that sends the database stops between the parts that
-- hold the mutex.
pub mod Kinds
pub mod Handlers
pub mod Alive
use pi_ssc_ssd_ssa.Common.{
  ℕ, Bool, Option, none, some, List, [], ◌∷◌, ◌++◌, get_or, set, if◌then◌else◌, ◌>>=◌,
}
use pi_ssc_ssd_ssa.Public.{Entry}
use pi_ssc_ssd_ssa.Public.Message.{Payload, nothing, Msg, msgid_start, msgid_end}
use pi_ssc_ssd_ssa.Hlist.{Hlist}
use pi_ssc_ssd_ssa.Pi.Db.{Env}
use pi_ssc_ssd_ssa.Ssc.Comm.{
  Platform, Ssc, ssc_send_msg_pi, ssc_recevie_msg_pi, ssc_mac_update_recv, ssc_deal_ds,
}
use pi_ssc_ssd_ssa.Ssc.Sync.{
  ssc_send_pi_fetch, ssc_ds_conf_info, ssc_ds_static_info, ssc_ds_dyn_info,
}

-- Where `pthread_deal_func` stands: before `connect`, before `read`, or at its end, where `socket`
-- has failed.
pub data Link : Type 0 where
  connecting : Link
  reading : Link
  stopped : Link

-- The parts of `ssc_ds_data_pi`.
pub data Part : Type 0 where
  sync_start : Part
  sync_conf : Part
  sync_static : Part
  sync_dyn : Part
  sync_end : Part

-- A thread is the parts that it has before it.
abbrev pub new_thread : List Part
new_thread = sync_start ∷ sync_conf ∷ sync_static ∷ sync_dyn ∷ sync_end ∷ []

-- The result of `connect`, with that of `pthread_create`; a message that `read` gives; a `read` that
-- gives none, with the result of the `socket` that follows; a notice of a line card; a part of the
-- thread at a place; and a look of `ssc_deal_ds` at its flag.
pub data Event : Type 0 where
  connect : Bool → Bool → Event
  read : Msg → Event
  read_failed : Bool → Event
  notified : Payload → Event
  sync : ℕ → Event
  looked : Event

module _ (H : Hlist Entry) where
  pub record Process : Type 0 where
    pub ssc : Ssc H
    pub link : Link
    pub threads : List (List Part)

module _ (H : Hlist Entry) (env : Env) (platform : Platform) where
  unfoldable pub sync_part : Part → Ssc H → Option (Ssc H)
  sync_part sync_start s = some (ssc_send_msg_pi H env msgid_start nothing s)
  sync_part sync_conf s = ssc_ds_conf_info H env s
  sync_part sync_static s = ssc_ds_static_info H env s
  sync_part sync_dyn s = ssc_ds_dyn_info H env s
  sync_part sync_end s = some (ssc_send_msg_pi H env msgid_end nothing s)

  unfoldable pub ssc_sync_data_pi : Bool → List (List Part) → List (List Part)
  ssc_sync_data_pi create threads = if create then threads ++ (new_thread ∷ []) else threads

  -- A failed `connect` is tried again; after a failed `read` the socket is made anew.
  unfoldable pub pthread_deal_func : Event → Process H → Option (Process H)
  pthread_deal_func (connect ok create) p = elim p.link [
    | connecting ↦
        if ok
        then some (record {
          ssc = ssc_send_pi_fetch H env p.ssc;
          link = reading;
          threads = ssc_sync_data_pi create p.threads;
        })
        else some (record p { link = connecting })
    | _ ↦ none
  ]
  pthread_deal_func (read m) p = elim p.link [
    | reading ↦ (do
      s ← ssc_recevie_msg_pi H env platform m p.ssc
      some (record p { ssc = s; link = reading }))
    | _ ↦ none
  ]
  pthread_deal_func (read_failed opened) p = elim p.link [
    | reading ↦ some (record p { link = if opened then connecting else stopped })
    | _ ↦ none
  ]
  pthread_deal_func event p = none

  -- The next part of the thread at a place; a thread that is at its end does nothing.
  unfoldable pub sync_thread : ℕ → Process H → Option (Process H)
  sync_thread k p = elim (get_or p.threads k []) [
    | [] ↦ none
    | part ∷ rest ↦ (do
      s ← sync_part part p.ssc
      some (record p { ssc = s; threads = set p.threads k rest }))
  ]

  unfoldable pub step : Event → Process H → Option (Process H)
  step (connect ok create) p = pthread_deal_func (connect ok create) p
  step (read m) p = pthread_deal_func (read m) p
  step (read_failed opened) p = pthread_deal_func (read_failed opened) p
  step (notified body) p = do
    s ← ssc_mac_update_recv H env platform body p.ssc
    some (record p { ssc = s })
  step (sync k) p = sync_thread k p
  step looked p = some (record p { ssc = ssc_deal_ds H env platform p.ssc })
