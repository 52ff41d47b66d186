-- ===== src/Ssc/Config.antt =====
-- The configuration that the management process sends to the SSC when it asks for a synchronisation.
use pi_ssc_ssd_ssa.Common.{
  ℕ, ◌+◌, ◌-◌, ◌≡◌, refl, true, false, Option, some, List, [], ◌∷◌, ◌&&◌, arith, leb, ltb, length,
  fill, get_or, replicate, get_or-fill, length-replicate, if◌then◌else◌, ◌>>=◌,
}
use pi_ssc_ssd_ssa.Public.{Entry, port_num}
use pi_ssc_ssd_ssa.Public.Message.{Msg, ConfInfo}
use pi_ssc_ssd_ssa.Hlist.{Hlist}
use pi_ssc_ssd_ssa.Pi.Db.{Env, Db}
use pi_ssc_ssd_ssa.Pi.Handlers.{pthread_ds_fun}
use pi_ssc_ssd_ssa.Pi.Race.{ds_messages}
use pi_ssc_ssd_ssa.Ssc.Db.{SscDb, lock, unlock}
use pi_ssc_ssd_ssa.Ssc.Comm.{
  Platform, Ssc, on_db, locked_write, ssc_recevie_msg_pi, ssc_rece_pi_ds_start, ssc_rece_pi_ds_data,
  ssc_rece_pi_ds_end,
}

module _ (H : Hlist Entry) (env : Env) (platform : Platform) where
  -- Messages handled one after the other.
  unfoldable pub recevie_all : List Msg → Ssc H → Option (Ssc H)
  recevie_all [] s = some s
  recevie_all (m ∷ ms) s = ssc_recevie_msg_pi H env platform m s >>= recevie_all ms

  -- Let the array of ports of the SSC have its length, and its mutex be free.
  -- Handling in order what the management process sends as its configuration, the SSC comes to its
  -- end, with the age time of the management process and its status of the ports 1 to 23; the places
  -- 0 and 24 of its array, and its addresses, are as they were, whatever place 0 of the message held.
  -- The flag is set, and one thread more waits for it if one could be made.
  pub pthread_ds_fun-ports :
      (junk : ℕ) (db : Db H) (s : Ssc H)
      → s.db.locked ≡ false
      → length s.db.port_status ≡ port_num + 1
      → (s' : Ssc H) × (recevie_all (pthread_ds_fun H junk db) s ≡ some s')
        × (s'.db.age_time ≡ db.age_time)
        × ((j : ℕ)
            → get_or s'.db.port_status j 0 ≡ (
                if leb 1 j && ltb j port_num
                then get_or db.port_status j 0
                else get_or s.db.port_status j 0))
        × (s'.db.static_tbl ≡ s.db.static_tbl)
        × (s'.db.dyn_tbl ≡ s.db.dyn_tbl)
        × (s'.ds_is_end ≡ true)
        × (s'.waiting ≡ (if platform.create then s.waiting + 1 else s.waiting))
  unfolding recevie_all pthread_ds_fun ssc_recevie_msg_pi ssc_rece_pi_ds_start ssc_rece_pi_ds_data
      ssc_rece_pi_ds_end on_db locked_write lock unlock
  pthread_ds_fun-ports junk db s free size =
      let sent = fill port_num 1 (λ i. get_or db.port_status i 0) (replicate (port_num + 1) junk) in
      let ports = fill (port_num - 1) 1 (λ i. get_or sent i 0) s.db.port_status in
      let db' : SscDb H = record s.db {
        age_time = db.age_time;
        port_status = ports;
        locked = false;
      } in
      (
        record s {
          db = db';
          ds_is_end = true;
          waiting = if platform.create then s.waiting + 1 else s.waiting;
        },
        simp free,
        refl,
        λ j. ground (
          arith,
          get_or-fill (port_num - 1) 1 (λ i. get_or sent i 0) s.db.port_status j 0
              (omega (arith, size)),
          get_or-fill port_num 1 (λ i. get_or db.port_status i 0) (replicate (port_num + 1) junk) j
              0 (omega (arith, length-replicate {A = ℕ} (port_num + 1) junk)),
        ),
        refl,
        refl,
        refl,
        refl,
      )

  -- The same of any message with a configuration, where only the ports are asked for.
  pub ds_messages-ports :
      (tmp : ConfInfo) (s : Ssc H)
      → s.db.locked ≡ false
      → length s.db.port_status ≡ port_num + 1
      → (s' : Ssc H) × (recevie_all (ds_messages H tmp) s ≡ some s')
        × ((j : ℕ)
            → get_or s'.db.port_status j 0 ≡ (
                if leb 1 j && ltb j port_num
                then get_or tmp.port_status j 0
                else get_or s.db.port_status j 0))
  unfolding recevie_all ssc_recevie_msg_pi ssc_rece_pi_ds_start ssc_rece_pi_ds_data
      ssc_rece_pi_ds_end on_db locked_write lock unlock
  ds_messages-ports tmp s free size =
      let ports = fill (port_num - 1) 1 (λ i. get_or tmp.port_status i 0) s.db.port_status in
      let db' : SscDb H = record s.db {
        age_time = tmp.age_time;
        port_status = ports;
        locked = false;
      } in
      (
        record s {
          db = db';
          ds_is_end = true;
          waiting = if platform.create then s.waiting + 1 else s.waiting;
        },
        simp free,
        λ j. ground (
          arith,
          get_or-fill (port_num - 1) 1 (λ i. get_or tmp.port_status i 0) s.db.port_status j 0
              (omega (arith, size)),
        ),
      )
