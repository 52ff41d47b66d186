-- ===== src/Ssc/Torn.antt =====
-- The command that switches the learning of addresses, while the configuration is read for the SSC.
use pi_ssc_ssd_ssa.Common.{
  ℕ, ◌+◌, ◌-◌, ◌≤◌, ◌≡◌, refl, ap, ◌∙◌, false, some, List, ◌∷◌, ◌++◌, ◌&&◌, arith, leb, ltb, length,
  get_or, fill, get_or-fill, length-replicate, length-fill, replicate, if◌then◌else◌,
}
use pi_ssc_ssd_ssa.Public.{Entry, port_num}
use pi_ssc_ssd_ssa.Public.Message.{message, int_arg, msgid_mac_inter_learn}
use pi_ssc_ssd_ssa.Hlist.{Hlist}
use pi_ssc_ssd_ssa.Pi.Db.{Env, Db, IsDb}
use pi_ssc_ssd_ssa.Pi.Local.{learn_status, pi_local_learn_sta}
use pi_ssc_ssd_ssa.Pi.Ports.{pi_local_learn_sta-ports}
use pi_ssc_ssd_ssa.Pi.Race.{
  Turn, reads, writes, begun, turns, ds_messages, turns-append, turns-reads, turns-writes,
  after_reads, after_writes,
}
use pi_ssc_ssd_ssa.Ssc.Comm.{Platform, Ssc}
use pi_ssc_ssd_ssa.Ssc.Config.{recevie_all, ds_messages-ports}
use pi_ssc_ssd_ssa.Ssc.Learn.{ssc_learn}

-- The thread reads k ports, the command writes all that it writes, and the thread reads the others.
abbrev pub torn : ℕ → List Turn
torn k = replicate k reads ++ (replicate port_num writes ++ replicate (port_num - k) reads)

module _ (H : Hlist Entry) where
  -- The database after the command, and what the thread has read.
  pub turns-torn :
      (k junk v : ℕ) (str : List ℕ) (db : Db H)
      → k ≤ port_num
      → learn_status str ≡ some v
      → IsDb H db
      → let r = turns H str (torn k) (begun H junk db) in
        (r.db ≡ pi_local_learn_sta H str db)
        × ((j : ℕ)
            → get_or r.tmp.port_status j 0 ≡ (
                if leb 1 j && leb j port_num
                then (if leb j k
                    then get_or db.port_status j 0
                    else get_or (pi_local_learn_sta H str db).port_status j 0)
                else get_or (replicate (port_num + 1) junk) j 0))
  unfolding pi_local_learn_sta
  turns-torn k junk v str db h known w =
      let b = begun H junk db in
      let r1 = after_reads H k b in
      let r2 = after_writes H str port_num r1 in
      let e : turns H str (torn k) b ≡ after_reads H (port_num - k) r2 =
        turns-append H str (replicate k reads) _ b
        ∙ ap (turns H str (replicate port_num writes ++ replicate (port_num - k) reads))
            (turns-reads H str k b (omega (arith, h)))
        ∙ turns-append H str (replicate port_num writes) (replicate (port_num - k) reads) r1
        ∙ ap (turns H str (replicate (port_num - k) reads))
            (turns-writes H str port_num v r1 known (omega arith))
        ∙ turns-reads H str (port_num - k) r2 (omega (arith, h)) in
      let bare = replicate (port_num + 1) junk in
      let old = λ (i : ℕ). get_or db.port_status i 0 in
      let half = fill k 1 old bare in
      let size : length half ≡ port_num + 1 =
        length-fill k 1 old bare ∙ length-replicate (port_num + 1) junk in
      rw e (
        refl,
        λ j. ground (
          arith,
          get_or-fill (port_num - k) (1 + k) (λ i. get_or r2.db.port_status i 0) half j 0
              (omega (arith, h, size)),
          get_or-fill k 1 old bare j 0
              (omega (arith, h, length-replicate {A = ℕ} (port_num + 1) junk)),
        ),
      )

  -- Let the command give the status v, and the SSC's array have its length and its mutex be free. The
  -- thread that reads the configuration for the SSC has read the ports 1 to k when the command, whose
  -- message is sent, writes the array. Then the management process has v at the places 0 to 23, and
  -- place 24 as it was. The SSC handles the message of the command and then the three of the
  -- thread, and comes to its end: of the ports up to 23 it has those up to k as they were before the
  -- command, and the others, and the places 0 and 24, at v.
  pub learn_command-torn :
      (env : Env) (platform : Platform) (k junk v : ℕ) (str : List ℕ) (db : Db H) (s : Ssc H)
      → k ≤ port_num
      → learn_status str ≡ some v
      → IsDb H db
      → s.db.locked ≡ false
      → length s.db.port_status ≡ port_num + 1
      → let r = turns H str (torn k) (begun H junk db) in
        (s' : Ssc H) × (recevie_all H env platform
            (message msgid_mac_inter_learn (int_arg v) ∷ ds_messages H r.tmp)
            s
          ≡ some s')
        × ((j : ℕ)
            → get_or r.db.port_status j 0
              ≡ (if ltb j port_num then v else get_or db.port_status j 0))
        × ((j : ℕ)
            → get_or s'.db.port_status j 0 ≡ (
                if leb 1 j && leb j k && ltb j port_num
                then get_or db.port_status j 0
                else if leb j port_num
                then v
                else get_or s.db.port_status j 0))
  unfolding recevie_all
  learn_command-torn env platform k junk v str db s h known w free size =
      let r = turns H str (torn k) (begun H junk db) in
      let (done, read) = turns-torn k junk v str db h known w in
      let (s1, run1, ports1, free1, size1) = ssc_learn H env platform v s free size in
      let (s2, run2, ports2) =
        ds_messages-ports H env platform r.tmp s1 free1 (omega (arith, size, size1)) in
      let new : (j : ℕ)
          → get_or (pi_local_learn_sta H str db).port_status j 0
            ≡ (if ltb j port_num then v else get_or db.port_status j 0) =
        λ j. rw (pi_local_learn_sta-ports H str db j w, known) refl in
      (
        s2,
        rw run1 run2,
        λ j. rw done (new j),
        λ j. ground (arith, ports2 j, ports1 j, read j, new j, h),
      )
