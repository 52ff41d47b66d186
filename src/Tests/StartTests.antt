-- ===== src/Tests/StartTests.antt =====
-- The start of the SSC at a concrete state.
use pi_ssc_ssd_ssa.Common.{◌≡◌, refl, true, none, some, [], ◌∷◌}
use pi_ssc_ssd_ssa.Public.{Entry}
use pi_ssc_ssd_ssa.Public.Message.{Msg, message, static_mac, msgid_mac_add_addr}
use pi_ssc_ssd_ssa.Table.{entries}
use pi_ssc_ssd_ssa.Table.Chain.{lookup}
use pi_ssc_ssd_ssa.Ssc.Db.{static_key}
use pi_ssc_ssd_ssa.Ssc.Process.{connect, read}
use pi_ssc_ssd_ssa.Ssc.Start.{Start, next_call, meanwhile, start_step, start_steps}
use pi_ssc_ssd_ssa.Ssc.Start.Early.{begun, early_message-lost}
use pi_ssc_ssd_ssa.Tests.Instances.{chains, env}
use pi_ssc_ssd_ssa.Tests.SscTests.{ssc, platform, printer, ssc_fresh-IsSscDb}

early_message-lost_example :
    ((m : Msg)
      → start_steps chains env platform
          (next_call true ∷ meanwhile (connect true true) ∷ meanwhile (read m) ∷ [])
          (begun chains env platform ssc [])
        ≡ none)
    × (b1 : Start chains) × (b2 : Start chains) × (e : Entry) × (start_steps chains env platform
          (next_call true
            ∷ meanwhile (connect true true)
            ∷ next_call true
            ∷ meanwhile (read (message msgid_mac_add_addr (static_mac printer)))
            ∷ [])
          (begun chains env platform ssc [])
        ≡ some b1)
    × (lookup
          (static_key (record printer { port_id = platform.phyid 2 }))
          (entries chains b1.process.ssc.db.static_tbl)
        ≡ some e)
    × (start_step chains env platform (next_call true) b1 ≡ some b2)
    × (entries chains b2.process.ssc.db.static_tbl ≡ [])
    × (entries chains b2.process.ssc.db.dyn_tbl ≡ [])
    × (b2.process.ssc.to_ssd ≡ b1.process.ssc.to_ssd)
early_message-lost_example =
    early_message-lost chains env platform true printer ssc [] refl ssc_fresh-IsSscDb
