-- ===== src/Tests/Orbit.antt =====
-- shield/: the non-terrestrial Shield at a concrete satellite downlink.
use preceptual_ai_5g_dynamic.Prelude.{List, [], false, some, true}
use preceptual_ai_5g_dynamic.Prelude.Int.{pos}
use preceptual_ai_5g_dynamic.Prelude.Flt.{fin, lit}
use preceptual_ai_5g_dynamic.Shield.Certificate.{ShieldDisposition}
use preceptual_ai_5g_dynamic.Shield.Action.{Action, number}
use preceptual_ai_5g_dynamic.Shield.Dispose.{Invariant, certify, default_max_passes, dispose}
use preceptual_ai_5g_dynamic.Shield.Terrestrial.{mask_of}
use preceptual_ai_5g_dynamic.Prelude.Int.{negsuc}
use preceptual_ai_5g_dynamic.Shield.Ntn.{Satellite, ntn_chain}
use preceptual_ai_5g_dynamic.Tests.Shielding.{
  get_ok, hot_action, labels, no_telemetry, receiver, warrant,
}

abbrev orbit : Satellite
orbit = record {
  thirty_db = lit 30;
  default_slant_range = lit 550000;
  least_slant_range = lit 1;
  default_bandwidth = lit 1000000;
  path_loss = λ distance bandwidth. lit 150;
}

abbrev downlink : Action
downlink = record hot_action { ntn = true; slant_range_m = some (number (lit 600000)) }

abbrev orbital_chain : List Invariant
orbital_chain =
    ntn_chain (some warrant) (mask_of (pos 0) (pos 200) (pos 5)) (lit 33) orbit (fin (negsuc 159))
      receiver

abbrev orbital : ShieldDisposition Action
orbital =
    get_ok
      (certify labels downlink (record { safe = downlink; corrections = []; projected = false }) [])
      (dispose default_max_passes orbital_chain labels downlink no_telemetry)
