-- ===== src/Evidence/Tamper.antt =====
-- evidence/store.py: files in which a record was changed in place.

use preceptual_ai_5g_dynamic.Alarms.{AlarmSpec, critical, processing_error, spec}
use preceptual_ai_5g_dynamic.Prelude.{List, ℕ, ◌++◌, ◌≢◌}
use preceptual_ai_5g_dynamic.Prelude.Dict.{Dict}
use preceptual_ai_5g_dynamic.Evidence.{Codec, DecisionRecord}

module _ {B : Type 0} (codec : Codec B) where
  -- the two records have no common digest after any prefix
  abbrev pub NoCollision : DecisionRecord B → DecisionRecord B → Type 0
  NoCollision r q =
      (bs : List ℕ)
      → codec.hexdigest (bs ++ codec.encode (codec.canonical_json r))
        ≢ codec.hexdigest (bs ++ codec.encode (codec.canonical_json q))

abbrev pub tamper_spec : AlarmSpec
tamper_spec =
    spec processing_error "softwareError" critical "Audit chain SHA-256 verification failed"
