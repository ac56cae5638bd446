-- ===== src/Tests/Records.antt =====
-- evidence/: two tenants' records in one file.
use preceptual_ai_5g_dynamic.Evidence.Chains.{IsLinked, of_tenant, verify_iff, verify-verify_tenant}
use preceptual_ai_5g_dynamic.Evidence.Tenants.{relabelled_undetected}
use preceptual_ai_5g_dynamic.Prelude.{
  Bool, List, Option, String, [], false, if◌then◌else◌, none, refl, some, str_eq, true, ℕ, ◌++◌,
  ◌==◌, ◌↔◌, ◌∷◌, ◌≡◌,
}
use preceptual_ai_5g_dynamic.Prelude.Int.{negsuc}
use preceptual_ai_5g_dynamic.Prelude.Outcome.{ok}
use preceptual_ai_5g_dynamic.Alarms.{Stamp, X733AlarmBus, new_bus}
use preceptual_ai_5g_dynamic.Evidence.{
  Codec, DecisionRecord, Entry, iterate, or_else, tenant_of, verify, verify_tenant, zero_hash_hex,
}

-- A codec for records that hold a truth value: its digest is of the last byte alone.
abbrev digest_of : List ℕ → String
digest_of [] = "0"
digest_of (x ∷ []) = if x == 0 then "a" else "b"
digest_of (x ∷ xs) = digest_of xs

abbrev text_codec : Codec Bool
text_codec = record {
  fromhex = λ h. some [];
  encode = λ p. (if str_eq p "false" then 0 else 1) ∷ [];
  hexdigest = digest_of;
  canonical_json = λ r. if r.content then "true" else "false";
  text_of = λ n. "n";
}

abbrev at_noon : Stamp
at_noon = record { alarm_id = "alarm-1"; event_time = 12 }

abbrev no_alarms : X733AlarmBus ℕ
no_alarms = new_bus

abbrev entry_of : String → Bool → Entry Bool
entry_of t b = record {
  chain_hash = if b then "b" else "a";
  entry_tenant = some t;
  entry_record = record { tenant_id = some t; content = b };
}

abbrev two_lines : List (Entry Bool)
two_lines = entry_of "acme" true ∷ entry_of "initech" false ∷ []

abbrev three_calls : List (Option String × DecisionRecord Bool)
three_calls =
    (some "acme", record { tenant_id = none; content = true })
    ∷ (none, record { tenant_id = none; content = false })
    ∷ (none, record { tenant_id = some "acme"; content = false })
    ∷ []

verify_iff_example :
    ((verify text_codec none two_lines at_noon no_alarms 0).0 ≡ ok (negsuc 0))
    ↔ ((t : String) → IsLinked text_codec zero_hash_hex (of_tenant t two_lines))
verify_iff_example = verify_iff text_codec two_lines at_noon no_alarms 0

verify-verify_tenant_example :
    ((verify text_codec none two_lines at_noon no_alarms 0).0 ≡ ok (negsuc 0))
    ↔ ((t : String) → verify_tenant text_codec t none two_lines ≡ ok (negsuc 0))
verify-verify_tenant_example = verify-verify_tenant text_codec two_lines at_noon no_alarms 0

acme_alone : of_tenant "acme" two_lines ≡ of_tenant "acme" (entry_of "acme" true ∷ [])
unfolding of_tenant tenant_of or_else
acme_alone = refl

relabelled_undetected_example :
    (verify text_codec none
        (entry_of "acme" true
          ∷ record (entry_of "initech" false) { entry_tenant = some "acme" }
          ∷ [])
        at_noon
        no_alarms
        0
      ≡ verify text_codec none two_lines at_noon no_alarms 0)
    × (iterate (some "acme") (
          entry_of "acme" true
          ∷ record (entry_of "initech" false) { entry_tenant = some "acme" }
          ∷ [])
        ≡ iterate (some "acme") (entry_of "acme" true ∷ [])
          ++ record (entry_of "initech" false) { entry_tenant = some "acme" }
            ∷ iterate (some "acme") [])
relabelled_undetected_example =
    relabelled_undetected text_codec (entry_of "acme" true ∷ []) [] (entry_of "initech" false)
      "acme" at_noon no_alarms 0 (λ h. cc)
