-- ===== src/Evidence.antt =====
-- evidence/store.py: the hash chains of `EvidenceStore` and its file backend `JsonlEvidenceStore`.
-- A file is the list of its lines as `json.loads` gives them; blank lines are skipped by every
-- reader and are left out. `B` is what a decision record holds beside its tenant.
pub mod Chains
pub mod Append
pub mod Tenants
pub mod Tamper
use preceptual_ai_5g_dynamic.Prelude.{
  List, Option, String, [], if◌then◌else◌, none, some, str_eq, suc, ℕ, ◌++◌, ◌∷◌,
}
use preceptual_ai_5g_dynamic.Prelude.Int.{negsuc, pos, ℤ}
use preceptual_ai_5g_dynamic.Prelude.Dict.{Dict, insert, lookup}
use preceptual_ai_5g_dynamic.Prelude.Outcome.{Outcome, ok, raised, value_error, ◌>>=◌}
use preceptual_ai_5g_dynamic.Alarms.{Stamp, X733AlarmBus, emit_event}

pub record DecisionRecord (B : Type 0) : Type 0 where
  pub tenant_id : Option String
  pub content : B

pub record Entry (B : Type 0) : Type 0 where
  pub chain_hash : String
  pub entry_tenant : Option String
  pub entry_record : DecisionRecord B

-- hashlib, bytes and the JSON of pydantic: `bytes.fromhex`, `str.encode`, the hexdigest of SHA-256,
-- `_canonical_json`'s printer, and the text of a number
pub record Codec (B : Type 0) : Type 0 where
  pub fromhex : String → Option (List ℕ)
  pub encode : String → List ℕ
  pub hexdigest : List ℕ → String
  pub canonical_json : DecisionRecord B → String
  pub text_of : ℕ → String

abbrev pub zero_hash_hex : String
zero_hash_hex = "0000000000000000000000000000000000000000000000000000000000000000"

abbrev pub unscoped_tenant : String
unscoped_tenant = "_unscoped_"

-- `t or other` for a text or None
unfoldable pub or_else : Option String → String → String
or_else none other = other
or_else (some t) other = if str_eq t "" then other else t

-- `_resolve_tenant`, from the active tenant
unfoldable pub resolve_tenant : Option String → String
unfolding or_else
resolve_tenant active = or_else active unscoped_tenant

abbrev pub or_zero : Option String → String
or_zero none = zero_hash_hex
or_zero (some h) = h

-- `per_tenant_prev.get(tid, _ZERO_HASH_HEX)`
unfoldable pub prev_hash : String → Dict String → String
prev_hash t prevs = let found = lookup t prevs in elim found [ none ↦ zero_hash_hex | some h ↦ h ]

unfoldable pub stamped_tenant : Option String → Option String → String
unfolding resolve_tenant
stamped_tenant active none = resolve_tenant active
stamped_tenant active (some t) = t

module _ {B : Type 0} where
  -- `rec.tenant_id or _UNSCOPED_TENANT`
  unfoldable pub tenant_of : DecisionRecord B → String
  unfolding or_else
  tenant_of r = or_else r.tenant_id unscoped_tenant

  -- the tenant that a line is filed under
  unfoldable pub label : Entry B → String
  unfolding or_else
  label e = or_else e.entry_tenant (or_else e.entry_record.tenant_id unscoped_tenant)

  -- the record as `append` stamps it
  unfoldable pub stamped : Option String → DecisionRecord B → DecisionRecord B
  unfolding stamped_tenant
  stamped active r = record r { tenant_id = some (stamped_tenant active r.tenant_id) }

  unfoldable pub last_hash_from : String → String → List (Entry B) → String
  unfolding label
  last_hash_from last t [] = last
  last_hash_from last t (e ∷ es) =
      last_hash_from (if str_eq (label e) t then e.chain_hash else last) t es

  unfoldable pub last_hash_for_tenant : String → List (Entry B) → String
  unfolding last_hash_from
  last_hash_for_tenant t es = last_hash_from zero_hash_hex t es

  -- `__iter__` under an active tenant, or under none
  unfoldable pub iterate : Option String → List (Entry B) → List (Entry B)
  unfolding label
  iterate none es = es
  iterate (some t) [] = []
  iterate (some t) (e ∷ es) =
      let rest = iterate (some t) es in if str_eq (label e) t then e ∷ rest else rest

module _ {B : Type 0} (codec : Codec B) where
  unfoldable pub chain_bytes : Option (List ℕ) → String → Outcome String
  chain_bytes none payload = raised value_error
  chain_bytes (some bs) payload = ok (codec.hexdigest (bs ++ codec.encode payload))

  -- `_chain`
  unfoldable pub chain : String → String → Outcome String
  unfolding chain_bytes
  chain prev_hex payload = chain_bytes (codec.fromhex prev_hex) payload

  -- the loop of `verify`: the index and the tenant of the first broken line
  unfoldable pub first_broken : ℕ → Dict String → List (Entry B) → Outcome (Option (ℕ × String))
  unfolding chain prev_hash tenant_of
  first_broken i prevs [] = ok none
  first_broken i prevs (e ∷ es) =
      let tid = tenant_of e.entry_record in
      let rest = first_broken (suc i) (insert tid e.chain_hash prevs) es in
      do
        expected ← chain (prev_hash tid prevs) (codec.canonical_json e.entry_record)
        if str_eq expected e.chain_hash then rest else ok (some (i, tid))

  -- `verify_tenant`: -1 when the tenant's chain is intact
  unfoldable pub verify_tenant_from : ℕ → String → String → List (Entry B) → Outcome ℤ
  unfolding chain tenant_of
  verify_tenant_from i prev_hex t [] = ok (negsuc 0)
  verify_tenant_from i prev_hex t (e ∷ es) =
      let skipped = verify_tenant_from i prev_hex t es in
      let rest = verify_tenant_from (suc i) e.chain_hash t es in
      if str_eq (tenant_of e.entry_record) t
      then (chain prev_hex (codec.canonical_json e.entry_record) >>= λ expected.
          if str_eq expected e.chain_hash then rest else ok (pos i))
      else skipped

  unfoldable pub verify_tenant : String → Option String → List (Entry B) → Outcome ℤ
  unfolding verify_tenant_from iterate
  verify_tenant t active es = verify_tenant_from 0 zero_hash_hex t (iterate active es)

  -- `append`: the hash it returns and the file after it
  unfoldable pub append :
      Option String → DecisionRecord B → List (Entry B) → Outcome (String × List (Entry B))
  unfolding stamped tenant_of last_hash_for_tenant chain
  append active rec es =
      let r = stamped active rec in
      let t = tenant_of r in
      do
        h ← chain (last_hash_for_tenant t es) (codec.canonical_json r)
        ok (h, es ++ record { chain_hash = h; entry_tenant = some t; entry_record = r } ∷ [])

module _ {ℓ} {B : Type 0} {W : Type ℓ} (codec : Codec B) where
  unfoldable pub report_broken :
      Outcome (Option (ℕ × String)) → Stamp → X733AlarmBus W → W → Outcome ℤ × X733AlarmBus W × W
  report_broken (raised e) stamp bus w = (raised e, bus, w)
  report_broken (ok none) stamp bus w = (ok (negsuc 0), bus, w)
  report_broken (ok (some (i, t))) stamp bus w =
      let info : Dict String = ("first_invalid_index", codec.text_of i) ∷ ("tenant_id", t) ∷ [] in
      let (_, bus', w') = emit_event "horizon.evidence.tamper_detected" info none stamp bus w in
      (ok (pos i), bus', w')

  -- `verify`, which raises an alarm on the default bus when a line is broken
  unfoldable pub verify :
      Option String → List (Entry B) → Stamp → X733AlarmBus W → W → Outcome ℤ × X733AlarmBus W × W
  unfolding first_broken iterate report_broken
  verify active es stamp bus w =
      report_broken (first_broken codec 0 [] (iterate active es)) stamp bus w
