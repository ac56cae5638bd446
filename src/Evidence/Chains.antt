-- ===== src/Evidence/Chains.antt =====
-- evidence/store.py: what the chain of one tenant is, and what the verifiers say of it.

use preceptual_ai_5g_dynamic.Alarms.{Stamp, X733AlarmBus}
use preceptual_ai_5g_dynamic.Prelude.{
  Bool-cases, List, Option, String, [], ap, arith, eq_iff, if◌then◌else◌, inl, inr, none, refl,
  some, str_eq, suc, true, ℕ, ◌↔◌, ◌∙◌, ◌∷◌, ◌≡◌, ◌≢◌,
}
use preceptual_ai_5g_dynamic.Prelude.Int.{negsuc, pos}
use preceptual_ai_5g_dynamic.Prelude.Dict.{Dict, insert, lookup, lookup-insert}
use preceptual_ai_5g_dynamic.Prelude.Outcome.{Outcome, ok, raised, ◌>>=◌}
use preceptual_ai_5g_dynamic.Evidence.{
  Codec, Entry, chain, first_broken, iterate, or_zero, prev_hash, report_broken, tenant_of, verify,
  verify_tenant, verify_tenant_from, zero_hash_hex,
}

-- the test of both verifiers on one line
pub bind-test {ℓ} :
    {X : Type ℓ} (m : Outcome String) (h : String) (rest : Outcome X) (x b : X)
    → b ≢ x
    → ((m >>= λ e. if str_eq e h then rest else ok b) ≡ ok x) ↔ ((m ≡ ok h) × (rest ≡ ok x))
bind-test (ok e) h rest x b n = ground (arith, eq_iff e h)
bind-test (raised e) h rest x b n = ground arith

pub bind-none {ℓ} :
    {X : Type ℓ} (m : Outcome String) (h : String) (rest : Outcome (Option X)) (b : X)
    → (m >>= λ e. if str_eq e h then rest else ok (some b)) ≡ ok none
    → (m ≡ ok h) × (rest ≡ ok none)
bind-none m h rest b = (bind-test m h rest none (some b) (λ k. cc)).0

pub bind-miss {ℓ} :
    {X : Type ℓ} (m : Outcome String) (g h : String) (rest bad : Outcome X)
    → m ≡ ok g
    → g ≢ h
    → (m >>= λ e. if str_eq e h then rest else bad) ≡ bad
bind-miss (ok e) g h rest bad k n = ground (arith, eq_iff e h)
bind-miss (raised e) g h rest bad k n = cc

pub bind-hit {ℓ} :
    {X : Type ℓ} (m : Outcome String) (h : String) (rest bad : Outcome X)
    → m ≡ ok h
    → (m >>= λ e. if str_eq e h then rest else bad) ≡ rest
bind-hit (ok e) h rest bad k = ground (arith, eq_iff e h)
bind-hit (raised e) h rest bad k = cc

pub prev_hash-insert :
    (t u h : String) (prevs : Dict String)
    → prev_hash u (insert t h prevs) ≡ (if str_eq t u then h else prev_hash u prevs)
unfolding prev_hash
prev_hash-insert t u h prevs = ap or_zero (lookup-insert t u h prevs) ∙ ground arith

module _ {B : Type 0} where
  -- the lines of one tenant
  unfoldable pub of_tenant : String → List (Entry B) → List (Entry B)
  unfolding tenant_of
  of_tenant t [] = []
  of_tenant t (e ∷ es) =
      let rest = of_tenant t es in if str_eq (tenant_of e.entry_record) t then e ∷ rest else rest

module _ {B : Type 0} (codec : Codec B) where
  -- Each hash is that of the one before it and of its own record.
  abbrev pub IsLinked : String → List (Entry B) → Type 0
  IsLinked prev [] = Unit
  IsLinked prev (e ∷ es) =
      (chain codec prev (codec.canonical_json e.entry_record) ≡ ok e.chain_hash)
      × IsLinked e.chain_hash es

  pub verify_tenant_from_iff :
      (i : ℕ) (prev t : String) (es : List (Entry B))
      → (verify_tenant_from codec i prev t es ≡ ok (negsuc 0)) ↔ IsLinked prev (of_tenant t es)
  unfolding verify_tenant_from of_tenant
  verify_tenant_from_iff i prev t [] = (λ h. tt, λ h. refl)
  verify_tenant_from_iff i prev t (e ∷ es) =
      elim (Bool-cases (str_eq (tenant_of e.entry_record) t)) [
        | inl mine ↦ rw mine (
            let test =
              bind-test (chain codec prev (codec.canonical_json e.entry_record)) e.chain_hash
                (verify_tenant_from codec (suc i) e.chain_hash t es) (negsuc 0) (pos i) (λ k. cc) in
            let more = verify_tenant_from_iff (suc i) e.chain_hash t es in
            (λ h. ((test.0 h).0, more.0 (test.0 h).1), λ h. test.1 (h.0, more.1 h.1)))
        | inr other ↦ rw other (verify_tenant_from_iff i prev t es)
      ]

  -- the heads from which the tenants' chains go on
  abbrev pub AllLinked : Dict String → List (Entry B) → Type 0
  AllLinked prevs es = (t : String) → IsLinked (prev_hash t prevs) (of_tenant t es)

  AllLinked-cons :
      (prevs : Dict String) (e : Entry B) (es : List (Entry B))
      → let t = tenant_of e.entry_record in
        AllLinked prevs (e ∷ es) ↔ (
          (chain codec (prev_hash t prevs) (codec.canonical_json e.entry_record) ≡ ok e.chain_hash)
          × AllLinked (insert t e.chain_hash prevs) es)
  unfolding of_tenant
  AllLinked-cons prevs e es =
      let t = tenant_of e.entry_record in
      let own : str_eq t t ≡ true = ground (arith, eq_iff t t) in
      (
        λ h. (
          (let ht = h t in rw own at ht).0,
          λ u.
              let hu = h u in
              rw (prev_hash-insert t u e.chain_hash prevs) (elim (Bool-cases (str_eq t u)) [
                | inl same ↦ rw same (rw same at hu).1
                | inr other ↦ rw other (rw other at hu)
              ]),
        ),
        λ k u.
            let ku = k.1 u in
            let k0 = k.0 in
            elim (Bool-cases (str_eq t u)) [
              | inl same ↦ rw same (
                  let eq : t ≡ u = ground (arith, eq_iff t u) in
                  (rw eq at k0, rw (prev_hash-insert t u e.chain_hash prevs, same) at ku))
              | inr other ↦ rw other (rw (prev_hash-insert t u e.chain_hash prevs, other) at ku)
            ],
      )

  pub first_broken_iff :
      (i : ℕ) (prevs : Dict String) (es : List (Entry B))
      → (first_broken codec i prevs es ≡ ok none) ↔ AllLinked prevs es
  unfolding first_broken of_tenant
  first_broken_iff i prevs [] = (λ h u. tt, λ h. refl)
  first_broken_iff i prevs (e ∷ es) =
      let t = tenant_of e.entry_record in
      let test =
        bind-test (chain codec (prev_hash t prevs) (codec.canonical_json e.entry_record))
          e.chain_hash (first_broken codec (suc i) (insert t e.chain_hash prevs) es) none
          (some (i, t)) (λ k. cc) in
      let more = first_broken_iff (suc i) (insert t e.chain_hash prevs) es in
      let cons = AllLinked-cons prevs e es in
      (
        λ h. let k = test.0 h in cons.1 (k.0, more.0 k.1),
        λ h. let k = cons.0 h in test.1 (k.0, more.1 k.1),
      )

module _ {ℓ} {B : Type 0} {W : Type ℓ} (codec : Codec B) where
  pub report_broken_iff :
      (o : Outcome (Option (ℕ × String))) (stamp : Stamp) (bus : X733AlarmBus W) (w : W)
      → ((report_broken codec o stamp bus w).0 ≡ ok (negsuc 0)) ↔ (o ≡ ok none)
  unfolding report_broken
  report_broken_iff (raised e) stamp bus w = (λ h. cc, λ h. cc)
  report_broken_iff (ok none) stamp bus w = (λ h. refl, λ h. refl)
  report_broken_iff (ok (some (i, t))) stamp bus w = (λ h. cc, λ h. cc)

  -- Outside every tenant's scope `verify` answers -1 exactly when, for each tenant, the lines of
  -- that tenant form a chain from the zero hash: every hash is that of the one before it and of the
  -- canonical text of its own record.
  pub verify_iff :
      (es : List (Entry B)) (stamp : Stamp) (bus : X733AlarmBus W) (w : W)
      → ((verify codec none es stamp bus w).0 ≡ ok (negsuc 0))
        ↔ ((t : String) → IsLinked codec zero_hash_hex (of_tenant t es))
  unfolding verify iterate prev_hash lookup
  verify_iff es stamp bus w =
      let report = report_broken_iff (first_broken codec 0 [] es) stamp bus w in
      let walk = first_broken_iff codec 0 [] es in
      (λ h. walk.0 (report.0 h), λ h. report.1 (walk.1 h))

  -- `verify` over all the lines answers -1 exactly when `verify_tenant` does so for every tenant.
  pub verify-verify_tenant :
      (es : List (Entry B)) (stamp : Stamp) (bus : X733AlarmBus W) (w : W)
      → ((verify codec none es stamp bus w).0 ≡ ok (negsuc 0))
        ↔ ((t : String) → verify_tenant codec t none es ≡ ok (negsuc 0))
  unfolding verify_tenant iterate
  verify-verify_tenant es stamp bus w =
      let all = verify_iff es stamp bus w in
      (
        λ h t. (verify_tenant_from_iff codec 0 zero_hash_hex t es).1 (all.0 h t),
        λ h. all.1 (λ t. (verify_tenant_from_iff codec 0 zero_hash_hex t es).0 (h t)),
      )
