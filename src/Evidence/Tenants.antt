-- ===== src/Evidence/Tenants.antt =====
-- evidence/store.py: what one tenant's lines do to another tenant's chain, and what a line's own
-- tenant field does to the verifiers.
use preceptual_ai_5g_dynamic.Prelude.{
  Bool-cases, List, Option, String, [], ap, arith, eq_iff, inl, inr, none, refl, some, str_eq, suc,
  sym, ℕ, ◌++◌, ◌∙◌, ◌∷◌, ◌≡◌, ◌≢◌,
}
use preceptual_ai_5g_dynamic.Prelude.Dict.{Dict, insert}
use preceptual_ai_5g_dynamic.Alarms.{Stamp, X733AlarmBus}
use preceptual_ai_5g_dynamic.Evidence.{
  Codec, Entry, first_broken, iterate, label, or_else, report_broken, tenant_of, verify,
  verify_tenant, verify_tenant_from, zero_hash_hex,
}
use preceptual_ai_5g_dynamic.Evidence.Chains.{of_tenant}

module _ {B : Type 0} (codec : Codec B) where
  verify_tenant_from-of_tenant :
      (i : ℕ) (prev t : String) (es : List (Entry B))
      → verify_tenant_from codec i prev t es ≡ verify_tenant_from codec i prev t (of_tenant t es)
  unfolding verify_tenant_from of_tenant
  verify_tenant_from-of_tenant i prev t [] = refl
  verify_tenant_from-of_tenant i prev t (e ∷ es) =
      elim (Bool-cases (str_eq (tenant_of e.entry_record) t)) [
        | inl mine ↦ rw (mine, mine, verify_tenant_from-of_tenant (suc i) e.chain_hash t es) refl
        | inr other ↦ rw other (verify_tenant_from-of_tenant i prev t es)
      ]

  -- `verify_tenant` of a tenant, outside every scope, depends on that tenant's lines alone: two files
  -- in which they are the same get the same answer, whatever was done to the other tenants' lines.
  pub verify_tenant_isolated :
      (t : String) (es ds : List (Entry B))
      → of_tenant t es ≡ of_tenant t ds
      → verify_tenant codec t none es ≡ verify_tenant codec t none ds
  unfolding verify_tenant iterate
  verify_tenant_isolated t es ds h =
      verify_tenant_from-of_tenant 0 zero_hash_hex t es
      ∙ rw h refl
      ∙ sym (verify_tenant_from-of_tenant 0 zero_hash_hex t ds)

  first_broken-relabelled :
      (i : ℕ) (prevs : Dict String) (p s : List (Entry B)) (e : Entry B) (t : Option String)
      → first_broken codec i prevs (p ++ record e { entry_tenant = t } ∷ s)
        ≡ first_broken codec i prevs (p ++ e ∷ s)
  unfolding first_broken
  first_broken-relabelled i prevs [] s e t = refl
  first_broken-relabelled i prevs (d ∷ p) s e t =
      rw
        (first_broken-relabelled (suc i) (insert (tenant_of d.entry_record) d.chain_hash prevs) p s
          e t)
        refl

module _ {B : Type 0} where
  iterate-relabelled :
      (p s : List (Entry B)) (e : Entry B) (t : String)
      → t ≢ ""
      → iterate (some t) (p ++ record e { entry_tenant = some t } ∷ s)
        ≡ iterate (some t) p ++ record e { entry_tenant = some t } ∷ iterate (some t) s
  unfolding iterate label or_else
  iterate-relabelled [] s e t n = ground (arith, eq_iff t "", eq_iff t t)
  iterate-relabelled (d ∷ p) s e t n = ground (arith, iterate-relabelled p s e t n)

module _ {ℓ} {B : Type 0} {W : Type ℓ} (codec : Codec B) where
  -- Setting the tenant field of a line, outside its record, to another nonempty tenant does not
  -- change what `verify` answers outside a tenant's scope, alarms included; but the record then
  -- stands among the lines that the other tenant's scope shows.
  pub relabelled_undetected :
      (p s : List (Entry B)) (e : Entry B) (t : String) (stamp : Stamp) (bus : X733AlarmBus W)
      (w : W)
      → t ≢ ""
      → (verify codec none (p ++ record e { entry_tenant = some t } ∷ s) stamp bus w
          ≡ verify codec none (p ++ e ∷ s) stamp bus w)
        × (iterate (some t) (p ++ record e { entry_tenant = some t } ∷ s)
            ≡ iterate (some t) p ++ record e { entry_tenant = some t } ∷ iterate (some t) s)
  unfolding verify
  relabelled_undetected p s e t stamp bus w n = (
    unfold iterate in
        ap (λ o. report_broken codec o stamp bus w)
          (first_broken-relabelled codec 0 [] p s e (some t)),
    iterate-relabelled p s e t n,
  )
