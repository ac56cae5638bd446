-- ===== src/Evidence/Append.antt =====
-- evidence/store.py: files that `append` alone has written.

use preceptual_ai_5g_dynamic.Prelude.{
  Bool-cases, List, Option, String, [], arith, eq_iff, if◌then◌else◌, inl, inr, none, refl, some,
  str_eq, ℕ, ◌++◌, ◌∷◌, ◌≡◌,
}
use preceptual_ai_5g_dynamic.Prelude.Outcome.{Outcome, ok, ◌>>=◌}
use preceptual_ai_5g_dynamic.Evidence.{
  Codec, DecisionRecord, Entry, append, chain, chain_bytes, label, last_hash_for_tenant,
  last_hash_from, or_else, stamped, tenant_of, zero_hash_hex,
}
use preceptual_ai_5g_dynamic.Evidence.Chains.{IsLinked, of_tenant}

module _ {B : Type 0} where
  -- the records that calls of `append` store
  unfoldable pub stored : List (Option String × DecisionRecord B) → List (DecisionRecord B)
  unfolding stamped
  stored [] = []
  stored ((active, r) ∷ calls) = stamped active r ∷ stored calls

  -- every line is filed under the tenant of its own record
  abbrev pub AllFiled : List (Entry B) → Type 0
  AllFiled [] = Unit
  AllFiled (e ∷ es) = (label e ≡ tenant_of e.entry_record) × AllFiled es

  AllFiled-append :
      (es : List (Entry B)) (e : Entry B)
      → AllFiled es
      → label e ≡ tenant_of e.entry_record
      → AllFiled (es ++ e ∷ [])
  AllFiled-append [] e h k = (k, tt)
  AllFiled-append (d ∷ es) e h k = (h.0, AllFiled-append es e h.1 k)

  -- the last hash of a run of lines
  abbrev pub last_of : String → List (Entry B) → String
  last_of prev [] = prev
  last_of prev (e ∷ es) = last_of e.chain_hash es

  last_hash_from-of_tenant :
      (prev t : String) (es : List (Entry B))
      → AllFiled es
      → last_hash_from prev t es ≡ last_of prev (of_tenant t es)
  unfolding last_hash_from of_tenant
  last_hash_from-of_tenant prev t [] h = refl
  last_hash_from-of_tenant prev t (e ∷ es) h =
      elim (Bool-cases (str_eq (tenant_of e.entry_record) t)) [
        | inl mine ↦ rw (h.0, mine) (last_hash_from-of_tenant e.chain_hash t es h.1)
        | inr other ↦ rw (h.0, other) (last_hash_from-of_tenant prev t es h.1)
      ]

  of_tenant-append :
      (t : String) (es : List (Entry B)) (e : Entry B)
      → of_tenant t (es ++ e ∷ [])
        ≡ (if str_eq (tenant_of e.entry_record) t then of_tenant t es ++ e ∷ [] else of_tenant t es)
  unfolding of_tenant
  of_tenant-append t [] e = refl
  of_tenant-append t (d ∷ es) e = ground (arith, of_tenant-append t es e)

-- `bytes.fromhex` reads every hexdigest, and the zero hash
pub record IsHex {B : Type 0} (codec : Codec B) : Type 0 where
  pub zero_reads : (bs : List ℕ) × (codec.fromhex zero_hash_hex ≡ some bs)
  pub digest_reads : (xs : List ℕ) → (bs : List ℕ) × (codec.fromhex (codec.hexdigest xs) ≡ some bs)

module _ {B : Type 0} (codec : Codec B) where
  abbrev pub Readable : String → Type 0
  Readable h = (bs : List ℕ) × (codec.fromhex h ≡ some bs)

  chain-Readable :
      (prev payload : String) → Readable prev → (h : String) × (chain codec prev payload ≡ ok h)
  unfolding chain chain_bytes
  chain-Readable prev payload (bs, e) = rw e (_, refl)

  chain_bytes-digest :
      (o : Option (List ℕ)) (payload h : String)
      → chain_bytes codec o payload ≡ ok h
      → (xs : List ℕ) × (codec.hexdigest xs ≡ h)
  unfolding chain_bytes
  chain_bytes-digest none payload h e = cc
  chain_bytes-digest (some bs) payload h e = (bs ++ codec.encode payload, cc)

  linked-Readable :
      (prev : String) (es : List (Entry B))
      → IsHex codec
      → Readable prev
      → IsLinked codec prev es
      → Readable (last_of prev es)
  unfolding chain
  linked-Readable prev [] x r h = r
  linked-Readable prev (e ∷ es) x r h =
      let (xs, eq) = chain_bytes-digest (codec.fromhex prev) _ e.chain_hash h.0 in
      let (bs, reads) = x.digest_reads xs in
      linked-Readable e.chain_hash es x (bs, rw eq at reads) h.1

  IsLinked-append :
      (prev : String) (es : List (Entry B)) (e : Entry B)
      → IsLinked codec prev es
      → chain codec (last_of prev es) (codec.canonical_json e.entry_record) ≡ ok e.chain_hash
      → IsLinked codec prev (es ++ e ∷ [])
  IsLinked-append prev [] e h k = (k, tt)
  IsLinked-append prev (d ∷ es) e h k = (h.0, IsLinked-append d.chain_hash es e h.1 k)

  -- What `append` leaves: lines filed under their own tenants, each tenant's linked.
  pub record IsWhole (es : List (Entry B)) : Type 0 where
    pub filed : AllFiled es
    pub linked : (t : String) → IsLinked codec zero_hash_hex (of_tenant t es)

  appended_label :
      (r : DecisionRecord B) (h : String)
      → let e : Entry B = record {
        chain_hash = h;
        entry_tenant = some (tenant_of r);
        entry_record = r;
      } in
        label e ≡ tenant_of r
  unfolding label tenant_of or_else
  appended_label r h = ground arith

  appended_IsWhole :
      (es : List (Entry B)) (e : Entry B)
      → IsWhole es
      → label e ≡ tenant_of e.entry_record
      → chain codec
          (last_hash_for_tenant (tenant_of e.entry_record) es)
          (codec.canonical_json e.entry_record)
        ≡ ok e.chain_hash
      → IsWhole (es ++ e ∷ [])
  unfolding last_hash_for_tenant
  appended_IsWhole es e whole filed k = record {
    filed = AllFiled-append es e whole.filed filed;
    linked = λ t.
        rw (of_tenant-append t es e) (elim (Bool-cases (str_eq (tenant_of e.entry_record) t)) [
          | inl mine ↦ rw mine (
              let eq : tenant_of e.entry_record ≡ t =
                ground (arith, eq_iff (tenant_of e.entry_record) t) in
              IsLinked-append zero_hash_hex (of_tenant t es) e (whole.linked t)
                (rw (eq, last_hash_from-of_tenant zero_hash_hex t es whole.filed) at k))
          | inr other ↦ rw other (whole.linked t)
        ]);
  }

  pub append-IsWhole :
      (active : Option String) (r : DecisionRecord B) (es : List (Entry B))
      → IsHex codec
      → IsWhole es
      → (h : String) × (e : Entry B) × (append codec active r es ≡ ok (h, es ++ e ∷ []))
        × (e.entry_record ≡ stamped active r)
        × IsWhole (es ++ e ∷ [])
  unfolding append last_hash_for_tenant
  append-IsWhole active r es x whole =
      let q = stamped active r in
      let t = tenant_of q in
      let last = last_hash_from-of_tenant zero_hash_hex t es whole.filed in
      let (h, ran) = chain-Readable (last_hash_for_tenant t es) (codec.canonical_json q) (
        rw last (linked-Readable zero_hash_hex (of_tenant t es) x x.zero_reads (whole.linked t))) in
      let e : Entry B = record { chain_hash = h; entry_tenant = some t; entry_record = q } in
      (h, e, rw (ran, ◌>>=◌) refl, refl, appended_IsWhole es e whole (appended_label q h) ran)

  -- calls of `append`, each with the tenant that is active at its time
  unfoldable pub append_all :
      List (Option String × DecisionRecord B) → List (Entry B) → Outcome (List (Entry B))
  append_all [] es = ok es
  append_all ((active, r) ∷ calls) es = append codec active r es >>= λ done. append_all calls done.1
