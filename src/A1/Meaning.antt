-- ===== src/A1/Meaning.antt =====
-- rapp/a1_adapter.py: what the result of `emit_policy` says of the RIC and of the store.

use preceptual_ai_5g_dynamic.Shield.Certificate.{SafetyCertificate}
use preceptual_ai_5g_dynamic.A1.Json.{Json}
use preceptual_ai_5g_dynamic.Prelude.{
  Bool, Bool-cases, Option, Option-cases, String, false, if◌then◌else◌, inl, inr, none, refl, some,
  suc, true, ℕ, ◌&&◌, ◌≡◌, ◌⊎◌,
}
use preceptual_ai_5g_dynamic.Prelude.Dict.{Dict, lookup}
use preceptual_ai_5g_dynamic.Prelude.Outcome.{Exn, Outcome, ok, raised}
use preceptual_ai_5g_dynamic.Evidence.{or_else}
use preceptual_ai_5g_dynamic.Breaker.Call.{
  Reply, admitted, answered, call, failed, is_rejected, settle,
}
use preceptual_ai_5g_dynamic.A1.Urls.{A1AdapterConfig, Request, put_request}
use preceptual_ai_5g_dynamic.A1.Emit.{
  A1Adapter, A1Lib, Emission, Surroundings, after_put, breaker_open, emit_policy, emitted,
  env_truthy, filed, http, not_emitted, persist, persist_failed, put_policy, refused, unclean,
}

module _ {P W S R : Type 0} (lib : A1Lib P W S R) where
  -- the record is in the store, if there is one to file and a store to file it in
  abbrev pub Audited : Option R → A1Adapter P W S → A1Adapter P W S → Type 0
  Audited none a b = b.store ≡ a.store
  Audited (some r) a b =
      if a.attached then (lib.store_append r a.store ≡ (ok tt, b.store)) else (b.store ≡ a.store)

  -- One request to the RIC, with what the result says became of it.
  abbrev pub Meaning :
      Request
      → (policy_id : String) → Option R
      → Emission
      → A1Adapter P W S
      → A1Adapter P W S
      → Type 0
  Meaning request policy_id r (emitted id http_status) a b =
      (id ≡ policy_id)
      × (lib.send request a.channel ≡ (answered http_status, b.channel))
      × (b.policies_emitted ≡ suc a.policies_emitted)
      × Audited r a b
  Meaning request policy_id r (not_emitted refused) a b = b ≡ a
  Meaning request policy_id r (not_emitted (http e)) a b =
      (lib.send request a.channel ≡ (failed e, b.channel))
      × (b.policies_emitted ≡ a.policies_emitted)
      × (b.store ≡ a.store)
  Meaning request policy_id r (not_emitted breaker_open) a b =
      (b.channel ≡ a.channel) × (b.policies_emitted ≡ a.policies_emitted) × (b.store ≡ a.store)
  Meaning request policy_id r (not_emitted (persist_failed id http_status)) a b =
      (id ≡ policy_id)
      × (lib.send request a.channel ≡ (answered http_status, b.channel))
      × (b.policies_emitted ≡ suc a.policies_emitted)
      × ((q : R) × (e : Exn) × (r ≡ some q) × (lib.store_append q a.store ≡ (raised e, b.store)))

  abbrev Explained :
      Request → String → Option R → A1Adapter P W S → Emission × A1Adapter P W S → Type 0
  Explained request policy_id r a done = Meaning request policy_id r done.0 a done.1

  filed-Explained :
      (request : Request) (policy_id : String) (http_status : ℕ) (q : R) (a b : A1Adapter P W S)
      (o : Outcome (Unit {0})) (s : S)
      → lib.send request a.channel ≡ (answered http_status, b.channel)
      → a.attached ≡ true
      → b.policies_emitted ≡ suc a.policies_emitted
      → lib.store_append q a.store ≡ (o, s)
      → Explained request policy_id (some q) a (filed policy_id http_status (o, s) b)
  unfolding filed
  filed-Explained request policy_id http_status q a b (ok _) s sent att counted ran =
      (refl, sent, counted, rw att ran)
  filed-Explained request policy_id http_status q a b (raised e) s sent att counted ran =
      (refl, sent, counted, (q, e, refl, ran))

  persist-Explained :
      (request : Request) (policy_id : String) (http_status : ℕ) (r : Option R)
      (a : A1Adapter P W S) (p : P) (w : W)
      → lib.send request a.channel ≡ (answered http_status, w)
      → Explained request policy_id r a (
          persist lib policy_id http_status r
            (record a { breaker = p; channel = w; policies_emitted = suc a.policies_emitted }))
  unfolding persist
  persist-Explained request policy_id http_status none a p w sent = (refl, sent, refl, refl)
  persist-Explained request policy_id http_status (some q) a p w sent =
      where_attached a.attached refl
    where
      where_attached :
          (on : Bool)
          → a.attached ≡ on
          → Explained request policy_id (some q) a (
              if on
              then filed policy_id http_status
                  (lib.store_append q a.store)
                  (record a { breaker = p; channel = w; policies_emitted = suc a.policies_emitted })
              else (
                emitted policy_id http_status,
                record a { breaker = p; channel = w; policies_emitted = suc a.policies_emitted },
              ))
      where_attached true att =
          filed-Explained request policy_id http_status q a _ (lib.store_append q a.store).0
            (lib.store_append q a.store).1 sent att refl refl
      where_attached false att = (refl, sent, refl, rw att refl)

  settled-Explained :
      (request : Request) (policy_id : String) (r : Option R) (a : A1Adapter P W S) (finish : ℕ)
      (p : P) (reply : Reply ℕ) (w : W)
      → lib.send request a.channel ≡ (reply, w)
      → let (called, p', w') = settle lib.circuit finish reply p w in
        Explained request policy_id r a
          (after_put lib policy_id r called (record a { breaker = p'; channel = w' }))
  unfolding settle after_put
  settled-Explained request policy_id r a finish p (answered http_status) w sent =
      persist-Explained request policy_id http_status r a (lib.circuit.handle_success p) w sent
  settled-Explained request policy_id r a finish p (failed e) w sent = (sent, refl, refl)

  module _ (cfg : A1AdapterConfig) (policy_types : Dict ℕ) where
    put_policy-Explained :
        (type_id : ℕ) (policy_id : String) (payload : Json) (r : Option R) (env : Surroundings)
        (a : A1Adapter P W S)
        → Explained
            (put_request cfg (lib.text_of type_id) policy_id payload)
            policy_id
            r
            a
            (put_policy lib cfg type_id policy_id payload r env a)
    unfolding put_policy call after_put
    put_policy-Explained type_id policy_id payload r env a =
        let request = put_request cfg (lib.text_of type_id) policy_id payload in
        elim (Bool-cases (is_rejected lib.circuit env.start a.breaker)) [
          | inl rejected ↦ rw rejected (refl, refl, refl)
          | inr goes ↦ rw goes (
              settled-Explained request policy_id r a env.finish (admitted lib.circuit a.breaker)
                (lib.send request a.channel).0 (lib.send request a.channel).1 refl)
        ]

    -- What every result of `emit_policy` says. A refusal means that nothing has happened, and comes
    -- whenever the type is not registered, or a certificate is required and is missing or not clean.
    -- Any other result is about one PUT, of the request that the adapter's dialect makes of the
    -- payload: it was accepted, the counter is one higher, and the record is in the attached store;
    -- or it was accepted and counted, but the store raised an exception; or it failed and neither the
    -- counter nor the store has changed; or the breaker was open and the RIC was not contacted.
    pub emit_policy-Meaning {ℓ} :
        {A : Type ℓ} (policy_type : String) (payload : Json) (policy_id : Option String)
        (r : Option R) (certificate : Option (SafetyCertificate A)) (env : Surroundings)
        (a : A1Adapter P W S)
        → let done =
            emit_policy lib cfg policy_types policy_type payload policy_id r certificate env a in
          (lookup policy_type policy_types ≡ none → done ≡ (not_emitted refused, a))
          × (env_truthy lib.normal env.require_cert ≡ true
              → unclean certificate ≡ true
              → done ≡ (not_emitted refused, a))
          × ((done ≡ (not_emitted refused, a))
              ⊎ ((type_id : ℕ) × (lookup policy_type policy_types ≡ some type_id)
                  × Meaning
                      (put_request cfg (lib.text_of type_id) (or_else policy_id env.uuid) payload)
                      (or_else policy_id env.uuid)
                      r
                      done.0
                      a
                      done.1))
    unfolding emit_policy
    emit_policy-Meaning policy_type payload policy_id r certificate env a =
        elim (Option-cases (lookup policy_type policy_types)) [
          | inl unknown ↦ rw (emit_policy, unknown) (λ _. refl, λ _ _. refl, inl refl)
          | inr (type_id, known) ↦
              rw (emit_policy, known)
                (
                  λ h. cc,
                  λ h k. rw (h, k) refl,
                  elim (Bool-cases
                      (env_truthy lib.normal env.require_cert && unclean certificate)) [
                        | inl no_cert ↦ rw no_cert (inl refl)
                        | inr clean ↦ rw clean (
                            inr (
                              type_id,
                              refl,
                              put_policy-Explained type_id (or_else policy_id env.uuid) payload r
                                  env a,
                            ))
                      ],
                )
        ]
