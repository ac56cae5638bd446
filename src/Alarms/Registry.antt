-- ===== src/Alarms/Registry.antt =====
-- observability/x733_alarms.py: the registry of active alarms against the history of the bus.
use preceptual_ai_5g_dynamic.Prelude.Outcome.{Outcome, ok, raised}
use preceptual_ai_5g_dynamic.Prelude.Dict.{Dict, lookup}
use preceptual_ai_5g_dynamic.Prelude.{
  Bool, List, Option, String, [], arith, eq_iff, false, if◌then◌else◌, none, refl, some, true, ◌++◌,
  ◌↔◌, ◌∷◌, ◌≡◌,
}
use preceptual_ai_5g_dynamic.Alarms.{
  Active, AlarmKey, AlarmSpec, Stamp, X733Alarm, X733AlarmBus, X733Severity, cleared, emit,
  emit_event, emit_mapped, failure_map, find_active, is_clearing, key_eq, key_of,
  map_event_to_alarm, pop_active, put_active,
}

key_eq_iff : (a b : AlarmKey) → (key_eq a b ≡ true) ↔ (a ≡ b)
unfolding key_eq
key_eq_iff a b =
    ground (arith, eq_iff a.key_instance b.key_instance, eq_iff a.key_cause b.key_cause)

find_active-put_active :
    (k j : AlarmKey) (a : X733Alarm) (act : Active)
    → find_active j (put_active k a act) ≡ (if key_eq k j then some a else find_active j act)
unfolding find_active put_active
find_active-put_active k j a [] = refl
find_active-put_active k j a ((i, b) ∷ act) =
    ground (arith, key_eq_iff k j, key_eq_iff i k, key_eq_iff i j, find_active-put_active k j a act)

find_active-pop_active :
    (k j : AlarmKey) (act : Active)
    → find_active j (pop_active k act) ≡ (if key_eq k j then none else find_active j act)
unfolding find_active pop_active
find_active-pop_active k j [] = ground arith
find_active-pop_active k j ((i, b) ∷ act) =
    ground (arith, key_eq_iff k j, key_eq_iff i k, key_eq_iff i j, find_active-pop_active k j act)

-- The alarm that a history of emits leaves standing under a key: the last one with that key, unless
-- it was a clearing one.
unfoldable pub standing : AlarmKey → Option X733Alarm → List X733Alarm → Option X733Alarm
standing k before [] = before
standing k before (a ∷ rest) =
    standing k (if key_eq (key_of a) k then (if is_clearing a then none else some a) else before)
      rest

standing-snoc :
    (k : AlarmKey) (before : Option X733Alarm) (rest : List X733Alarm) (a : X733Alarm)
    → standing k before (rest ++ a ∷ []) ≡ (
        if key_eq (key_of a) k
        then (if is_clearing a then none else some a)
        else standing k before rest)
unfolding standing
standing-snoc k before [] a = refl
standing-snoc k before (b ∷ rest) a =
    standing-snoc k
      (if key_eq (key_of b) k then (if is_clearing b then none else some b) else before) rest a

module _ {ℓ} {W : Type ℓ} where
  -- The registry holds under each key what the history leaves standing.
  abbrev pub IsConsistent : X733AlarmBus W → Type 0
  IsConsistent bus = (k : AlarmKey) → find_active k bus.active ≡ standing k none bus.emitted

  emit-IsConsistent :
      (a : X733Alarm) (bus : X733AlarmBus W) (w : W)
      → IsConsistent bus
      → IsConsistent (emit a bus w).0
  unfolding emit
  emit-IsConsistent a bus w h k = rw (standing-snoc k none bus.emitted a) (
      ground (
        arith,
        h k,
        find_active-put_active (key_of a) k a bus.active,
        find_active-pop_active (key_of a) k bus.active,
      ))

  emit_mapped-IsConsistent :
      (o : Outcome X733Alarm) (bus : X733AlarmBus W) (w : W)
      → IsConsistent bus
      → IsConsistent (emit_mapped o bus w).1
  unfolding emit_mapped
  emit_mapped-IsConsistent (ok a) bus w h = emit-IsConsistent a bus w h
  emit_mapped-IsConsistent (raised e) bus w h = h

  -- events in turn, by callers that go on after a `KeyError`
  pub emit_all :
      List (String × Dict String × Option X733Severity × Stamp)
      → X733AlarmBus W
      → W
      → X733AlarmBus W × W
  emit_all [] bus w = (bus, w)
  emit_all ((name, info, override, stamp) ∷ es) bus w =
      let (_, bus', w') = emit_event name info override stamp bus w in emit_all es bus' w'

  -- After any events, registered in the table or not, an alarm is active under a key exactly if it
  -- is the last one that the history holds for that key and it is not a clearing one.
  pub emit_all-IsConsistent :
      (es : List (String × Dict String × Option X733Severity × Stamp)) (bus : X733AlarmBus W)
      (w : W)
      → IsConsistent bus
      → IsConsistent (emit_all es bus w).0
  unfolding emit_all emit_event
  emit_all-IsConsistent [] bus w h = h
  emit_all-IsConsistent ((name, info, override, stamp) ∷ es) bus w h =
      let (r, bus', w') = emit_event name info override stamp bus w in
      emit_all-IsConsistent es bus' w'
        (emit_mapped-IsConsistent (map_event_to_alarm name info override stamp) bus w h)

-- the key under which the events of a table entry are filed
abbrev pub spec_key : AlarmSpec → AlarmKey
spec_key s = record {
  key_instance = "rApp/horizon_ric";
  key_type = s.spec_type;
  key_cause = s.spec_cause;
}

abbrev pub is_cleared : X733Severity → Bool
is_cleared s = elim s [ cleared ↦ true | _ ↦ false ]

key_eq_self : (k : AlarmKey) → key_eq k k ≡ true
key_eq_self k = (key_eq_iff k k).1 refl

abbrev pub Stands : Option X733Alarm → String → Type 0
Stands none name = ⊥
Stands (some a) name = a.additional_text ≡ name

module _ {ℓ} {W : Type ℓ} (name : String) (info : Dict String) (stamp : Stamp)
    (bus : X733AlarmBus W) (w : W) where
  -- An event of the table that is no clearing one leaves its alarm standing under its key.
  pub emit_event-Stands :
      (s : AlarmSpec)
      → lookup name failure_map ≡ some s
      → is_cleared s.spec_severity ≡ false
      → Stands (find_active (spec_key s) (emit_event name info none stamp bus w).1.active) name
  unfolding emit_event
  emit_event-Stands s found open_alarm =
      rw (found, open_alarm, find_active-put_active, key_eq_self (spec_key s)) refl

  -- A clearing event of the table leaves nothing under its key.
  pub emit_event_clears :
      (s : AlarmSpec)
      → lookup name failure_map ≡ some s
      → is_cleared s.spec_severity ≡ true
      → find_active (spec_key s) (emit_event name info none stamp bus w).1.active ≡ none
  unfolding emit_event
  emit_event_clears s found clearing =
      rw (found, clearing, find_active-pop_active, key_eq_self (spec_key s)) refl
