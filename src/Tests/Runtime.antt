-- ===== src/Tests/Runtime.antt =====
-- runtime/atomic_promotion.py and runtime/artefact_vault.py at concrete inputs.
use preceptual_ai_5g_dynamic.Prelude.{
  List, String, [], eq_iff, false, none, refl, some, true, ℕ, ◌++◌, ◌≡◌, ◌∷◌, ◌≢◌,
}
use preceptual_ai_5g_dynamic.Prelude.Dict.{insert, lookup}
use preceptual_ai_5g_dynamic.Prelude.Int.{negsuc, pos}
use preceptual_ai_5g_dynamic.Prelude.Outcome.{ok, raised, runtime_error}
use preceptual_ai_5g_dynamic.Promotion.{
  Pending, Promoter, Slot, get, may_finish, new_promoter, promote, promotion, release, rollback,
}
use preceptual_ai_5g_dynamic.Promotion.Handles.{Handle}
use preceptual_ai_5g_dynamic.Promotion.Rollback.{promoted, rollback_miscounts, third}
use preceptual_ai_5g_dynamic.Vault.{
  ArtefactVault, Bytes, all_hex, is_hash, is_hex_digit, new_vault, retrieve, store,
}
use preceptual_ai_5g_dynamic.Vault.Intact.{
  Artefact, IsDigest, store_all, store_all-retrieve, store_keeps_corrupt,
}

-- one promoter: a reader has the first model, the second is promoted, the reader is done
abbrev second_promoter : Promoter ℕ
second_promoter = (promote 20 "bb" (get (new_promoter 10 "aa")).1).1

abbrev done_promoter : Promoter ℕ
done_promoter = release "aa" second_promoter

abbrev first_handles : List Handle
first_handles = (0, "aa") ∷ []

abbrev first_swap : Pending
first_swap = record {
  swap_number = 1;
  old_number = 0;
  from_sha = "aa";
  to_sha = "bb";
  kind = promotion;
}

abbrev old_slot : Slot ℕ
old_slot = record { number = 0; model = 10; sha = "aa"; in_flight = pos 0 }

rollback_miscounts_example :
    (swap : Pending) × (q : Promoter ℕ) × (rollback (promoted 10 20 30 "aa" "bb" "cc").1
      ≡ ok (swap, q))
    × ((release "aa" q).slot.in_flight ≡ negsuc 0)
    × ((release "aa" q).draining
        ≡ (promoted 10 20 30 "aa" "bb" "cc").1.draining
          ++ (promoted 10 20 30 "aa" "bb" "cc").1.slot ∷ [])
    × ((get (release "aa" q)).0 ≡ (10, "aa"))
    × (may_finish false (third 10 20 30 "aa" "bb" "cc" q).0 (third 10 20 30 "aa" "bb" "cc" q).1
        ≡ true)
rollback_miscounts_example = rollback_miscounts 10 20 30 "aa" "bb" "cc"

abbrev sixteen : String
sixteen = "0123456789abcdef"

-- a hexdigest that tells empty bytes from others
abbrev small_sha : Bytes → String
small_sha [] = "0000000000000000000000000000000000000000000000000000000000000000"
small_sha (c ∷ cs) = "00000000000000000000000000000000000000000000000000000000000000ff"

small_sha-IsDigest : IsDigest small_sha
unfolding is_hash all_hex is_hex_digit
small_sha-IsDigest [] = refl
small_sha-IsDigest (c ∷ cs) = refl

small_sha-apart : small_sha [] ≢ small_sha (7 ∷ 8 ∷ [])
small_sha-apart e = let same = (eq_iff (small_sha []) (small_sha (7 ∷ []))).1 e in cc

abbrev weights : Artefact
weights = record { bytes = 7 ∷ 8 ∷ []; label = some "v1"; extra = []; now = 5 }

abbrev nothing : Artefact
nothing = record { bytes = []; label = none; extra = []; now = 6 }

abbrev stored : List Artefact
stored = weights ∷ nothing ∷ []

store_all-retrieve_example :
    (w : ArtefactVault) × (store_all small_sha stored new_vault ≡ ok w)
    × (retrieve small_sha (small_sha (7 ∷ 8 ∷ [])) w ≡ ok (7 ∷ 8 ∷ []))
store_all-retrieve_example =
    store_all-retrieve small_sha weights stored 0 small_sha-IsDigest
      (λ e. refl, (λ e. absurd (small_sha-apart e), tt)) refl

abbrev corrupt : ArtefactVault
corrupt = record { bins = insert (small_sha (7 ∷ [])) [] []; metas = [] }

store_keeps_corrupt_example :
    (retrieve small_sha (small_sha (7 ∷ 8 ∷ [])) corrupt ≡ raised runtime_error)
    × ((w : ArtefactVault) × (store small_sha (7 ∷ 8 ∷ []) (some "v1") [] 5 corrupt
          ≡ ok (small_sha (7 ∷ 8 ∷ []), w))
        × (w.bins ≡ corrupt.bins)
        × (retrieve small_sha (small_sha (7 ∷ 8 ∷ [])) w ≡ raised runtime_error))
unfolding insert lookup
store_keeps_corrupt_example =
    store_keeps_corrupt small_sha corrupt weights [] small_sha-IsDigest refl small_sha-apart
