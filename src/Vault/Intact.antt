-- ===== src/Vault/Intact.antt =====
-- runtime/artefact_vault.py: what comes back from a vault.
use preceptual_ai_5g_dynamic.Prelude.{
  Bool-cases, List, Option, Option-cases, String, [], arith, eq_iff, false, get_elem?, inl, inr,
  none, refl, subst, suc, zero, ◌⊎◌, some, str_eq, true, ℕ, ◌≡◌, ◌≢◌, ◌∷◌,
}
use preceptual_ai_5g_dynamic.Prelude.Dict.{Dict, insert, lookup, lookup-insert}
use preceptual_ai_5g_dynamic.Prelude.Outcome.{Outcome, ok, raised, runtime_error}
use preceptual_ai_5g_dynamic.Vault.{
  ArtefactVault, Bytes, checked, is_hash, metadata_for, new_vault, paths_for, retrieve, store,
  write_once,
}

str_ne : (s t : String) → s ≢ t → str_eq s t ≡ false
str_ne s t h = elim (Bool-cases (str_eq s t)) [
  | inl same ↦ absurd (h ((eq_iff s t).0 same))
  | inr other ↦ other
]

-- one call of `store`
pub record Artefact : Type 0 where
  pub bytes : Bytes
  pub label : Option String
  pub extra : Dict String
  pub now : ℕ

module _ (sha256_of : Bytes → String) where
  -- a hexdigest of SHA-256 is 64 hexadecimal digits
  abbrev pub IsDigest : Type 0
  IsDigest = (bytes : Bytes) → is_hash (sha256_of bytes) ≡ true

  abbrev pub store_all : List Artefact → ArtefactVault → Outcome ArtefactVault
  store_all [] v = ok v
  store_all (a ∷ rest) v = elim (store sha256_of a.bytes a.label a.extra a.now v) [
    | raised e ↦ raised e
    | ok (sha, w) ↦ store_all rest w
  ]

  paths_for-ok : (sha : String) → is_hash sha ≡ true → paths_for sha ≡ ok sha
  unfolding paths_for
  paths_for-ok sha h = rw h refl

  abbrev stored_vault : Artefact → ArtefactVault → ArtefactVault
  stored_vault a v = record {
    bins = write_once (sha256_of a.bytes) a.bytes v.bins;
    metas =
        insert (sha256_of a.bytes) (metadata_for (sha256_of a.bytes) a.bytes a.label a.extra a.now)
          v.metas;
  }

  store_lem :
      (a : Artefact) (v : ArtefactVault)
      → IsDigest
      → store sha256_of a.bytes a.label a.extra a.now v ≡ ok (sha256_of a.bytes, stored_vault a v)
  unfolding store
  store_lem a v digest = rw (store, paths_for-ok (sha256_of a.bytes) (digest a.bytes)) refl

  -- a file that is there stays calls it is
  write_once-there :
      (key j : String) (bytes found : Bytes) (bins : Dict Bytes)
      → lookup j bins ≡ some found
      → lookup j (write_once key bytes bins) ≡ some found
  unfolding write_once
  write_once-there key j bytes found bins there = elim (Option-cases (lookup key bins)) [
    | inr (old, is) ↦ rw (write_once, is) there
    | inl missing ↦
        rw (write_once, missing) (ground (arith, lookup-insert key j bytes bins, eq_iff key j))
  ]

  -- no other bytes under the hash of `a`
  abbrev Only : Artefact → ArtefactVault → Type 0
  Only a v = (found : Bytes) → lookup (sha256_of a.bytes) v.bins ≡ some found → found ≡ a.bytes

  -- no bytes in the list have the hash of `a` without being its bytes
  abbrev pub NoCollision : Artefact → List Artefact → Type 0
  NoCollision a [] = Unit
  NoCollision a (b ∷ bs) =
      (sha256_of b.bytes ≡ sha256_of a.bytes → b.bytes ≡ a.bytes) × NoCollision a bs

  stored-Only :
      (a b : Artefact) (v : ArtefactVault)
      → (sha256_of b.bytes ≡ sha256_of a.bytes → b.bytes ≡ a.bytes)
      → Only a v
      → Only a (stored_vault b v)
  unfolding write_once
  stored-Only a b v apart only found is = elim (Option-cases (lookup (sha256_of b.bytes) v.bins)) [
    | inr (old, there) ↦ only found (rw (write_once, there) at is)
    | inl missing ↦
        inserted (rw (write_once, missing) at is)
          (Bool-cases (str_eq (sha256_of b.bytes) (sha256_of a.bytes)))
  ]
    where
      inserted :
          lookup (sha256_of a.bytes) (insert (sha256_of b.bytes) b.bytes v.bins) ≡ some found
          → (str_eq (sha256_of b.bytes) (sha256_of a.bytes) ≡ true)
            ⊎ (str_eq (sha256_of b.bytes) (sha256_of a.bytes) ≡ false)
          → found ≡ a.bytes
      inserted h (inl same) =
          let e = rw (lookup-insert, same) at h in
          let f : b.bytes ≡ found = cc in cc (apart ((eq_iff _ _).0 same))
      inserted h (inr other) = only found (rw (lookup-insert, other) at h)

  -- what the hash of `a` leads to in the vault after some stores
  stores :
      (a : Artefact) (calls : List Artefact) (v : ArtefactVault)
      → IsDigest
      → NoCollision a calls
      → Only a v
      → (w : ArtefactVault) × (store_all calls v ≡ ok w)
        × Only a w
        × ((found : Bytes)
            → lookup (sha256_of a.bytes) v.bins ≡ some found
            → lookup (sha256_of a.bytes) w.bins ≡ some found)
  stores a [] v digest apart only = (v, refl, only, λ found h. h)
  stores a (b ∷ bs) v digest apart only =
      let (w, ran, still, kept) =
        stores a bs (stored_vault b v) digest apart.1 (stored-Only a b v apart.0 only) in
      (
        w,
        rw (store_all, store_lem b v digest) ran,
        still,
        λ found h. kept found (write_once-there _ _ _ found v.bins h),
      )

  write_once-present :
      (key : String) (bytes : Bytes) (bins : Dict Bytes)
      → (found : Bytes) × (lookup key (write_once key bytes bins) ≡ some found)
  unfolding write_once
  write_once-present key bytes bins = elim (Option-cases (lookup key bins)) [
    | inr (old, is) ↦ (old, rw (write_once, is) is)
    | inl missing ↦ (
      bytes,
      rw (write_once, missing) (ground (arith, lookup-insert key key bytes bins, eq_iff key key)),
    )
  ]

  present :
      (a : Artefact) (calls : List Artefact) (i : ℕ) (v : ArtefactVault)
      → IsDigest
      → NoCollision a calls
      → Only a v
      → get_elem? calls i ≡ some a
      → (w : ArtefactVault) × (store_all calls v ≡ ok w)
        × (lookup (sha256_of a.bytes) w.bins ≡ some a.bytes)
  present a [] i v digest apart only at_i = cc
  present a (b ∷ bs) zero v digest apart only at_i =
      let next = stored_vault b v in
      let (w, ran, still, kept) =
        stores a bs next digest apart.1 (stored-Only a b v apart.0 only) in
      let same : b ≡ a = cc in
      let (found, is) = write_once-present (sha256_of b.bytes) b.bytes v.bins in
      let there =
        kept found
          (subst (λ (c : Artefact). lookup (sha256_of c.bytes) next.bins ≡ some found) same is) in
      (w, rw (store_all, store_lem b v digest) ran, cc (still found there))
  present a (b ∷ bs) (suc i) v digest apart only at_i =
      let (w, ran, there) =
        present a bs i (stored_vault b v) digest apart.1 (stored-Only a b v apart.0 only) at_i in
      (w, rw (store_all, store_lem b v digest) ran, there)

  -- When every hexdigest is 64 hexadecimal digits: any calls of `store` on a new vault all return,
  -- and `retrieve` of the hash of bytes that were stored by one of them returns these bytes, unless
  -- other bytes with the same hash were stored.
  pub store_all-retrieve :
      (a : Artefact) (calls : List Artefact) (i : ℕ)
      → IsDigest
      → NoCollision a calls
      → get_elem? calls i ≡ some a
      → (w : ArtefactVault) × (store_all calls new_vault ≡ ok w)
        × (retrieve sha256_of (sha256_of a.bytes) w ≡ ok a.bytes)
  unfolding new_vault retrieve checked lookup
  store_all-retrieve a calls i digest apart at_i =
      let (w, ran, there) = present a calls i new_vault digest apart (λ found h. cc) at_i in
      (
        w,
        ran,
        rw
            (
              retrieve,
              paths_for-ok (sha256_of a.bytes) (digest a.bytes),
              there,
              (eq_iff (sha256_of a.bytes) (sha256_of a.bytes)).1 refl,
            )
            refl,
      )

  checked-sha :
      (sha : String) (o : Option Bytes) (bytes : Bytes)
      → checked sha256_of sha o ≡ ok bytes
      → sha256_of bytes ≡ sha
  unfolding checked
  checked-sha sha none bytes h = cc
  checked-sha sha (some found) bytes h = elim (Bool-cases (str_eq (sha256_of found) sha)) [
    | inl same ↦
        let e = rw same at h in let f : found ≡ bytes = cc in (rw (← f) ((eq_iff _ _).0 same))
    | inr other ↦ let e = rw other at h in cc
  ]

  -- Whatever is in the files: bytes that `retrieve` returns have the hash that was asked for.
  pub retrieve-sha :
      (sha : String) (v : ArtefactVault) (bytes : Bytes)
      → retrieve sha256_of sha v ≡ ok bytes
      → sha256_of bytes ≡ sha
  unfolding retrieve paths_for
  retrieve-sha sha v bytes h = elim (Bool-cases (is_hash sha)) [
    | inl good ↦ checked-sha sha (lookup sha v.bins) bytes (rw (retrieve, paths_for, good) at h)
    | inr bad ↦ let e = rw (retrieve, paths_for, bad) at h in cc
  ]

  -- When every hexdigest is 64 hexadecimal digits and the file of a hash holds bytes of another hash:
  -- `retrieve` of that hash raises IntegrityError, and it still does after `store` of the right bytes,
  -- which returns the hash as usual and leaves the file as it is.
  pub store_keeps_corrupt :
      (v : ArtefactVault) (a : Artefact) (found : Bytes)
      → IsDigest
      → lookup (sha256_of a.bytes) v.bins ≡ some found
      → sha256_of found ≢ sha256_of a.bytes
      → (retrieve sha256_of (sha256_of a.bytes) v ≡ raised runtime_error)
        × ((w : ArtefactVault) × (store sha256_of a.bytes a.label a.extra a.now v
              ≡ ok (sha256_of a.bytes, w))
            × (w.bins ≡ v.bins)
            × (retrieve sha256_of (sha256_of a.bytes) w ≡ raised runtime_error))
  unfolding write_once
  store_keeps_corrupt v a found digest there wrong = (
    broken v there,
    (
      stored_vault a v,
      store_lem a v digest,
      rw (write_once, there) refl,
      broken (stored_vault a v) (write_once-there _ _ _ found v.bins there),
    ),
  )
    where
      broken :
          (u : ArtefactVault)
          → lookup (sha256_of a.bytes) u.bins ≡ some found
          → retrieve sha256_of (sha256_of a.bytes) u ≡ raised runtime_error
      broken u is =
          unfold retrieve checked in
          (rw
            (
              retrieve,
              paths_for-ok (sha256_of a.bytes) (digest a.bytes),
              is,
              str_ne (sha256_of found) (sha256_of a.bytes) wrong,
            )
            refl)
