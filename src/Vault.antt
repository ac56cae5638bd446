-- ===== src/Vault.antt =====
-- runtime/artefact_vault.py: `ArtefactVault`. The two files of an artefact are entries under its hash,
-- since both paths are made of the hash alone. SHA-256 and the times of the clock are arguments; a
-- metadata file reads back as the metadata that was written.
pub mod Intact
use preceptual_ai_5g_dynamic.Prelude.{
  Bool, List, Option, String, [], false, if◌then◌else◌, leb, length, none, some, str_eq, true, ℕ,
  ◌&&◌, ◌==◌, ◌||◌, ◌∷◌,
}
use preceptual_ai_5g_dynamic.Prelude.Dict.{Dict, insert, lookup}
use preceptual_ai_5g_dynamic.Prelude.Sorted.{codes, insert_sorted}
use preceptual_ai_5g_dynamic.Prelude.Outcome.{
  Outcome, ok, os_error, raised, runtime_error, value_error,
}

abbrev pub Bytes : Type 0
Bytes = List ℕ

pub record ArtefactMetadata : Type 0 where
  pub sha256 : String
  pub size_bytes : ℕ
  pub stored_at : ℕ
  pub label : Option String
  pub extra : Dict String

-- the `.bin` and the `.meta.json` files below the root
pub record ArtefactVault : Type 0 where
  pub bins : Dict Bytes
  pub metas : Dict ArtefactMetadata

unfoldable pub new_vault : ArtefactVault
new_vault = record { bins = []; metas = [] }

-- `c in "0123456789abcdef"`
unfoldable pub is_hex_digit : ℕ → Bool
is_hex_digit c = leb b'0' c && leb c b'9' || leb b'a' c && leb c b'f'

unfoldable pub all_hex : List ℕ → Bool
unfolding is_hex_digit
all_hex [] = true
all_hex (c ∷ cs) = is_hex_digit c && all_hex cs

-- the test of `_paths_for`
unfoldable pub is_hash : String → Bool
unfolding all_hex
is_hash sha = length (codes sha) == 64 && all_hex (codes sha)

-- `_paths_for`: the key of the two files
unfoldable pub paths_for : String → Outcome String
unfolding is_hash
paths_for sha = if is_hash sha then ok sha else raised value_error

-- `if not bin_path.exists()`: what is written first stays
unfoldable pub write_once : String → Bytes → Dict Bytes → Dict Bytes
write_once key bytes bins = elim (lookup key bins) [
  | none ↦ insert key bytes bins
  | some old ↦ bins
]

unfoldable pub metadata_for :
    (sha : String)
    → Bytes
    → (label : Option String) (extra : Dict String) (now : ℕ) → ArtefactMetadata
metadata_for sha bytes label extra now = record {
  sha256 = sha;
  size_bytes = length bytes;
  stored_at = now;
  label = label;
  extra = extra;
}

module _ (sha256_of : Bytes → String) where
  unfoldable pub store :
      Bytes
      → (label : Option String) (extra : Dict String) (now : ℕ) → ArtefactVault
      → Outcome (String × ArtefactVault)
  unfolding paths_for write_once metadata_for
  store bytes label extra now v =
      let sha = sha256_of bytes in
      elim (paths_for sha) [
        | raised e ↦ raised e
        | ok key ↦ ok (
          sha,
          record {
            bins = write_once key bytes v.bins;
            metas = insert key (metadata_for sha bytes label extra now) v.metas;
          },
        )
      ]

  unfoldable pub checked : String → Option Bytes → Outcome Bytes
  checked sha none = raised os_error
  checked sha (some found) = if str_eq (sha256_of found) sha then ok found else raised runtime_error

  unfoldable pub retrieve : String → ArtefactVault → Outcome Bytes
  unfolding paths_for checked
  retrieve sha v = elim (paths_for sha) [
    | raised e ↦ raised e
    | ok key ↦ checked sha (lookup key v.bins)
  ]

unfoldable pub exists : String → ArtefactVault → Outcome Bool
unfolding paths_for
exists sha v = elim (paths_for sha) [
  | raised e ↦ raised e
  | ok key ↦ ok (elim (lookup key v.bins) [ none ↦ false | some found ↦ true ])
]

unfoldable pub metadata_of : Option ArtefactMetadata → Outcome ArtefactMetadata
metadata_of none = raised os_error
metadata_of (some m) = ok m

unfoldable pub artefact_metadata : String → ArtefactVault → Outcome ArtefactMetadata
unfolding paths_for metadata_of
artefact_metadata sha v = elim (paths_for sha) [
  | raised e ↦ raised e
  | ok key ↦ metadata_of (lookup key v.metas)
]

-- the keys in the order of the paths
unfoldable pub sorted_keys : Dict ArtefactMetadata → List String
unfolding insert_sorted
sorted_keys [] = []
sorted_keys ((key, m) ∷ d) = insert_sorted key (sorted_keys d)

unfoldable pub metas_at : List String → Dict ArtefactMetadata → List ArtefactMetadata
metas_at [] d = []
metas_at (key ∷ keys) d =
    let rest = metas_at keys d in elim (lookup key d) [ none ↦ rest | some m ↦ m ∷ rest ]

unfoldable pub list_artefacts : ArtefactVault → List ArtefactMetadata
unfolding sorted_keys metas_at
list_artefacts v = metas_at (sorted_keys v.metas) v.metas
