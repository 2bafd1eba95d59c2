-- ===== src/Faces/Current.antt =====
-- The current face of a Companion.
use eidolon_data.Prelude.{
  ℕ, ◌+◌, ◌≤◌, ◌<◌, String, ◌≡◌, refl, sym, ◌∙◌, ◌≢◌, inl, inr, true, false, ◌&&◌, ◌||◌, none, some,
  List, [], ◌∷◌, ◌++◌, arith, eq_iff, ◌==◌, ==→≡, Bool-cases, All, find, update_where, exists_where,
  find-append_none, find-append_other, ok, ◌⧺◌, All-imp, nat_eq, string_eq, option_eq,
}
use native.Mathlib.Nat.{le_refl}
use eidolon_data.Schema.{Db, Env, AssetState, CompanionFaceAssetRow, CompanionRow}
use eidolon_data.Audit.Row.{governance_fact}
use eidolon_data.Audit.Facts.{add_fact}
use eidolon_data.Faces.Assets.{
  validate_file, validate_asset_inputs, FaceInput, is_face_of, is_active_face_of, set_superseded,
  max_version, new_asset, asset_clashes, add_asset, asset_fact, version_payload, supersede,
  set_face, get_active,
}

-- The versions of a Companion's face are at most `max_version`.
max_version_bound :
    (i : String) (rows : List CompanionFaceAssetRow)
    → All (λ r. is_face_of i r ≡ true → r.version ≤ max_version i rows) rows
unfolding max_version
max_version_bound i [] = tt
max_version_bound i (row ∷ rows) = (
  λ h. ground arith,
  All-imp (λ r. is_face_of i r ≡ true → r.version ≤ max_version i rows)
      (λ r. is_face_of i r ≡ true → r.version ≤ max_version i (row ∷ rows)) rows
      (λ r h e. let low = h e in ground arith) (max_version_bound i rows),
)

no_active_left :
    (now : ℕ) (i : String) (rows : List CompanionFaceAssetRow)
    → find (is_active_face_of i) (update_where (is_active_face_of i) (set_superseded now) rows)
      ≡ none
no_active_left now i [] = refl
no_active_left now i (row ∷ rows) = ground (arith, no_active_left now i rows)

max_version-supersede :
    (now : ℕ) (i : String) (rows : List CompanionFaceAssetRow)
    → max_version i (update_where (is_active_face_of i) (set_superseded now) rows)
      ≡ max_version i rows
unfolding max_version
max_version-supersede now i [] = refl
max_version-supersede now i (row ∷ rows) = ground (arith, max_version-supersede now i rows)

module _ (env : Env) (companion_id : String) (f : FaceInput) (db db' : Db)
    (row : CompanionFaceAssetRow) (ran : set_face env companion_id f db ≡ ok (row, db')) where
  set_face_row :
      (row.companion_id ≡ companion_id)
      × (row.state ≡ AssetState.active)
      × (row.version ≡ max_version companion_id db.companion_face_assets + 1)
  unfolding set_face validate_asset_inputs validate_file supersede add_asset add_fact
      governance_fact
  set_face_row =
      let same = max_version-supersede env.now companion_id db.companion_face_assets in
      (ground arith, ground arith, ground arith)

  pub set_face_table :
      db'.companion_face_assets
      ≡ update_where
          (is_active_face_of companion_id)
          (set_superseded env.now)
          db.companion_face_assets
        ++ row ∷ []
  unfolding set_face validate_asset_inputs validate_file supersede add_asset add_fact
      governance_fact
  set_face_table = ground arith

  pub set_face_free :
      exists_where (asset_clashes row) (
        update_where
          (is_active_face_of companion_id)
          (set_superseded env.now)
          db.companion_face_assets)
      ≡ false
  unfolding set_face validate_asset_inputs validate_file supersede add_asset add_fact
  set_face_free = ground arith

other_active_kept :
    (now : ℕ) (i j : String) (rows : List CompanionFaceAssetRow)
    → j ≢ i
    → find (is_active_face_of j) (update_where (is_active_face_of i) (set_superseded now) rows)
      ≡ find (is_active_face_of j) rows
other_active_kept now i j [] other = refl
other_active_kept now i j (row ∷ rows) other =
    elim (Bool-cases (is_face_of i row && is_face_of j row)) [
      | inl both ↦
          let mine : row.companion_id ≡ i = ground (arith, ==→≡ row.companion_id i) in
          let its : row.companion_id ≡ j = ground (arith, ==→≡ row.companion_id j) in
          absurd (other (sym its ∙ mine))
      | inr apart ↦ ground (arith, other_active_kept now i j rows other)
    ]

-- A face that has been set is the Companion's current one, with a version above all it had; and the
-- current faces of all other Companions are what they were.
pub set_face_current :
    (env : Env) (companion_id : String) (f : FaceInput) (db db' : Db) (row : CompanionFaceAssetRow)
    → set_face env companion_id f db ≡ ok (row, db')
    → (get_active companion_id db' ≡ some row)
      × All
          (λ r. is_face_of companion_id r ≡ true → r.version < row.version)
          db.companion_face_assets
      × ((j : String) → j ≢ companion_id → get_active j db' ≡ get_active j db)
unfolding get_active
set_face_current env i f db db' row ran =
    let (mine, active, version) = set_face_row env i f db db' row ran in
    let rows = db.companion_face_assets in
    let old = update_where (is_active_face_of i) (set_superseded env.now) rows in
    let not_its : (j : String) → j ≢ i → is_active_face_of j row ≡ false = λ j other.
      elim (Bool-cases (is_face_of j row)) [
        | inl same ↦
            let its : row.companion_id ≡ j = ground (arith, ==→≡ row.companion_id j) in
            absurd (other (sym its ∙ mine))
        | inr apart ↦ ground arith
      ] in
    rw (set_face_table env i f db db' row ran) (
      find-append_none (is_active_face_of i) old (row ∷ []) (no_active_left env.now i rows)
          ∙ ground (arith, eq_iff row.companion_id i),
      All-imp (λ r. is_face_of i r ≡ true → r.version ≤ max_version i rows)
          (λ r. is_face_of i r ≡ true → r.version < row.version) rows
          (λ r h e. let low = h e in omega arith) (max_version_bound i rows),
      λ j other.
          find-append_other (is_active_face_of j) old row (not_its j other)
          ∙ other_active_kept env.now i j rows other,
    )

-- Ids and keys that no row has: of the new face, and of its fact in the outbox.
pub record IsFresh (env : Env) (storage_key : String) (db : Db) : Type 0 where
  pub asset :
      exists_where
        (λ r. r.face_asset_id == "cfa_" ⧺ env.uuid 1 || r.cond_storage_key == storage_key)
        db.companion_face_assets
      ≡ false
  pub fact :
      exists_where
        (λ r. r.outbox_id == env.outbox_id 0 || r.event_id == "audit-" ⧺ env.uuid 0)
        db.audit_outbox
      ≡ false

no_clash :
    (env : Env) (i owner : String) (f : FaceInput) (n : ℕ) (rows : List CompanionFaceAssetRow)
    → exists_where
        (λ r. r.face_asset_id == "cfa_" ⧺ env.uuid 1 || r.cond_storage_key == f.cond_storage_key)
        rows
      ≡ false
    → max_version i rows ≤ n
    → exists_where
        (asset_clashes (new_asset env i owner f (n + 1)))
        (update_where (is_active_face_of i) (set_superseded env.now) rows)
      ≡ false
unfolding max_version
no_clash env i owner f n [] fresh low = refl
no_clash env i owner f n (row ∷ rows) fresh low =
    ground (arith, no_clash env i owner f n rows, ==→≡ row.version (n + 1))

-- `set_face` returns for every Companion that is there and every valid file, unless an id or the
-- storage key is in use: its own version and the one active face never stand in its way.
pub set_face_returns :
    (env : Env) (companion_id : String) (f : FaceInput) (db : Db) (companion : CompanionRow)
    → validate_asset_inputs f.cond_content_type f.cond_size_bytes f.cond_sha256 f.cond_storage_key
        db
      ≡ ok (tt, db)
    → find (λ c. c.companion_id == companion_id) db.companions ≡ some companion
    → IsFresh env f.cond_storage_key db
    → (row : CompanionFaceAssetRow) × (db' : Db) × (set_face env companion_id f db ≡ ok (row, db'))
unfolding set_face supersede add_asset add_fact governance_fact
set_face_returns env i f db companion valid found fresh =
    let rows = db.companion_face_assets in
    let old = update_where (is_active_face_of i) (set_superseded env.now) rows in
    let latest = max_version i old in
    let row = new_asset env i companion.owner_id f (latest + 1) in
    let payload = version_payload row f.cond_sha256 in
    let event = asset_fact env row "companion.face_asset.activated" payload in
    let low : max_version i rows ≤ latest =
      rw (max_version-supersede env.now i rows) (le_refl (max_version i rows)) in
    let free = no_clash env i companion.owner_id f latest rows fresh.asset low in
    (
      row,
      record db {
        companion_face_assets = old ++ row ∷ [];
        audit_outbox = db.audit_outbox ++ event ∷ [];
      },
      ground (arith, free, fresh.fact, valid, found),
    )
