-- ===== src/Faces/OneActive.antt =====
-- At most one active face for a Companion, under any calls on the repository.
use eidolon_data.Prelude.{
  ℕ, String, ◌≡◌, refl, inr, Bool, false, ◌&&◌, Option, List, [], ◌∷◌, arith, if◌then◌else◌, ◌==◌,
  Option-cases, ℤ, find, update_where, Result, ok, err, committed, Pairwise, All-imp,
  All-of_exists_where, Pairwise-append, Pairwise-update_where, nat_eq, string_eq, option_eq, inl,
}
use eidolon_data.Schema.{Db, Env, IdleStatus, CompanionFaceAssetRow, asset_active}
use eidolon_data.Audit.Row.{governance_fact}
use eidolon_data.Audit.Facts.{add_fact}
use eidolon_data.Faces.Assets.{
  FaceError, validate_file, FaceInput, is_active_face_of, set_superseded, asset_clashes, set_face,
  has_asset_id, write_asset, load_asset, set_idle, set_idle_status, set_clip, set_idle_clip, clear,
}
use eidolon_data.Faces.Current.{set_face_table, set_face_free}

pub data FaceAction : Type 0 where
  call_set_face : Env → String → FaceInput → FaceAction
  call_set_idle_status : Env → String → IdleStatus → Option String → FaceAction
  call_set_idle_clip : Env → String → String → String → ℤ → String → FaceAction
  call_clear : Env → String → FaceAction

unfoldable pub perform : FaceAction → Db → Db
perform (call_set_face env i f) db = committed (set_face env i f db) db
perform (call_set_idle_status env i status m) db = committed (set_idle_status env i status m db) db
perform (call_set_idle_clip env i key type size sha) db =
    committed (set_idle_clip env i key type size sha db) db
perform (call_clear env i) db = committed (clear env i db) db

unfoldable pub perform_all : List FaceAction → Db → Db
perform_all [] db = db
perform_all (a ∷ actions) db = perform_all actions (perform a db)

-- Two rows have different ids, and for one Companion different versions, and are not both active.
pub record Separate (r s : CompanionFaceAssetRow) : Type 0 where
  pub ids : (r.face_asset_id == s.face_asset_id) ≡ false
  pub versions : r.companion_id == s.companion_id && r.version == s.version ≡ false
  pub one_active :
      r.companion_id == s.companion_id && asset_active r.state && asset_active s.state ≡ false

abbrev pub HasOneFace : Db → Type 0
HasOneFace db = Pairwise Separate db.companion_face_assets

module _ (q : CompanionFaceAssetRow → Bool) (now : ℕ) (r s : CompanionFaceAssetRow)
    (h : Separate r s) where
  set_superseded-Separate :
      Separate (if q r then set_superseded now r else r) (if q s then set_superseded now s else s)
  set_superseded-Separate = record {
    ids = ground arith;
    versions = ground arith;
    one_active = ground arith;
  }

  set_idle-Separate :
      (status : IdleStatus) (m : Option String)
      → Separate
          (if q r then set_idle now status m r else r)
          (if q s then set_idle now status m s else s)
  set_idle-Separate status m = record {
    ids = ground arith;
    versions = ground arith;
    one_active = ground arith;
  }

  set_clip-Separate :
      (key type : String) (size : ℤ) (sha : String)
      → Separate
          (if q r then set_clip now key type size sha r else r)
          (if q s then set_clip now key type size sha s else s)
  set_clip-Separate key type size sha = record {
    ids = ground arith;
    versions = ground arith;
    one_active = ground arith;
  }

Separate-of_free : (new r : CompanionFaceAssetRow) → asset_clashes new r ≡ false → Separate r new
Separate-of_free new r h = record {
  ids = ground arith;
  versions = ground arith;
  one_active = ground arith;
}

committed_keeps :
    {A : Type 0} (P : Db → Type 0) (db : Db) (r : Result FaceError (A × Db))
    → ((a : A) (db' : Db) → r ≡ ok (a, db') → P db')
    → P db
    → P (committed r db)
committed_keeps P db (ok (a, db')) h p = h a db' refl
committed_keeps P db (err e) h p = p

module _ (db db' : Db) (h : HasOneFace db) where
  update-HasOneFace :
      (q : CompanionFaceAssetRow → Bool) (f : CompanionFaceAssetRow → CompanionFaceAssetRow)
      → ((r s : CompanionFaceAssetRow)
          → Separate r s
          → Separate (if q r then f r else r) (if q s then f s else s))
      → db'.companion_face_assets ≡ update_where q f db.companion_face_assets
      → HasOneFace db'
  update-HasOneFace q f keep e =
      rw e (Pairwise-update_where Separate q f db.companion_face_assets keep h)

  set_face-HasOneFace :
      (env : Env) (i : String) (f : FaceInput) (row : CompanionFaceAssetRow)
      → set_face env i f db ≡ ok (row, db')
      → HasOneFace db'
  set_face-HasOneFace env i f row ran =
      let q = is_active_face_of i in
      let old = update_where q (set_superseded env.now) db.companion_face_assets in
      rw (set_face_table env i f db db' row ran) (
        Pairwise-append Separate old row
          (All-imp (λ r. asset_clashes row r ≡ false) (λ r. Separate r row) old
            (Separate-of_free row)
            (All-of_exists_where (asset_clashes row) old (set_face_free env i f db db' row ran)))
          (Pairwise-update_where Separate q (set_superseded env.now) db.companion_face_assets
            (set_superseded-Separate q env.now) h))

  set_idle_status-HasOneFace :
      (env : Env) (i : String) (status : IdleStatus) (m : Option String)
      → set_idle_status env i status m db ≡ ok (tt, db')
      → HasOneFace db'
  unfolding set_idle_status load_asset write_asset
  set_idle_status-HasOneFace env i status m ran =
      update-HasOneFace (has_asset_id i) (set_idle env.now status m)
        (λ r s k. set_idle-Separate (has_asset_id i) env.now r s k status m) (ground arith)

  set_idle_clip-HasOneFace :
      (env : Env) (i key type : String) (size : ℤ) (sha : String) (row : CompanionFaceAssetRow)
      → set_idle_clip env i key type size sha db ≡ ok (row, db')
      → HasOneFace db'
  unfolding set_idle_clip validate_file load_asset write_asset add_fact governance_fact
  set_idle_clip-HasOneFace env i key type size sha row ran =
      update-HasOneFace (has_asset_id i) (set_clip env.now key type size sha)
        (λ r s k. set_clip-Separate (has_asset_id i) env.now r s k key type size sha) (ground arith)

  clear-HasOneFace :
      (env : Env) (i : String) (had : Bool) → clear env i db ≡ ok (had, db') → HasOneFace db'
  unfolding clear write_asset add_fact governance_fact
  clear-HasOneFace env i had ran =
      elim (Option-cases (find (is_active_face_of i) db.companion_face_assets)) [
        | inl missing ↦ let same : db' ≡ db = ground arith in rw same h
        | inr (row, found) ↦
            update-HasOneFace (has_asset_id row.face_asset_id) (set_superseded env.now)
              (set_superseded-Separate (has_asset_id row.face_asset_id) env.now) (ground arith)
      ]

perform-HasOneFace : (a : FaceAction) (db : Db) → HasOneFace db → HasOneFace (perform a db)
unfolding perform
perform-HasOneFace (call_set_face env i f) db h =
    committed_keeps HasOneFace db (set_face env i f db)
      (λ row db' ran. set_face-HasOneFace db db' h env i f row ran) h
perform-HasOneFace (call_set_idle_status env i status m) db h =
    committed_keeps HasOneFace db (set_idle_status env i status m db)
      (λ a db' ran. set_idle_status-HasOneFace db db' h env i status m ran) h
perform-HasOneFace (call_set_idle_clip env i key type size sha) db h =
    committed_keeps HasOneFace db (set_idle_clip env i key type size sha db)
      (λ row db' ran. set_idle_clip-HasOneFace db db' h env i key type size sha row ran) h
perform-HasOneFace (call_clear env i) db h =
    committed_keeps HasOneFace db (clear env i db)
      (λ had db' ran. clear-HasOneFace db db' h env i had ran) h

-- Whatever calls are made in whatever order, failing ones included, it stays so that no two assets
-- have one id, and that a Companion has at most one active face and no version twice.
pub perform_all-HasOneFace :
    (actions : List FaceAction) (db : Db) → HasOneFace db → HasOneFace (perform_all actions db)
unfolding perform_all
perform_all-HasOneFace [] db h = h
perform_all-HasOneFace (a ∷ actions) db h =
    perform_all-HasOneFace actions (perform a db) (perform-HasOneFace a db h)
