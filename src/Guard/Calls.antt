-- ===== src/Guard/Calls.antt =====
-- The calls on the repository, in any order and by any clients; each is one serialised transaction.
use eidolon_data.Prelude.{
  String, ◌≡◌, refl, Bool, Option, List, [], ◌∷◌, ℤ, JsonDict, Result, ok, err, committed,
}
use eidolon_data.Schema.{Db, Env, GuardBindingRow}
use eidolon_data.Guard.Bindings.{GuardError, Call, bind, update_policy, disable}

pub data GuardCall : Type 0 where
  call_bind : Env → String → String → String → String → Option JsonDict → Option String → GuardCall
  call_update_policy : Env → String → ℤ → String → JsonDict → GuardCall
  call_disable : Env → String → Bool → GuardCall

unfoldable pub run_call : GuardCall → Call GuardBindingRow
run_call (call_bind env owner_id companion_id device_id policy_id policy_json binding_id) =
    bind env owner_id companion_id device_id policy_id policy_json binding_id
run_call (call_update_policy env binding_id expected policy_id policy_json) =
    update_policy env binding_id expected policy_id policy_json
run_call (call_disable env binding_id revoke) = disable env binding_id revoke

unfoldable pub perform : GuardCall → Db → Db
perform c db = committed (run_call c db) db

unfoldable pub perform_all : List GuardCall → Db → Db
perform_all [] db = db
perform_all (c ∷ cs) db = perform_all cs (perform c db)

-- A property of databases that every successful call keeps is kept by any sequence of calls.
module _ (P : Db → Type 0)
    (keep : (c : GuardCall) (db db' : Db) (row : GuardBindingRow)
      → run_call c db ≡ ok (row, db')
      → P db
      → P db') where
  perform_keeps : (c : GuardCall) (db : Db) → P db → P (perform c db)
  unfolding perform
  perform_keeps c db h = go (run_call c db) refl
    where
      go : (r : Result GuardError (GuardBindingRow × Db)) → run_call c db ≡ r → P (committed r db)
      go (ok (row, db')) e = keep c db db' row e h
      go (err e) _ = h

  pub perform_all_keeps : (cs : List GuardCall) (db : Db) → P db → P (perform_all cs db)
  unfolding perform_all
  perform_all_keeps [] db h = h
  perform_all_keeps (c ∷ cs) db h = perform_all_keeps cs (perform c db) (perform_keeps c db h)
