-- ===== src/Personas/Calls.antt =====
-- The commands of `PersonaService`, in any order and by any clients; each is one serialised
-- transaction.
use eidolon_data.Prelude.{String, ◌≡◌, refl, Option, List, [], ◌∷◌, Result, ok, err, committed}
use eidolon_data.Schema.{Db, Env}
use eidolon_data.Personas.Sdk.{PersonaProposal, PersonaSdk}
use eidolon_data.Personas.Genomes.{PersonaError}
use eidolon_data.Personas.Edits.{EditRequest, edit}
use eidolon_data.Personas.Restores.{restore_chapter, rename, reset_to_origin}
use eidolon_data.Personas.Evolution.{
  CreateGenome, create_genome, create_evolution_proposal, approve_evolution, PersonaObservation,
  record_observation, reject_evolution,
}
use eidolon_data.Personas.Changes.{PersonaChange, same}
use eidolon_data.Personas.Commands.{restore_chapter_change, rename_change, reset_to_origin_change}
use eidolon_data.Personas.Decisions.{
  create_evolution_proposal_change, record_observation_change, reject_evolution_change,
  create_genome_change, approve_evolution_change,
}
use eidolon_data.Personas.EditChange.{edit_effect}

pub data PersonaAction (sdk : PersonaSdk) : Type 0 where
  call_edit : String → EditRequest sdk → String → PersonaAction sdk
  call_rename : String → String → PersonaAction sdk
  call_restore_chapter : String → String → String → Option String → PersonaAction sdk
  call_reset_to_origin : String → String → PersonaAction sdk
  call_create_genome : CreateGenome → PersonaAction sdk
  call_record_observation : PersonaObservation → PersonaAction sdk
  call_create_evolution_proposal : PersonaProposal sdk.Genome → PersonaAction sdk
  call_approve_evolution : String → String → String → Option String → PersonaAction sdk
  call_reject_evolution : String → String → Option String → String → PersonaAction sdk

module _ (sdk : PersonaSdk) where
  unfoldable pub perform : Env → PersonaAction sdk → Db → Db
  perform env (call_edit companion_id request summary) db =
      committed (edit sdk env companion_id request summary db) db
  perform env (call_rename companion_id display_name) db =
      committed (rename sdk env companion_id display_name db) db
  perform env (call_restore_chapter companion_id genome_id summary owner_id) db =
      committed (restore_chapter sdk env companion_id genome_id summary owner_id db) db
  perform env (call_reset_to_origin owner_id companion_id) db =
      committed (reset_to_origin sdk env owner_id companion_id db) db
  perform env (call_create_genome arguments) db = committed (create_genome sdk env arguments db) db
  perform env (call_record_observation observation) db =
      committed (record_observation env observation db) db
  perform env (call_create_evolution_proposal proposal) db =
      committed (create_evolution_proposal sdk env proposal db) db
  perform env (call_approve_evolution companion_id owner_id genome_id expected) db =
      committed (approve_evolution sdk env companion_id owner_id genome_id expected db) db
  perform env (call_reject_evolution owner_id genome_id companion_id reason) db =
      committed (reject_evolution env owner_id genome_id companion_id reason db) db

  -- each call with its own clock and its own new ids
  unfoldable pub perform_all : List (Env × PersonaAction sdk) → Db → Db
  perform_all [] db = db
  perform_all ((env, a) ∷ actions) db = perform_all actions (perform env a db)

committed_change :
    {A : Type 0} (db : Db) (r : Result PersonaError (A × Db))
    → ((result : A) (db' : Db) → r ≡ ok (result, db') → PersonaChange db db')
    → PersonaChange db (committed r db)
committed_change db (ok (result, db')) h = h result db' refl
committed_change db (err e) h = same refl refl

pub perform_change :
    (sdk : PersonaSdk) (env : Env) (a : PersonaAction sdk) (db : Db)
    → PersonaChange db (perform sdk env a db)
unfolding perform
perform_change sdk env (call_edit i request summary) db =
    committed_change db (edit sdk env i request summary db)
      (λ r db' ran. (edit_effect sdk env db db' request summary r i ran).0)
perform_change sdk env (call_rename i name) db =
    committed_change db (rename sdk env i name db)
      (λ r db' ran. rename_change sdk env db db' i name r ran)
perform_change sdk env (call_restore_chapter i g summary owner) db =
    committed_change db (restore_chapter sdk env i g summary owner db)
      (λ r db' ran. restore_chapter_change sdk env db db' i g summary owner r ran)
perform_change sdk env (call_reset_to_origin owner i) db =
    committed_change db (reset_to_origin sdk env owner i db)
      (λ r db' ran. reset_to_origin_change sdk env db db' owner i r ran)
perform_change sdk env (call_create_genome a) db =
    committed_change db (create_genome sdk env a db)
      (λ r db' ran. create_genome_change sdk env db db' a r ran)
perform_change sdk env (call_record_observation observation) db =
    committed_change db (record_observation env observation db)
      (λ r db' ran. record_observation_change sdk env db db' observation r ran)
perform_change sdk env (call_create_evolution_proposal proposal) db =
    committed_change db (create_evolution_proposal sdk env proposal db)
      (λ r db' ran. create_evolution_proposal_change sdk env db db' proposal r ran)
perform_change sdk env (call_approve_evolution i owner g expected) db =
    committed_change db (approve_evolution sdk env i owner g expected db)
      (λ r db' ran. approve_evolution_change sdk env db db' i owner g expected r ran)
perform_change sdk env (call_reject_evolution owner g i reason) db =
    committed_change db (reject_evolution env owner g i reason db)
      (λ r db' ran. reject_evolution_change sdk env db db' owner g i reason r ran)

-- A property that every change keeps is kept by any sequence of calls.
pub always_keeps :
    (sdk : PersonaSdk) (P : Db → Type 0)
    (keep : (db db' : Db) → PersonaChange db db' → P db → P db')
    (actions : List (Env × PersonaAction sdk)) (db : Db)
    → P db
    → P (perform_all sdk actions db)
unfolding perform_all
always_keeps sdk P keep [] db h = h
always_keeps sdk P keep ((env, a) ∷ actions) db h =
    always_keeps sdk P keep actions (perform sdk env a db)
      (keep db (perform sdk env a db) (perform_change sdk env a db) h)
