-- ===== src/Personas/Edits/Stored.antt =====
-- The receipts of `edit`, and the genome that it restores.
use eidolon_data.Prelude.{
  ℕ, String, Bool, false, not, Option, none, some, [], ◌∷◌, ◌!=◌, Json, num, str, obj, JsonDict,
  dict_get, dict_set, to_fields, of_fields, as_dict, find, pure, gets, or_raise, raise_if, ◌>>=◌,
  ◌>>◌, nat_eq, string_eq, option_eq,
}
use eidolon_data.Schema.{CompanionRow, PersonaGenomeRow, is_committed}
use eidolon_data.Personas.Genomes.{
  not_this_companion, state_not_eligible, conflict, PersonaCall, is_genome,
}

-- What `edit` stores of an operation that it has done.
pub record Receipt : Type 0 where
  pub fingerprint : String
  pub genome_id : String
  pub display_name : String
  pub companion_revision : ℕ
  pub preferences : JsonDict
  pub preference_revision : ℕ

abbrev pub receipt_json : Receipt → Json
receipt_json r = obj (
    to_fields (
      ("fingerprint", str r.fingerprint)
      ∷ ("genome_id", str r.genome_id)
      ∷ ("display_name", str r.display_name)
      ∷ ("companion_revision", num r.companion_revision)
      ∷ ("preferences", obj (to_fields r.preferences))
      ∷ ("preference_revision", num r.preference_revision)
      ∷ []))

-- an entry of a stored receipt, of the kind that is written; `none` where reading it raises
abbrev pub text_of : Option Json → Option String
text_of (some (str s)) = some s
text_of _ = none

abbrev pub number_of : Option Json → Option ℕ
number_of (some (num n)) = some n
number_of _ = none

abbrev pub dict_of : Option Json → Option JsonDict
dict_of (some (obj d)) = some (of_fields d)
dict_of _ = none

-- `dict(metadata.get("persona_operations") or {})`, where it is a dict
abbrev pub receipts_of : JsonDict → Option JsonDict
receipts_of metadata = as_dict (dict_get "persona_operations" metadata)

-- `receipts[operation_id] = …`, written back
abbrev pub set_receipt : String → Receipt → JsonDict → CompanionRow → CompanionRow
set_receipt operation_id done receipts companion = record companion {
  metadata_json =
      dict_set "persona_operations"
        (obj (to_fields (dict_set operation_id (receipt_json done) receipts)))
        companion.metadata_json;
}

-- What the branches on `request.action` leave.
pub record Plan (G : Type 0) : Type 0 where
  pub candidate : G
  pub target : Option PersonaGenomeRow
  pub source : String
  pub summary : String
  pub companion : CompanionRow

abbrev pub moves_to : Option PersonaGenomeRow → PersonaGenomeRow → Bool
moves_to none current = false
moves_to (some target) current = target.genome_id != current.genome_id

-- `target = await session.get(…)` with the two tests that follow
unfoldable pub load_target : String → String → PersonaCall PersonaGenomeRow
load_target companion_id genome_id = do
  found ← gets (λ db. find (is_genome genome_id) db.persona_genomes)
  target ← or_raise found (conflict not_this_companion none)
  raise_if (target.companion_id != companion_id) (conflict not_this_companion none)
  raise_if (not (is_committed target.status)) (conflict state_not_eligible none)
  pure target
