-- ===== src/Lib.antt =====
-- Verification of eidolon_data, the System Data authority of Eidolon OS.
--
-- The program keeps sovereign identity and governed configuration in one SQL database. Its services
-- and repositories each run a transaction over the tables and raise on what they refuse; the facts
-- that they record go to an audit outbox in the same transaction, from where a loop sends them to a
-- message bus and deletes what is older than the retention. Everything below stands under
-- eidolon_data/ of the repository.
--
-- Parts and files:
--   Schema       schema/core.py, schema/guard.py, schema/teams.py, schema/assets.py,
--                schema/persons.py, schema/person_faces.py and schema/audit.py: a row is a record, a
--                table a list of rows in the order of insertion, the database `Db` a record of
--                tables. A column with a CHECK of its values is a data type.
--   Audit        audit/outbox.py (`Audit.Outbox`, with `build_row` in `Audit.Row`), audit/facts.py
--                (`governance_fact` in `Audit.Row`, its insertion in `Audit.Facts`),
--                audit/dispatcher.py (`Audit.Dispatcher`) and audit/runner.py (`Audit.Runner`).
--                Proofs: Backoff, Delivery, History, Retention, Kept and Rounds.
--   Guard        repositories/guard_bindings.py: `Guard.OpaqueId` is the regular expression,
--                `Guard.Bindings` the repository. Proofs: Effects (what each call does to the
--                tables), Calls (sequences of calls), Exclusive, Lifecycle and Policy.
--   Teams        services/teams.py: `Teams.Tables` and `Teams.Assets` are `save`, `get`, `list` and
--                `delete`; `Teams.Starts` is `reserve_start`, `confirm_closed` and
--                `start_snapshot`; `Teams.StartPages` is `starts_page` and `starts`. Proofs:
--                Effects, StartEffects, Calls, Lasting, Replay, Holding, Exclusion, Reached,
--                Keys, Runs, Reading.
--   Faces        repositories/companion_face_assets.py (`Faces.Assets`) and
--                repositories/owner_face_profiles.py (`Faces.Profiles`, its `clear` as
--                `clear_profile`, and `Faces.References`), with the checks of stored files that
--                they share in `Faces.StoredFile`. Proofs: Current, OneActive and Desired.
--   Personas     services/persona_service.py and repositories/persona.py: `Personas.Genomes` is the
--                module-level helpers, `Personas.Edits` is `edit` and `read_edit_snapshot`,
--                `Personas.Restores` is `rename`, `restore_chapter`, `rollback_to_genome` and
--                `reset_to_origin`, `Personas.Evolution` the other commands. `Personas.Changes` says
--                what a command may do to the tables, and EditEffects, Receipts, EditChange,
--                Commands and Decisions that each does one of these. Proofs over sequences of calls:
--                Calls, Decided, Pointers, Current, Replay, Locks, Approvals and Walk.
--   Deletion     services/companion.py (`Deletion.Companions`) and services/owner_deletion.py
--                (`Deletion.Owners`), with what the foreign keys do on a DELETE in
--                `Deletion.Cascades`. Proofs: Remains, OwnerRows, OwnerGone and
--                Pointers.
--   Photos       services/person_faces.py: `Photos.Images` is `normalize_image`, `Photos.Faces` the
--                class `PersonFaces`, with `_owner` and `_person` of services/persons.py, over the
--                database and the files of services/object_storage.py (`Photos.Storage`). Proofs:
--                Effects, Undo and Kept.
--   Directory    repositories/owners.py (`Directory.Owners`), repositories/companions.py
--                (`Directory.Companions`), repositories/memory.py (`Directory.Realms`) and
--                services/persona_access.py (`Directory.Access`).
--   Prelude      tests, lists, SQL statements over lists, transactions, and their lemmas.
--   Tests        runs of the definitions, and every theorem applied at concrete data.
--
-- How the code is read:
--   * `async with session.begin()` is `Prelude.Transaction`: a function from the tables to an error
--     or a result with new tables. A raise rolls back, so an error comes without tables. The
--     database runs writing transactions one after another, so what several processes do at once
--     is a list of calls, each whole: `GuardCall`, `Action`, `FaceAction`, `OutboxCall` and
--     `PersonaAction`, each with its `perform_all`.
--   * SELECT, UPDATE, DELETE and `rowcount` are `find`, `select_where`, `update_where`,
--     `delete_where` and `count_where`. A unique index or a foreign key is a test before the
--     insertion; its failure is the IntegrityError, or what the source turns it into.
--   * The clock, `uuid4` and the ids that the database gives to outbox rows are the record `Env`, an
--     argument. Times and durations are microseconds.
--   * What the source takes from eidolon_sdk is an argument: the transport (`Publisher`), the team
--     data classes (`TeamSdk`), the limits of a face profile (`GuardLimits`), the genomes,
--     authorings and preferences of a persona (`PersonaSdk`), of PIL, base64 and hashlib the
--     functions on images (`ImageSdk`), and of the file system whether a put or a delete raises
--     (`Disk`). Of `TeamSdk` the proofs use that a model equals itself alone and that a dumped
--     model is read back, of `PersonaSdk` that dumped preferences are read back. Tests has an
--     instance of each.
--   * Loops are recursion over a list: the rounds of the runner over the readings of its clocks,
--     the pages of a client over a number of requests that the theorem shows to be enough. The
--     loop of `reset_to_origin` is recursion on one round more than there are genomes, which is
--     enough.
--
-- Not modelled: the presets of personas, the workspace, persons (but for the checks that their photos
-- use), voiceprints and the smart home; HTTP routes, settings, migrations, file storage and logging, which
-- are glue around other software.
pub mod Prelude
pub mod Schema
pub mod Audit
pub mod Guard
pub mod Teams
pub mod Faces
pub mod Personas
pub mod Deletion
pub mod Photos
pub mod Directory
mod Tests
