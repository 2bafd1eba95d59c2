-- ===== src/Audit/Facts.antt =====
-- `session.add(governance_fact(…))` in a transaction over the whole database.
use eidolon_data.Prelude.{
  Bool, ◌||◌, [], ◌∷◌, ◌++◌, ◌==◌, exists_where, Tx, gets, raise_if, modify, ◌>>=◌, ◌>>◌, nat_eq,
  string_eq,
}
use eidolon_data.Schema.{Db, AuditOutboxRow}

abbrev pub clashes_with : AuditOutboxRow → AuditOutboxRow → Bool
clashes_with fact row = row.outbox_id == fact.outbox_id || row.event_id == fact.event_id

-- The row is stored when the session is flushed; `integrity` is what the caller makes of the
-- IntegrityError if its id is taken.
unfoldable pub add_fact : {E : Type 0} → E → AuditOutboxRow → Tx Db E (Unit {0})
add_fact integrity fact = do
  raise_if (← gets (λ db. exists_where (clashes_with fact) db.audit_outbox)) integrity
  modify (λ db. record db { audit_outbox = db.audit_outbox ++ fact ∷ [] })
