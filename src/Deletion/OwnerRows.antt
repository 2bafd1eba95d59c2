-- ===== src/Deletion/OwnerRows.antt =====
-- What the DELETE of an Owner leaves of the tables.
use eidolon_data.Prelude.{
  String, ◌≡◌, refl, inl, inr, Bool, true, false, Option, none, some, List, [], ◌∷◌, map, arith,
  ◌==◌, ==-refl, ==→≡, Bool-cases, Option-cases, All, select_where, delete_where, exists_where, mem,
  exists_where_imp, exists_where-delete_where, missing-delete_where, exists_where-map, string_eq,
  option_eq, nat_eq,
}
use eidolon_data.Schema.{Db, OwnerRow, CompanionRow, TeamRow, TeamRevisionRow, TeamStartRow}
use eidolon_data.Teams.Tables.{is_team, is_revision}
use eidolon_data.Deletion.Cascades.{
  is_companion_in, is_genome_in, is_face_in, is_binding_in, clear_default, clear_genome, clear_base,
  clear_realm, genomes_in, delete_companion_rows, has_owner_id, is_companion_of, is_realm_of,
  is_profile_of, is_team_of, companions_of, realms_of, profiles_of, delete_owned_rows,
}

abbrev pub names_one_of : List String → Option String → Bool
names_one_of ids none = false
names_one_of ids (some key) = mem key ids

-- No row of a table but the audit outbox has `o` as its Owner, one of `ids` as its Companion or its
-- default Companion, or one of `profiles` as its profile.
abbrev pub IsOwnerGone : String → List String → List String → Db → Type 0
IsOwnerGone o ids profiles db =
    (exists_where (has_owner_id o) db.owners ≡ false)
    × (exists_where (λ w. names_one_of ids w.default_companion_id) db.owners ≡ false)
    × (exists_where (is_companion_of o) db.companions ≡ false)
    × (exists_where (is_companion_in ids) db.companions ≡ false)
    × (exists_where (is_genome_in ids) db.persona_genomes ≡ false)
    × (exists_where (λ a. a.owner_id == o) db.companion_face_assets ≡ false)
    × (exists_where (is_face_in ids) db.companion_face_assets ≡ false)
    × (exists_where (λ b. b.owner_id == o) db.guard_bindings ≡ false)
    × (exists_where (is_binding_in ids) db.guard_bindings ≡ false)
    × (exists_where (is_realm_of o) db.memory_realms ≡ false)
    × (exists_where (is_profile_of o) db.owner_face_profile_revisions ≡ false)
    × (exists_where (λ r. mem r.profile_revision_id profiles) db.owner_face_references ≡ false)
    × (exists_where (λ p. p.owner_id == o) db.persons ≡ false)
    × (exists_where (λ p. p.owner_id == o) db.person_face_profiles ≡ false)
    × (exists_where (is_team_of o) db.teams ≡ false)
    × (exists_where (λ r. r.owner_id == o) db.team_revisions ≡ false)
    × (exists_where (λ s. s.owner_id == o) db.team_starts ≡ false)

-- The foreign keys of the team tables: a revision has its team, and a start its revision.
abbrev pub HasTeamKeys : Db → Type 0
HasTeamKeys db =
    All (λ r. exists_where (is_team r.owner_id r.team_id) db.teams ≡ true) db.team_revisions
    × All (λ s. exists_where (is_revision s.owner_id s.team_id s.revision) db.team_revisions ≡ true)
        db.team_starts

module _ (o : String) where
  -- the Owner's Companions are deleted by their ids
  unlisted_companion :
      (ids : List String) (rows : List CompanionRow)
      → ((k : String)
          → mem k (map (λ c. c.companion_id) (select_where (is_companion_of o) rows)) ≡ true
          → mem k ids ≡ true)
      → exists_where (is_companion_of o) (delete_where (is_companion_in ids) rows) ≡ false
  unlisted_companion ids [] h = refl
  unlisted_companion ids (c ∷ rows) h = elim (Bool-cases (is_companion_of o c)) [
    | inl owned ↦
        let listed = h c.companion_id (ground (arith, ==-refl c.companion_id)) in
        ground (arith, unlisted_companion ids rows (λ k e. h k (ground arith)))
    | inr other ↦ ground (arith, unlisted_companion ids rows (λ k e. h k (ground arith)))
  ]

  -- without a team there is neither a revision nor a start
  no_revision :
      (teams : List TeamRow) (rows : List TeamRevisionRow)
      → exists_where (is_team_of o) teams ≡ false
      → All (λ r. exists_where (is_team r.owner_id r.team_id) teams ≡ true) rows
      → exists_where (λ r. r.owner_id == o) rows ≡ false
  no_revision teams [] no_team keys = refl
  no_revision teams (r ∷ rows) no_team keys =
      let missing : (r.owner_id == o) ≡ true
          → exists_where (is_team r.owner_id r.team_id) teams ≡ false =
        λ same.
          exists_where_imp (is_team_of o) (is_team r.owner_id r.team_id) teams
            (λ t h. ground (arith, ==→≡ r.owner_id o same)) no_team in
      ground (arith, no_revision teams rows no_team keys.1, missing, keys.0)

  no_start :
      (revisions : List TeamRevisionRow) (rows : List TeamStartRow)
      → exists_where (λ r. r.owner_id == o) revisions ≡ false
      → All (λ s. exists_where (is_revision s.owner_id s.team_id s.revision) revisions ≡ true) rows
      → exists_where (λ s. s.owner_id == o) rows ≡ false
  no_start revisions [] no_row keys = refl
  no_start revisions (s ∷ rows) no_row keys =
      let missing : (s.owner_id == o) ≡ true
          → exists_where (is_revision s.owner_id s.team_id s.revision) revisions ≡ false =
        λ same.
          exists_where_imp (λ r. r.owner_id == o) (is_revision s.owner_id s.team_id s.revision)
            revisions (λ t h. ground (arith, ==→≡ s.owner_id o same)) no_row in
      ground (arith, no_start revisions rows no_row keys.1, missing, keys.0)

  -- a default that is left is no deleted Companion
  clear_default-names_one_of :
      (ids : List String) (w : OwnerRow)
      → names_one_of ids (clear_default ids w).default_companion_id ≡ false
  clear_default-names_one_of ids w = elim (Option-cases w.default_companion_id) [
    | inl absent ↦ ground arith
    | inr (d, e) ↦ elim (Bool-cases (mem d ids)) [
      | inl hit ↦ ground arith
      | inr other ↦ ground arith
    ]
  ]

  no_default_among :
      (ids : List String) (rows : List OwnerRow)
      → exists_where (λ w. names_one_of ids w.default_companion_id) (map (clear_default ids) rows)
        ≡ false
  no_default_among ids [] = refl
  no_default_among ids (w ∷ rows) =
      ground (arith, clear_default-names_one_of ids w, no_default_among ids rows)

  pub IsOwnerGone-delete_owned_rows :
      (s : Db)
      → exists_where (is_team_of o) s.teams ≡ false
      → HasTeamKeys s
      → IsOwnerGone o
          (companions_of o s)
          (profiles_of o s)
          (delete_owned_rows o (delete_companion_rows (companions_of o s) s))
  unfolding delete_owned_rows delete_companion_rows
  IsOwnerGone-delete_owned_rows s no_team keys =
      let ids = companions_of o s in
      let gone = genomes_in ids s in
      let left = delete_where (is_companion_in ids) s.companions in
      let no_saved = no_revision s.teams s.team_revisions no_team keys.0 in
      (
        exists_where-delete_where (has_owner_id o) (map (clear_default ids) s.owners),
        missing-delete_where (λ w. names_one_of ids w.default_companion_id) (has_owner_id o)
            (map (clear_default ids) s.owners) (no_default_among ids s.owners),
        exists_where-map (is_companion_of o) (clear_realm (realms_of o s))
            (map (clear_genome gone) left) (λ c h. h)
            (exists_where-map (is_companion_of o) (clear_genome gone) left (λ c h. h)
              (unlisted_companion ids s.companions (λ k h. h))),
        exists_where-map (is_companion_in ids) (clear_realm (realms_of o s))
            (map (clear_genome gone) left) (λ c h. h)
            (exists_where-map (is_companion_in ids) (clear_genome gone) left (λ c h. h)
              (exists_where-delete_where (is_companion_in ids) s.companions)),
        exists_where-map (is_genome_in ids) (clear_base gone)
            (delete_where (is_genome_in ids) s.persona_genomes) (λ r h. h)
            (exists_where-delete_where (is_genome_in ids) s.persona_genomes),
        exists_where-delete_where (λ a. a.owner_id == o)
            (delete_where (is_face_in ids) s.companion_face_assets),
        missing-delete_where (is_face_in ids) (λ a. a.owner_id == o)
            (delete_where (is_face_in ids) s.companion_face_assets)
            (exists_where-delete_where (is_face_in ids) s.companion_face_assets),
        exists_where-delete_where (λ b. b.owner_id == o)
            (delete_where (is_binding_in ids) s.guard_bindings),
        missing-delete_where (is_binding_in ids) (λ b. b.owner_id == o)
            (delete_where (is_binding_in ids) s.guard_bindings)
            (exists_where-delete_where (is_binding_in ids) s.guard_bindings),
        exists_where-delete_where (is_realm_of o) s.memory_realms,
        exists_where-delete_where (is_profile_of o) s.owner_face_profile_revisions,
        exists_where-delete_where (λ r. mem r.profile_revision_id (profiles_of o s))
            s.owner_face_references,
        exists_where-delete_where (λ p. p.owner_id == o) s.persons,
        exists_where-delete_where (λ p. p.owner_id == o) s.person_face_profiles,
        no_team,
        no_saved,
        no_start s.team_revisions s.team_starts no_saved keys.1,
      )
