-- ===== src/Inference/Audit/Written.antt =====
-- What `RequestAuditService` (backend/services/inference/usage_finalizer.py) writes to a database that
-- keeps its promises (its sessions are those of SQLAlchemy).
use llm_inference_gpu_server.Common.{
  ⊤, ℕ, String, ◌≡◌, sym, ap, ◌∙◌, ◌⊎◌, inl, inr, Option, none, some,
}
use llm_inference_gpu_server.Common.Dict.{put_at}
use llm_inference_gpu_server.Errors.{Action}
use llm_inference_gpu_server.Errors.Ends.{Ends, Ends-pure, Ends-bind, Ends-then, Ends-weaken}
use llm_inference_gpu_server.Inference.Audit.{AuditStart, AuditFinal}
use llm_inference_gpu_server.Inference.Audit.Row.{
  RequestAuditRecord, audit_record_from_start, finalized,
}
use llm_inference_gpu_server.Inference.Audit.Service.{AuditDatabase, start, finalize, finalize_row}

abbrev pub Rows : Type 0
Rows = String → Option RequestAuditRecord

pub record AuditDatabaseLaws {D : Type 0} (db : AuditDatabase D) : Type 1 where
  pub rows : D → Rows
  -- The identifier is the primary key.
  pub key_law :
      (s : D) (id : String) (row : RequestAuditRecord) → rows s id ≡ some row → row.id ≡ id
  pub find_law :
      (id : String) (s : D)
      → Ends (λ o t. (o ≡ rows s id) × (rows t ≡ rows s)) (λ _ _. ⊤) (db.find id s)
  pub insert_law :
      (row : RequestAuditRecord) (s : D)
      → rows s row.id ≡ none
      → Ends (λ _ t. rows t ≡ put_at row.id (some row) (rows s)) (λ _ _. ⊤) (db.insert row s)
  pub update_law :
      (row old : RequestAuditRecord) (s : D)
      → rows s row.id ≡ some old
      → Ends (λ _ t. rows t ≡ put_at row.id (some row) (rows s)) (λ _ _. ⊤) (db.update row s)
  -- A transaction that returns is committed. One that raises is rolled back, unless the answer to its
  -- commit was lost.
  pub begin_law :
      {A : Type 0} (m : Action D A) (P : A → Rows → Type 0) (s : D)
      → Ends (λ a t. P a (rows t)) (λ _ _. ⊤) (m s)
      → Ends
          (λ a t. P a (rows t))
          (λ _ t. (rows t ≡ rows s) ⊎ ((a : A) × P a (rows t)))
          (db.begin m s)
  -- An identifier that `uuid4` draws is new.
  pub uuid4_law :
      (s : D) → Ends (λ id t. (rows s id ≡ none) × (rows t ≡ rows s)) (λ _ _. ⊤) (db.uuid4 s)
  pub clock_law : (s : D) → Ends (λ _ t. rows t ≡ rows s) (λ _ _. ⊤) (db.utc_now s)

-- A new row at `id`.
abbrev pub Opened : AuditStart → Rows → String → Rows → Type 0
Opened audit before id after =
    (before id ≡ none)
    × ((now : ℕ) × (after ≡ put_at id (some (audit_record_from_start audit id now)) before))

-- The row of `final`, if there is one, has its columns.
abbrev pub Closed : AuditFinal → Rows → Rows → Type 0
Closed final before after =
    ((before final.record_id ≡ none) × (after ≡ before))
    ⊎ ((row : RequestAuditRecord) × ((now : ℕ) × ((before final.record_id ≡ some row)
            × (after ≡ put_at final.record_id (some (finalized final now row)) before))))

module _ {D : Type 0} {db : AuditDatabase D} (laws : AuditDatabaseLaws db) where
  pub start-Opened :
      (audit : AuditStart) (s : D)
      → Ends
          (λ id t. Opened audit (laws.rows s) id (laws.rows t))
          (λ _ t.
            (laws.rows t ≡ laws.rows s)
            ⊎ ((id : String) × Opened audit (laws.rows s) id (laws.rows t)))
          (start db audit s)
  unfolding start audit_record_from_start
  start-Opened audit s = laws.begin_law _ (Opened audit (laws.rows s)) s (
      Ends-bind db.uuid4 _ s (laws.uuid4_law s)
        (λ id t g.
          Ends-bind db.utc_now _ t (laws.clock_law t)
            (λ now u e.
              let row = audit_record_from_start audit id now in
              let same = e ∙ g.1 in
              Ends-then (db.insert row) _ u (laws.insert_law row u (ap (λ r. r id) same ∙ g.0))
                (λ _ v q. Ends-pure id _ _ v (g.0, (now, q ∙ ap (put_at id (some row)) same)))
                (λ _ _ _. tt))
            (λ _ _ _. tt))
        (λ _ _ _. tt))

  finalize_row-Closed :
      (final : AuditFinal) (s t : D) (o : Option RequestAuditRecord)
      → laws.rows s final.record_id ≡ o
      → laws.rows t ≡ laws.rows s
      → Ends
          (λ _ u. Closed final (laws.rows s) (laws.rows u))
          (λ _ _. ⊤)
          (finalize_row db final o t)
  unfolding finalize_row finalized
  finalize_row-Closed final s t none h e = Ends-pure tt _ _ t (inl (h, e))
  finalize_row-Closed final s t (some row) h e =
      Ends-bind db.utc_now _ t (laws.clock_law t)
        (λ now u q.
          let same = q ∙ e in
          let key = laws.key_law s final.record_id row h in
          Ends-weaken _
            (laws.update_law (finalized final now row) row u
              (ap (λ r. r row.id) same ∙ ap (laws.rows s) key ∙ h))
            (λ _ v p. inr (
              row,
              (
                now,
                (
                  h,
                  p
                      ∙ ap (put_at row.id (some (finalized final now row))) same
                      ∙ ap (λ id. put_at id (some (finalized final now row)) (laws.rows s)) key,
                ),
              ),
            ))
            (λ _ _ _. tt))
        (λ _ _ _. tt)

  pub finalize-Closed :
      (final : AuditFinal) (s : D)
      → Ends
          (λ _ t. Closed final (laws.rows s) (laws.rows t))
          (λ _ t. (laws.rows t ≡ laws.rows s) ⊎ Closed final (laws.rows s) (laws.rows t))
          (finalize db final s)
  unfolding finalize
  finalize-Closed final s =
      Ends-weaken _
        (laws.begin_law _ (λ _ rows. Closed final (laws.rows s) rows) s
          (Ends-bind (db.find final.record_id) _ s (laws.find_law final.record_id s)
            (λ o t g. finalize_row-Closed final s t o (sym g.0) g.1) (λ _ _ _. tt)))
        (λ _ _ g. g) (λ _ t g. elim g [ inl e ↦ inl e | inr (_, q) ↦ inr q ])
