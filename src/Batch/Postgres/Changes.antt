-- ===== src/Batch/Postgres/Changes.antt =====
-- A transaction that changes one job, as its owner sees it
-- (backend/services/batch/batch_service.py).
use mathlib.Core.Option
use llm_inference_gpu_server.Common.{
  ⊤, String, ◌≡◌, sym, ap, ◌∙◌, Bool, true, false, Option, none, some, inl, inr, Bool-cases,
}
use llm_inference_gpu_server.Errors.{Action}
use llm_inference_gpu_server.Errors.Ends.{Ends, Ends-pure, Ends-bind, Ends-weaken}
use llm_inference_gpu_server.Batch.Job.{BatchJobRecord}
use llm_inference_gpu_server.Batch.Contract.{JobView, Jobs, view, applied, changed, Changes}
use llm_inference_gpu_server.Batch.Postgres.Row.{BatchJob}
use llm_inference_gpu_server.Batch.Postgres.Repository.{Database}
use llm_inference_gpu_server.Batch.Postgres.Store.{on_row, change_row}
use llm_inference_gpu_server.Batch.Postgres.Laws.{DatabaseLaws}
use llm_inference_gpu_server.Batch.Postgres.Seen.{
  row_view, seen, seen-put_at, changed-none, changed-some,
}
use llm_inference_gpu_server.Batch.Postgres.Writes.{Writes}

module _ {D : Type 0} {db : Database D} (laws : DatabaseLaws db) where
  abbrev pub jobs_of : D → Jobs
  jobs_of s = seen (laws.rows s)

  -- What a change comes to, on the rows.
  abbrev pub Changed :
      String
      → (JobView → Option JobView)
      → (String → Option BatchJob)
      → Option BatchJobRecord
      → (String → Option BatchJob)
      → Type 0
  Changed id f before r after =
      (Option.map view r ≡ applied f (seen before id)) × (seen after ≡ changed id f (seen before))

  on_row-Changed :
      (id : String) (f : JobView → Option JobView) (refused : BatchJob → Bool)
      (write : BatchJob → Action D BatchJob) (rows : String → Option BatchJob)
      → ((row : BatchJob) → refused row ≡ true → f (row_view row) ≡ none)
      → ((row : BatchJob) → refused row ≡ false → Writes laws f write row)
      → (o : Option BatchJob) (s : D) → laws.rows s ≡ rows
      → rows id ≡ o
      → Ends (λ r t. Changed id f rows r (laws.rows t)) (λ _ _. ⊤) (on_row db refused write o s)
  unfolding on_row
  on_row-Changed id f refused write rows refuses writes none s e h =
      let seen_none = ap (λ o. applied f (Option.map row_view o)) h in
      Ends-pure none _ _ s
        (sym seen_none, ap seen e ∙ sym (changed-none id f (seen rows) seen_none))
  on_row-Changed id f refused write rows refuses writes (some row) s e h =
      elim (Bool-cases (refused row)) [
        | inl b ↦ simp b (
            let seen_none = ap (λ o. applied f (Option.map row_view o)) h ∙ refuses row b in
            Ends-pure none _ _ s
              (sym seen_none, ap seen e ∙ sym (changed-none id f (seen rows) seen_none)))
        | inr b ↦ simp b (
            Ends-bind (write row) _ s (writes row b id rows s e h)
              (λ r t g.
                let seen_some = ap (λ o. applied f (Option.map row_view o)) h ∙ g.0 in
                Ends-pure _ _ _ t (
                  sym seen_some,
                  ap seen g.1
                      ∙ seen-put_at id r rows
                      ∙ sym (changed-some id f (seen rows) (row_view r) seen_some),
                ))
              (λ _ _ _. tt))
      ]

  pub change_row-Changes :
      (id : String) (f : JobView → Option JobView) (refused : BatchJob → Bool)
      (write : BatchJob → Action D BatchJob) (s : D)
      → ((row : BatchJob) → refused row ≡ true → f (row_view row) ≡ none)
      → ((row : BatchJob) → refused row ≡ false → Writes laws f write row)
      → Changes jobs_of id f (change_row db refused write id) s
  unfolding change_row
  change_row-Changes id f refused write s refuses writes =
      Ends-weaken _
        (laws.begin_law _ (Changed id f (laws.rows s)) s (
          Ends-bind (db.find id) _ s (laws.find_law id s)
            (λ o t g.
              on_row-Changed id f refused write (laws.rows s) refuses writes o t g.1 (sym g.0))
            (λ _ _ _. tt)))
        (λ r t g. g) (λ x t g. elim g [ inl e ↦ inr (ap seen e) | inr (r, q) ↦ inl q.1 ])
