-- ===== src/Inference/Audit/Own.antt =====
-- The audit of one request among those of others
-- (backend/services/inference/usage_finalizer.py).
use mathlib.Core.Option
use llm_inference_gpu_server.Common.{
  ⊤, String, ◌≡◌, ◌≢◌, sym, ap, ◌∙◌, inl, inr, Option, none, some, List, [], ◌∷◌, some_of,
}
use llm_inference_gpu_server.Common.Int.{ℤ}
use llm_inference_gpu_server.Common.Dict.{put_at_self, put_at_other}
use llm_inference_gpu_server.Errors.{Action, pure, ◌>>=◌, ◌>>◌, try_except}
use llm_inference_gpu_server.Errors.Ends.{
  Ends, Ends-pure, Ends-bind, Ends-then, Ends-try_except, Ends-weaken,
}
use llm_inference_gpu_server.Inference.Tokens.{UsageRecord}
use llm_inference_gpu_server.Inference.Audit.{AuditStart, AuditFinal, build_audit_final}
use llm_inference_gpu_server.Inference.Audit.Row.{
  RequestAuditRecord, Entry, entry_of, finalized, entry_of-audit_record_from_start,
  entry_of-finalized,
}
use llm_inference_gpu_server.Inference.Audit.Service.{AuditDatabase, start, finalize}
use llm_inference_gpu_server.Inference.Audit.Written.{
  Rows, AuditDatabaseLaws, Opened, Closed, start-Opened, finalize-Closed,
}

-- What another request does: its own start or its own end.
pub data Call : Type 0 where
  start_call : AuditStart → Call
  finalize_call : AuditFinal → Call

-- None of the calls ends the record `id`.
abbrev pub Elsewhere : String → List Call → Type 0
Elsewhere id [] = ⊤
Elsewhere id (start_call audit ∷ calls) = Elsewhere id calls
Elsewhere id (finalize_call final ∷ calls) = (id ≢ final.record_id) × Elsewhere id calls

abbrev pub entry_at : Rows → String → Option Entry
entry_at rows id = Option.map entry_of (rows id)

module _ {D : Type 0} (db : AuditDatabase D) where
  -- A call that fails, fails for its own request.
  abbrev pub call : Call → Action D ⊤
  call (start_call audit) = try_except (start db audit >> pure tt) (λ _. pure tt)
  call (finalize_call final) = try_except (finalize db final) (λ _. pure tt)

  abbrev pub call_all : List Call → Action D ⊤
  call_all [] = pure tt
  call_all (c ∷ cs) = call c >> call_all cs

  -- A request from its start to its end, with the calls of others in between.
  abbrev pub audited :
      AuditStart → (String → List Call) → UsageRecord → Option ℤ → Option String → Action D String
  audited audit others usage latency_ms error_code = start db audit >>= λ id.
      call_all (others id)
      >> finalize db (build_audit_final id usage latency_ms error_code)
      >> pure id

-- A row at `id` stays as it is where another is opened or closed.
Opened-stays :
    (audit : AuditStart) (id j : String) (row : RequestAuditRecord) (before after : Rows)
    → before id ≡ some row
    → Opened audit before j after
    → after id ≡ some row
Opened-stays audit id j row before after h (fresh, (now, e)) =
    ap (λ r. r id) e ∙ put_at_other j id _ before (λ p. absurd (cc)) ∙ h

Closed-stays :
    (final : AuditFinal) (id : String) (row : RequestAuditRecord) (before after : Rows)
    → before id ≡ some row
    → id ≢ final.record_id
    → Closed final before after
    → after id ≡ some row
Closed-stays final id row before after h n (inl (_, e)) = ap (λ r. r id) e ∙ h
Closed-stays final id row before after h n (inr (_, (now, (_, e)))) =
    ap (λ r. r id) e ∙ put_at_other final.record_id id _ before n ∙ h

module _ {D : Type 0} {db : AuditDatabase D} (laws : AuditDatabaseLaws db) where
  call_all-stays :
      (id : String) (row : RequestAuditRecord) (calls : List Call) (s : D)
      → laws.rows s id ≡ some row
      → Elsewhere id calls
      → Ends (λ _ t. laws.rows t id ≡ some row) (λ _ _. ⊤) (call_all db calls s)
  call_all-stays id row [] s h k = Ends-pure tt _ _ s h
  call_all-stays id row (start_call audit ∷ calls) s h k =
      Ends-then _ _ s
        (Ends-try_except {R' = λ _ _. ⊤} _ _ s
          (Ends-then (start db audit) _ s (start-Opened laws audit s)
            (λ j t g. Ends-pure tt _ _ t (Opened-stays audit id j row _ _ h g))
            (λ _ t g. elim g [
              | inl e ↦ ap (λ r. r id) e ∙ h
              | inr (j, q) ↦ Opened-stays audit id j row _ _ h q
            ]))
          (λ _ t g. Ends-pure tt _ _ t g))
        (λ _ t g. call_all-stays id row calls t g k) (λ _ _ _. tt)
  call_all-stays id row (finalize_call final ∷ calls) s h (n, k) =
      Ends-then _ _ s
        (Ends-try_except {R' = λ _ _. ⊤} _ _ s
          (Ends-weaken _ (finalize-Closed laws final s)
            (λ _ t g. Closed-stays final id row _ _ h n g)
            (λ _ t g. elim g [
              | inl e ↦ ap (λ r. r id) e ∙ h
              | inr q ↦ Closed-stays final id row _ _ h n q
            ]))
          (λ _ t g. Ends-pure tt _ _ t g))
        (λ _ t g. call_all-stays id row calls t g k) (λ _ _ _. tt)

  -- A row that is there and is closed reads as it did, with its end.
  Closed-entry :
      (final : AuditFinal) (s : D) (row : RequestAuditRecord) (after : Rows)
      → laws.rows s final.record_id ≡ some row
      → Closed final (laws.rows s) after
      → entry_at after final.record_id ≡ some (record (entry_of row) { final = some final })
  Closed-entry final s row after h (inl (e, _)) = absurd (cc)
  Closed-entry final s row after h (inr (row', (now, (h', e)))) =
      let key = laws.key_law s final.record_id row h in
      let same = some_of (sym h' ∙ h) in
      ap (λ (r : Rows). Option.map entry_of (r final.record_id)) e
      ∙ ap (Option.map entry_of) (put_at_self final.record_id _ (laws.rows s))
      ∙ ap (λ r. some (entry_of (finalized final now r))) same
      ∙ ap some (entry_of-finalized final now row key)

  -- Whatever calls other requests make between the start of the audit of a request and its end, and
  -- whichever of them fail, a request whose two calls return has left one record, under an identifier
  -- that named none before: it names the user, the project, the key, the model and the prompt of its
  -- own start, and the status, the tokens, the time and the error of its own end. The others do not
  -- end that record.
  pub audited-Own :
      (audit : AuditStart) (others : String → List Call) (usage : UsageRecord)
      (latency_ms : Option ℤ) (error_code : Option String) (s : D)
      → ((id : String) → laws.rows s id ≡ none → Elsewhere id (others id))
      → Ends
          (λ id t.
            (laws.rows s id ≡ none)
            × (entry_at (laws.rows t) id
                ≡ some (record {
                  record_id = id;
                  start = audit;
                  final = some (build_audit_final id usage latency_ms error_code);
                })))
          (λ _ _. ⊤)
          (audited db audit others usage latency_ms error_code s)
  unfolding build_audit_final
  audited-Own audit others usage latency_ms error_code s elsewhere =
      Ends-bind (start db audit) _ s (start-Opened laws audit s)
        (λ id t (fresh, (now, e)).
          Ends-then _ _ t
            (Ends-then (call_all db (others id)) _ t
              (call_all-stays id _ (others id) t (ap (λ r. r id) e ∙ put_at_self id _ (laws.rows s))
                (elsewhere id fresh))
              (λ _ u h.
                let final = build_audit_final id usage latency_ms error_code in
                Ends-weaken _ (finalize-Closed laws final u)
                  (λ _ v g.
                    Closed-entry final u _ _ h g
                    ∙ ap (λ (r : Entry). some (record r { final = some final }))
                        (entry_of-audit_record_from_start audit id now))
                  (λ _ _ _. tt))
              (λ _ _ _. tt))
            (λ _ v entry. Ends-pure id _ _ v (fresh, entry)) (λ _ _ _. tt))
        (λ _ _ _. tt)
