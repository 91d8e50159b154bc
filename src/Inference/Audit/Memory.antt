-- ===== src/Inference/Audit/Memory.antt =====
-- A table of audits in memory, which draws the number of the rows as an identifier and raises where it
-- is taken: what the laws of the database ask for can be had. A row that is written hides those of its
-- identifier before it.
use llm_inference_gpu_server.Common.{
  ⊤, String, ◌≡◌, refl, sym, ap, ◌∙◌, Option, none, some, List, [], ◌∷◌, ◌⊎◌, inl, inr,
  if◌then◌else◌, str_eq, eq_iff, Bool-cases, some_of, length,
}
use llm_inference_gpu_server.Text.{decimal}
use llm_inference_gpu_server.Errors.{Result, other, ok, raise}
use llm_inference_gpu_server.Errors.Ends.{Ends}
use llm_inference_gpu_server.Inference.Audit.Row.{RequestAuditRecord}
use llm_inference_gpu_server.Inference.Audit.Service.{AuditDatabase}
use llm_inference_gpu_server.Inference.Audit.Written.{Rows, AuditDatabaseLaws}

abbrev pub AuditTable : Type 0
AuditTable = List RequestAuditRecord

abbrev pub row_at : AuditTable → Rows
row_at [] id = none
row_at (row ∷ table) id = let rest = row_at table id in if str_eq id row.id then some row else rest

abbrev pub undo : {A : Type 0} → AuditTable → Result A × AuditTable → Result A × AuditTable
undo before (ok a, t) = (ok a, t)
undo before (raise e, t) = (raise e, before)

abbrev pub drawn : String → Option RequestAuditRecord → AuditTable → Result String × AuditTable
drawn id none t = (ok id, t)
drawn id (some row) t = (raise (other none "taken"), t)

abbrev pub memory_audits : AuditDatabase AuditTable
memory_audits = record {
  find = λ id t. (ok (row_at t id), t);
  insert = λ row t. (ok tt, row ∷ t);
  update = λ row t. (ok tt, row ∷ t);
  begin = λ m t. undo t (m t);
  uuid4 = λ t. let id = decimal (length t) in drawn id (row_at t id) t;
  utc_now = λ t. (ok 7, t);
}

pub row_at-key :
    (t : AuditTable) (id : String) (row : RequestAuditRecord) → row_at t id ≡ some row → row.id ≡ id
row_at-key [] id row h = absurd (cc)
row_at-key (first ∷ t) id row h = elim (Bool-cases (str_eq id first.id)) [
  | inl e ↦
      sym (ap (λ (r : RequestAuditRecord). r.id) (some_of (rw e at h)))
      ∙ sym ((eq_iff id first.id).0 e)
  | inr e ↦ row_at-key t id row (rw e at h)
]

pub undo-Ends :
    {A : Type 0} (P : A → Rows → Type 0) (s : AuditTable) (x : Result A × AuditTable)
    → Ends (λ a t. P a (row_at t)) (λ _ _. ⊤) x
    → Ends
        (λ a t. P a (row_at t))
        (λ _ t. (row_at t ≡ row_at s) ⊎ ((a : A) × P a (row_at t)))
        (undo s x)
undo-Ends P s (ok a, t) h = record { holds = h.holds }
undo-Ends P s (raise e, t) h = record { holds = inl refl }

pub drawn-Ends :
    (id : String) (s : AuditTable) (o : Option RequestAuditRecord)
    → row_at s id ≡ o
    → Ends (λ j t. (row_at s j ≡ none) × (row_at t ≡ row_at s)) (λ _ _. ⊤) (drawn id o s)
drawn-Ends id s none h = record { holds = (h, refl) }
drawn-Ends id s (some row) h = record { holds = tt }

abbrev pub memory_audits_laws : AuditDatabaseLaws memory_audits
memory_audits_laws = record {
  rows = row_at;
  key_law = row_at-key;
  find_law = λ id s. record { holds = (refl, refl) };
  insert_law = λ row s h. record { holds = refl };
  update_law = λ row old s h. record { holds = refl };
  begin_law = λ m P s h. undo-Ends P s (m s) h;
  uuid4_law = λ s. let id = decimal (length s) in drawn-Ends id s (row_at s id) refl;
  clock_law = λ s. record { holds = refl };
}
