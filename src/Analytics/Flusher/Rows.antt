-- ===== src/Analytics/Flusher/Rows.antt =====
-- Every event of a batch has its row in the group of its table, and the rows fit the columns
-- (backend/services/analytics/clickhouse_flusher.py).
use llm_inference_gpu_server.Common.{
  ⊤, ◌≡◌, refl, inl, inr, true, List, [], ◌∷◌, ◌++◌, length, Bool-cases,
}
use llm_inference_gpu_server.Analytics.Event.{
  AnalyticsTable, usage_events, inference_events, AnalyticsEvent, table, to_row, columns_for_table,
  length-to_row,
}
use llm_inference_gpu_server.Analytics.Flusher.{Row, Grouped, same_table, add_row, group}

pub data In {A : Type 0} (a : A) : List A → Type 0 where
  here : {xs : List A} → In a (a ∷ xs)
  later : {b : A} {xs : List A} → In a xs → In a (b ∷ xs)

pub In-left : {A : Type 0} {a : A} {xs : List A} (ys : List A) → In a xs → In a (xs ++ ys)
In-left ys here = here
In-left ys (later h) = later (In-left ys h)

pub In-right : {A : Type 0} {a : A} {ys : List A} (xs : List A) → In a ys → In a (xs ++ ys)
In-right [] h = h
In-right (x ∷ xs) h = later (In-right xs h)

In-end : {A : Type 0} (a : A) (xs : List A) → In a (xs ++ a ∷ [])
In-end a [] = here
In-end a (x ∷ xs) = later (In-end a xs)

-- The row is in the group of the table.
pub data InGroups (t : AnalyticsTable) (row : Row) : Grouped → Type 0 where
  here_group : {rows : List Row} {g : Grouped} → In row rows → InGroups t row ((t, rows) ∷ g)
  later_group :
      {u : AnalyticsTable} {rows : List Row} {g : Grouped}
      → InGroups t row g
      → InGroups t row ((u, rows) ∷ g)

same_table_eq : (t u : AnalyticsTable) → same_table t u ≡ true → t ≡ u
same_table_eq usage_events usage_events h = refl
same_table_eq inference_events inference_events h = refl
same_table_eq usage_events inference_events h = absurd (cc)
same_table_eq inference_events usage_events h = absurd (cc)

add_row-InGroups : (g : Grouped) (t : AnalyticsTable) (row : Row) → InGroups t row (add_row g t row)
unfolding add_row
add_row-InGroups [] t row = here_group here
add_row-InGroups ((u, rows) ∷ g) t row = elim (Bool-cases (same_table u t)) [
  | inl h ↦ rw (h, same_table_eq u t h) (here_group (In-end row rows))
  | inr h ↦ rw h (later_group (add_row-InGroups g t row))
]

add_row_keeps :
    (g : Grouped) (t u : AnalyticsTable) (row old : Row)
    → InGroups u old g
    → InGroups u old (add_row g t row)
unfolding add_row
add_row_keeps [] t u row old h = elim h [ ]
add_row_keeps ((v, rows) ∷ g) t u row old (here_group h) = elim (Bool-cases (same_table v t)) [
  | inl e ↦ rw e (here_group (In-left (row ∷ []) h))
  | inr e ↦ rw e (here_group h)
]
add_row_keeps ((v, rows) ∷ g) t u row old (later_group h) = elim (Bool-cases (same_table v t)) [
  | inl e ↦ rw e (later_group h)
  | inr e ↦ rw e (later_group (add_row_keeps g t u row old h))
]

group_keeps :
    (g : Grouped) (events : List AnalyticsEvent) (u : AnalyticsTable) (old : Row)
    → InGroups u old g
    → InGroups u old (group g events)
unfolding group
group_keeps g [] u old h = h
group_keeps g (e ∷ events) u old h =
    group_keeps (add_row g (table e) (to_row e)) events u old
      (add_row_keeps g (table e) u (to_row e) old h)

pub group-InGroups :
    (g : Grouped) (events : List AnalyticsEvent) (e : AnalyticsEvent)
    → In e events
    → InGroups (table e) (to_row e) (group g events)
unfolding group
group-InGroups g [] e h = elim h [ ]
group-InGroups g (e ∷ events) _ here =
    group_keeps (add_row g (table e) (to_row e)) events (table e) (to_row e)
      (add_row-InGroups g (table e) (to_row e))
group-InGroups g (d ∷ events) e (later h) =
    group-InGroups (add_row g (table d) (to_row d)) events e h

-- As many cells as columns.
abbrev pub Fits : AnalyticsTable → List Row → Type 0
Fits t [] = ⊤
Fits t (row ∷ rows) = (length row ≡ length (columns_for_table t)) × Fits t rows

abbrev pub AllFit : Grouped → Type 0
AllFit [] = ⊤
AllFit ((t, rows) ∷ g) = Fits t rows × AllFit g

Fits-end :
    (t : AnalyticsTable) (rows : List Row) (row : Row)
    → Fits t rows
    → length row ≡ length (columns_for_table t)
    → Fits t (rows ++ row ∷ [])
Fits-end t [] row h k = (k, tt)
Fits-end t (r ∷ rows) row h k = (h.0, Fits-end t rows row h.1 k)

add_row-AllFit :
    (g : Grouped) (t : AnalyticsTable) (row : Row)
    → AllFit g
    → length row ≡ length (columns_for_table t)
    → AllFit (add_row g t row)
unfolding add_row
add_row-AllFit [] t row h k = ((k, tt), tt)
add_row-AllFit ((u, rows) ∷ g) t row h k = elim (Bool-cases (same_table u t)) [
  | inl e ↦ rw e (Fits-end u rows row h.0 (rw (same_table_eq u t e) k), h.1)
  | inr e ↦ rw e (h.0, add_row-AllFit g t row h.1 k)
]

pub group-AllFit : (g : Grouped) (events : List AnalyticsEvent) → AllFit g → AllFit (group g events)
unfolding group
group-AllFit g [] h = h
group-AllFit g (e ∷ events) h =
    group-AllFit (add_row g (table e) (to_row e)) events
      (add_row-AllFit g (table e) (to_row e) h (length-to_row e))
