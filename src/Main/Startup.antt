-- ===== src/Main/Startup.antt =====
-- The tables after a start.
use moaje_work.Prelude.{
  ◌≡◌, ◌&&◌, ◌||◌, sym, refl, ap, ◌∙◌, Bool, true, not, some, List, [], ◌∷◌, ◌++◌, map, String,
  str_eq, eq_iff, filter, find, any, find-append_none, find_passes, any_of_find, arith, Bool-cases,
  Option-cases, inl, inr, sym, ◌||◌,
}
use moaje_work.Schema.{
  ModelColumn, ModelTable, DbTable, has_name, is_addable, sync_table, sync_existing, sync_schema,
  missing_columns, column_name,
}
use moaje_work.Schema.Additions.{add_all_complete, sync_existing-found, sync_existing-other}
use moaje_work.Main.{create_all, start_service, Running, new_table}

abbrev pub is_named : String → DbTable → Bool
is_named name t = str_eq t.name name

find-map :
    (p : DbTable → Bool) (f : DbTable → DbTable)
    → ((t : DbTable) → p (f t) ≡ p t)
    → (tables : List DbTable) (t : DbTable) → find p tables ≡ some t
    → find p (map f tables) ≡ some (f t)
find-map p f same [] t h = cc
find-map p f same (u ∷ tables) t h = ground (arith, same u, find-map p f same tables t)

find-append_some :
    (p : DbTable → Bool) (xs ys : List DbTable) (t : DbTable)
    → find p xs ≡ some t
    → find p (xs ++ ys) ≡ some t
find-append_some p [] ys t h = cc
find-append_some p (x ∷ xs) ys t h = ground (arith, find-append_some p xs ys t)

-- A new table is found by the name of its model.
find-created :
    (name : String) (m : ModelTable) (is_new : ModelTable → Bool) (models : List ModelTable)
    → find (λ (n : ModelTable). str_eq n.name name) models ≡ some m
    → is_new m ≡ true
    → (t : DbTable) × (find (is_named name) (map new_table (filter is_new models)) ≡ some t)
find-created name m is_new [] h k = cc
find-created name m is_new (n ∷ models) h k = elim (Bool-cases (str_eq n.name name)) [
  | inl hit ↦
      let same : n ≡ m = cc (rw hit at h) in
      let kept : is_new n ≡ true = rw same k in (new_table n, rw (kept, hit) refl)
  | inr miss ↦
      let rest = find-created name m is_new models (rw miss at h) k in
      elim (Bool-cases (is_new n)) [ inr old ↦ rw old rest | inl new ↦ rw (new, miss) rest ]
]

table_there :
    (models : List ModelTable) (tables : List DbTable) (m : ModelTable)
    → find (λ (n : ModelTable). str_eq n.name m.name) models ≡ some m
    → (t : DbTable) × (find (is_named m.name) (create_all models tables) ≡ some t)
unfolding create_all
table_there models tables m h = elim (Option-cases (find (is_named m.name) tables)) [
  | inr (t, old) ↦ (t, find-append_some (is_named m.name) tables _ t old)
  | inl new ↦
      let absent = any_of_find (is_named m.name) tables new in
      let is_new : not (any (λ (t : DbTable). str_eq t.name m.name) tables) ≡ true =
        rw absent refl in
      let (t, found) =
        find-created m.name m
          (λ (n : ModelTable). not (any (λ (t : DbTable). str_eq t.name n.name) tables)) models h
          is_new in
      (t, find-append_none (is_named m.name) tables _ new ∙ found)
]

append_one : {A : Type 0} (xs : List A) (y : A) (ys : List A) → xs ++ y ∷ ys ≡ (xs ++ y ∷ []) ++ ys
append_one [] y ys = refl
append_one (x ∷ xs) y ys = ap (λ zs. x ∷ zs) (append_one xs y ys)

module _ (spec : ModelColumn → Bool) (accepts : String → String → Bool) where
  sync-name :
      (models : List ModelTable) (t : DbTable) → (sync_existing spec accepts models t).name ≡ t.name
  unfolding sync_table
  sync-name models t =
      elim (Option-cases (find (λ (m : ModelTable). str_eq m.name t.name) models)) [
        | inl other ↦ rw (sync_existing-other spec accepts models t other) refl
        | inr (m, found) ↦ rw (sync_existing-found spec accepts models m t found) refl
      ]

  column_there :
      (models : List ModelTable) (t : DbTable) (m : ModelTable) (front back : List ModelColumn)
      (c : ModelColumn)
      → find (λ (n : ModelTable). str_eq n.name t.name) models ≡ some m
      → m.columns ≡ front ++ c ∷ back
      → is_addable spec accepts t.name c ≡ true
      → has_name (sync_existing spec accepts models t).columns c.name ≡ true
  unfolding sync_table missing_columns
  column_there models t m front back c found split added =
      rw (sync_existing-found spec accepts models m t found, split)
        (add_all_complete column_name (is_addable spec accepts t.name) front back c t.columns added)

  -- The columns of a model that existing rows can take and that the database accepts are there.
  abbrev pub has_columns : String → List String → List ModelColumn → Bool
  has_columns table have [] = true
  has_columns table have (c ∷ columns) =
      (not (is_addable spec accepts table c) || has_name have c.name)
      && has_columns table have columns

  columns_there :
      (models : List ModelTable) (t : DbTable) (m : ModelTable) (front columns : List ModelColumn)
      → find (λ (n : ModelTable). str_eq n.name t.name) models ≡ some m
      → m.columns ≡ front ++ columns
      → has_columns t.name (sync_existing spec accepts models t).columns columns ≡ true
  columns_there models t m front [] found split = refl
  columns_there models t m front (c ∷ columns) found split =
      let rest =
        columns_there models t m (front ++ c ∷ []) columns found
          (split ∙ append_one front c columns) in
      elim (Bool-cases (is_addable spec accepts t.name c)) [
        | inr kept ↦ rw (kept, rest) refl
        | inl added ↦
            let there = column_there models t m front columns c found split added in
            rw (added, there, rest) refl
      ]

  -- Once the service has started with a database that answers, each table of the model is there
  -- under its name, and has all the model's columns that existing rows can take and that the
  -- database accepts, whatever tables there were before.
  pub start_complete :
      (models : List ModelTable) (tables : List DbTable) (m : ModelTable)
      → find (λ (n : ModelTable). str_eq n.name m.name) models ≡ some m
      → (r : Running) × (start_service spec accepts true true models tables ≡ some r)
        × (t : DbTable) × (find (is_named m.name) r.tables ≡ some t)
        × (has_columns m.name t.columns m.columns ≡ true)
  unfolding start_service sync_schema
  start_complete models tables m h =
      let (t, found) = table_there models tables m h in
      let named : t.name ≡ m.name =
        (eq_iff t.name m.name).0
          (find_passes (is_named m.name) (create_all models tables) t found) in
      let known : find (λ (n : ModelTable). str_eq n.name t.name) models ≡ some m = rw named h in
      (
        _,
        refl,
        sync_existing spec accepts models t,
        find-map (is_named m.name) (sync_existing spec accepts models)
            (λ u. ap (λ n. str_eq n m.name) (sync-name models u)) (create_all models tables) t
            found,
        ap (λ n. has_columns n (sync_existing spec accepts models t).columns m.columns) (sym named)
            ∙ columns_there models t m [] m.columns known refl,
      )
