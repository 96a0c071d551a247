-- ===== src/Schema/Additions.antt =====
-- What a second synchronization of the schema finds.
use mathlib.Core.Path.{subst}
use moaje_work.Prelude.{
  ◌≡◌, refl, sym, ap, ◌∙◌, Bool, true, false, none, some, List, [], ◌∷◌, ◌++◌, map, String, str_eq,
  eq_iff, find, any-append, Bool-cases, Option-cases, inl, inr, arith,
}
use moaje_work.Schema.{
  ModelColumn, ModelTable, DbTable, has_name, missing_of, add_all, column_name, index_name,
  missing_columns, missing_indexes, is_addable, is_creatable, sync_table, sync_existing,
  sync_schema,
}

has-added :
    (have : List String) (n other : String)
    → has_name have n ≡ true
    → has_name (have ++ other ∷ []) n ≡ true
has-added have n other h = rw (any-append (λ m. str_eq m n) have (other ∷ []), h) refl

has-new : (have : List String) (n : String) → has_name (have ++ n ∷ []) n ≡ true
has-new have n =
    let same : str_eq n n ≡ true = (eq_iff n n).1 refl in
    rw (any-append (λ m. str_eq m n) have (n ∷ []), same) (ground arith)

module _ {A : Type 0} (name : A → String) (is_added : A → Bool) where
  has-add_all :
      (items : List A) (have : List String) (n : String)
      → has_name have n ≡ true
      → has_name (add_all name is_added items have) n ≡ true
  unfolding add_all
  has-add_all [] have n h = h
  has-add_all (a ∷ items) have n h = elim (Bool-cases (is_added a)) [
    | inl yes_ ↦ rw yes_ (has-add_all items (have ++ name a ∷ []) n (has-added have n (name a) h))
    | inr no_ ↦ rw no_ (has-add_all items have n h)
  ]

  -- All that would be added is there.
  Covered : List String → List A → Type 0
  Covered have [] = Unit {0}
  Covered have (a ∷ items) =
      (is_added a ≡ true → has_name have (name a) ≡ true) × Covered have items

  add_all-Covered :
      (items : List A) (have : List String)
      → Covered have items
      → add_all name is_added (missing_of name have items) have ≡ have
  unfolding Covered add_all missing_of
  add_all-Covered [] have h = refl
  add_all-Covered (a ∷ items) have (h, hs) = elim (Bool-cases (has_name have (name a))) [
    | inl there ↦ rw there (add_all-Covered items have hs)
    | inr absent ↦ elim (Bool-cases (is_added a)) [
      | inl added ↦ let there = h added in cc
      | inr kept ↦ rw (absent, add_all, kept) (add_all-Covered items have hs)
    ]
  ]

  missing_of-there :
      (a : A) (items : List A) (have : List String)
      → has_name have (name a) ≡ true
      → missing_of name have (a ∷ items) ≡ missing_of name have items
  unfolding missing_of
  missing_of-there a items have h = rw h refl

  missing_of-absent :
      (a : A) (items : List A) (have : List String)
      → has_name have (name a) ≡ false
      → missing_of name have (a ∷ items) ≡ a ∷ missing_of name have items
  unfolding missing_of
  missing_of-absent a items have h = rw h refl

  add_all-added :
      (a : A) (items : List A) (have : List String)
      → is_added a ≡ true
      → add_all name is_added (a ∷ items) have ≡ add_all name is_added items (have ++ name a ∷ [])
  unfolding add_all
  add_all-added a items have h = rw h refl

  add_all-kept :
      (a : A) (items : List A) (have : List String)
      → is_added a ≡ false
      → add_all name is_added (a ∷ items) have ≡ add_all name is_added items have
  unfolding add_all
  add_all-kept a items have h = rw h refl

  Covered-equal :
      (a : A) (items : List A) (final rest : List String)
      → rest ≡ final
      → (is_added a ≡ true → has_name rest (name a) ≡ true)
      → Covered rest items
      → Covered final (a ∷ items)
  unfolding Covered
  Covered-equal a items final rest same h hs =
      subst (λ names. Covered names (a ∷ items)) same (h, hs)

  Covered-add_all :
      (items : List A) (have now : List String)
      → ((n : String) → has_name have n ≡ true → has_name now n ≡ true)
      → Covered (add_all name is_added (missing_of name have items) now) items
  unfolding Covered
  Covered-add_all [] have now h = tt
  Covered-add_all (a ∷ items) have now h =
      let rest = missing_of name have items in
      elim (Bool-cases (has_name have (name a))) [
        | inl there ↦
            Covered-equal a items _ _
              (ap (λ m. add_all name is_added m now) (sym (missing_of-there a items have there)))
              (λ e. has-add_all rest now (name a) (h (name a) there))
              (Covered-add_all items have now h)
        | inr absent ↦
            let skipped =
              ap (λ m. add_all name is_added m now) (sym (missing_of-absent a items have absent)) in
            elim (Bool-cases (is_added a)) [
              | inl added ↦
                  let more = now ++ name a ∷ [] in
                  Covered-equal a items _ _ (sym (add_all-added a rest now added) ∙ skipped)
                    (λ e. has-add_all rest more (name a) (has-new now (name a)))
                    (Covered-add_all items have more (λ n k. has-added now n (name a) (h n k)))
              | inr kept ↦
                  Covered-equal a items _ _ (sym (add_all-kept a rest now kept) ∙ skipped) (λ e. cc)
                    (Covered-add_all items have now h)
            ]
      ]

  Covered-at :
      (front back : List A) (a : A) (have : List String)
      → Covered have (front ++ a ∷ back)
      → is_added a ≡ true
      → has_name have (name a) ≡ true
  unfolding Covered
  Covered-at [] back a have (h, hs) added = h added
  Covered-at (b ∷ front) back a have (h, hs) added = Covered-at front back a have hs added

  -- Each item that can be added is there at the end.
  pub add_all_complete :
      (front back : List A) (a : A) (have : List String)
      → is_added a ≡ true
      → has_name (add_all name is_added (missing_of name have (front ++ a ∷ back)) have) (name a)
        ≡ true
  add_all_complete front back a have added =
      Covered-at front back a _ (Covered-add_all (front ++ a ∷ back) have have (λ n k. k)) added

  pub add_all_again :
      (items : List A) (have : List String)
      → let now = add_all name is_added (missing_of name have items) have in
        add_all name is_added (missing_of name now items) now ≡ now
  add_all_again items have =
      add_all-Covered items (add_all name is_added (missing_of name have items) have)
        (Covered-add_all items have have (λ n k. k))

module _ (spec : ModelColumn → Bool) (accepts : String → String → Bool) where
  sync_table_again :
      (model : ModelTable) (table : DbTable)
      → sync_table spec accepts model (sync_table spec accepts model table)
        ≡ sync_table spec accepts model table
  unfolding sync_table missing_columns missing_indexes
  sync_table_again model table =
      let columns =
        add_all column_name (is_addable spec accepts table.name)
          (missing_of column_name table.columns model.columns) table.columns in
      let same =
        add_all_again column_name (is_addable spec accepts table.name) model.columns
          table.columns in
      let indexed =
        add_all_again index_name (is_creatable spec accepts table.name columns) model.indexes
          table.indexes in
      rw (same, indexed) refl

  pub sync_existing-found :
      (models : List ModelTable) (model : ModelTable) (table : DbTable)
      → find (λ (m : ModelTable). str_eq m.name table.name) models ≡ some model
      → sync_existing spec accepts models table ≡ sync_table spec accepts model table
  unfolding sync_existing
  sync_existing-found models model table h = rw (h, sync_existing) refl

  pub sync_existing-other :
      (models : List ModelTable) (table : DbTable)
      → find (λ (m : ModelTable). str_eq m.name table.name) models ≡ none
      → sync_existing spec accepts models table ≡ table
  unfolding sync_existing
  sync_existing-other models table h = rw (h, sync_existing) refl

  sync_existing_again :
      (models : List ModelTable) (table : DbTable)
      → sync_existing spec accepts models (sync_existing spec accepts models table)
        ≡ sync_existing spec accepts models table
  unfolding sync_table
  sync_existing_again models table =
      elim (Option-cases (find (λ (m : ModelTable). str_eq m.name table.name) models)) [
        | inl other ↦ let same = sync_existing-other models table other in rw same same
        | inr (model, found) ↦
            let first = sync_existing-found models model table found in
            rw first (
              sync_existing-found models model (sync_table spec accepts model table) found
              ∙ sync_table_again model table)
      ]

  map_again :
      {A : Type 0} (f : A → A)
      → ((a : A) → f (f a) ≡ f a)
      → (xs : List A) → map f (map f xs) ≡ map f xs
  map_again f h [] = refl
  map_again f h (x ∷ xs) = rw (h x, map_again f h xs) refl

  sync_existing_keeps :
      (models : List ModelTable) (table : DbTable) (n : String)
      → (has_name table.columns n ≡ true
          → has_name (sync_existing spec accepts models table).columns n ≡ true)
        × (has_name table.indexes n ≡ true
            → has_name (sync_existing spec accepts models table).indexes n ≡ true)
  unfolding sync_table
  sync_existing_keeps models table n =
      elim (Option-cases (find (λ (m : ModelTable). str_eq m.name table.name) models)) [
        | inl other ↦ rw (sync_existing-other models table other) ((λ h. h), (λ h. h))
        | inr (model, found) ↦ rw (sync_existing-found models model table found) (
          has-add_all column_name (is_addable spec accepts table.name) _ table.columns n,
          has-add_all index_name (is_creatable spec accepts table.name _) _ table.indexes n,
        )
      ]

  -- The synchronization only adds: a column and an index that a table has stay; and a second one,
  -- where the database accepts what it accepted before, leaves the tables as the first left them,
  -- whether it reaches the database or not.
  pub sync_schema_again :
      (later : Bool) (models : List ModelTable) (tables : List DbTable) (table : DbTable)
      (column index : String)
      → has_name table.columns column ≡ true
      → has_name table.indexes index ≡ true
      → let after = sync_existing spec accepts models table in
        (has_name after.columns column ≡ true)
        × ((has_name after.indexes index ≡ true)
            × (sync_schema spec accepts later models (sync_schema spec accepts true models tables)
                ≡ sync_schema spec accepts true models tables))
  unfolding sync_schema
  sync_schema_again later models tables table column index h k =
      let again =
        map_again (sync_existing spec accepts models) (sync_existing_again models) tables in
      let kept = sync_existing_keeps models table in
      (
        (kept column).0 h,
        (
          (kept index).1 k,
          elim (Bool-cases later) [ inl up ↦ rw up again | inr down ↦ rw down refl ],
        ),
      )
