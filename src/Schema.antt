-- ===== src/Schema.antt =====
-- The addition of missing columns and indexes at the start: app/db/schema_sync.py. `spec` says
-- whether the dialect can print a column's definition, and `accepts` whether the database accepts
-- a statement that adds a name to a table; both are parameters. The tables of the metadata have
-- different names, so a table of the database is synchronized with the one of its name.
pub mod Additions
use moaje_work.Prelude.{
  ℕ, ◌≡◌, refl, ap, ◌∙◌, Bool, true, false, not, ◌&&◌, ◌||◌, Option, none, some, List, [], ◌∷◌,
  ◌++◌, map, String, str_eq, if◌then◌else◌, find, filter, any, Bool-cases,
}

pub record ModelColumn : Type 0 where
  pub name : String
  pub nullable : Bool
  pub has_server_default : Bool

pub record ModelIndex : Type 0 where
  pub name : String
  pub columns : List String

pub record ModelTable : Type 0 where
  pub name : String
  pub columns : List ModelColumn
  pub indexes : List ModelIndex

-- A table of the database; its indexes include the names of its unique constraints.
pub record DbTable : Type 0 where
  pub name : String
  pub columns : List String
  pub indexes : List String

abbrev pub has_name : List String → String → Bool
has_name names name = any (λ n. str_eq n name) names

module _ {A : Type 0} (name : A → String) where
  -- Those of the model whose names the database lacks.
  unfoldable pub missing_of : List String → List A → List A
  missing_of have items = filter (λ a. not (has_name have (name a))) items

  -- The loop that adds those it can and carries the names that are there by then.
  unfoldable pub add_all : (A → Bool) → List A → List String → List String
  add_all is_added [] have = have
  add_all is_added (a ∷ missing) have =
      add_all is_added missing (if is_added a then have ++ name a ∷ [] else have)

abbrev pub column_name : ModelColumn → String
column_name c = c.name

abbrev pub index_name : ModelIndex → String
index_name i = i.name

-- `_missing_columns`
unfoldable pub missing_columns : List String → List ModelColumn → List ModelColumn
missing_columns have columns = missing_of column_name have columns

-- `_missing_indexes`
unfoldable pub missing_indexes : List String → List ModelIndex → List ModelIndex
missing_indexes have indexes = missing_of index_name have indexes

module _ (spec : ModelColumn → Bool) (accepts : String → String → Bool) where
  -- A column is left to a person where existing rows would have no value for it.
  unfoldable pub is_addable : String → ModelColumn → Bool
  is_addable table c = (c.nullable || c.has_server_default) && (spec c && accepts table c.name)

  -- An index waits for all of its columns.
  unfoldable pub is_creatable : String → List String → ModelIndex → Bool
  is_creatable table have_cols i =
      not (any (λ c. not (has_name have_cols c)) i.columns) && accepts table i.name

  -- The body of the loop over the tables.
  unfoldable pub sync_table : ModelTable → DbTable → DbTable
  sync_table model table =
      let have_cols =
        add_all column_name (is_addable table.name) (missing_columns table.columns model.columns)
          table.columns in
      record table {
        columns = have_cols;
        indexes =
            add_all index_name (is_creatable table.name have_cols)
              (missing_indexes table.indexes model.indexes) table.indexes;
      }

  unfoldable pub sync_existing : List ModelTable → DbTable → DbTable
  sync_existing models table = elim (find (λ (m : ModelTable). str_eq m.name table.name) models) [
    | none ↦ table
    | some model ↦ sync_table model table
  ]

  -- Where the database does not answer, the service starts without it.
  unfoldable pub sync_schema : Bool → List ModelTable → List DbTable → List DbTable
  sync_schema database_available models tables =
      if database_available then map (sync_existing models) tables else tables
