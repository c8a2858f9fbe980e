-- ===== src/Server/Executor/Sql/CreateTable.antt =====
-- volodbserver/Store/NDBMessageExecutor.cpp: the statement that creates a store, against the text that
-- it should be.
use volo_db.Prelude.{
  ℕ, ◌+◌, ◌≡◌, refl, sym, ap, Text, Bool, true, false, some, List, [], ◌∷◌, ◌++◌, append_assoc,
  append-nil, map, codes, arith, length, length-append, get_elem?, keep_if, is_some, ltb, ◌==◌,
  if◌then◌else◌, Bool-cases, inl, inr,
}
use volo_db.Prelude.Outcome.{ok}
use volo_db.Proto.Column.{ColumnInfo}
use volo_db.Proto.Operation.{CreateStoreOperation}
use volo_db.Server.Executor.Sql.{
  Scan, run, refuse, column_text, push_if, scan_columns, name_list, create_store_statement,
  finish_statement, statement_of,
}

-- Names with commas between them.
abbrev pub join : List Text → Text
join [] = []
join (name ∷ []) = name
join (name ∷ next ∷ names) = name ++ (codes "," ++ join (next ∷ names))

abbrev pub concat : List Text → Text
concat [] = []
concat (text ∷ texts) = text ++ concat texts

-- The names of the columns with a flag that is set at all.
abbrev pub names_with : (ColumnInfo → Bool) → List ColumnInfo → List Text
names_with flagged columns = map (λ c. c.name) (keep_if flagged columns)

abbrev pub is_primary : ColumnInfo → Bool
is_primary column = is_some column.primary_key

abbrev pub is_distribution : ColumnInfo → Bool
is_distribution column = is_some column.distribution_key

-- The statement for a store with primary and distribution keys.
abbrev pub create_table : CreateStoreOperation → Text
create_table operation =
    let primary = join (names_with is_primary operation.column) in
    let distribution = join (names_with is_distribution operation.column) in
    ((codes "CREATE TABLE " ++ (operation.store_info.store_name ++ codes "(\n"))
      ++ concat (map column_text operation.column))
    ++ (codes "PRIMARY KEY ("
        ++ (primary
            ++ (codes ")"
                ++ (codes ",\nINDEX VOLODB_PRUNE_INDEX USING BTREE ("
                    ++ (distribution
                        ++ (codes ")"
                            ++ (codes ")\nENGINE=NDB\n"
                                ++ (codes "PARTITION BY KEY ("
                                    ++ (distribution ++ codes ")")))))))))

-- The indexes that the loop collects from column i on.
abbrev indexes_from : (ColumnInfo → Bool) → ℕ → List ColumnInfo → List ℕ
indexes_from flagged i [] = []
indexes_from flagged i (column ∷ columns) =
    if flagged column
    then i ∷ indexes_from flagged (i + 1) columns
    else indexes_from flagged (i + 1) columns

push_if-indexes :
    (flagged : ColumnInfo → Bool) (i : ℕ) (indexes : List ℕ) (column : ColumnInfo)
    (columns : List ColumnInfo)
    → push_if (flagged column) indexes i ++ indexes_from flagged (i + 1) columns
      ≡ indexes ++ indexes_from flagged i (column ∷ columns)
unfolding push_if
push_if-indexes flagged i indexes column columns = elim (Bool-cases (flagged column)) [
  | inl e ↦ rw e (append_assoc indexes (i ∷ []) (indexes_from flagged (i + 1) columns))
  | inr e ↦ rw e
]

scan_columns_lem :
    (i : ℕ) (scan : Scan) (columns : List ColumnInfo)
    → scan_columns i scan columns ≡ record {
      text = scan.text ++ concat (map column_text columns);
      primary_key_attribute_indexes =
          scan.primary_key_attribute_indexes ++ indexes_from is_primary i columns;
      distribution_key_attribute_indexes =
          scan.distribution_key_attribute_indexes ++ indexes_from is_distribution i columns;
    }
unfolding scan_columns
scan_columns_lem i scan [] = simp append-nil
scan_columns_lem i scan (column ∷ columns) = rw (
  scan_columns_lem (i + 1) _ columns,
  append_assoc,
  push_if-indexes is_primary i scan.primary_key_attribute_indexes column columns,
  push_if-indexes is_distribution i scan.distribution_key_attribute_indexes column columns,
)

-- What the loop over the indexes makes of the names.
abbrev closed : List Text → Text
closed [] = []
closed (name ∷ names) =
    name ++ ((if length names == 0 then codes ")" else codes ",") ++ closed names)

closed-join :
    (name : Text) (names : List Text) → closed (name ∷ names) ≡ join (name ∷ names) ++ codes ")"
closed-join name [] = refl
closed-join name (next ∷ names) =
    let more : (length (next ∷ names) == 0) ≡ false = ground arith in
    rw (more, closed-join next names) (sym (append_assoc name _ _))

length-indexes_from :
    (flagged : ColumnInfo → Bool) (i : ℕ) (columns : List ColumnInfo)
    → length (indexes_from flagged i columns) ≡ length (names_with flagged columns)
length-indexes_from flagged i [] = refl
length-indexes_from flagged i (column ∷ columns) =
    ground (arith, length-indexes_from flagged (i + 1) columns)

get_elem?-append :
    (xs : List ColumnInfo) (x : ColumnInfo) (ys : List ColumnInfo)
    → get_elem? (xs ++ x ∷ ys) (length xs) ≡ some x
get_elem?-append [] x ys = refl
get_elem?-append (y ∷ xs) x ys = get_elem?-append xs x ys

name_list_lem :
    (flagged : ColumnInfo → Bool) (passed columns : List ColumnInfo) (i : ℕ)
    → length passed ≡ i
    → name_list (passed ++ columns) (indexes_from flagged i columns)
      ≡ ok (closed (names_with flagged columns))
unfolding name_list
name_list_lem flagged passed [] i e = refl
name_list_lem flagged passed (column ∷ columns) i e =
    let rest =
      name_list_lem flagged (passed ++ column ∷ []) columns (i + 1)
        (omega (arith, length-append passed (column ∷ []))) in
    let rest' = rw append_assoc at rest in
    let here : get_elem? (passed ++ column ∷ columns) i ≡ some column =
      rw (← e) (get_elem?-append passed column columns) in
    elim (Bool-cases (flagged column)) [
      | inl f ↦ rw (f, name_list, here, rest', length-indexes_from flagged (i + 1) columns)
      | inr f ↦ rw f rest'
    ]

regroup :
    (t k p c i d e b : Text)
    → (t ++ (k ++ ((p ++ c) ++ ((i ++ (d ++ c)) ++ e)))) ++ (b ++ (d ++ c))
      ≡ t ++ (k ++ (p ++ (c ++ (i ++ (d ++ (c ++ (e ++ (b ++ (d ++ c)))))))))
regroup t k p c i d e b = simp append_assoc

finish_statement_lem :
    (text : Text) (primary distribution : List Text)
    → (if length primary == 0
        then ok (refuse (codes "No primary key indicated"))
        else ok
            (finish_statement text (closed primary) (closed distribution) (length distribution)))
      ≡ ok (
          if length primary == 0
          then refuse (codes "No primary key indicated")
          else if length distribution == 0
          then refuse (codes "No distribution key indicated")
          else run (
              text
              ++ (codes "PRIMARY KEY ("
                  ++ (join primary
                      ++ (codes ")"
                          ++ (codes ",\nINDEX VOLODB_PRUNE_INDEX USING BTREE ("
                              ++ (join distribution
                                  ++ (codes ")"
                                      ++ (codes ")\nENGINE=NDB\n"
                                          ++ (codes "PARTITION BY KEY ("
                                              ++ (join distribution ++ codes ")")))))))))))
unfolding finish_statement
finish_statement_lem text [] distribution = refl
finish_statement_lem text (p ∷ ps) [] = ground arith
finish_statement_lem text (p ∷ ps) (d ∷ ds) =
    let some_primary : (length (p ∷ ps) == 0) ≡ false = ground arith in
    let some_distribution : (length (d ∷ ds) == 0) ≡ false = ground arith in
    let positive : ltb 0 (length (d ∷ ds)) ≡ true = ground arith in
    rw (some_primary, some_distribution, positive, closed-join p ps, closed-join d ds)
      (ap (λ t. ok (run t))
        (regroup text (codes "PRIMARY KEY (") (join (p ∷ ps)) (codes ")")
          (codes ",\nINDEX VOLODB_PRUNE_INDEX USING BTREE (") (join (d ∷ ds))
          (codes ")\nENGINE=NDB\n") (codes "PARTITION BY KEY (")))

-- Creating a store is refused if no column is flagged as primary key, else if none is flagged as
-- distribution key, and else runs the statement that declares the columns in order, with the flagged
-- columns as primary key, index and partition key. A flag counts if it is set at all, also to false.
pub create_store_statement_lem :
    (operation : CreateStoreOperation)
    → create_store_statement operation
      ≡ ok (
          if length (names_with is_primary operation.column) == 0
          then refuse (codes "No primary key indicated")
          else if length (names_with is_distribution operation.column) == 0
          then refuse (codes "No distribution key indicated")
          else run (create_table operation))
unfolding create_store_statement
create_store_statement_lem operation =
    let scanned =
      scan_columns_lem 0
        (record {
          text = codes "CREATE TABLE " ++ (operation.store_info.store_name ++ codes "(\n");
          primary_key_attribute_indexes = [];
          distribution_key_attribute_indexes = [];
        })
        operation.column in
    let primary = name_list_lem is_primary [] operation.column 0 refl in
    let distribution = name_list_lem is_distribution [] operation.column 0 refl in
    rw
      (
        scanned,
        statement_of,
        primary,
        distribution,
        length-indexes_from is_primary 0 operation.column,
        length-indexes_from is_distribution 0 operation.column,
      )
      (finish_statement_lem
        ((codes "CREATE TABLE " ++ (operation.store_info.store_name ++ codes "(\n"))
          ++ concat (map column_text operation.column))
        (names_with is_primary operation.column) (names_with is_distribution operation.column))
