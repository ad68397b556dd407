-- ===== src/Main/Laws.antt =====
-- What the program prints, when all goes well and when a step fails.
use otservpp.Base.{ℕ, ◌+◌, ◌≤◌, ◌≡◌, refl, ap, List, [], ◌∷◌, true, false, none, some, map, All}
use otservpp.Sql.Mysql.{Row, text, blank, statement_error, post_handler, post_error}
use otservpp.Sql.Mysql.Laws.{sent, Runs, only_text, run_prepared_rows_lem}
use otservpp.Main.{
  connect_error, connected, prepare_error, query_prepared, query_executed, password, Library,
  first_text, work,
}

-- The row of one text.
abbrev pub row_of : List ℕ → Row
row_of s = text s ∷ []

rows-blank : (ss : List (List ℕ)) → All (λ cs. map blank cs ≡ text [] ∷ []) (map row_of ss)
rows-blank [] = tt
rows-blank (s ∷ ss) = (refl, rows-blank ss)

rows-only_text :
    (ss : List (List ℕ))
    → map (λ row. password (first_text row)) (map (map only_text) (map row_of ss)) ≡ map password ss
rows-only_text [] = refl
rows-only_text (s ∷ ss) = ap (◌∷◌ (password s)) (rows-only_text ss)

-- Where every call of the library succeeds, the program prints the texts that the server sends, in the order of the
-- rows, behind the lines that tell how far it came.
pub work_lem :
    (max_size : ℕ) (lib : Library) (ss : List (List ℕ))
    → lib.connects ≡ true
    → lib.initialises ≡ true
    → lib.prepares ≡ true
    → Runs lib.statement 1
    → lib.statement.fetches ≡ map (map sent) (map row_of ss)
    → 0 + lib.statement.num_rows ≤ max_size
    → work max_size lib ≡ some (connected ∷ query_prepared ∷ query_executed ∷ map password ss)
unfolding work post_handler
work_lem max_size lib ss c i p runs fetched room =
    let ran =
      run_prepared_rows_lem lib.statement max_size (text [] ∷ []) (map row_of ss) [] runs fetched
        (rows-blank ss) room in
    rw (c, i, p, ran)
      (ap (λ ls. some (connected ∷ query_prepared ∷ query_executed ∷ ls)) (rows-only_text ss))

-- Where the connection or the preparation fails, the program prints that error and goes no further; where the
-- library has no memory for a statement, it uses a null pointer.
pub work-fails :
    (max_size : ℕ) (lib : Library)
    → (lib.connects ≡ false
        → work max_size lib ≡ some (connect_error (statement_error lib.connect_errno) ∷ []))
      × ((lib.connects ≡ true → lib.initialises ≡ false → work max_size lib ≡ none)
          × (lib.connects ≡ true
              → lib.initialises ≡ true
              → lib.prepares ≡ false
              → work max_size lib
                ≡ some (connected ∷ prepare_error (statement_error lib.prepare_errno) ∷ [])))
unfolding work post_error post_handler
work-fails max_size lib = ((λ c. rw c refl), ((λ c i. rw (c, i) refl), λ c i p. rw (c, i, p) refl))
