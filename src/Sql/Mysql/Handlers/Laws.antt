-- ===== src/Sql/Mysql/Handlers/Laws.antt =====
-- The types of handlers, and what those of sets of rows are told.
use otservpp.Base.{
  ℕ, ◌≡◌, refl, List, [], ◌∷◌, Option, none, some, Bool, true, false, not, ◌&&◌, ◌||◌,
  if◌then◌else◌, ◌==◌, ◌+◌, ltb, length, ap, ◌∙◌,
}
use otservpp.Lambdas.Traits.{CppType}
use otservpp.Sql.Mysql.{
  Row, Post, Statement, Fetched, post_handler, post_error, post_handler_or_error, store_rows,
  bind_stmt_output_rows, run_prepared_rows, store_result, bind_and_exec_stmt,
}
use otservpp.Sql.Mysql.Handlers.{
  Kind, of_error, of_number, of_numbers, of_handle, Value, number, numbers, rows_posts, row_count,
  takes, do_post_handler, compiles_post, compiles,
}

false-ne-true : false ≡ true → ⊥
false-ne-true e = cc

if-count :
    (b : Bool) (x y : Post × List Row)
    → row_count x.0 ≡ none
    → row_count y.0 ≡ none
    → row_count (if b then x else y).0 ≡ none
if-count true x y p q = p
if-count false x y p q = q

post_handler_or_error-count :
    (stmt : Statement) (e : Bool) → row_count (post_handler_or_error stmt e none) ≡ none
unfolding post_handler_or_error post_error post_handler
post_handler_or_error-count stmt true = refl
post_handler_or_error-count stmt false = refl

store_rows-count :
    (stmt : Statement) (columns : Row) (fs : List (List Fetched)) (out : List Row)
    → row_count (store_rows stmt columns fs out).0 ≡ none
unfolding store_rows post_error
store_rows-count stmt columns [] out = post_handler_or_error-count stmt stmt.ends_with_error
store_rows-count stmt columns (f ∷ fs) out =
    if-count (store_result f columns).0 _ _ (store_rows-count stmt columns fs _) refl

run_prepared_rows-count :
    (stmt : Statement) (max_size : ℕ) (reserves : Bool) (columns : Row) (out : List Row)
    → row_count (run_prepared_rows stmt max_size reserves columns out).0 ≡ none
unfolding run_prepared_rows bind_stmt_output_rows post_error
run_prepared_rows-count stmt max_size reserves columns out =
    if-count (stmt.field_count == length columns) _ _
      (if-count (bind_and_exec_stmt stmt) _ _
        (if-count (stmt.bind_result_fails || stmt.store_result_fails) _ _ refl (
          if-count (ltb max_size (length out + stmt.num_rows)) _ _ refl
            (if-count reserves _ _ (store_rows-count stmt columns stmt.fetches out) refl)))
        refl)
      refl

-- What the parameters of a handler must be.
module _ {Name : Type 0} (converts : Kind → Name → Bool) where
  -- Which operations compile, by the types of the parameters.
  abbrev pub takes_connect : List Name → Bool
  takes_connect (a ∷ []) = converts of_error a
  takes_connect (a ∷ b ∷ []) =
      (converts of_error a && converts of_number b && not (converts of_numbers b))
      || (converts of_error a && converts of_numbers b && not (converts of_number b))
  takes_connect ts = false

  abbrev pub takes_row : List Name → Bool
  takes_row (a ∷ b ∷ []) =
      converts of_error a && converts of_number b && not (converts of_numbers b)
  takes_row ts = false

  abbrev pub takes_prepare : List Name → Bool
  takes_prepare (a ∷ b ∷ []) = converts of_error a && converts of_handle b
  takes_prepare ts = false

  -- The choice between the overloads where nothing is posted behind the error.
  chosen : Bool → Bool → Option (Option Value)
  chosen n ns =
      if n
      then (if ns then none else some (some (number 0)))
      else (if ns then some (some (numbers [])) else some none)

  takes_no_numbers :
      (t : CppType Name) (ns : Bool)
      → compiles converts t rows_posts ≡ true
      → takes converts of_number t ≡ true
      → takes converts of_numbers t ≡ ns
      → do_post_handler converts t none ≡ some (some (number 0))
  unfolding compiles compiles_post do_post_handler
  takes_no_numbers t true ok p q =
      absurd (false-ne-true (rw (p, q, compiles, compiles_post, do_post_handler) at ok))
  takes_no_numbers t false ok p q = rw (p, q, do_post_handler) refl

  -- A handler that compiles with a set of rows and whose second parameter takes a number is called with 0
  -- there, with no error as with one, whatever the number of rows that were stored.
  pub rows_told :
      (t : CppType Name) (stmt : Statement) (max_size : ℕ) (reserves : Bool) (columns : Row)
      (out : List Row)
      → compiles converts t rows_posts ≡ true
      → takes converts of_number t ≡ true
      → do_post_handler converts t
          (row_count (run_prepared_rows stmt max_size reserves columns out).0)
        ≡ some (some (number 0))
  rows_told t stmt max_size reserves columns out ok number_taken =
      ap (do_post_handler converts t) (run_prepared_rows-count stmt max_size reserves columns out)
      ∙ takes_no_numbers t (takes converts of_numbers t) ok number_taken refl
