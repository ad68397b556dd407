-- ===== src/Scheduler/Loop/Spent.antt =====
-- How often a wrapper called its function, and the time that these calls take at least.
use otservpp.Base.{ℕ, zero, suc, ◌+◌, ◌*◌, ◌≡◌, refl, List, [], ◌∷◌, ◌++◌, replicate, arith}
use otservpp.Scheduler.{Code, no_error, operation_aborted, other_error}

-- The codes that the wrapper calls the function of the client for.
abbrev pub count_calls : List Code → ℕ
count_calls [] = 0
count_calls (no_error ∷ cs) = suc (count_calls cs)
count_calls (operation_aborted ∷ cs) = count_calls cs
count_calls (other_error ∷ cs) = count_calls cs

pub count_calls-append :
    (xs ys : List Code) → count_calls (xs ++ ys) ≡ count_calls xs + count_calls ys
count_calls-append [] ys = omega arith
count_calls-append (no_error ∷ xs) ys = omega (arith, count_calls-append xs ys)
count_calls-append (operation_aborted ∷ xs) ys = count_calls-append xs ys
count_calls-append (other_error ∷ xs) ys = count_calls-append xs ys

-- So many intervals `m`.
unfoldable pub spent : ℕ → List Code → ℕ
spent m [] = 0
spent m (no_error ∷ cs) = m + spent m cs
spent m (operation_aborted ∷ cs) = spent m cs
spent m (other_error ∷ cs) = spent m cs

pub spent-append : (m : ℕ) (xs ys : List Code) → spent m (xs ++ ys) ≡ spent m xs + spent m ys
unfolding spent
spent-append m [] ys = omega arith
spent-append m (no_error ∷ xs) ys = omega (arith, spent-append m xs ys)
spent-append m (operation_aborted ∷ xs) ys = spent-append m xs ys
spent-append m (other_error ∷ xs) ys = spent-append m xs ys

pub spent_lem : (m : ℕ) (cs : List Code) → spent m cs ≡ count_calls cs * m
unfolding spent
spent_lem m [] = omega arith
spent_lem m (no_error ∷ cs) = grind (arith, spent_lem m cs)
spent_lem m (operation_aborted ∷ cs) = spent_lem m cs
spent_lem m (other_error ∷ cs) = spent_lem m cs

pub spent-replicate_aborted : (m k : ℕ) → spent m (replicate k operation_aborted) ≡ 0
unfolding spent
spent-replicate_aborted m zero = refl
spent-replicate_aborted m (suc k) = spent-replicate_aborted m k

pub spent-replicate_error : (m k : ℕ) → spent m (replicate k other_error) ≡ 0
unfolding spent
spent-replicate_error m zero = refl
spent-replicate_error m (suc k) = spent-replicate_error m k
