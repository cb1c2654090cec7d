-- ===== src/TestClient/Results/Batches.antt =====
-- The batches and the order of the results file (`TestClient::saveResults` of
-- client/src/TestClient.cpp).
use mathlib.Core.List.{Perm}
use mathlib.Core.List.Perm
use remote_dict.Prelude.{
  ◌≤◌, ◌≡◌, ◌≢◌, refl, sym, ap, ◌∙◌, Option, none, some, List, [], ◌∷◌, ◌++◌, arith, Bool-cases,
  inl, inr, append_assoc, append-nil,
}
use remote_dict.Text.{Text}
use remote_dict.Client.{ResultData, Client}
use remote_dict.TestClient.Results.{
  Output, write_line, write_lines, write_result, result_line, insert_sorted, sort,
  compare_by_timestamp, save_results, all_results, combine_latency, latency_line,
}

-- A result without a line leaves nothing.
abbrev pub text_or_nil : Option Text → Text
text_or_nil none = []
text_or_nil (some line) = line

-- The lines of results, one behind the other.
unfoldable pub all_lines : List ResultData → Text
all_lines [] = []
all_lines (r ∷ rs) = text_or_nil (result_line r) ++ all_lines rs

abbrev so_far : Output → Text
so_far o = o.file ++ o.batch

write_line-so_far : (line : Text) (o : Output) → so_far (write_line line o) ≡ so_far o ++ line
unfolding write_line
write_line-so_far line o =
    ground (arith, append_assoc o.file o.batch line, append-nil (o.file ++ (o.batch ++ line)))

write_result-so_far :
    (line : Option Text) (o : Output) → so_far (write_result line o) ≡ so_far o ++ text_or_nil line
unfolding write_result
write_result-so_far none o = sym (append-nil (so_far o))
write_result-so_far (some line) o = write_line-so_far line o

write_lines-so_far :
    (rs : List ResultData) (o : Output) → so_far (write_lines rs o) ≡ so_far o ++ all_lines rs
unfolding write_lines all_lines
write_lines-so_far [] o = sym (append-nil (so_far o))
write_lines-so_far (r ∷ rs) o =
    write_lines-so_far rs (write_result (result_line r) o)
    ∙ (ap (λ t. t ++ all_lines rs) (write_result-so_far (result_line r) o)
        ∙ append_assoc (so_far o) (text_or_nil (result_line r)) (all_lines rs))

-- Sorted by time.
abbrev pub IsSorted : List ResultData → Type 0
IsSorted [] = Unit
IsSorted (r ∷ []) = Unit
IsSorted (r ∷ s ∷ rs) = (r.timestamp ≤ s.timestamp) × IsSorted (s ∷ rs)

insert_sorted-IsSorted :
    (r : ResultData) (rs : List ResultData) → IsSorted rs → IsSorted (insert_sorted r rs)
unfolding insert_sorted compare_by_timestamp
insert_sorted-IsSorted r [] h = tt
insert_sorted-IsSorted r (s ∷ []) h = ground (arith)
insert_sorted-IsSorted r (s ∷ t ∷ rs) h = ground (arith, insert_sorted-IsSorted r (t ∷ rs) h.1)

pub sort-IsSorted : (rs : List ResultData) → IsSorted (sort rs)
unfolding sort
sort-IsSorted [] = tt
sort-IsSorted (r ∷ rs) = insert_sorted-IsSorted r (sort rs) (sort-IsSorted rs)

insert_sorted-perm : (r : ResultData) (rs : List ResultData) → Perm (insert_sorted r rs) (r ∷ rs)
unfolding insert_sorted
insert_sorted-perm r [] = Perm.refl (r ∷ [])
insert_sorted-perm r (s ∷ rs) = elim (Bool-cases (compare_by_timestamp s r)) [
  | inl e ↦ rw e (Perm.trans (Perm.cons s (insert_sorted-perm r rs)) (Perm.swap r s rs))
  | inr e ↦ rw e (Perm.refl (r ∷ s ∷ rs))
]

pub sort-perm : (rs : List ResultData) → Perm (sort rs) rs
unfolding sort
sort-perm [] = Perm.refl []
sort-perm (r ∷ rs) = Perm.trans (insert_sorted-perm r (sort rs)) (Perm.cons r (sort-perm rs))

abbrev no_output : Output
no_output = record { file = []; batch = []; count = 0 }

written_out :
    (rs : List ResultData) (tail : Text)
    → (write_lines rs no_output).file ++ ((write_lines rs no_output).batch ++ tail)
      ≡ all_lines rs ++ tail
written_out rs tail =
    sym (append_assoc (write_lines rs no_output).file (write_lines rs no_output).batch tail)
    ∙ ap (λ t. t ++ tail) (write_lines-so_far rs no_output)

-- `save_results` on the results and their latency line.
saved :
    (pool : List Client) (rs : List ResultData)
    → all_results pool ≡ rs
    → rs ≢ []
    → save_results pool ≡ some (all_lines (sort rs) ++ latency_line (combine_latency pool 0))
unfolding save_results
saved pool [] e ne = absurd (ne refl)
saved pool (r ∷ rs) e ne =
    rw (e, save_results)
      (ap some (written_out (sort (r ∷ rs)) (latency_line (combine_latency pool 0))))

-- With a result or more, what is appended to the file is the lines of all results in the order of
-- their times, whatever the batches, and the line of the average latency.
pub save_results_lem :
    (pool : List Client)
    → all_results pool ≢ []
    → (save_results pool
        ≡ some (all_lines (sort (all_results pool)) ++ latency_line (combine_latency pool 0)))
      × IsSorted (sort (all_results pool))
      × Perm (sort (all_results pool)) (all_results pool)
save_results_lem pool ne = (
  saved pool (all_results pool) refl ne,
  sort-IsSorted (all_results pool),
  sort-perm (all_results pool),
)
