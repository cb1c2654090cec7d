-- ===== src/TestClient/Results.antt =====
-- `TestClient::saveResults` (client/src/TestClient.cpp) with `getReqType` and
-- `compareByTimestamp`: the results file. `std::sort` does not say in which order results with
-- equal times come; here they keep theirs.
pub mod Batches
use remote_dict.Prelude.{
  ℕ, zero, suc, ◌+◌, ◌-◌, ◌/◌, ◌%◌, Bool, true, false, not, Option, none, some, List, [], ◌∷◌, ◌++◌,
  map, length, leb, ltb, ◌==◌, if◌then◌else◌, ℤ, pos, negsuc, u32_mod,
}
use remote_dict.Text.{Text, bytes}
use remote_dict.Payload.{Payload, RequestType, Stat, text_of}
use remote_dict.Client.{ResultData, Client}

-- MAX_LINE_WRITE
abbrev pub max_line_write : ℕ
max_line_write = 1024

-- The decimal digits of `std::to_string`, most significant first, on fuel.
unfoldable pub digits : ℕ → ℕ → Text → Text
digits zero n rest = rest
digits (suc fuel) n rest =
    let more = digits fuel (n / 10) ((b'0' + n % 10) ∷ rest) in
    if n / 10 == 0 then (b'0' + n % 10) ∷ rest else more

-- A value of 64 bits has at most 20 digits.
unfoldable pub to_string : ℕ → Text
unfolding digits
to_string n = digits 20 n []

unfoldable pub int_to_string : ℤ → Text
unfolding to_string
int_to_string (pos n) = to_string n
int_to_string (negsuc n) = b'-' ∷ to_string (suc n)

unfoldable pub get_req_type : RequestType → Text
get_req_type RequestType.get = bytes "GET"
get_req_type RequestType.set = bytes "SET"
get_req_type RequestType.stat = bytes "STAT"

unfoldable pub compare_by_timestamp : ResultData → ResultData → Bool
compare_by_timestamp a b = ltb a.timestamp b.timestamp

unfoldable pub insert_sorted : ResultData → List ResultData → List ResultData
insert_sorted r [] = r ∷ []
insert_sorted r (s ∷ rs) = if compare_by_timestamp s r then s ∷ insert_sorted r rs else r ∷ s ∷ rs

unfoldable pub sort : List ResultData → List ResultData
unfolding insert_sorted
sort [] = []
sort (r ∷ rs) = insert_sorted r (sort rs)

-- A field behind its comma, if it is there.
unfoldable pub text_field : Option Text → Text
text_field none = []
text_field (some s) = bytes "," ++ s

unfoldable pub int_field : Option ℤ → Text
unfolding int_to_string
int_field none = []
int_field (some n) = bytes "," ++ int_to_string n

unfoldable pub stats_fields : Option Stat → Text
unfolding int_field
stats_fields none = []
stats_fields (some s) =
    int_field s.numgetreq ++ (int_field s.numsuccgetreq ++ int_field s.numfailgetreq)

unfoldable pub reason_field : RequestType → Option Text → Text
unfolding text_field
reason_field RequestType.get reason = text_field reason
reason_field RequestType.set reason = []
reason_field RequestType.stat reason = []

-- The value, or for a GET without one the reason.
unfoldable pub value_field : RequestType → Payload → Text
unfolding reason_field text_field
value_field type p = elim p.value [
  | some v ↦ text_field (some v)
  | none ↦ reason_field type p.reason
]

-- The line of a result; a response without a request type has none.
unfoldable pub result_line : ResultData → Option Text
unfolding to_string get_req_type value_field stats_fields
result_line r = elim r.payload.requesttype [
  | none ↦ none
  | some type ↦ some (
      to_string r.timestamp
      ++ (bytes ","
          ++ (get_req_type type
              ++ (text_field r.payload.key
                  ++ (value_field type r.payload
                      ++ (stats_fields r.payload.stats ++ bytes "\n"))))))
]

-- The local state of the loop: what is in the file, the batch `data` and `count`.
pub record Output : Type 0 where
  pub file : Text
  pub batch : Text
  pub count : ℕ

unfoldable pub write_line : Text → Output → Output
write_line line o =
    if o.count + 1 == max_line_write
    then record { file = o.file ++ (o.batch ++ line); batch = []; count = 0 }
    else record o { batch = o.batch ++ line; count = o.count + 1 }

unfoldable pub write_result : Option Text → Output → Output
write_result none o = o
write_result (some line) o = write_line line o

unfoldable pub write_lines : List ResultData → Output → Output
write_lines [] o = o
write_lines (r ∷ rs) o = write_lines rs (write_result (result_line r) o)

-- The average over the threads, in 32 bits.
unfoldable pub combine_latency : List Client → ℕ → ℕ
combine_latency [] average = average
combine_latency (c ∷ cs) average =
    combine_latency cs
      (if average == 0 then c.average_latency else (average + c.average_latency) % u32_mod / 2)

unfoldable pub all_results : List Client → List ResultData
all_results [] = []
all_results (c ∷ cs) = c.results ++ all_results cs

unfoldable pub latency_line : ℕ → Text
latency_line average =
    bytes "\n\n    Avergage Latency: " ++ (to_string average ++ bytes " microseconds")

-- What is appended to the results file; `none` if there is no result.
unfoldable pub save_results : List Client → Option Text
save_results pool = elim (all_results pool) [
  | [] ↦ none
  | r ∷ rs ↦
      let o = write_lines (sort (r ∷ rs)) (record { file = []; batch = []; count = 0 }) in
      some (o.file ++ (o.batch ++ latency_line (combine_latency pool 0)))
]
