-- ===== src/Examples/Recalc.antt =====
-- The recalculation of statistics at concrete inputs.
use hamburger_evaluation.Base.{
  ℕ, ◌+◌, ◌*◌, ◌^◌, ◌<◌, ◌≤◌, ◌≡◌, min, Bool, true, none, some, String, List, [], ◌∷◌, length,
  arith, str_eq, if◌then◌else◌,
}
use hamburger_evaluation.Recalc.Backoff.{new_recalc_failure, new_recalc_failure-delay}
use hamburger_evaluation.Recalc.Queue.{RecalcRequest, Row, Queue, request_recalc, complete_recalc}
use hamburger_evaluation.Recalc.Queue.Laws.{
  version_of, IsQueue, request_recalc-renews, version_of-complete_recalc,
}
use hamburger_evaluation.Recalc.System.{State, Work, request_all, working, put}
use hamburger_evaluation.Recalc.System.NoLostUpdate.{start}

new_recalc_failure-delay_example :
    (new_recalc_failure 3 (some (b'x' ∷ [])) 5).next_attempt_at
    ≡ 5 + min (2000000000 * 2 ^ 2) 300000000000
new_recalc_failure-delay_example = new_recalc_failure-delay 2 (some (b'x' ∷ [])) 5

abbrev waiting : Row
waiting = record {
  subject = "b";
  version = 4;
  attempts = 1;
  next_attempt_at = none;
  last_error = none;
}

abbrev queue : Queue
queue = record { rows = waiting ∷ []; seq = 4 }

queue-IsQueue : IsQueue queue
queue-IsQueue = (ground arith, ground arith, tt)

request_recalc-renews_example :
    (v : ℕ) × (4 < v)
    × (v ≤ (request_recalc "b" queue).seq)
    × (version_of "b" (request_recalc "b" queue)
        ≡ (if str_eq "b" "b" then some v else version_of "b" queue))
request_recalc-renews_example = request_recalc-renews "b" "b" queue

version_of-complete_recalc_example : version_of "b" (complete_recalc "b" 3 queue).0 ≡ some 4
version_of-complete_recalc_example = version_of-complete_recalc "b" 3 "b" queue queue-IsQueue

abbrev before : String → String → Bool
before a b = true

-- A history is the number of ratings. One write of a rating for `b`, seen by no worker yet.
abbrev written : State ℕ ℕ ℕ
written = record (start ℕ ℕ ℕ 0) {
  facts = λ c. if str_eq "b" c then 5 ∷ [] else [];
  histories = 1 ∷ 0 ∷ [];
  queue = request_all ("b" ∷ []) (start ℕ ℕ ℕ 0).queue;
}

abbrev count : String → List ℕ → ℕ → ℕ → ℕ
count b fs past now = length fs + past

abbrev request : RecalcRequest
request = record { subject = "b"; version = 1; attempts = 0 }

-- Worker 0 takes the request out, locks the row, reads the rating and commits.
abbrev listed : State ℕ ℕ ℕ
listed = record written { workers = working ℕ ℕ ℕ count before 0 (request ∷ []) Work.idle written }

abbrev holding : State ℕ ℕ ℕ
holding = record listed {
  lock = put "b" (some 0) listed.lock;
  workers = working ℕ ℕ ℕ count before 0 [] (Work.locked request) listed;
}

abbrev reading : State ℕ ℕ ℕ
reading = record holding {
  workers = working ℕ ℕ ℕ count before 0 [] (Work.loaded request (5 ∷ [])) holding;
}

abbrev stored : State ℕ ℕ ℕ
stored = record reading {
  stats = put "b" (some 2) reading.stats;
  queue = (complete_recalc "b" 1 reading.queue).0;
  lock = put "b" none reading.lock;
  workers = working ℕ ℕ ℕ count before 0 [] Work.idle reading;
}
