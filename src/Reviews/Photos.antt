-- ===== src/Reviews/Photos.antt =====
-- Requests that write reviews in flight at the same time: each goes through the parts of `serve` of
-- Reviews/Service (usecase/reviews.go), and the others may go on, fail or be cut off in between.
pub mod Keys
pub mod Invariant
use hamburger_evaluation.Base.{ℕ, ◌≡◌, Bool, false, Option, none, some, String, List, [], ◌∷◌, ℤ}
use hamburger_evaluation.Domain.Errors.{Result, ok, err}
use hamburger_evaluation.Domain.Account.{User}
use hamburger_evaluation.Transaction.{Session}
use hamburger_evaluation.Recalc.System.{set_worker, is_in}
use hamburger_evaluation.Reviews.{Tables, Storage, Run, ReviewDetail}
use hamburger_evaluation.Reviews.Service.{
  Job, creating, editing, deleting, open_create, open_update, open_delete, put_photo, save,
  leftover, delete_photo_best_effort, photo_key,
}

-- What a request asks for, as the arguments of Create, Update and Delete.
pub data Order : Type 0 where
  create_order : User → ℕ → String → String → String → ℤ → String → Option ℕ → Order
  update_order : User → ℕ → String → ℤ → String → Option ℕ → Order
  delete_order : User → String → Order

unfoldable pub open_order : Order → Run Job
open_order (create_order viewer now shop_id burger_id burger_name rating comment visited_at) =
    open_create viewer now shop_id burger_id burger_name rating comment visited_at
open_order (update_order viewer now id rating comment visited_at) =
    open_update viewer now id rating comment visited_at
open_order (delete_order viewer id) = open_delete viewer id

-- Where a request is: before the storage of its photo, before its transaction, before the deletion
-- of the photo that is left over.
pub data Flight : Type 0 where
  idle : Flight
  opened : Job → Option String → Flight
  uploaded : Job → Option String → Flight
  leaving : Option String → Flight

abbrev pub after_open : Option String → Result Job → Flight
after_open upload (ok job) = opened job upload
after_open upload (err e) = idle

abbrev pub after_put : Job → Result (Option String) → Flight
after_put job (ok key) = uploaded job key
after_put job (err e) = idle

-- `issued` are the keys that were drawn.
pub record State : Type 0 where
  pub session : Session Tables Storage
  pub flights : ℕ → Flight
  pub issued : List String

abbrev pub moved : ℕ → Flight → Session Tables Storage → State → State
moved i f s' s = record s { session = s'; flights = set_worker i f s.flights }

abbrev pub issue : Option String → List String → List String
issue none keys = keys
issue (some key) keys = key ∷ keys

abbrev pub IsNew : Option String → List String → Type 0
IsNew none keys = Unit
IsNew (some key) keys = is_in key keys ≡ false

abbrev pub next_key : (ℕ → String) → Option String → ℕ → Option String
next_key random none n = none
next_key random (some ext) n = some (photo_key (random n) ext)

module _ (random new_id : ℕ → String) where
  -- A key that is drawn was not drawn before: it has 128 random bits.
  pub data Step (s : State) : State → Type 0 where
    begin :
        (i : ℕ) (order : Order) (upload : Option String)
        → s.flights i ≡ idle
        → Step s (
            moved i
              (after_open upload (open_order order s.session).0)
              (open_order order s.session).1
              s)
    store :
        (i : ℕ) (job : Job) (upload : Option String)
        → s.flights i ≡ opened job upload
        → IsNew (next_key random upload s.session.outside.drawn) s.issued
        → Step s
            (record (moved i
              (after_put job (put_photo random upload s.session).0)
              (put_photo random upload s.session).1
              s) { issued = issue (next_key random upload s.session.outside.drawn) s.issued })
    write :
        (i : ℕ) (job : Job) (key : Option String)
        → s.flights i ≡ uploaded job key
        → Step s (
            moved i
              (leaving (leftover job key (save new_id job key s.session).0))
              (save new_id job key s.session).1
              s)
    clean :
        (i : ℕ) (key : Option String)
        → s.flights i ≡ leaving key
        → Step s (moved i idle (delete_photo_best_effort key s.session).1 s)
    -- The server stops, or the client's request is cancelled.
    cut_off : (i : ℕ) → Step s (moved i idle s.session s)
    -- Another part of the program writes, and the calls to come are refused in another way.
    other :
        (t : Tables) (faults : List Bool)
        → t.reviews ≡ s.session.tables.reviews
        → Step s (record s { session = record s.session { tables = t; faults = faults } })

  pub data Reach (s : State) : State → Type 0 where
    here : Reach s s
    next : {t u : State} → Reach s t → Step t u → Reach s u
