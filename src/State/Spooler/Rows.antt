-- ===== src/State/Spooler/Rows.antt =====
-- Lookups in the table of requests after an insertion and after an update.
use nitpicker_daemon.Prelude.{
  String, Bool, false, Option, none, some, List, [], ◌∷◌, ◌++◌, ◌==◌, ◌≡◌, refl, if◌then◌else◌, any,
  is_some, eq_iff, arith,
}
use nitpicker_daemon.Models.{ReviewState}
use nitpicker_daemon.State.Spooler.{Row, first, has_id, update, conflicts}

abbrev pub row_or : Option Row → Option Row → Option Row
row_or (some r) o = some r
row_or none o = o

pub first-append :
    (p : Row → Bool) (xs ys : List Row) → first p (xs ++ ys) ≡ row_or (first p xs) (first p ys)
first-append p [] ys = refl
first-append p (x ∷ xs) ys = ground (arith, first-append p xs ys)

pub first-none_of_any : (p : Row → Bool) (xs : List Row) → any p xs ≡ false → first p xs ≡ none
first-none_of_any p [] h = refl
first-none_of_any p (x ∷ xs) h = ground (arith, first-none_of_any p xs)

pub any-is_some-first : (p : Row → Bool) (xs : List Row) → any p xs ≡ is_some (first p xs)
any-is_some-first p [] = refl
any-is_some-first p (x ∷ xs) = ground (arith, any-is_some-first p xs)

-- what an update by identifier does to a row that was found
abbrev pub with_state : ReviewState → Option Row → Option Row
with_state st none = none
with_state st (some r) = some (record r { state = st })

pub first-update :
    (id j : String) (st : ReviewState) (rows : List Row)
    → first (has_id j) (update (has_id id) st rows)
      ≡ (if id == j then with_state st (first (has_id j) rows) else first (has_id j) rows)
unfolding update
first-update id j st [] = ground arith
first-update id j st (r ∷ rs) = ground (
  arith,
  first-update id j st rs,
  eq_iff id j,
  eq_iff r.request.request_id id,
  eq_iff r.request.request_id j,
)

pub first-has_id :
    (id : String) (rows : List Row) (r : Row)
    → first (has_id id) rows ≡ some r
    → r.request.request_id ≡ id
first-has_id id [] r h = ground arith
first-has_id id (x ∷ xs) r h = ground (arith, first-has_id id xs r, eq_iff x.request.request_id id)

pub conflicts-id :
    (request : _) (rows : List Row)
    → conflicts request rows ≡ false
    → any (has_id request.request_id) rows ≡ false
unfolding conflicts
conflicts-id request [] h = refl
conflicts-id request (r ∷ rs) h = ground (arith, conflicts-id request rs)
