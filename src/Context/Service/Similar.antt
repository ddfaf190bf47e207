-- ===== src/Context/Service/Similar.antt =====
-- `StaticContextService.lookup_similar_reviews`. The log is given by what reading it returns, and by
-- nothing if there is none.
use mathlib.Core.List.{reverse}
use nitpicker_daemon.Prelude.{
  ℕ, String, Bool, Option, none, some, List, [], ◌∷◌, ◌≡◌, if◌then◌else◌, codes, lower, occurs,
  join, map, splitlines, take, All, Bool,
}
use nitpicker_daemon.Python.Errors.{Result, ok, raised, is_os_error, ◌>>=◌}
use nitpicker_daemon.Python.Json.{Json, str, Dict, get_or, text_of}
use nitpicker_daemon.Context.Log.{
  read_line, as_record, first_matches, matches, at_least_one, first_matches-take,
}

abbrev searched : List String
searched = "request_id" ∷ "summary" ∷ "result_code" ∷ "status" ∷ "state" ∷ []

module _ (loads : String → Result Json) (repr : Json → String) where
  -- `searchable`
  unfoldable pub searchable : Dict → String
  searchable entry = join " " (map (λ k. text_of repr (get_or k (str "") entry)) searched)

  -- `query_lower in searchable`
  abbrev pub is_similar : String → Dict → Bool
  is_similar query entry = occurs (lower (codes query)) (lower (codes (searchable entry)))

  similar_record : String → Option Json → Result (Option Dict)
  similar_record query none = ok none
  similar_record query (some v) = do
    entry ← as_record v
    ok (if is_similar query entry then some entry else none)

  -- the record of a line, if it is similar
  unfoldable pub similar_line : String → String → Result (Option Dict)
  unfolding similar_record
  similar_line query line = read_line loads line >>= λ v. similar_record query v

  similar_in : String → ℕ → Result String → Result (List Dict)
  similar_in query limit (ok text) =
      first_matches (similar_line query) limit (reverse (splitlines text))
  similar_in query limit (raised e) = if is_os_error e.kind then ok [] else raised e

  unfoldable pub lookup_similar_reviews : String → ℕ → Option (Result String) → Result (List Dict)
  unfolding similar_in
  lookup_similar_reviews query limit none = ok []
  lookup_similar_reviews query limit (some file) = similar_in query limit file

  -- If each line of the log is a similar record, another one or no record, without an error, the
  -- lookup returns the first similar records from the end of the log, as many as the limit, but at
  -- least one.
  pub lookup_similar_reviews_lem :
      (query : String) (limit : ℕ) (text : String) (f : String → Option Dict)
      → All (λ line. similar_line query line ≡ ok (f line)) (reverse (splitlines text))
      → lookup_similar_reviews query limit (some (ok text))
        ≡ ok (take (at_least_one limit) (matches f (reverse (splitlines text))))
  unfolding lookup_similar_reviews
  lookup_similar_reviews_lem query limit text f readable =
      first_matches-take (similar_line query) f limit (reverse (splitlines text)) readable
