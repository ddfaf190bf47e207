-- ===== src/Context/Service/Refinement.antt =====
-- What the cache of `StaticContextService` is, seen from outside: a partial map from files to
-- contexts, whatever the order of its entries.
use nitpicker_daemon.Prelude.{
  String, Bool, not, ◌&&◌, Option, none, some, List, [], ◌∷◌, ◌++◌, ◌==◌, ◌≡◌, refl, sym,
  if◌then◌else◌, arith, eq_iff, keep,
}
use nitpicker_daemon.Python.Errors.{Result, ok, raised}
use nitpicker_daemon.Python.Json.{lookup, lookup-insert}
use nitpicker_daemon.Models.{ReviewRequest, ContextBundle}
use nitpicker_daemon.Context.{Tiers, Provider, collect}
use nitpicker_daemon.Context.Service.{
  Cache, ContextService, bundle_of, is_under, register_provider, remember, after_collect,
  from_cache, build_context, invalidate_for_path, invalidate_all,
}

pub data Call (W : Type 0) : Type 0 where
  build : ReviewRequest → Call W
  register : Provider W → Call W
  invalidate : String → Call W
  clear : Call W

-- the abstract memory: the context that is known for a file, if there is one
abbrev pub Known : Type 0
Known = String → Option ContextBundle

lookup-keep :
    (p : String → Bool) (f : String) (cache : Cache)
    → lookup f (keep (λ x. p x.0) cache) ≡ (if p f then lookup f cache else none)
lookup-keep p f [] = ground arith
lookup-keep p f ((j, b) ∷ cache) = ground (arith, lookup-keep p f cache, eq_iff j f)

-- what a service remembers of a file
abbrev pub memory : {W : Type 0} → ContextService W → Known
memory s f = if s.cache_enabled then lookup f s.cache else none

module _ {W : Type 0} (sha256 : String → String) where
  abbrev pub with_answer :
      Result ContextBundle → List (Result ContextBundle) × W → List (Result ContextBundle) × W
  with_answer answer (answers, w) = (answer ∷ answers, w)

  -- the contexts that calls build, one after the other, and the world that they leave
  abbrev pub run : List (Call W) → ContextService W → W → List (Result ContextBundle) × W
  run [] s w = ([], w)
  run (build request ∷ calls) s w =
      let (answer, s', w') = build_context sha256 request s w in
      with_answer answer (run calls s' w')
  run (register p ∷ calls) s w = run calls (register_provider p s) w
  run (invalidate path ∷ calls) s w = run calls (invalidate_for_path path s).1 w
  run (clear ∷ calls) s w = run calls (invalidate_all s).1 w

  abbrev learn : Bool → ReviewRequest → Known → Result Tiers × W → Result ContextBundle × Known × W
  learn remembers request known (ok tiers, w) =
      let bundle : ContextBundle = bundle_of sha256 request tiers in
      (ok bundle, (λ f. if remembers && request.target_file == f then some bundle else known f), w)
  learn remembers request known (raised e, w) = (raised e, known, w)

  -- a context that is known is the answer; another is asked for and known from then on
  abbrev recall :
      Option ContextBundle
      → List (Provider W)
      → Bool
      → ReviewRequest
      → Known
      → W
      → Result ContextBundle × Known × W
  recall (some b) providers remembers request known w = (ok b, known, w)
  recall none providers remembers request known w =
      learn remembers request known (collect providers request w)

  -- the calls on an abstract memory
  abbrev pub run_spec :
      List (Call W) → List (Provider W) → Bool → Known → W → List (Result ContextBundle) × W
  run_spec [] providers remembers known w = ([], w)
  run_spec (build request ∷ calls) providers remembers known w =
      let (answer, known', w') =
        recall (known request.target_file) providers remembers request known w in
      with_answer answer (run_spec calls providers remembers known' w')
  run_spec (register p ∷ calls) providers remembers known w =
      run_spec calls (providers ++ p ∷ []) remembers known w
  run_spec (invalidate path ∷ calls) providers remembers known w =
      run_spec calls providers remembers (λ f. if is_under path f then none else known f) w
  run_spec (clear ∷ calls) providers remembers known w =
      run_spec calls providers remembers (λ f. none) w

  abbrev Agrees : ContextService W → Known → Type 0
  Agrees s known = (f : String) → memory s f ≡ known f

  -- the answers are equal, the memories agree, and the rest of the service is as it was
  abbrev Same :
      ContextService W
      → Result ContextBundle × ContextService W × W
      → Result ContextBundle × Known × W
      → Type 0
  Same s x y =
      (x.0 ≡ y.0)
      × Agrees x.1 y.1
      × (x.2 ≡ y.2)
      × (x.1.providers ≡ s.providers)
      × (x.1.cache_enabled ≡ s.cache_enabled)

  remember-Agrees :
      (key : String) (s : ContextService W) (known : Known) (b : ContextBundle)
      → Agrees s known
      → Agrees (remember key b s) (λ f. if s.cache_enabled && key == f then some b else known f)
  unfolding remember
  remember-Agrees key s known b h f = ground (arith, lookup-insert key f b s.cache, h f)

  after_collect-Same :
      (request : ReviewRequest) (s : ContextService W) (known : Known) (c : Result Tiers × W)
      → Agrees s known
      → Same s (after_collect sha256 request s c) (learn s.cache_enabled request known c)
  unfolding after_collect remember
  after_collect-Same request s known (raised e, w) h = (refl, h, refl, refl, refl)
  after_collect-Same request s known (ok tiers, w) h = (
    refl,
    remember-Agrees request.target_file s known (bundle_of sha256 request tiers) h,
    refl,
    refl,
    refl,
  )

  from_cache-Same :
      (found : Option ContextBundle) (request : ReviewRequest) (s : ContextService W)
      (known : Known) (w : W)
      → Agrees s known
      → Same s
          (from_cache sha256 found request s w)
          (recall found s.providers s.cache_enabled request known w)
  unfolding from_cache
  from_cache-Same (some b) request s known w h = (refl, h, refl, refl, refl)
  from_cache-Same none request s known w h =
      after_collect-Same request s known (collect s.providers request w) h

  next :
      (calls : List (Call W)) (s : ContextService W)
      (x : Result ContextBundle × ContextService W × W) (y : Result ContextBundle × Known × W)
      → Same s x y
      → run calls x.1 x.2 ≡ run_spec calls x.1.providers x.1.cache_enabled y.1 x.2
      → with_answer x.0 (run calls x.1 x.2)
        ≡ with_answer y.0 (run_spec calls s.providers s.cache_enabled y.1 y.2)
  next calls s (a, s', w) (b, known, v) (answer, agrees, world, providers, enabled) rest = cc

  run-Agrees :
      (calls : List (Call W)) (s : ContextService W) (known : Known) (w : W)
      → Agrees s known
      → run calls s w ≡ run_spec calls s.providers s.cache_enabled known w
  unfolding build_context register_provider invalidate_for_path invalidate_all
  run-Agrees [] s known w h = refl
  run-Agrees (build request ∷ calls) s known w h =
      let made = build_context sha256 request s w in
      let recalled =
        recall (memory s request.target_file) s.providers s.cache_enabled request known w in
      let same : Same s made recalled =
        from_cache-Same (memory s request.target_file) request s known w h in
      rw (sym (h request.target_file))
        (next calls s made recalled same (run-Agrees calls made.1 recalled.1 made.2 same.1))
  run-Agrees (register p ∷ calls) s known w h = run-Agrees calls (register_provider p s) known w h
  run-Agrees (invalidate path ∷ calls) s known w h =
      run-Agrees calls (invalidate_for_path path s).1
        (λ f. if is_under path f then none else known f) w
        (λ f. ground (arith, lookup-keep (λ f. not (is_under path f)) f s.cache, h f))
  run-Agrees (clear ∷ calls) s known w h =
      run-Agrees calls (invalidate_all s).1 (λ f. none) w (λ f. ground arith)

  -- Any sequence of calls on the context service builds the contexts, and leaves the world, of the
  -- same calls on an abstract memory: a partial map from files to contexts, in which an
  -- invalidation forgets every file that is the path or stands below it.
  pub run-refines :
      (calls : List (Call W)) (s : ContextService W) (w : W)
      → run calls s w ≡ run_spec calls s.providers s.cache_enabled (memory s) w
  run-refines calls s w = run-Agrees calls s (memory s) w (λ f. refl)
